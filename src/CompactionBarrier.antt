-- ===== src/CompactionBarrier.antt =====
-- src/mctrader_data/nas_storage/compaction_barrier.py: CompactionBarrier. What the state file says at
-- each poll, and the clock at the test of the deadline, are parameters, by the number of the poll; so
-- is whether the signal file can be written and unlinked. The waits that are reported are left out.
mod Drain
mod Tests
use mctrader_data.Prelude.{
  ℕ, zero, suc, ◌+◌, Bool, true, false, ◌||◌, not, Option, none, some, ◌==◌, ltb, leb,
  if◌then◌else◌,
}
use mctrader_data.Prelude.Integers.{ℤ, pos, is_zero, is_positive}

-- compaction_state.json: not there, a text that is not understood, a count, or an error that is not
-- caught.
pub data StateFile : Type 0 where
  absent unparsable read_error : StateFile
  counts : ℤ → StateFile

pub data BarrierStatus : Type 0 where
  barrier_ok drain_timeout barrier_violated : BarrierStatus

pub record BarrierResult : Type 0 where
  pub status : BarrierStatus
  pub in_flight_remaining : ℤ

-- Whether the signal file is there.
pub record Barrier : Type 0 where
  pub drain_timeout_seconds : ℕ
  pub signal : Bool

-- `none` is an exception that goes on.
pub read_in_flight_count : StateFile → Option ℤ
read_in_flight_count absent = some (pos 0)
read_in_flight_count unparsable = some (pos 0)
read_in_flight_count read_error = none
read_in_flight_count (counts n) = some n

-- A poll: a result, an exception, or another poll after a sleep.
pub data Poll : Type 0 where
  finished : BarrierResult → Poll
  poll_raised : Poll
  sleeps : Poll

pub poll : ℕ → Option ℤ → ℕ → Poll
poll deadline none now = poll_raised
poll deadline (some in_flight) now =
    if is_zero in_flight
    then finished (record { status = barrier_ok; in_flight_remaining = pos 0 })
    else if leb deadline now
    then finished (record { status = drain_timeout; in_flight_remaining = in_flight })
    else sleeps

-- What a call returns or raises.
pub data Drained : Type 0 where
  drained : BarrierResult → Drained
  drain_raised : Drained

module _ (state : ℕ → StateFile) (clock : ℕ → ℕ) where
  -- The loop, from the poll with this number; `none` when the fuel is spent.
  pub drain_loop : ℕ → ℕ → ℕ → Option Drained
  drain_loop deadline zero n = none
  drain_loop deadline (suc fuel) n =
      let rest = drain_loop deadline fuel (n + 1) in
      elim (poll deadline (read_in_flight_count (state n)) (clock n)) [
        | finished r ↦ some (drained r)
        | poll_raised ↦ some drain_raised
        | sleeps ↦ rest
      ]

  -- At the time `start`. The signal cannot be written: the exception goes on.
  pub drain_and_block : ℕ → Bool → ℕ → Barrier → Option Drained × Barrier
  drain_and_block fuel emitted start b =
      if emitted
      then (drain_loop (start + b.drain_timeout_seconds) fuel 0, record b { signal = true })
      else (some drain_raised, b)

pub release : Bool → Barrier → Barrier
release unlinks b = if unlinks then record b { signal = false } else b

pub verify_count : Bool → Option ℤ → Option BarrierResult
verify_count signal none = none
verify_count signal (some in_flight) =
    if not signal || is_positive in_flight
    then some (record { status = barrier_violated; in_flight_remaining = in_flight })
    else some (record { status = barrier_ok; in_flight_remaining = pos 0 })

pub verify_barrier_intact : StateFile → Barrier → Option BarrierResult
verify_barrier_intact file b = verify_count b.signal (read_in_flight_count file)
