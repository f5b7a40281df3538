-- ===== src/CompactionBarrier/Tests.antt =====
-- Three compactions in flight that end one by one, and a clock of one unit for each poll.
use mctrader_data.Prelude.{ℕ, ◌+◌, ◌-◌, ◌≡◌, refl, true, false, none, some, arith}
use mctrader_data.Prelude.Integers.{pos, negsuc, is_zero, is_positive}
use mctrader_data.CompactionBarrier.{
  StateFile, absent, unparsable, read_error, counts, barrier_ok, drain_timeout, barrier_violated,
  Barrier, read_in_flight_count, poll, drained, drain_raised, drain_loop, drain_and_block, release,
  verify_count, verify_barrier_intact,
}
use mctrader_data.CompactionBarrier.Drain.{Drains, drain_and_block-Ends}

abbrev files : ℕ → StateFile
files n = counts (pos (3 - n))

abbrev clock : ℕ → ℕ
clock n = 100 + n

abbrev barrier : ℕ → Barrier
barrier timeout = record { drain_timeout_seconds = timeout; signal = false }

drain_and_block-Ends_example :
    Drains files clock
      (λ n. omega arith)
      true
      100
      (barrier 2)
      (drain_and_block files clock 3 true 100 (barrier 2))
drain_and_block-Ends_example =
    drain_and_block-Ends files clock (λ n. omega arith) true 100 (barrier 2) (omega arith)

-- A drain in time, one that times out and leaves the signal, a signal that cannot be written; and the
-- check of the barrier.
scenario :
    ((drain_and_block files clock 11 true 100 (barrier 10)).0
      ≡ some (drained (record { status = barrier_ok; in_flight_remaining = pos 0 })))
    × (drain_and_block files clock 3 true 100 (barrier 2) ≡ (
      some (drained (record { status = drain_timeout; in_flight_remaining = pos 1 })),
      record { drain_timeout_seconds = 2; signal = true },
    ))
    × (drain_and_block files clock 3 false 100 (barrier 2) ≡ (some drain_raised, barrier 2))
    × ((drain_and_block (λ n. read_error) clock 3 true 100 (barrier 2)).0 ≡ some drain_raised)
    × (verify_barrier_intact unparsable (record { drain_timeout_seconds = 2; signal = true })
        ≡ some (record { status = barrier_ok; in_flight_remaining = pos 0 }))
    × (verify_barrier_intact absent
          (release true (record { drain_timeout_seconds = 2; signal = true }))
        ≡ some (record { status = barrier_violated; in_flight_remaining = pos 0 }))
    × ((drain_and_block (λ n. counts (negsuc 0)) clock 3 true 100 (barrier 2)).0
        ≡ some (drained (record { status = drain_timeout; in_flight_remaining = negsuc 0 })))
    × (verify_barrier_intact read_error (barrier 2) ≡ none)
unfolding drain_and_block drain_loop poll read_in_flight_count verify_barrier_intact verify_count
    release is_zero is_positive
scenario = (refl, refl, refl, refl, refl, refl, refl, refl)
