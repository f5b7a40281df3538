-- ===== src/CompactionBarrier/Drain.antt =====
-- The loop of drain_and_block: that it ends, and where.
use mctrader_data.Prelude.{
  ap, ◌∙◌, ◌≢◌, Bool, ℕ, zero, suc, ◌+◌, ◌≤◌, ◌<◌, ◌≡◌, ◌⊎◌, refl, inl, inr, true, false, Option,
  none, some, ◌==◌, leb, arith, subst, Bool-cases,
}
use mctrader_data.Prelude.Integers.{ℤ, pos, is_zero, is_zero-pos, is_zero-nonzero}
use mctrader_data.CompactionBarrier.{
  StateFile, barrier_ok, drain_timeout, Barrier, read_in_flight_count, Poll, finished, poll_raised,
  sleeps, poll, Drained, drained, drain_raised, drain_loop, drain_and_block,
}

module _ (state : ℕ → StateFile) (clock : ℕ → ℕ) where
  -- A poll that went on: the count is not zero and the deadline is ahead.
  abbrev pub Waits : ℕ → ℕ → Type 0
  Waits deadline n =
      (k : ℤ) × (read_in_flight_count (state n) ≡ some k) × (k ≢ pos 0) × (clock n < deadline)

  -- The poll at which a call ends, by what it returns or raises.
  abbrev pub EndsAt : ℕ → ℕ → Drained → Type 0
  EndsAt deadline n (drained r) =
      ((r ≡ record { status = barrier_ok; in_flight_remaining = pos 0 })
        × (read_in_flight_count (state n) ≡ some (pos 0)))
      ⊎ ((k : ℤ) × (r ≡ record { status = drain_timeout; in_flight_remaining = k })
          × (read_in_flight_count (state n) ≡ some k)
          × (k ≢ pos 0)
          × (deadline ≤ clock n))
  EndsAt deadline n drain_raised = read_in_flight_count (state n) ≡ none

  abbrev Polls : ℕ → ℕ → Poll → Type 0
  Polls deadline n (finished r) = EndsAt deadline n (drained r)
  Polls deadline n poll_raised = EndsAt deadline n drain_raised
  Polls deadline n sleeps = Waits deadline n

  poll-Polls :
      (deadline n : ℕ) (c : Option ℤ)
      → read_in_flight_count (state n) ≡ c
      → Polls deadline n (poll deadline c (clock n))
  unfolding poll
  poll-Polls deadline n none e = e
  poll-Polls deadline n (some k) e = elim (Bool-cases (is_zero k)) [
    | inl none_left ↦ rw (none_left, poll) (inl (refl, e ∙ ap some (is_zero-pos k none_left)))
    | inr busy ↦
        let some_left : k ≢ pos 0 = is_zero-nonzero k busy in
        elim (Bool-cases (leb deadline (clock n))) [
          | inl over ↦ rw (busy, over, poll) (inr (k, refl, e, some_left, ground arith))
          | inr ahead ↦ rw (busy, ahead, poll) (k, e, some_left, ground arith)
        ]
  ]

  -- A loop that starts at poll `n` has ended, at a poll before which each one waited.
  abbrev pub Ends : ℕ → ℕ → Option Drained → Type 0
  Ends deadline n o =
      (d : Drained) × (m : ℕ) × (o ≡ some d)
      × (n ≤ m)
      × EndsAt deadline m d
      × ((j : ℕ) → n ≤ j → j < m → Waits deadline j)

  EndsAt-once : (deadline n : ℕ) (d : Drained) → EndsAt deadline n d → Ends deadline n (some d)
  EndsAt-once deadline n d h = (d, n, refl, omega arith, h, λ j a b. absurd (omega arith))

  Ends-later :
      (deadline n : ℕ) (o : Option Drained)
      → Waits deadline n
      → Ends deadline (n + 1) o
      → Ends deadline n o
  Ends-later deadline n o wait (d, m, e, le, at, before) = (
    d,
    m,
    e,
    omega arith,
    at,
    λ j a b. elim (Bool-cases (j == n)) [
      | inl here ↦ let same : n ≡ j = ground arith in subst (Waits deadline) same wait
      | inr later ↦ before j (ground arith) b
    ],
  )

  Polls-Ends :
      (deadline n : ℕ) (p : Poll) (rest : Option Drained)
      → Polls deadline n p
      → (Waits deadline n → Ends deadline (n + 1) rest)
      → Ends deadline n (elim p [
        | finished r ↦ some (drained r)
        | poll_raised ↦ some drain_raised
        | sleeps ↦ rest
      ])
  Polls-Ends deadline n (finished r) rest h k = EndsAt-once deadline n (drained r) h
  Polls-Ends deadline n poll_raised rest h k = EndsAt-once deadline n drain_raised h
  Polls-Ends deadline n sleeps rest h k = Ends-later deadline n rest h (k h)

  module _ (passes : (n : ℕ) → clock n < clock (n + 1)) where
    drain_loop-Ends :
        (deadline fuel n : ℕ)
        → deadline ≤ clock n + fuel
        → Ends deadline n (drain_loop state clock deadline (suc fuel) n)
    unfolding drain_loop
    drain_loop-Ends deadline zero n h =
        Polls-Ends deadline n (poll deadline (read_in_flight_count (state n)) (clock n)) _
          (poll-Polls deadline n (read_in_flight_count (state n)) refl)
          (λ wait. absurd (let late : clock n < deadline = wait.3 in omega arith))
    drain_loop-Ends deadline (suc fuel) n h =
        Polls-Ends deadline n (poll deadline (read_in_flight_count (state n)) (clock n)) _
          (poll-Polls deadline n (read_in_flight_count (state n)) refl)
          (λ wait. drain_loop-Ends deadline fuel (n + 1) (omega (arith, passes n)))

    -- What a call does, by whether the signal can be written.
    abbrev pub Drains : Bool → ℕ → Barrier → Option Drained × Barrier → Type 0
    Drains false start b run = run ≡ (some drain_raised, b)
    Drains true start b run =
        Ends (start + b.drain_timeout_seconds) 0 run.0 × (run.1 ≡ record b { signal = true })

    -- With a clock that goes on between two polls, since there is a sleep between them, and with fuel
    -- for one poll more than the units of the timeout: drain_and_block ends. When the signal cannot be
    -- written it raises and changes nothing. Otherwise the signal is there from then on, however the
    -- call ends, after a timeout too; and it ends at the first poll that finds the count zero,
    -- with "ok", that cannot read the count, with the exception, or that is not before the deadline,
    -- with "drain_timeout" and the count. At each poll before it the count was not zero, but
    -- positive or negative, and the deadline was ahead.
    pub drain_and_block-Ends :
        (emitted : Bool) (start : ℕ) (b : Barrier)
        → start ≤ clock 0
        → Drains emitted start b
            (drain_and_block state clock (suc b.drain_timeout_seconds) emitted start b)
    unfolding drain_and_block
    drain_and_block-Ends false start b h = refl
    drain_and_block-Ends true start b h = (
      drain_loop-Ends (start + b.drain_timeout_seconds) b.drain_timeout_seconds 0 (omega arith),
      refl,
    )
