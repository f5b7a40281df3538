-- ===== src/DrMode/Recovery.antt =====
-- Runs of failures, and the way back from an open breaker.
use mctrader_data.Prelude.{
  ℕ, ◌+◌, ◌-◌, ◌≤◌, ◌<◌, ◌≡◌, refl, ap, ◌∙◌, ◌⊎◌, inl, inr, true, false, ◌&&◌, none, some, List, [],
  ◌∷◌, arith, leb, Bool-cases, length,
}
use mctrader_data.Prelude.Sort.{count}
use mctrader_data.DrMode.{
  closed, opened, half_open, DrMode, same_state, enter, transition, try_half_open, current_state,
  add_sample, record_success, prune, is_server_error, is_slow, check_window, check_thresholds,
  record_failure,
}
use mctrader_data.DrMode.Moves.{state-transition}

-- A run of failures, each at its time with its status and latency.
pub fail_all : List (ℕ × (ℕ × ℕ)) → DrMode → DrMode
fail_all [] m = m
fail_all ((now, (status, latency)) ∷ rest) m = fail_all rest (record_failure now status latency m)

fails_when_opened :
    (now status latency : ℕ) (m : DrMode)
    → m.state ≡ opened
    → (record_failure now status latency m).state ≡ opened
unfolding record_failure add_sample same_state
fails_when_opened now status latency m h =
    let not_half : same_state m.state half_open ≡ false = rw h refl in
    let not_closed : same_state m.state closed ≡ false = rw h refl in rw (not_half, not_closed) h

fail_all_when_opened :
    (fs : List (ℕ × (ℕ × ℕ))) (m : DrMode) → m.state ≡ opened → (fail_all fs m).state ≡ opened
unfolding fail_all
fail_all_when_opened [] m h = h
fail_all_when_opened ((now, (status, latency)) ∷ rest) m h =
    fail_all_when_opened rest _ (fails_when_opened now status latency m h)

-- One failure of a closed breaker: it trips, or it is one failure nearer.
Nearer : DrMode → DrMode → Type 0
Nearer m m' =
    (m'.state ≡ opened)
    ⊎ ((m'.state ≡ closed)
        × (m'.consecutive_failure ≡ m.consecutive_failure + 1)
        × (m'.thresholds ≡ m.thresholds)
        × (m.consecutive_failure + 1 < m.thresholds.consecutive_failure))

check_window_cases :
    (now : ℕ) (m : DrMode) → ((check_window now m).state ≡ opened) ⊎ (check_window now m ≡ m)
unfolding check_window
check_window_cases now m =
    elim (Bool-cases (leb m.thresholds.error_count (count is_server_error m.window))) [
      | inl errors ↦ inl (rw errors (state-transition now opened m))
      | inr few ↦
          elim (Bool-cases
            (leb m.thresholds.latency_count (count (is_slow m.thresholds.latency_p99) m.window))) [
              | inl slow ↦ inl (rw (few, slow) (state-transition now opened m))
              | inr quick ↦ inr (rw (few, quick) refl)
            ]
    ]

-- The failures are counted already.
check_thresholds_cases :
    (now : ℕ) (m : DrMode)
    → m.state ≡ closed
    → ((check_thresholds now m).state ≡ opened)
      ⊎ (((check_thresholds now m).state ≡ closed)
          × ((check_thresholds now m).consecutive_failure ≡ m.consecutive_failure)
          × ((check_thresholds now m).thresholds ≡ m.thresholds)
          × (m.consecutive_failure < m.thresholds.consecutive_failure))
unfolding check_thresholds
check_thresholds_cases now m h =
    elim (Bool-cases (leb m.thresholds.consecutive_failure m.consecutive_failure)) [
      | inl reached ↦ inl (rw reached (state-transition now opened m))
      | inr below ↦
          rw below
            (elim (check_window_cases now
              (record m { window = prune now m.thresholds.sliding_window m.window })) [
                | inl tripped ↦ inl tripped
                | inr same ↦ inr (
                  ap (λ x. x.state) same ∙ h,
                  ap (λ x. x.consecutive_failure) same,
                  ap (λ x. x.thresholds) same,
                  ground arith,
                )
              ])
    ]

fails_when_closed :
    (now status latency : ℕ) (m : DrMode)
    → m.state ≡ closed
    → Nearer m (record_failure now status latency m)
unfolding Nearer record_failure add_sample same_state
fails_when_closed now status latency m h =
    let not_half : same_state m.state half_open ≡ false = rw h refl in
    let is_closed : same_state m.state closed ≡ true = rw h refl in
    rw (not_half, is_closed) (check_thresholds_cases now _ h)

-- From a closed breaker, a run of failures, whatever their times, statuses and latencies, opens it
-- as soon as the run and the failures before it reach the threshold.
pub fail_all-opens :
    (fs : List (ℕ × (ℕ × ℕ))) (m : DrMode)
    → m.state ≡ closed
    → 0 < length fs
    → m.thresholds.consecutive_failure ≤ m.consecutive_failure + length fs
    → (fail_all fs m).state ≡ opened
unfolding fail_all Nearer
fail_all-opens [] m h some_run enough = absurd (omega arith)
fail_all-opens ((now, (status, latency)) ∷ rest) m h some_run enough =
    elim (fails_when_closed now status latency m h) [
      | inl tripped ↦ fail_all_when_opened rest _ tripped
      | inr (still, counted, same, below) ↦
          fail_all-opens rest _ still (omega (arith)) (rw (counted, same) (omega arith))
    ]

half_open_when_due :
    (started now : ℕ) (m : DrMode)
    → m.state ≡ opened
    → m.open_started_at ≡ some started
    → started + m.thresholds.half_open_delay ≤ now
    → (try_half_open now m).state ≡ half_open
unfolding try_half_open same_state
half_open_when_due started now m h since due =
    let long : (same_state m.state opened && leb m.thresholds.half_open_delay (now - started))
        ≡ true =
      rw h (ground arith) in
    rw (since, try_half_open, long) (state-transition now half_open m)

closes :
    (later : ℕ) (m : DrMode)
    → m.state ≡ half_open
    → ((record_success later m).state ≡ closed)
      × ((record_success later m).consecutive_failure ≡ 0)
      × ((record_success later m).open_started_at ≡ none)
unfolding record_success transition enter add_sample same_state
closes later m h =
    let is_half : same_state m.state half_open ≡ true = rw h refl in
    let not_closed : same_state m.state closed ≡ false = rw h refl in
    rw (is_half, not_closed) (refl, refl, refl)

-- An open breaker that is asked once its delay has passed is half open, and a success after that
-- closes it, with no failures counted and no time kept.
pub recovers :
    (started now later : ℕ) (m : DrMode)
    → m.state ≡ opened
    → m.open_started_at ≡ some started
    → started + m.thresholds.half_open_delay ≤ now
    → ((current_state now m).0 ≡ half_open)
      × ((record_success later (current_state now m).1).state ≡ closed)
      × ((record_success later (current_state now m).1).consecutive_failure ≡ 0)
      × ((record_success later (current_state now m).1).open_started_at ≡ none)
unfolding current_state
recovers started now later m h since due =
    let asked = half_open_when_due started now m h since due in
    let after = closes later (try_half_open now m) asked in (asked, after.0, after.1, after.2)
