-- ===== src/DrMode/Moves.antt =====
-- The moves of the state machine.
use mctrader_data.Prelude.{
  ℕ, ◌-◌, ◌≡◌, refl, ◌⊎◌, inl, inr, true, ◌&&◌, arith, leb, Bool-cases, Option-cases,
}
use mctrader_data.DrMode.{
  DrState, closed, opened, half_open, unknown_tier, DrMode, same_state, enter, transition,
  try_half_open, current_state, add_sample, record_success, prune, check_window, check_thresholds,
  record_failure,
}

-- The moves that the code makes by itself.
pub data Move : DrState → DrState → Type 0 where
  stays : {s : DrState} → Move s s
  trips : Move closed opened
  probes : Move opened half_open
  heals : Move half_open closed
  fails_again : Move half_open opened

-- What the readers call, each at its time.
pub data Event : Type 0 where
  asks : ℕ → Event
  succeeds : ℕ → Event
  fails : ℕ → ℕ → ℕ → Event

pub react : Event → DrMode → DrMode
react (asks now) m = (current_state now m).1
react (succeeds now) m = record_success now m
react (fails now status latency) m = record_failure now status latency m

pub same_state_iff : (s t : DrState) → same_state s t ≡ true → s ≡ t
unfolding same_state
same_state_iff closed closed h = refl
same_state_iff closed opened h = absurd (ground arith)
same_state_iff closed half_open h = absurd (ground arith)
same_state_iff closed unknown_tier h = absurd (ground arith)
same_state_iff opened closed h = absurd (ground arith)
same_state_iff opened opened h = refl
same_state_iff opened half_open h = absurd (ground arith)
same_state_iff opened unknown_tier h = absurd (ground arith)
same_state_iff half_open closed h = absurd (ground arith)
same_state_iff half_open opened h = absurd (ground arith)
same_state_iff half_open half_open h = refl
same_state_iff half_open unknown_tier h = absurd (ground arith)
same_state_iff unknown_tier closed h = absurd (ground arith)
same_state_iff unknown_tier opened h = absurd (ground arith)
same_state_iff unknown_tier half_open h = absurd (ground arith)
same_state_iff unknown_tier unknown_tier h = refl

pub same_state_refl : (s : DrState) → same_state s s ≡ true
unfolding same_state
same_state_refl closed = refl
same_state_refl opened = refl
same_state_refl half_open = refl
same_state_refl unknown_tier = refl

state-enter : (now : ℕ) (s : DrState) (m : DrMode) → (enter now s m).state ≡ m.state
unfolding enter
state-enter now closed m = refl
state-enter now opened m = refl
state-enter now half_open m = refl
state-enter now unknown_tier m = refl

pub state-transition : (now : ℕ) (s : DrState) (m : DrMode) → (transition now s m).state ≡ s
unfolding transition
state-transition now s m = elim (Bool-cases (same_state m.state s)) [
  | inl same ↦ rw same (same_state_iff m.state s same)
  | inr other ↦ rw other (state-enter now s _)
]

-- A check of the thresholds trips or leaves the state.
state-check_thresholds :
    (now : ℕ) (m : DrMode)
    → ((check_thresholds now m).state ≡ opened) ⊎ ((check_thresholds now m).state ≡ m.state)
unfolding check_thresholds check_window
state-check_thresholds now m = ground (
  arith,
  state-transition now opened m,
  state-transition now opened
      (record m { window = prune now m.thresholds.sliding_window m.window }),
)

Move-by : {a b c d : DrState} → a ≡ c → b ≡ d → Move c d → Move a b
Move-by p q h = rw (p, q) h

-- A question, a success or a failure, at any time, leaves the state or moves it from closed to
-- open, from open to half open, or from half open to closed or open.
pub react-Move : (e : Event) (m : DrMode) → Move m.state (react e m).state
unfolding react current_state try_half_open record_success record_failure add_sample
react-Move (asks now) m = elim (Option-cases m.open_started_at) [
  | inl never ↦ rw (never, try_half_open) stays
  | inr (started, since) ↦
      elim (Bool-cases
        (same_state m.state opened && leb m.thresholds.half_open_delay (now - started))) [
          | inl due ↦
              rw (since, try_half_open, due)
                (Move-by (same_state_iff m.state opened (ground arith))
                  (state-transition now half_open m) probes)
          | inr early ↦ rw (since, try_half_open, early) stays
        ]
]
react-Move (succeeds now) m = elim (Bool-cases (same_state m.state half_open)) [
  | inl probing ↦
      rw probing
        (Move-by (same_state_iff m.state half_open probing) (state-transition now closed _) heals)
  | inr other ↦ rw other stays
]
react-Move (fails now status latency) m = elim (Bool-cases (same_state m.state half_open)) [
  | inl probing ↦ rw probing (
      Move-by (same_state_iff m.state half_open probing) (state-transition now opened _)
        fails_again)
  | inr other ↦ elim (Bool-cases (same_state m.state closed)) [
    | inl running ↦
        rw (other, running)
          (elim (state-check_thresholds now _) [
            | inl tripped ↦ Move-by (same_state_iff m.state closed running) tripped trips
            | inr same ↦ Move-by refl same stays
          ])
    | inr open_now ↦ rw (other, open_now) stays
  ]
]
