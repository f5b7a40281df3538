-- ===== src/IngestBlocker/Runs.antt =====
-- Sequences of reports and calls, around the thresholds and after a forced block.
use mctrader_data.Prelude.{
  ◌-◌, ◌≤◌, ◌<◌, ◌≡◌, refl, ap, ◌∙◌, inl, inr, Bool, true, false, List, [], ◌∷◌, arith, All,
  Bool-cases,
}
use mctrader_data.IngestBlocker.{
  Layer, Report, IngestBlocker, max_ratio, is_state_blocked, should_block, on_capacity_warn,
  on_capacity_critical, emit_blocked, is_blocked,
}
use mctrader_data.IngestBlocker.Decides.{Blocks, should_block-Decides, state_blocked}

-- The answers to reports that come one after the other.
pub answers : List Report → IngestBlocker → List Bool
answers [] b = []
answers (r ∷ rs) b = (should_block r b).0 ∷ answers rs (should_block r b).1

pub checks : List Report → IngestBlocker → IngestBlocker
checks [] b = b
checks (r ∷ rs) b = checks rs (should_block r b).1

Blocks-held :
    (r : Report) (b : IngestBlocker)
    → is_blocked b ≡ true
    → b.thresholds.critical_ratio - b.hysteresis_gap ≤ max_ratio r
    → Blocks r b
unfolding Blocks is_blocked
Blocks-held r b held high = elim (Bool-cases b.force_blocked) [
  | inl forced ↦ inl forced
  | inr free ↦ inr (inr (state_blocked b.state (ground arith), high))
]

not_Blocks_open :
    (r : Report) (b : IngestBlocker)
    → is_blocked b ≡ false
    → max_ratio r < b.thresholds.critical_ratio
    → ¬ Blocks r b
unfolding Blocks is_blocked is_state_blocked
not_Blocks_open r b free low (inl forced) = ground arith
not_Blocks_open r b free low (inr (inl above)) = ground arith
not_Blocks_open r b free low (inr (inr (held, gap))) = ground (arith, ap is_state_blocked held)

not_true : (b : Bool) → ¬ (b ≡ true) → b ≡ false
not_true true h = absurd (h refl)
not_true false h = refl

-- Once a report has blocked ingest, it stays blocked as long as some layer of every later report
-- is at the release ratio, the critical one less the gap.
pub answers-held :
    (rs : List Report) (b : IngestBlocker)
    → is_blocked b ≡ true
    → All (λ r. b.thresholds.critical_ratio - b.hysteresis_gap ≤ max_ratio r) rs
    → All (λ answer. answer ≡ true) (answers rs b)
unfolding answers
answers-held [] b held high = tt
answers-held (r ∷ rs) b held high =
    let d = should_block-Decides r b in
    let blocks = d.blocked_if (Blocks-held r b held high.0) in
    (
      blocks,
      answers-held rs (should_block r b).1 (d.blocked_after ∙ blocks)
          (rw (d.thresholds_same, d.gap_same) high.1),
    )

-- While ingest is not blocked, it stays so as long as every layer of every later report is below
-- the critical ratio.
pub answers-open :
    (rs : List Report) (b : IngestBlocker)
    → is_blocked b ≡ false
    → All (λ r. max_ratio r < b.thresholds.critical_ratio) rs
    → All (λ answer. answer ≡ false) (answers rs b)
unfolding answers
answers-open [] b free low = tt
answers-open (r ∷ rs) b free low =
    let d = should_block-Decides r b in
    let opens = not_true _ (λ h. not_Blocks_open r b free low.0 (d.blocks h)) in
    (
      opens,
      answers-open rs (should_block r b).1 (d.blocked_after ∙ opens) (rw d.thresholds_same low.1),
    )

-- The calls that other components make.
pub data Call : Type 0 where
  check : Report → Call
  warn : Call
  critical : Layer → Call

pub perform : Call → IngestBlocker → IngestBlocker
perform (check r) b = (should_block r b).1
perform warn b = on_capacity_warn b
perform (critical layer) b = on_capacity_critical layer b

pub perform_all : List Call → IngestBlocker → IngestBlocker
perform_all [] b = b
perform_all (c ∷ cs) b = perform_all cs (perform c b)

force-perform :
    (c : Call) (b : IngestBlocker) → b.force_blocked ≡ true → (perform c b).force_blocked ≡ true
unfolding perform on_capacity_warn on_capacity_critical emit_blocked
force-perform (check r) b h = (should_block-Decides r b).force_same ∙ h
force-perform warn b h = ground arith
force-perform (critical layer) b h = refl

force-perform_all :
    (cs : List Call) (b : IngestBlocker)
    → b.force_blocked ≡ true
    → (perform_all cs b).force_blocked ≡ true
unfolding perform_all
force-perform_all [] b h = h
force-perform_all (c ∷ cs) b h = force-perform_all cs (perform c b) (force-perform c b h)

-- After `on_capacity_critical`, whatever calls follow and however low the ratios fall, every report
-- is answered by a block: no operation takes the force back.
pub forced_for_ever :
    (layer : Layer) (cs : List Call) (r : Report) (b : IngestBlocker)
    → (should_block r (perform_all cs (on_capacity_critical layer b))).0 ≡ true
unfolding on_capacity_critical emit_blocked Blocks
forced_for_ever layer cs r b =
    (should_block-Decides r _).blocked_if
      (inl (force-perform_all cs (on_capacity_critical layer b) refl))
