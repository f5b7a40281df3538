-- ===== src/IngestBlocker/Decides.antt =====
-- What one evaluation decides, and the state that it leaves.
use mctrader_data.Prelude.{
  ℕ, ◌-◌, ◌≤◌, ◌<◌, ◌≡◌, refl, ap, ◌⊎◌, inl, inr, Bool, true, false, ◌&&◌, List, [], ◌∷◌, arith,
  leb, if◌then◌else◌, Bool-cases, List-cases, All,
}
use mctrader_data.IngestBlocker.{
  BlockerState, normal, warn_drain, blocked, Layer, Report, IngestBlocker, layer_ratios, max_ratio,
  layers_from, emit_blocked, emit_all, is_state_blocked, evaluate_below, evaluate_ratios,
  should_block, is_blocked,
}

All-below : (t : ℕ) (l : List (Layer × ℕ)) → All (λ x. x.1 < t) l → layers_from t l ≡ []
unfolding layers_from
All-below t [] h = refl
All-below t ((layer, r) ∷ l) h = ground (arith, All-below t l h.1)

below-All : (t : ℕ) (l : List (Layer × ℕ)) → layers_from t l ≡ [] → All (λ x. x.1 < t) l
unfolding layers_from
below-All t [] h = tt
below-All t ((layer, r) ∷ l) h = elim (Bool-cases (leb t r)) [
  | inl above ↦ absurd (ground arith)
  | inr below ↦ (ground arith, below-All t l (ground arith))
]

-- The critical layers are none as soon as the largest ratio is below, and some otherwise.
none_above : (t : ℕ) (r : Report) → max_ratio r < t → layers_from t (layer_ratios r) ≡ []
unfolding layer_ratios max_ratio
none_above t r h =
    All-below t (layer_ratios r) (omega arith, (omega arith, (omega arith, (omega arith, tt))))

some_above :
    (t : ℕ) (r : Report)
    → t ≤ max_ratio r
    → (l : Layer) × (ls : List Layer) × (layers_from t (layer_ratios r) ≡ l ∷ ls)
unfolding layer_ratios max_ratio
some_above t r h = elim (List-cases (layers_from t (layer_ratios r))) [
  | inl none ↦
      let below = below-All t (layer_ratios r) none in
      absurd (omega (arith, below.0, below.1.0, below.1.1.0, below.1.1.1.0))
  | inr found ↦ found
]

-- Emitting touches the counter alone.
abbrev Same : IngestBlocker → IngestBlocker → Type 0
Same b b' =
    (b'.state ≡ b.state)
    × (b'.force_blocked ≡ b.force_blocked)
    × (b'.thresholds ≡ b.thresholds)
    × (b'.hysteresis_gap ≡ b.hysteresis_gap)

emit_all-Same : (ls : List Layer) (b : IngestBlocker) → Same b (emit_all ls b)
unfolding emit_all emit_blocked
emit_all-Same [] b = (refl, refl, refl, refl)
emit_all-Same (l ∷ ls) b = emit_all-Same ls (emit_blocked l b)

-- What makes a report block: force, a critical layer, or a blocked state at the release ratio.
unfoldable pub Blocks : Report → IngestBlocker → Type 0
Blocks r b =
    (b.force_blocked ≡ true)
    ⊎ ((b.thresholds.critical_ratio ≤ max_ratio r)
        ⊎ ((b.state ≡ blocked) × (b.thresholds.critical_ratio - b.hysteresis_gap ≤ max_ratio r)))

-- The state that a call leaves when it does not block.
pub released : Report → IngestBlocker → BlockerState
released r b =
    if is_state_blocked b.state
    then normal
    else if leb b.thresholds.warn_ratio (max_ratio r)
    then warn_drain
    else normal

pub record Decides (r : Report) (b : IngestBlocker) (out : Bool × IngestBlocker) : Type 0 where
  pub blocks : out.0 ≡ true → Blocks r b
  pub blocked_if : Blocks r b → out.0 ≡ true
  pub blocked_after : is_blocked out.1 ≡ out.0
  pub state_after : out.0 ≡ false → out.1.state ≡ released r b
  pub force_same : out.1.force_blocked ≡ b.force_blocked
  pub thresholds_same : out.1.thresholds ≡ b.thresholds
  pub gap_same : out.1.hysteresis_gap ≡ b.hysteresis_gap

critical-Decides :
    (r : Report) (b : IngestBlocker)
    → b.force_blocked ≡ false
    → b.thresholds.critical_ratio ≤ max_ratio r
    → Decides r b (evaluate_ratios r b)
unfolding evaluate_ratios Blocks is_blocked is_state_blocked
critical-Decides r b free above =
    let (l, ls, found) = some_above b.thresholds.critical_ratio r above in
    let same = emit_all-Same (l ∷ ls) (record b { state = blocked }) in
    rw (found, evaluate_ratios)
      (record {
        blocks = λ _. inr (inl above);
        blocked_if = λ _. refl;
        blocked_after = ground (arith, same.0);
        state_after = λ h. absurd (ground arith);
        force_same = same.1;
        thresholds_same = same.2;
        gap_same = same.3;
      })

-- The state that an evaluation below the critical ratio leaves, and its answer.
below_lem :
    (r : Report) (b : IngestBlocker)
    → evaluate_below (max_ratio r) (layers_from b.thresholds.warn_ratio (layer_ratios r)) b ≡ (
        if is_state_blocked b.state
          && leb (b.thresholds.critical_ratio - b.hysteresis_gap) (max_ratio r)
        then (true, b)
        else (false, record b { state = released r b }))
unfolding evaluate_below released
below_lem r b = elim (Bool-cases (leb b.thresholds.warn_ratio (max_ratio r))) [
  | inl above ↦
      let (l, ls, found) = some_above b.thresholds.warn_ratio r (ground arith) in
      rw found (ground arith)
  | inr under ↦ rw (none_above b.thresholds.warn_ratio r (ground arith)) (ground arith)
]

pub state_blocked : (s : BlockerState) → is_state_blocked s ≡ true → s ≡ blocked
unfolding is_state_blocked
state_blocked normal h = absurd (ground arith)
state_blocked warn_drain h = absurd (ground arith)
state_blocked blocked h = refl

released-not_blocked : (r : Report) (b : IngestBlocker) → is_state_blocked (released r b) ≡ false
unfolding released is_state_blocked
released-not_blocked r b = ground arith

is_state_blocked_lem : (s : BlockerState) → s ≡ blocked → is_state_blocked s ≡ true
unfolding is_state_blocked
is_state_blocked_lem s h = ap is_state_blocked h

not_Blocks :
    (r : Report) (b : IngestBlocker)
    → b.force_blocked ≡ false
    → max_ratio r < b.thresholds.critical_ratio
    → (is_state_blocked b.state
        && leb (b.thresholds.critical_ratio - b.hysteresis_gap) (max_ratio r))
      ≡ false
    → ¬ Blocks r b
unfolding Blocks
not_Blocks r b free under free_now (inl forced) = ground arith
not_Blocks r b free under free_now (inr (inl above)) = ground arith
not_Blocks r b free under free_now (inr (inr (held, gap))) =
    ground (arith, is_state_blocked_lem b.state held)

below-Decides :
    (r : Report) (b : IngestBlocker)
    → b.force_blocked ≡ false
    → max_ratio r < b.thresholds.critical_ratio
    → Decides r b (evaluate_ratios r b)
unfolding evaluate_ratios Blocks is_blocked
below-Decides r b free under =
    rw (none_above b.thresholds.critical_ratio r under, evaluate_ratios, below_lem r b)
      (elim (Bool-cases (
        is_state_blocked b.state
        && leb (b.thresholds.critical_ratio - b.hysteresis_gap) (max_ratio r))) [
          | inl held ↦ rw held (record {
            blocks = λ _. inr (inr (state_blocked b.state (ground arith), ground arith));
            blocked_if = λ _. refl;
            blocked_after = ground arith;
            state_after = λ h. absurd (ground arith);
            force_same = refl;
            thresholds_same = refl;
            gap_same = refl;
          })
          | inr free_now ↦ rw free_now (record {
            blocks = λ h. absurd (ground arith);
            blocked_if = λ h. absurd (not_Blocks r b free under free_now h);
            blocked_after = ground (arith, released-not_blocked r b);
            state_after = λ h. refl;
            force_same = refl;
            thresholds_same = refl;
            gap_same = refl;
          })
        ])

-- A call blocks exactly when a block is forced, a layer is at the critical ratio, or the state is
-- blocked and a layer is at the release ratio, which is the critical one less the gap. Afterwards
-- `is_blocked` is the answer. When the call does not block, a blocked state becomes normal, and any
-- other becomes draining or normal, as a layer is at the warning ratio or not. The force, the
-- thresholds and the gap stay.
pub should_block-Decides : (r : Report) (b : IngestBlocker) → Decides r b (should_block r b)
unfolding should_block Blocks is_blocked
should_block-Decides r b = elim (Bool-cases b.force_blocked) [
  | inl forced ↦ simp forced (record {
    blocks = λ _. inl forced;
    blocked_if = λ _. refl;
    blocked_after = ground arith;
    state_after = λ h. absurd (ground arith);
    force_same = refl;
    thresholds_same = refl;
    gap_same = refl;
  })
  | inr free ↦ elim (Bool-cases (leb b.thresholds.critical_ratio (max_ratio r))) [
    | inl above ↦ simp free (critical-Decides r b free (ground arith))
    | inr under ↦ simp free (below-Decides r b free (ground arith))
  ]
]
