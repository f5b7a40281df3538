-- ===== src/IngestBlocker.antt =====
-- src/mctrader_data/ingest_blocker.py, with CapacityThresholds and the ratios of CapacityReport
-- from src/mctrader_data/capacity_probe.py. A ratio and a threshold are whole numbers of one unit,
-- say millionths, in place of floats; the counter of the metrics is the list of its labels, the
-- latest first. Every call runs under the lock.
mod Decides
mod Runs
mod Tests
use mctrader_data.Prelude.{
  ℕ, ◌-◌, ◌*◌, ◌/◌, ◌^◌, max, Bool, true, false, ◌||◌, List, [], ◌∷◌, ltb, leb, if◌then◌else◌,
}

pub data BlockerState : Type 0 where
  normal warn_drain blocked : BlockerState

pub data Layer : Type 0 where
  wal_local l1_local nas_bucket host_disk : Layer

pub data Reason : Type 0 where
  wal_full l1_full nas_unreachable : Reason

pub record Thresholds : Type 0 where
  pub warn_ratio : ℕ
  pub critical_ratio : ℕ

pub record Report : Type 0 where
  pub wal_ratio : ℕ
  pub l1_ratio : ℕ
  pub nas_ratio : ℕ
  pub host_ratio : ℕ

pub record IngestBlocker : Type 0 where
  pub thresholds : Thresholds
  pub hysteresis_gap : ℕ
  pub state : BlockerState
  pub force_blocked : Bool
  pub ingest_blocked : List Reason

pub blocker_init : Thresholds → ℕ → IngestBlocker
blocker_init thresholds gap = record {
  thresholds = thresholds;
  hysteresis_gap = gap;
  state = normal;
  force_blocked = false;
  ingest_blocked = [];
}

-- A layer's ratio, with zero for a limit that is not positive.
pub ratio : ℕ → ℕ → ℕ
ratio usage hard = if ltb 0 hard then usage * 1000000 / hard else 0

-- `layer_ratios`, in its order.
pub layer_ratios : Report → List (Layer × ℕ)
layer_ratios r =
    (wal_local, r.wal_ratio)
    ∷ (l1_local, r.l1_ratio)
    ∷ (nas_bucket, r.nas_ratio)
    ∷ (host_disk, r.host_ratio)
    ∷ []

pub max_ratio : Report → ℕ
max_ratio r = max (max (max r.wal_ratio r.l1_ratio) r.nas_ratio) r.host_ratio

pub layers_from : ℕ → List (Layer × ℕ) → List Layer
layers_from threshold [] = []
layers_from threshold ((layer, r) ∷ rest) =
    let others = layers_from threshold rest in if leb threshold r then layer ∷ others else others

pub reason_of : Layer → Reason
reason_of wal_local = wal_full
reason_of l1_local = l1_full
reason_of nas_bucket = nas_unreachable
reason_of host_disk = wal_full

pub emit_blocked : Layer → IngestBlocker → IngestBlocker
emit_blocked layer b = record b { ingest_blocked = reason_of layer ∷ b.ingest_blocked }

pub emit_all : List Layer → IngestBlocker → IngestBlocker
emit_all [] b = b
emit_all (layer ∷ layers) b = emit_all layers (emit_blocked layer b)

pub is_state_blocked : BlockerState → Bool
is_state_blocked normal = false
is_state_blocked warn_drain = false
is_state_blocked blocked = true

-- The branches below the critical ratio.
pub evaluate_below : ℕ → List Layer → IngestBlocker → Bool × IngestBlocker
evaluate_below highest warn_layers b =
    if is_state_blocked b.state
    then if leb (b.thresholds.critical_ratio - b.hysteresis_gap) highest
      then (true, b)
      else (false, record b { state = normal })
    else elim warn_layers [
      | [] ↦ (false, record b { state = normal })
      | _ ∷ _ ↦ (false, record b { state = warn_drain })
    ]

pub evaluate_ratios : Report → IngestBlocker → Bool × IngestBlocker
evaluate_ratios r b =
    let critical_layers = layers_from b.thresholds.critical_ratio (layer_ratios r) in
    let warn_layers = layers_from b.thresholds.warn_ratio (layer_ratios r) in
    elim critical_layers [
      | [] ↦ evaluate_below (max_ratio r) warn_layers b
      | first ∷ others ↦ (true, emit_all (first ∷ others) (record b { state = blocked }))
    ]

pub should_block : Report → IngestBlocker → Bool × IngestBlocker
should_block r b = if b.force_blocked then (true, b) else evaluate_ratios r b

pub on_capacity_warn : IngestBlocker → IngestBlocker
on_capacity_warn b = elim b.state [
  | normal ↦ record b { state = warn_drain }
  | warn_drain ↦ b
  | blocked ↦ b
]

pub on_capacity_critical : Layer → IngestBlocker → IngestBlocker
on_capacity_critical layer b =
    emit_blocked layer (record b { force_blocked = true; state = blocked })

pub is_blocked : IngestBlocker → Bool
is_blocked b = is_state_blocked b.state || b.force_blocked
