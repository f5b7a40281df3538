-- ===== src/IngestBlocker/Tests.antt =====
-- The thresholds of CapacityThresholds and the default gap, in millionths.
use mctrader_data.Prelude.{ℕ, ◌≡◌, refl, true, false, [], ◌∷◌}
use mctrader_data.IngestBlocker.{
  normal, warn_drain, blocked, wal_local, nas_unreachable, wal_full, Thresholds, Report,
  IngestBlocker, blocker_init, ratio, layer_ratios, max_ratio, layers_from, reason_of, emit_blocked,
  emit_all, is_state_blocked, evaluate_below, evaluate_ratios, should_block, on_capacity_warn,
  on_capacity_critical,
}
use mctrader_data.IngestBlocker.Decides.{Decides, should_block-Decides}
use mctrader_data.IngestBlocker.Runs.{check, warn, perform_all, forced_for_ever}

abbrev limits : Thresholds
limits = record { warn_ratio = 800000; critical_ratio = 950000 }

abbrev at : ℕ → Report
at n = record { wal_ratio = n; l1_ratio = 100000; nas_ratio = n; host_ratio = 200000 }

abbrev fresh : IngestBlocker
fresh = record {
  thresholds = limits;
  hysteresis_gap = 50000;
  state = normal;
  force_blocked = false;
  ingest_blocked = [];
}

abbrev full : IngestBlocker
full = record fresh { state = blocked }

should_block-Decides_example : Decides (at 960000) fresh (should_block (at 960000) fresh)
should_block-Decides_example = should_block-Decides (at 960000) fresh

forced_for_ever_example :
    (should_block
      (at 10)
      (perform_all (check (at 10) ∷ warn ∷ []) (on_capacity_critical wal_local fresh))).0
    ≡ true
forced_for_ever_example = forced_for_ever wal_local (check (at 10) ∷ warn ∷ []) (at 10) fresh

-- Two layers are critical and are counted; the release passes through normal though a layer is
-- still above the warning ratio.
scenario :
    ((should_block (at 960000) fresh).1.ingest_blocked ≡ nas_unreachable ∷ wal_full ∷ [])
    × ((should_block (at 890000) full).1.state ≡ normal)
    × ((should_block (at 890000) fresh).1.state ≡ warn_drain)
    × ((on_capacity_warn (blocker_init limits 50000)).state ≡ warn_drain)
    × (ratio 19 20 ≡ 950000)
unfolding layer_ratios max_ratio layers_from reason_of emit_blocked emit_all is_state_blocked
    evaluate_below evaluate_ratios should_block on_capacity_warn blocker_init ratio
scenario = (refl, refl, refl, refl, refl)
