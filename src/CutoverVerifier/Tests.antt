-- ===== src/CutoverVerifier/Tests.antt =====
-- Two segments before the cutover, in different directories.
use mctrader_data.Prelude.{Bool, true, ◌≡◌, refl, Option, none, some, List, [], ◌∷◌}
use mctrader_data.Prelude.Texts.{codes, Text, text_eq, split}
use mctrader_data.CutoverVerifier.{
  Segment, InvariantStatus, all_pass, some_fail, rpo_zero_verified, drift_detected, is_old,
  keep_segments, list_local_segments, last_part, basename, contains, difference, insert_dir,
  partition_dirs, take_answer, verify_dirs, result_of, verify_invariants_for_l2, inconclusive,
  decide, compare_lists, verify_rpo_zero, RpoStatus,
}
use mctrader_data.CutoverVerifier.Verified.{Backed, verify_rpo_zero-Backed}

abbrev segments : List Segment
segments =
    record { parent = codes "a"; name = codes "p"; mtime = some 5 }
    ∷ record { parent = codes "b"; name = codes "p"; mtime = some 6 }
    ∷ []

abbrev objects : List Text
objects = codes "x/a/p" ∷ []

abbrev in_order : Text → Text → Bool
in_order p q = true

abbrev answers : InvariantStatus → Text → Option InvariantStatus
answers i d = some i

abbrev raises : Text → Option InvariantStatus
raises d = none

abbrev status_of : (Text → Option InvariantStatus) → List Text → RpoStatus
status_of harness os =
    (verify_rpo_zero in_order harness (some 2000000) (some segments) (some os)).status

-- One object stands for both files of the same name; a harness that raises everywhere hinders nothing.
scenario_verify :
    (status_of (answers all_pass) objects ≡ rpo_zero_verified)
    × (status_of raises objects ≡ rpo_zero_verified)
    × (status_of (answers some_fail) objects ≡ drift_detected)
    × (status_of (answers all_pass) (codes "x/a/q" ∷ []) ≡ drift_detected)
unfolding text_eq split is_old keep_segments list_local_segments last_part basename contains
    difference insert_dir partition_dirs take_answer verify_dirs result_of verify_invariants_for_l2
    inconclusive decide compare_lists verify_rpo_zero
scenario_verify = (refl, refl, refl, refl)

verify_rpo_zero-Backed_example :
    Backed in_order (answers all_pass) (some 2000000) (some segments) (some objects)
verify_rpo_zero-Backed_example =
    verify_rpo_zero-Backed in_order (answers all_pass) (some 2000000) (some segments) (some objects)
      scenario_verify.0
