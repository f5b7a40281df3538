-- ===== src/CutoverVerifier.antt =====
-- src/mctrader_data/nas_migration/cutover_verifier.py: whether every local segment of before the cutover
-- is in the object store. The time of the cutover and the mtimes are microseconds; nothing stands for a
-- text that is no time, or a list of objects that raises. The listing of the root, the order of
-- paths and the invariant harness are parameters. Counts, durations and messages are left out, and
-- the order of the differing names.
mod Verified
mod Tests
use mctrader_data.Prelude.{
  ℕ, ◌+◌, Bool, true, false, Option, none, some, List, [], ◌∷◌, map, leb, if◌then◌else◌,
}
use mctrader_data.Prelude.Texts.{Text, text_eq, split}

-- A Parquet file under the root; without an mtime when stat() fails.
pub record Segment : Type 0 where
  pub parent : Text
  pub name : Text
  pub mtime : Option ℕ

pub data InvariantStatus : Type 0 where
  all_pass some_fail : InvariantStatus

pub data RpoStatus : Type 0 where
  rpo_zero_verified drift_detected verify_inconclusive : RpoStatus

pub record RpoVerifyResult : Type 0 where
  pub status : RpoStatus
  pub diff_segments : List Text
  pub invariant_result : Option InvariantStatus

pub is_old : (ℕ → Bool) → Option ℕ → Bool
is_old in_time none = false
is_old in_time (some m) = in_time m

pub keep_segments : (ℕ → Bool) → List Segment → List Segment
keep_segments in_time [] = []
keep_segments in_time (s ∷ ss) =
    let rest = keep_segments in_time ss in if is_old in_time s.mtime then s ∷ rest else rest

pub list_local_segments : (ℕ → Bool) → Option (List Segment) → List Segment
list_local_segments in_time none = []
list_local_segments in_time (some ss) = keep_segments in_time ss

-- split("/")[-1]
pub last_part : Text → List Text → Text
last_part p [] = p
last_part p (q ∷ qs) = last_part q qs

pub basename : Text → Text
basename key = last_part [] (split 47 key)

pub contains : Text → List Text → Bool
contains t [] = false
contains t (u ∷ us) = let rest = contains t us in if text_eq t u then true else rest

-- local_basenames_minus_1s - nas_basenames_plus_1s
pub difference : List Segment → List Text → List Text
difference [] names = []
difference (s ∷ ss) names =
    let rest = difference ss names in if contains s.name names then rest else s.name ∷ rest

-- The keys of partition_dirs in the order of paths, each once.
pub insert_dir : (Text → Text → Bool) → Text → List Text → List Text
insert_dir path_leb p [] = p ∷ []
insert_dir path_leb p (q ∷ qs) =
    let rest = insert_dir path_leb p qs in
    if text_eq p q then q ∷ qs else if path_leb p q then p ∷ q ∷ qs else q ∷ rest

pub partition_dirs : (Text → Text → Bool) → List Segment → List Text
partition_dirs path_leb [] = []
partition_dirs path_leb (s ∷ ss) = insert_dir path_leb s.parent (partition_dirs path_leb ss)

-- first_fail and last_pass.
pub record Verdicts : Type 0 where
  pub first_fail : Option InvariantStatus
  pub last_pass : Option InvariantStatus

-- What a directory's answer changes; an exception changes nothing.
pub take_answer : Option InvariantStatus → Verdicts → Verdicts
take_answer none v = v
take_answer (some all_pass) v = record v { last_pass = some all_pass }
take_answer (some some_fail) v = elim v.first_fail [
  | none ↦ record v { first_fail = some some_fail }
  | some f ↦ record v { last_pass = some some_fail }
]

module _ (path_leb : Text → Text → Bool) (harness : Text → Option InvariantStatus) where
  pub verify_dirs : List Text → Verdicts → Verdicts
  verify_dirs [] v = v
  verify_dirs (d ∷ ds) v = verify_dirs ds (take_answer (harness d) v)

  pub result_of : Verdicts → Option InvariantStatus
  result_of v = elim v.first_fail [ none ↦ v.last_pass | some f ↦ some f ]

  pub verify_invariants_for_l2 : List Segment → Option InvariantStatus
  verify_invariants_for_l2 ss =
      result_of
        (verify_dirs (partition_dirs path_leb ss) (record { first_fail = none; last_pass = none }))

  pub inconclusive : RpoVerifyResult
  inconclusive = record {
    status = verify_inconclusive;
    diff_segments = [];
    invariant_result = none;
  }

  -- Phase 5
  pub decide : List Text → Option InvariantStatus → RpoStatus
  decide [] none = rpo_zero_verified
  decide [] (some all_pass) = rpo_zero_verified
  decide [] (some some_fail) = drift_detected
  decide (d ∷ ds) i = drift_detected

  pub compare_lists : ℕ → Option (List Segment) → List Text → RpoVerifyResult
  compare_lists cutover listing objects =
      let diff : List Text =
        difference (list_local_segments (λ m. leb (m + 1000000) cutover) listing)
          (map basename objects) in
      let verdict : Option InvariantStatus =
        verify_invariants_for_l2 (list_local_segments (λ m. leb m (cutover + 1000000)) listing) in
      record { status = decide diff verdict; diff_segments = diff; invariant_result = verdict }

  pub verify_rpo_zero : Option ℕ → Option (List Segment) → Option (List Text) → RpoVerifyResult
  verify_rpo_zero none listing objects = inconclusive
  verify_rpo_zero (some cutover) listing none = inconclusive
  verify_rpo_zero (some cutover) listing (some objects) = compare_lists cutover listing objects
