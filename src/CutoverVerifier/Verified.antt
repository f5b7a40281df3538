-- ===== src/CutoverVerifier/Verified.antt =====
-- What "rpo_zero_verified" stands for.
use mctrader_data.Prelude.{
  ap, ◌∙◌, ℕ, ◌+◌, ◌≤◌, Bool, true, false, ◌≡◌, refl, ◌⊎◌, inl, inr, Option, none, some, List, [],
  ◌∷◌, map, leb, arith, if◌then◌else◌, Bool-cases, All,
}
use mctrader_data.Prelude.Texts.{Text, text_eq, text_eq_iff}
use mctrader_data.CutoverVerifier.{
  Segment, InvariantStatus, rpo_zero_verified, is_old, keep_segments, list_local_segments, basename,
  contains, difference, inconclusive, decide, compare_lists, verify_rpo_zero,
}

-- Some object has this name behind its last slash.
abbrev pub Held : Text → List Text → Type 0
Held name [] = ⊥
Held name (o ∷ os) = (name ≡ basename o) ⊎ Held name os

-- A segment that was written a second or more before the cutover is held.
abbrev pub Safe : ℕ → List Text → Segment → Type 0
Safe cutover objects s = (m : ℕ) → s.mtime ≡ some m → m + 1000000 ≤ cutover → Held s.name objects

contains-Held :
    (name : Text) (os : List Text) → contains name (map basename os) ≡ true → Held name os
unfolding contains
contains-Held name [] h = absurd (ground arith)
contains-Held name (o ∷ os) h = elim (Bool-cases (text_eq name (basename o))) [
  | inl same ↦ inl ((text_eq_iff name (basename o)).0 same)
  | inr differs ↦ inr (contains-Held name os (ground arith))
]

skipped :
    (c : Bool) (n : Text) (ns : List Text)
    → (if c then ns else n ∷ ns) ≡ []
    → (ns ≡ []) × (c ≡ true)
skipped true n ns h = (h, refl)
skipped false n ns h = absurd (ground arith)

difference-kept :
    (b : Bool) (s : Segment) (rest : List Segment) (names : List Text)
    → difference (if b then s ∷ rest else rest) names ≡ []
    → (difference rest names ≡ []) × (b ≡ true → contains s.name names ≡ true)
unfolding difference
difference-kept true s rest names h =
    let split : (difference rest names ≡ []) × (contains s.name names ≡ true) =
      skipped (contains s.name names) s.name (difference rest names) h in
    (split.0, λ b. split.1)
difference-kept false s rest names h = (h, λ b. absurd (ground arith))

leb_at_most : (cutover m : ℕ) → m + 1000000 ≤ cutover → leb (m + 1000000) cutover ≡ true
leb_at_most cutover m h = ground arith

difference-Safe :
    (cutover : ℕ) (ss : List Segment) (os : List Text)
    → difference (keep_segments (λ m. leb (m + 1000000) cutover) ss) (map basename os) ≡ []
    → All (Safe cutover os) ss
unfolding keep_segments is_old
difference-Safe cutover [] os h = tt
difference-Safe cutover (s ∷ ss) os h =
    let in_time : ℕ → Bool = λ m. leb (m + 1000000) cutover in
    let both : (difference (keep_segments in_time ss) (map basename os) ≡ [])
        × (is_old in_time s.mtime ≡ true → contains s.name (map basename os) ≡ true) =
      difference-kept (is_old in_time s.mtime) s (keep_segments in_time ss) (map basename os) h in
    (
      λ m e le. contains-Held s.name os (both.1 (ap (is_old in_time) e ∙ leb_at_most cutover m le)),
      difference-Safe cutover ss os both.0,
    )

abbrev pub AllSafe : ℕ → List Text → Option (List Segment) → Type 0
AllSafe cutover os none = Unit
AllSafe cutover os (some ss) = All (Safe cutover os) ss

module _ (path_leb : Text → Text → Bool) (harness : Text → Option InvariantStatus) where
  abbrev pub Backed : Option ℕ → Option (List Segment) → Option (List Text) → Type 0
  Backed none listing objects = ⊥
  Backed (some cutover) listing none = ⊥
  Backed (some cutover) listing (some os) = AllSafe cutover os listing

  decide-none :
      (diff : List Text) (i : Option InvariantStatus)
      → decide path_leb harness diff i ≡ rpo_zero_verified
      → diff ≡ []
  unfolding decide
  decide-none [] i h = refl
  decide-none (d ∷ ds) i h = absurd (ground arith)

  compare_lists-AllSafe :
      (cutover : ℕ) (listing : Option (List Segment)) (os : List Text)
      → (compare_lists path_leb harness cutover listing os).status ≡ rpo_zero_verified
      → AllSafe cutover os listing
  unfolding compare_lists list_local_segments
  compare_lists-AllSafe cutover none os h = tt
  compare_lists-AllSafe cutover (some ss) os h = difference-Safe cutover ss os (decide-none _ _ h)

  -- When the answer is "rpo_zero_verified", the time of the cutover was read, the objects were listed,
  -- and every segment under the root whose mtime is a second or more before the cutover has an
  -- object with its file name behind the last slash.
  pub verify_rpo_zero-Backed :
      (cutover : Option ℕ) (listing : Option (List Segment)) (objects : Option (List Text))
      → (verify_rpo_zero path_leb harness cutover listing objects).status ≡ rpo_zero_verified
      → Backed cutover listing objects
  unfolding verify_rpo_zero inconclusive
  verify_rpo_zero-Backed none listing objects h = absurd (ground arith)
  verify_rpo_zero-Backed (some cutover) listing none h = absurd (ground arith)
  verify_rpo_zero-Backed (some cutover) listing (some os) h =
      compare_lists-AllSafe cutover listing os h
