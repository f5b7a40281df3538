-- ===== src/SegmentNames/States.antt =====
-- The three states of a segment, by the end of its name, and the scan.
use mathlib.Core.List.{append_assoc}
use mctrader_data.Prelude.{
  ◌≡◌, refl, sym, ap, ◌∙◌, inl, inr, Bool, true, false, ◌&&◌, not, none, List, [], ◌∷◌, ◌++◌, arith,
  All, subst, Bool-cases,
}
use mctrader_data.Prelude.Sort.{count}
use mctrader_data.Prelude.Texts.{
  codes, Text, strip_suffix, strip_suffix-append, other_suffix, other_suffix_before,
}
use mctrader_data.SegmentNames.{
  active_segment_name, seal_path, compacted_path, ends_with, is_active, is_sealed, is_compacted,
  is_there, scan_of, scan_sealed,
}
use mctrader_data.SegmentNames.Parse.{base_of, differ, active-base}

module _ (base : Text) where
  ends : (s : Text) → ends_with s (base ++ s) ≡ true
  unfolding ends_with
  ends s = rw (strip_suffix-append base s, ends_with) refl

  misses : (s t : Text) → strip_suffix s t ≡ none → ends_with s t ≡ false
  unfolding ends_with
  misses s t h = rw (h, ends_with) refl

  active-flags :
      (is_active (base ++ codes ".ndjson") ≡ true)
      × (is_sealed (base ++ codes ".ndjson") ≡ false)
      × (is_compacted (base ++ codes ".ndjson") ≡ false)
  unfolding is_active is_sealed is_compacted
  active-flags = (
    rw
        (
          ends (codes ".ndjson"),
          misses (codes ".sealed") (base ++ codes ".ndjson") (
              other_suffix (codes ".sealed") base b'.' b'.' _ (codes "ndjson") refl
                (differ b'n' b'd' refl)),
        )
        refl,
    rw
        (misses (codes ".ndjson.sealed") (base ++ codes ".ndjson") (
          other_suffix (codes ".ndjson.sealed") base b'.' b'.' _ (codes "ndjson") refl
            (differ b'n' b'd' refl)))
        refl,
    misses (codes ".ndjson.sealed.compacted") (base ++ codes ".ndjson") (
        other_suffix (codes ".ndjson.sealed.compacted") base b'.' b'.' _ (codes "ndjson") refl
          (differ b'n' b'd' refl)),
  )

  sealed-flags :
      (is_active (base ++ codes ".ndjson.sealed") ≡ false)
      × (is_sealed (base ++ codes ".ndjson.sealed") ≡ true)
      × (is_compacted (base ++ codes ".ndjson.sealed") ≡ false)
  unfolding is_active is_sealed is_compacted
  sealed-flags =
      let not_marked : ends_with (codes ".compacted") (base ++ codes ".ndjson.sealed") ≡ false =
        misses (codes ".compacted") (base ++ codes ".ndjson.sealed") (
          other_suffix_before (codes "ed") base b'.' b'.' (codes "compact") (codes "ndjson.seal")
            (differ b'l' b't' refl)) in
      let not_compacted : ends_with (codes ".ndjson.sealed.compacted")
            (base ++ codes ".ndjson.sealed")
          ≡ false =
        misses (codes ".ndjson.sealed.compacted") (base ++ codes ".ndjson.sealed") (
          other_suffix_before (codes "ed") base b'.' b'.' (codes "ndjson.sealed.compact")
            (codes "ndjson.seal") (differ b'l' b't' refl)) in
      let not_open : ends_with (codes ".ndjson") (base ++ codes ".ndjson.sealed") ≡ false =
        misses (codes ".ndjson") (base ++ codes ".ndjson.sealed") (
          other_suffix (codes ".ndjson") base b'.' b'.' _ (codes "ndjson.sealed") refl
            (differ b'd' b'n' refl)) in
      (rw not_open refl, rw (ends (codes ".ndjson.sealed"), not_marked) refl, not_compacted)

  compacted-flags :
      (is_active (base ++ codes ".ndjson.sealed.compacted") ≡ false)
      × (is_sealed (base ++ codes ".ndjson.sealed.compacted") ≡ false)
      × (is_compacted (base ++ codes ".ndjson.sealed.compacted") ≡ true)
  unfolding is_active is_sealed is_compacted
  compacted-flags =
      let not_open : ends_with (codes ".ndjson") (base ++ codes ".ndjson.sealed.compacted")
          ≡ false =
        misses (codes ".ndjson") (base ++ codes ".ndjson.sealed.compacted") (
          other_suffix (codes ".ndjson") base b'.' b'.' _ (codes "ndjson.sealed.compacted") refl
            (differ b'd' b'n' refl)) in
      let not_sealed : ends_with (codes ".ndjson.sealed") (base ++ codes ".ndjson.sealed.compacted")
          ≡ false =
        misses (codes ".ndjson.sealed") (base ++ codes ".ndjson.sealed.compacted") (
          other_suffix_before (codes "ed") base b'.' b'.' (codes "ndjson.seal")
            (codes "ndjson.sealed.compact") (differ b't' b'l' refl)) in
      (rw not_open refl, rw not_sealed refl, ends (codes ".ndjson.sealed.compacted"))

-- The state of a name: which of the three tests hold.
abbrev pub Flags : Text → Bool → Bool → Bool → Type 0
Flags name a s c = (is_active name ≡ a) × (is_sealed name ≡ s) × (is_compacted name ≡ c)

-- Exactly one of the three tests holds of the name of a segment at any time: is_active when it is
-- made, is_sealed after seal_path, and is_compacted after compacted_path.
pub states-of_segment :
    (ts node : Text)
    → Flags (active_segment_name ts node) true false false
      × Flags (seal_path (active_segment_name ts node)) false true false
      × Flags (compacted_path (seal_path (active_segment_name ts node))) false false true
unfolding seal_path compacted_path
states-of_segment ts node =
    let base : Text = base_of ts node in
    let sealed : active_segment_name ts node ++ codes ".sealed" ≡ base ++ codes ".ndjson.sealed" =
      ap (λ z. z ++ codes ".sealed") (active-base ts node)
      ∙ append_assoc base (codes ".ndjson") (codes ".sealed") in
    let compacted : active_segment_name ts node ++ codes ".sealed" ++ codes ".compacted"
        ≡ base ++ codes ".ndjson.sealed.compacted" =
      ap (λ z. z ++ codes ".compacted") sealed
      ∙ append_assoc base (codes ".ndjson.sealed") (codes ".compacted") in
    (
      subst (λ z. Flags z true false false) (sym (active-base ts node)) (active-flags base),
      subst (λ z. Flags z false true false) (sym sealed) (sealed-flags base),
      subst (λ z. Flags z false false true) (sym compacted) (compacted-flags base),
    )

-- What the scan looks for: a sealed name whose marker is not among the files.
abbrev pub pending : List Text → Text → Bool
pending files p = ends_with (codes ".ndjson.sealed") p && not (is_there (compacted_path p) files)

scan_of-All : (files names : List Text) → All (λ p. pending files p ≡ true) (scan_of files names)
unfolding scan_of
scan_of-All files [] = tt
scan_of-All files (p ∷ ps) = elim (Bool-cases (pending files p)) [
  | inl wanted ↦ rw wanted (wanted, scan_of-All files ps)
  | inr other ↦ rw other (scan_of-All files ps)
]

count-scan_of :
    (q : Text → Bool) (files names : List Text)
    → count q (scan_of files names) ≡ count (λ p. pending files p && q p) names
unfolding scan_of
count-scan_of q files [] = refl
count-scan_of q files (p ∷ ps) = ground (arith, count-scan_of q files ps)

-- The scan gives sealed names without a marker, and each of them as often as it is there.
pub scan_sealed-Finds :
    (files : List Text)
    → All (λ p. pending files p ≡ true) (scan_sealed files)
      × ((q : Text → Bool)
          → count q (scan_sealed files) ≡ count (λ p. pending files p && q p) files)
unfolding scan_sealed
scan_sealed-Finds files = (scan_of-All files files, λ q. count-scan_of q files files)
