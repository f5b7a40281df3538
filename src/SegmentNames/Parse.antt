-- ===== src/SegmentNames/Parse.antt =====
-- The names of a segment in its three states, taken apart again.
use mctrader_data.Prelude.{
  ℕ, ◌≡◌, ◌≢◌, refl, ap, ◌∙◌, false, none, some, [], ◌∷◌, ◌++◌, ◌==◌, arith,
}
use mathlib.Core.List.{append_assoc}
use mctrader_data.Prelude.Texts.{
  codes, Text, text_eq, strip_suffix, strip_suffix-append, other_suffix, other_suffix_before,
  Without,
}
use mctrader_data.SegmentNames.{
  active_segment_name, seal_path, compacted_path, strip_first, strip_segment_suffixes, split_once,
  second_part, third_part, split_twice, parse_node_id_from_segment, parse_ts_from_segment,
}

abbrev pub base_of : Text → Text → Text
base_of ts node = codes "segment-" ++ ts ++ b'-' ∷ node

pub differ : (a b : ℕ) → (a == b) ≡ false → a ≢ b
differ a b h e = ground arith

pub active-base :
    (ts node : Text) → active_segment_name ts node ≡ base_of ts node ++ codes ".ndjson"
unfolding active_segment_name
active-base ts node = refl

module _ (base : Text) where
  stripped-active : strip_segment_suffixes (base ++ codes ".ndjson") ≡ base
  unfolding strip_segment_suffixes strip_first
  stripped-active =
      rw
        (
          other_suffix (codes ".ndjson.sealed.compacted") base b'.' b'.' _ (codes "ndjson") refl
              (differ b'n' b'd' refl),
          strip_first,
          other_suffix (codes ".ndjson.sealed") base b'.' b'.' _ (codes "ndjson") refl
              (differ b'n' b'd' refl),
          strip_suffix-append base (codes ".ndjson"),
        )
        refl

  stripped-sealed : strip_segment_suffixes (base ++ codes ".ndjson.sealed") ≡ base
  unfolding strip_segment_suffixes strip_first
  stripped-sealed =
      let other : strip_suffix (codes ".ndjson.sealed.compacted") (base ++ codes ".ndjson.sealed")
          ≡ none =
        other_suffix_before (codes "ed") base b'.' b'.' (codes "ndjson.sealed.compact")
          (codes "ndjson.seal") (differ b'l' b't' refl) in
      rw (other, strip_first, strip_suffix-append base (codes ".ndjson.sealed")) refl

  stripped-compacted : strip_segment_suffixes (base ++ codes ".ndjson.sealed.compacted") ≡ base
  unfolding strip_segment_suffixes strip_first
  stripped-compacted =
      rw (strip_suffix-append base (codes ".ndjson.sealed.compacted"), strip_first) refl

split_once-dash : (t rest : Text) → Without b'-' t → split_once (t ++ b'-' ∷ rest) ≡ (t, some rest)
unfolding split_once
split_once-dash [] rest h = refl
split_once-dash (c ∷ cs) rest h = rw (h.0, split_once-dash cs rest h.1) refl

segment-Without : Without b'-' (codes "segment")
segment-Without = (refl, (refl, (refl, (refl, (refl, (refl, (refl, tt)))))))

split_twice-base :
    (ts node : Text)
    → Without b'-' ts
    → split_twice (base_of ts node) ≡ some (codes "segment", ts, node)
unfolding split_twice second_part third_part
split_twice-base ts node h =
    ap second_part (split_once-dash (codes "segment") (ts ++ b'-' ∷ node) segment-Without)
    ∙ ap (third_part (codes "segment")) (split_once-dash ts node h)

parts_of :
    (ts node name : Text)
    → Without b'-' ts
    → strip_segment_suffixes name ≡ base_of ts node
    → (parse_ts_from_segment name ≡ some ts) × (parse_node_id_from_segment name ≡ node)
unfolding parse_ts_from_segment parse_node_id_from_segment text_eq
parts_of ts node name h stripped =
    let parts : split_twice (strip_segment_suffixes name) ≡ some (codes "segment", ts, node) =
      ap split_twice stripped ∙ split_twice-base ts node h in
    (rw (parts, parse_ts_from_segment) refl, rw (parts, parse_node_id_from_segment) refl)

-- A name that is made of a time without a dash, as strftime writes it, and of any node gives back
-- both, while the segment is active, when it is sealed, and when it is compacted.
pub segment_name-Parses :
    (ts node : Text)
    → Without b'-' ts
    → ((parse_ts_from_segment (active_segment_name ts node) ≡ some ts)
        × (parse_node_id_from_segment (active_segment_name ts node) ≡ node))
      × ((parse_ts_from_segment (seal_path (active_segment_name ts node)) ≡ some ts)
          × (parse_node_id_from_segment (seal_path (active_segment_name ts node)) ≡ node))
      × ((parse_ts_from_segment (compacted_path (seal_path (active_segment_name ts node)))
            ≡ some ts)
          × (parse_node_id_from_segment (compacted_path (seal_path (active_segment_name ts node)))
              ≡ node))
unfolding seal_path compacted_path
segment_name-Parses ts node h =
    let base : Text = base_of ts node in
    let sealed : active_segment_name ts node ++ codes ".sealed" ≡ base ++ codes ".ndjson.sealed" =
      ap (λ z. z ++ codes ".sealed") (active-base ts node)
      ∙ append_assoc base (codes ".ndjson") (codes ".sealed") in
    (
      parts_of ts node _ h (ap strip_segment_suffixes (active-base ts node) ∙ stripped-active base),
      parts_of ts node _ h (ap strip_segment_suffixes sealed ∙ stripped-sealed base),
      parts_of ts node _ h (
          ap strip_segment_suffixes (
            ap (λ z. z ++ codes ".compacted") sealed
            ∙ append_assoc base (codes ".ndjson.sealed") (codes ".compacted"))
          ∙ stripped-compacted base),
    )
