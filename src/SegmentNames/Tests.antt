-- ===== src/SegmentNames/Tests.antt =====
-- A segment of a node whose name has a dash.
use mctrader_data.Prelude.{arith, ◌≡◌, refl, none, some, List, [], ◌∷◌}
use mctrader_data.Prelude.Texts.{codes, Text, text_eq, strip_suffix, Without}
use mctrader_data.SegmentNames.{
  active_segment_name, seal_path, compacted_path, ends_with, strip_first, strip_segment_suffixes,
  split_once, third_part, second_part, split_twice, parse_node_id_from_segment,
  parse_ts_from_segment, is_there, scan_of, scan_sealed,
}
use mctrader_data.SegmentNames.Parse.{segment_name-Parses}

abbrev ts : Text
ts = codes "20260518T000500Z"

abbrev node : Text
node = codes "node-a"

no_dash : Without b'-' ts
no_dash = ground arith

segment_name-Parses_example :
    ((parse_ts_from_segment (active_segment_name ts node) ≡ some ts)
      × (parse_node_id_from_segment (active_segment_name ts node) ≡ node))
    × ((parse_ts_from_segment (seal_path (active_segment_name ts node)) ≡ some ts)
        × (parse_node_id_from_segment (seal_path (active_segment_name ts node)) ≡ node))
    × ((parse_ts_from_segment (compacted_path (seal_path (active_segment_name ts node))) ≡ some ts)
        × (parse_node_id_from_segment (compacted_path (seal_path (active_segment_name ts node)))
            ≡ node))
segment_name-Parses_example = segment_name-Parses ts node no_dash

abbrev files : List Text
files =
    codes "segment-1-a.ndjson"
    ∷ codes "segment-2-a.ndjson.sealed"
    ∷ codes "segment-3-a.ndjson.sealed"
    ∷ codes "segment-3-a.ndjson.sealed.compacted"
    ∷ []

-- The scan of the directory, and names that are not those of a segment.
scenario :
    (scan_sealed files ≡ codes "segment-2-a.ndjson.sealed" ∷ [])
    × (parse_ts_from_segment (codes "part-1-a.ndjson") ≡ none)
    × (parse_ts_from_segment (codes "segment-1.ndjson") ≡ none)
    × (parse_node_id_from_segment (codes "segment-1.ndjson") ≡ codes "DEFAULT")
    × (parse_node_id_from_segment (codes "part-1-a") ≡ codes "a")
unfolding scan_sealed scan_of ends_with strip_suffix text_eq is_there compacted_path
    parse_ts_from_segment parse_node_id_from_segment split_twice second_part third_part split_once
    strip_segment_suffixes strip_first
scenario = (refl, refl, refl, refl, refl)
