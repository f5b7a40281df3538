-- ===== src/SegmentNames.antt =====
-- src/mctrader_data/wal/segment.py: the names of the segment files, which carry their state, and the
-- scan for sealed segments. A name is the list of its characters' codes.
mod Parse
mod States
mod Tests
use mctrader_data.Prelude.{
  ℕ, Bool, true, false, ◌&&◌, not, Option, none, some, List, [], ◌∷◌, ◌++◌, ◌==◌, if◌then◌else◌,
}
use mctrader_data.Prelude.Texts.{codes, Text, text_eq, strip_suffix}

-- The name of active_segment_path, with the time as strftime writes it.
pub active_segment_name : Text → Text → Text
active_segment_name ts_str node_id = codes "segment-" ++ ts_str ++ b'-' ∷ node_id ++ codes ".ndjson"

pub seal_path : Text → Text
seal_path active = active ++ codes ".sealed"

pub compacted_path : Text → Text
compacted_path sealed = sealed ++ codes ".compacted"

-- str.endswith
pub ends_with : Text → Text → Bool
ends_with suffix name = elim (strip_suffix suffix name) [ none ↦ false | some t ↦ true ]

pub is_active : Text → Bool
is_active name = ends_with (codes ".ndjson") name && not (ends_with (codes ".sealed") name)

pub is_sealed : Text → Bool
is_sealed name =
    ends_with (codes ".ndjson.sealed") name && not (ends_with (codes ".compacted") name)

pub is_compacted : Text → Bool
is_compacted name = ends_with (codes ".ndjson.sealed.compacted") name

-- The loop over the suffixes, the longest first.
pub strip_first : List Text → Text → Text
strip_first [] name = name
strip_first (s ∷ ss) name = elim (strip_suffix s name) [
  | some base ↦ base
  | none ↦ strip_first ss name
]

pub strip_segment_suffixes : Text → Text
strip_segment_suffixes name =
    strip_first (codes ".ndjson.sealed.compacted" ∷ codes ".ndjson.sealed" ∷ codes ".ndjson" ∷ [])
      name

-- What is before the first dash, and what is behind it, if there is one.
pub split_once : Text → Text × Option Text
split_once [] = ([], none)
split_once (c ∷ cs) =
    let rest = split_once cs in if c == b'-' then ([], some cs) else (c ∷ rest.0, rest.1)

-- base.split("-", 2), when it has three parts.
pub third_part : Text → Text × Option Text → Option (Text × Text × Text)
third_part first (second, none) = none
third_part first (second, some third) = some (first, second, third)

pub second_part : Text × Option Text → Option (Text × Text × Text)
second_part (first, none) = none
second_part (first, some behind) = third_part first (split_once behind)

pub split_twice : Text → Option (Text × Text × Text)
split_twice base = second_part (split_once base)

pub parse_node_id_from_segment : Text → Text
parse_node_id_from_segment name = elim (split_twice (strip_segment_suffixes name)) [
  | none ↦ codes "DEFAULT"
  | some parts ↦ parts.2
]

-- ValueError is `none`.
pub parse_ts_from_segment : Text → Option Text
parse_ts_from_segment name = elim (split_twice (strip_segment_suffixes name)) [
  | none ↦ none
  | some parts ↦ if text_eq parts.0 (codes "segment") then some parts.1 else none
]

pub is_there : Text → List Text → Bool
is_there p [] = false
is_there p (q ∷ qs) = let rest = is_there p qs in if text_eq p q then true else rest

-- The sealed segments of a directory, in the order in which they are found, without those whose
-- marker is there.
pub scan_of : List Text → List Text → List Text
scan_of files [] = []
scan_of files (p ∷ ps) =
    let rest = scan_of files ps in
    if ends_with (codes ".ndjson.sealed") p && not (is_there (compacted_path p) files)
    then p ∷ rest
    else rest

pub scan_sealed : List Text → List Text
scan_sealed files = scan_of files files
