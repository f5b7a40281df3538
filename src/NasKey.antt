-- ===== src/NasKey.antt =====
-- src/mctrader_data/nas_storage/nas_key.py: the keys and prefixes of the objects. A path is the list
-- of its parts, and a text the list of its characters' codes. ValueError is `none`.
mod Canonical
mod Prefixes
mod Tests
use mctrader_data.Prelude.{
  ℕ, Bool, true, false, ◌&&◌, ◌||◌, not, Option, none, some, List, [], ◌∷◌, ◌++◌, if◌then◌else◌,
}
use mctrader_data.Prelude.Texts.{codes, Text, text_eq, strip_prefix, join}

abbrev pub PathOf : Type 0
PathOf = List Text

-- parquet_path.relative_to(root)
pub relative_to : PathOf → PathOf → Option PathOf
relative_to [] parts = some parts
relative_to (r ∷ rs) [] = none
relative_to (r ∷ rs) (p ∷ ps) = let rest = relative_to rs ps in if text_eq r p then rest else none

-- relative.as_posix(), where "" and "." stand for no parts.
pub as_posix : PathOf → Text
as_posix parts = join b'/' parts

-- The value of the first part that begins with "tier=".
pub extract_tier : PathOf → Option Text
extract_tier [] = none
extract_tier (p ∷ ps) = elim (strip_prefix (codes "tier=") p) [
  | some value ↦ some value
  | none ↦ extract_tier ps
]

-- Both are there and differ.
pub tier_mismatch : Option Text → Option Text → Bool
tier_mismatch none extracted = false
tier_mismatch (some tier) none = false
tier_mismatch (some tier) (some extracted) = not (text_eq tier extracted)

pub key_of_parts : Option Text → PathOf → Option Text
key_of_parts tier [] = none
key_of_parts tier (p ∷ ps) =
    if tier_mismatch tier (extract_tier (p ∷ ps)) then none else some (as_posix (p ∷ ps))

pub build_nas_key : PathOf → PathOf → Option Text → Option Text
build_nas_key parquet_path root tier = elim (relative_to root parquet_path) [
  | none ↦ none
  | some parts ↦ key_of_parts tier parts
]

pub is_level1 : Option Text → Bool
is_level1 none = false
is_level1 (some tier) = text_eq tier (codes "L1")

pub legacy_key_of_parts : PathOf → Option Text
legacy_key_of_parts [] = none
legacy_key_of_parts (p ∷ ps) = some (
    if is_level1 (extract_tier (p ∷ ps))
    then codes "l1/" ++ as_posix (p ∷ ps)
    else as_posix (p ∷ ps))

pub build_legacy_nas_key : PathOf → PathOf → Option Text
build_legacy_nas_key parquet_path root = elim (relative_to root parquet_path) [
  | none ↦ none
  | some parts ↦ legacy_key_of_parts parts
]

-- key.removeprefix("l1/")
pub legacy_key_to_canonical : Text → Text
legacy_key_to_canonical key = elim (strip_prefix (codes "l1/") key) [
  | some rest ↦ rest
  | none ↦ key
]

-- What the prefixes are made of.
pub record Partition : Type 0 where
  pub channel : Text
  pub schema_ver : Text
  pub exchange : Text
  pub symbol : Text
  pub date_str : Text

pub is_empty : Text → Bool
is_empty [] = true
is_empty (c ∷ cs) = false

-- `not all((…))`
pub has_empty : Partition → Bool
has_empty p =
    is_empty p.channel
    || (is_empty p.schema_ver
        || (is_empty p.exchange || (is_empty p.symbol || is_empty p.date_str)))

-- The f-string of the prefixes.
pub layout : Text → Partition → Text
layout tier p =
    codes "market/"
    ++ p.channel
    ++ codes "/schema_version="
    ++ p.schema_ver
    ++ codes "/tier="
    ++ tier
    ++ codes "/exchange="
    ++ p.exchange
    ++ codes "/symbol="
    ++ p.symbol
    ++ codes "/date="
    ++ p.date_str
    ++ codes "/"

pub build_l1_prefix : Partition → Option Text
build_l1_prefix p = if has_empty p then none else some (layout (codes "L1") p)

pub is_tier : Text → Bool
is_tier tier = text_eq tier (codes "L1") || (text_eq tier (codes "L2") || text_eq tier (codes "L3"))

pub build_nas_prefix : Text → Partition → Option Text
build_nas_prefix tier p =
    if not (is_tier tier) then none else if has_empty p then none else some (layout tier p)

pub build_legacy_l1_prefix : Partition → Option Text
build_legacy_l1_prefix p = if has_empty p then none else some (codes "l1/" ++ layout (codes "L1") p)

pub build_legacy_l1_discovery_prefix : Text → Option Text
build_legacy_l1_discovery_prefix channel =
    if is_empty channel then none else some (codes "l1/market/" ++ channel ++ codes "/")
