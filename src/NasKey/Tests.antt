-- ===== src/NasKey/Tests.antt =====
-- A file of the first tier below a root of two parts.
use mctrader_data.Prelude.{arith, ◌≡◌, refl, none, some, [], ◌∷◌, ◌++◌, All}
use mctrader_data.Prelude.Texts.{codes, text_eq, strip_prefix, join, split, Without}
use mctrader_data.NasKey.{
  PathOf, relative_to, as_posix, extract_tier, tier_mismatch, key_of_parts, build_nas_key,
  is_level1, legacy_key_of_parts, build_legacy_nas_key, Partition, is_empty, has_empty,
  build_l1_prefix, is_tier, build_nas_prefix, build_legacy_l1_discovery_prefix,
}
use mctrader_data.NasKey.Canonical.{build_nas_key-split}

abbrev root : PathOf
root = codes "var" ∷ codes "data" ∷ []

abbrev parts : PathOf
parts = codes "market" ∷ codes "tier=L1" ∷ codes "a.parquet" ∷ []

abbrev partition : Partition
partition = record {
  channel = codes "ticks";
  schema_ver = codes "tick.v1";
  exchange = codes "bithumb";
  symbol = codes "KRW-BTC";
  date_str = codes "2026-05-18";
}

plain : All (Without b'/') (root ++ parts)
plain = ground arith

key-made :
    build_nas_key (root ++ parts) root (some (codes "L1")) ≡ some (codes "market/tier=L1/a.parquet")
unfolding build_nas_key relative_to text_eq key_of_parts tier_mismatch extract_tier strip_prefix
    as_posix join
key-made = refl

build_nas_key-split_example : root ++ parts ≡ root ++ split b'/' (codes "market/tier=L1/a.parquet")
build_nas_key-split_example =
    build_nas_key-split (root ++ parts) root (some (codes "L1")) (codes "market/tier=L1/a.parquet")
      plain key-made

-- Errors, and the keys and prefixes of the legacy layout.
scenario :
    (build_nas_key (root ++ parts) root (some (codes "L2")) ≡ none)
    × (build_nas_key root root none ≡ none)
    × (build_nas_key (codes "tmp" ∷ parts) root none ≡ none)
    × (build_legacy_nas_key (root ++ parts) root ≡ some (codes "l1/market/tier=L1/a.parquet"))
    × (build_nas_prefix (codes "L4") partition ≡ none)
    × (build_l1_prefix (record partition { symbol = [] }) ≡ none)
    × (build_legacy_l1_discovery_prefix (codes "ticks") ≡ some (codes "l1/market/ticks/"))
unfolding build_nas_key relative_to text_eq key_of_parts tier_mismatch extract_tier strip_prefix
    as_posix join build_legacy_nas_key legacy_key_of_parts is_level1 build_nas_prefix is_tier
    build_l1_prefix has_empty is_empty build_legacy_l1_discovery_prefix
scenario = (refl, refl, refl, refl, refl, refl, refl)
