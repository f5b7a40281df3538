-- ===== src/NasKey/Prefixes.antt =====
-- The prefixes that the compactor lists, beside each other.
use mathlib.Core.List.{append_assoc}
use mathlib.Core.Option.{map as option_map}
use mctrader_data.Prelude.{◌≡◌, refl, ap, inl, inr, true, false, some, ◌++◌, arith, Bool-cases}
use mctrader_data.Prelude.Texts.{codes, Text, text_eq_refl, strip_prefix-append}
use mctrader_data.NasKey.{
  legacy_key_to_canonical, Partition, has_empty, layout, is_tier, build_l1_prefix, build_nas_prefix,
  build_legacy_l1_prefix, build_legacy_l1_discovery_prefix,
}

l1_is_tier : is_tier (codes "L1") ≡ true
unfolding is_tier
l1_is_tier = rw (text_eq_refl (codes "L1")) refl

legacy-canonical : (key : Text) → legacy_key_to_canonical (codes "l1/" ++ key) ≡ key
unfolding legacy_key_to_canonical
legacy-canonical key = rw (strip_prefix-append (codes "l1/") key, legacy_key_to_canonical) refl

-- For every partition, those with an empty segment included, for which nothing is made: the prefix of
-- the first tier is that of the general one for "L1", the legacy prefix has "l1/" before it, and made
-- canonical it is the first.
pub prefixes-Agree :
    (p : Partition)
    → (build_l1_prefix p ≡ build_nas_prefix (codes "L1") p)
      × (build_legacy_l1_prefix p ≡ option_map (λ x. codes "l1/" ++ x) (build_l1_prefix p))
      × (option_map legacy_key_to_canonical (build_legacy_l1_prefix p) ≡ build_l1_prefix p)
unfolding build_l1_prefix build_nas_prefix build_legacy_l1_prefix
prefixes-Agree p = elim (Bool-cases (has_empty p)) [
  | inl empty ↦ rw (l1_is_tier, empty) (refl, refl, refl)
  | inr full ↦
      rw (l1_is_tier, full) (refl, refl, ap some (legacy-canonical (layout (codes "L1") p)))
]

-- A partition with no empty segment has its legacy prefix below the prefix of discovery of its
-- channel.
pub discovery-Covers :
    (p : Partition)
    → has_empty p ≡ false
    → (found rest : Text) × (build_legacy_l1_discovery_prefix p.channel ≡ some found)
      × (build_legacy_l1_prefix p ≡ some (found ++ rest))
unfolding build_legacy_l1_discovery_prefix build_legacy_l1_prefix has_empty layout
discovery-Covers p h = (
  codes "l1/market/" ++ p.channel ++ codes "/",
  codes "schema_version="
      ++ p.schema_ver
      ++ codes "/tier="
      ++ codes "L1"
      ++ codes "/exchange="
      ++ p.exchange
      ++ codes "/symbol="
      ++ p.symbol
      ++ codes "/date="
      ++ p.date_str
      ++ codes "/",
  ground arith,
  rw h (simp append_assoc refl),
)
