-- ===== src/NasKey/Canonical.antt =====
-- The keys of files below a root, the legacy keys, and the way back.
use mathlib.Core.Option.{map as option_map}
use mctrader_data.Prelude.{
  ◌≡◌, ◌≢◌, refl, sym, ap, ◌∙◌, inl, inr, Option, none, some, [], ◌∷◌, ◌++◌, arith, All, subst,
  Bool-cases, Option-cases,
}
use mctrader_data.Prelude.Texts.{
  codes, Text, text_eq_iff, text_eq_refl, strip_prefix, strip_prefix-append, split, split-join,
  Without,
}
use mctrader_data.NasKey.{
  PathOf, relative_to, as_posix, extract_tier, tier_mismatch, key_of_parts, build_nas_key,
  is_level1, legacy_key_of_parts, build_legacy_nas_key, legacy_key_to_canonical,
}

pub relative_to-below : (root parts : PathOf) → relative_to root (root ++ parts) ≡ some parts
unfolding relative_to
relative_to-below [] parts = refl
relative_to-below (r ∷ rs) parts = rw (text_eq_refl r) (relative_to-below rs parts)

relative_to-found :
    (root path parts : PathOf) → relative_to root path ≡ some parts → path ≡ root ++ parts
unfolding relative_to
relative_to-found [] path parts h = ground arith
relative_to-found (r ∷ rs) [] parts h = absurd (ground arith)
relative_to-found (r ∷ rs) (p ∷ ps) parts h =
    ground (arith, text_eq_iff r p, relative_to-found rs ps parts)

key-parts :
    (tier : Option Text) (parts : PathOf) (key : Text)
    → key_of_parts tier parts ≡ some key
    → (parts ≢ []) × (key ≡ as_posix parts)
unfolding key_of_parts
key-parts tier [] key h = absurd (ground arith)
key-parts tier (p ∷ ps) key h = elim (Bool-cases (tier_mismatch tier (extract_tier (p ∷ ps)))) [
  | inl mismatch ↦ absurd (ground arith)
  | inr agrees ↦ (λ e. cc e, ground arith)
]

key_at : Option PathOf → Option Text → Option Text
key_at none tier = none
key_at (some parts) tier = key_of_parts tier parts

build-key_at :
    (path root : PathOf) (tier : Option Text)
    → build_nas_key path root tier ≡ key_at (relative_to root path) tier
unfolding build_nas_key key_at
build-key_at path root tier = elim (Option-cases (relative_to root path)) [
  | inl outside ↦ rw (outside, build_nas_key, key_at) refl
  | inr (parts, found) ↦ rw (found, build_nas_key, key_at) refl
]

key_at-parts :
    (o : Option PathOf) (tier : Option Text) (key : Text)
    → key_at o tier ≡ some key
    → (parts : PathOf) × (o ≡ some parts) × (parts ≢ []) × (key ≡ as_posix parts)
unfolding key_at
key_at-parts none tier key h = absurd (ground arith)
key_at-parts (some parts) tier key h =
    let (there, made) = key-parts tier parts key h in (parts, refl, there, made)

-- A key is made of a file below the root.
key-below :
    (path root : PathOf) (tier : Option Text) (key : Text)
    → build_nas_key path root tier ≡ some key
    → (parts : PathOf) × (path ≡ root ++ parts) × (parts ≢ []) × (key ≡ as_posix parts)
key-below path root tier key h =
    let (parts, found, there, made) =
      key_at-parts (relative_to root path) tier key (sym (build-key_at path root tier) ∙ h) in
    (parts, relative_to-found root path parts found, there, made)

All-behind : (root parts : PathOf) → All (Without b'/') (root ++ parts) → All (Without b'/') parts
All-behind [] parts h = h
All-behind (r ∷ rs) parts h = All-behind rs parts h.1

posix-split :
    (parts : PathOf) → parts ≢ [] → All (Without b'/') parts → split b'/' (as_posix parts) ≡ parts
unfolding as_posix
posix-split [] there h = absurd (there refl)
posix-split (p ∷ ps) there h = split-join b'/' p ps h

-- A key that build_nas_key makes of a path whose parts have no slash gives the path back: it is the
-- root followed by the parts of the key. So no two files below a root have the same key, whatever
-- tiers are asked for.
pub build_nas_key-split :
    (path root : PathOf) (tier : Option Text) (key : Text)
    → All (Without b'/') path
    → build_nas_key path root tier ≡ some key
    → path ≡ root ++ split b'/' key
build_nas_key-split path root tier key plain h =
    let (parts, below, there, made) = key-below path root tier key h in
    let clean : All (Without b'/') parts =
      All-behind root parts (subst (All (Without b'/')) below plain) in
    below ∙ ap (λ z. root ++ z) (sym (ap (split b'/') made ∙ posix-split parts there clean))

canonical-of_legacy : (key : Text) → legacy_key_to_canonical (codes "l1/" ++ key) ≡ key
unfolding legacy_key_to_canonical
canonical-of_legacy key = rw (strip_prefix-append (codes "l1/") key, legacy_key_to_canonical) refl

canonical-of_flat :
    (key : Text) → strip_prefix (codes "l1/") key ≡ none → legacy_key_to_canonical key ≡ key
unfolding legacy_key_to_canonical
canonical-of_flat key h = rw (h, legacy_key_to_canonical) refl

legacy-below :
    (root parts : PathOf) → build_legacy_nas_key (root ++ parts) root ≡ legacy_key_of_parts parts
unfolding build_legacy_nas_key
legacy-below root parts = rw (relative_to-below root parts, build_legacy_nas_key) refl

pub flat-below :
    (root parts : PathOf) → build_nas_key (root ++ parts) root none ≡ key_of_parts none parts
unfolding build_nas_key
flat-below root parts = rw (relative_to-below root parts, build_nas_key) refl

canonical-parts :
    (parts : PathOf)
    → strip_prefix (codes "l1/") (as_posix parts) ≡ none
    → option_map legacy_key_to_canonical (legacy_key_of_parts parts) ≡ key_of_parts none parts
unfolding legacy_key_of_parts key_of_parts tier_mismatch
canonical-parts [] h = refl
canonical-parts (p ∷ ps) h = elim (Bool-cases (is_level1 (extract_tier (p ∷ ps)))) [
  | inl first ↦ rw first (ap some (canonical-of_legacy (as_posix (p ∷ ps))))
  | inr later ↦ rw later (ap some (canonical-of_flat (as_posix (p ∷ ps)) h))
]

-- For a file below the root whose relative path does not begin with "l1/": the legacy key, made
-- canonical, is the flat key, and neither is made for the root itself.
pub legacy_key-Canonical :
    (root parts : PathOf)
    → strip_prefix (codes "l1/") (as_posix parts) ≡ none
    → option_map legacy_key_to_canonical (build_legacy_nas_key (root ++ parts) root)
      ≡ build_nas_key (root ++ parts) root none
legacy_key-Canonical root parts h =
    ap (option_map legacy_key_to_canonical) (legacy-below root parts)
    ∙ canonical-parts parts h
    ∙ sym (flat-below root parts)
