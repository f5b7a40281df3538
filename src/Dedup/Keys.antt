-- ===== src/Dedup/Keys.antt =====
-- A dictionary of rows by their keys: what its values hold.
use mctrader_data.Prelude.{
  ◌+◌, ◌≡◌, refl, Bool, true, false, none, some, [], ◌∷◌, arith, if◌then◌else◌, All, length,
}
use mctrader_data.Prelude.Dict.{Eq, Dict, lookup, insert, lookup-insert, beq_refl}
use mctrader_data.Prelude.Ordered.{Distinct}
use mctrader_data.Prelude.Sort.{count}
use mctrader_data.Dedup.{values}

module _ {K R : Type 0} ⦃e : Eq K⦄ where
  unfoldable pub has : K → Dict K R → Bool
  has k d = elim (lookup k d) [ none ↦ false | some _ ↦ true ]

  pub has-insert :
      (k j : K) (r : R) (d : Dict K R)
      → has j (insert k r d) ≡ (if e.beq k j then true else has j d)
  unfolding has
  has-insert k j r d = ground (arith, lookup-insert k j r d)

  pub Distinct-insert : (k : K) (r : R) (d : Dict K R) → Distinct d → Distinct (insert k r d)
  unfolding Distinct insert lookup
  Distinct-insert k r [] h = (refl, tt)
  Distinct-insert k r ((j, v) ∷ d) h =
      ground (arith, Distinct-insert k r d h.1, lookup-insert k j r d, e.beq_iff j k, e.beq_iff k j)

  pub length-insert :
      (k : K) (r : R) (d : Dict K R)
      → length (insert k r d) ≡ (if has k d then length d else length d + 1)
  unfolding insert has lookup
  length-insert k r [] = refl
  length-insert k r ((j, v) ∷ d) = ground (arith, length-insert k r d, e.beq_iff j k)

  pub length-values : (d : Dict K R) → length (values d) ≡ length d
  unfolding values
  length-values [] = refl
  length-values ((j, v) ∷ d) = omega (arith, length-values d)

  module _ (key : R → K) where
    -- Each row stands under its own key, and no key is there twice.
    pub record IsKeyed (d : Dict K R) : Type 0 where
      pub keyed : All (λ x. key x.1 ≡ x.0) d
      pub distinct : Distinct d

    keyed-insert :
        (r : R) (d : Dict K R)
        → All (λ x. key x.1 ≡ x.0) d
        → All (λ x. key x.1 ≡ x.0) (insert (key r) r d)
    unfolding insert
    keyed-insert r [] h = (refl, tt)
    keyed-insert r ((j, v) ∷ d) h = ground (arith, keyed-insert r d h.1, e.beq_iff j (key r))

    pub IsKeyed-insert : (r : R) (d : Dict K R) → IsKeyed d → IsKeyed (insert (key r) r d)
    IsKeyed-insert r d h = record {
      keyed = keyed-insert r d h.keyed;
      distinct = Distinct-insert (key r) r d h.distinct;
    }

    -- One value for each key that is there.
    pub count-values :
        (k : K) (d : Dict K R)
        → IsKeyed d
        → count (λ r. e.beq (key r) k) (values d) ≡ (if has k d then 1 else 0)
    unfolding values has lookup Distinct
    count-values k [] h = refl
    count-values k ((j, v) ∷ d) h =
        let rest = count-values k d (record { keyed = h.keyed.1; distinct = h.distinct.1 }) in
        rw h.keyed.0 (ground (arith, e.beq_iff j k))

    lookup_cons :
        (j : K) (v : R) (d c : Dict K R)
        → lookup j d ≡ none
        → All (λ x. lookup x.0 d ≡ some x.1) c
        → All (λ x. lookup x.0 ((j, v) ∷ d) ≡ some x.1) c
    unfolding lookup
    lookup_cons j v d [] h k = tt
    lookup_cons j v d ((i, w) ∷ c) h k =
        (ground (arith, e.beq_iff j i, k.0), lookup_cons j v d c h k.1)

    entries_found : (d : Dict K R) → Distinct d → All (λ x. lookup x.0 d ≡ some x.1) d
    unfolding Distinct lookup
    entries_found [] h = tt
    entries_found ((j, v) ∷ d) h =
        (rw (beq_refl j) refl, lookup_cons j v d d h.0 (entries_found d h.1))

    values_found :
        (d c : Dict K R)
        → All (λ x. lookup x.0 c ≡ some x.1) d
        → All (λ x. key x.1 ≡ x.0) d
        → All (λ r. lookup (key r) c ≡ some r) (values d)
    unfolding values
    values_found [] c h k = tt
    values_found ((j, v) ∷ d) c h k = (rw k.0 h.0, values_found d c h.1 k.1)

    -- Each value is what its key finds.
    pub found_values : (d : Dict K R) → IsKeyed d → All (λ r. lookup (key r) d ≡ some r) (values d)
    found_values d h = values_found d d (entries_found d h.distinct) h.keyed

    key_of_found :
        (k : K) (r : R) (d : Dict K R)
        → All (λ x. key x.1 ≡ x.0) d
        → lookup k d ≡ some r
        → key r ≡ k
    unfolding lookup
    key_of_found k r [] h found = absurd (ground arith)
    key_of_found k r ((j, v) ∷ d) h found =
        ground (arith, key_of_found k r d h.1, e.beq_iff j k, h.0)

    -- A row that is found has the key that it was looked for by.
    pub found_key : (k : K) (r : R) (d : Dict K R) → IsKeyed d → lookup k d ≡ some r → key r ≡ k
    found_key k r d h found = key_of_found k r d h.keyed found
