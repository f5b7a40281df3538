-- ===== src/Prelude/Ordered.antt =====
-- Python's `OrderedDict` as a cache uses it: the keys are distinct, the sizes of the values are
-- added up, and an entry can be moved to the end.
use Prim.Native.Nat.{ℕ, ◌+◌}
use mathlib.Core.Path.{◌≡◌, refl}
use mathlib.Core.Option.{none, some}
use mathlib.Core.List.{[], ◌∷◌, ◌++◌}
use native.Mathlib.Omega.{arith}
use mctrader_data.Prelude.Tests.{if◌then◌else◌}
use mctrader_data.Prelude.Dict.{Eq, Dict, lookup, erase, beq_refl, lookup-erase, lookup-append}

module _ {ℓ κ} {K : Type ℓ} ⦃e : Eq K⦄ {V : Type κ} where
  -- d[k] = v for a key that is not there, or was moved to the end
  abbrev pub move_to_end : K → V → Dict K V → Dict K V
  move_to_end k v d = erase k d ++ (k, v) ∷ []

  -- No key has two entries.
  unfoldable pub Distinct : Dict K V → Type κ
  Distinct [] = Unit
  Distinct ((k, v) ∷ d) = (lookup k d ≡ none) × Distinct d

  module _ (size : V → ℕ) where
    abbrev pub total : Dict K V → ℕ
    total [] = 0
    total ((k, v) ∷ d) = size v + total d

    pub total-append : (d c : Dict K V) → total (d ++ c) ≡ total d + total c
    total-append [] c = omega arith
    total-append ((k, v) ∷ d) c = omega (arith, total-append d c)

  pub erase_absent : (k : K) (d : Dict K V) → lookup k d ≡ none → erase k d ≡ d
  unfolding lookup erase
  erase_absent k [] h = refl
  erase_absent k ((j, w) ∷ d) h = ground (arith, erase_absent k d)

  pub total-erase :
      (size : V → ℕ) (k : K) (v : V) (d : Dict K V)
      → Distinct d
      → lookup k d ≡ some v
      → size v + total size (erase k d) ≡ total size d
  unfolding lookup erase Distinct
  total-erase size k v [] u h = ground arith
  total-erase size k v ((j, w) ∷ d) u h =
      ground (arith, total-erase size k v d u.1, e.beq_iff j k, erase_absent k d)

  pub Distinct-erase : (k : K) (d : Dict K V) → Distinct d → Distinct (erase k d)
  unfolding Distinct erase
  Distinct-erase k [] u = u
  Distinct-erase k ((j, w) ∷ d) u = ground (arith, lookup-erase k j d, Distinct-erase k d u.1)

  pub Distinct-snoc :
      (k : K) (v : V) (d : Dict K V) → Distinct d → lookup k d ≡ none → Distinct (d ++ (k, v) ∷ [])
  unfolding Distinct lookup
  Distinct-snoc k v [] u h = (refl, tt)
  Distinct-snoc k v ((j, w) ∷ d) u h = ground (
    arith,
    Distinct-snoc k v d u.1,
    lookup-append j d ((k, v) ∷ []),
    e.beq_iff j k,
    e.beq_iff k j,
  )

  pub lookup-move_to_end : (k : K) (v : V) (d : Dict K V) → lookup k (move_to_end k v d) ≡ some v
  unfolding lookup
  lookup-move_to_end k v d =
      rw (lookup-append, lookup-erase k k d, beq_refl k) (rw (beq_refl k) refl)

  pub lookup-move :
      (k j : K) (v : V) (d : Dict K V)
      → lookup j (move_to_end k v d) ≡ (if e.beq k j then some v else lookup j d)
  unfolding lookup
  lookup-move k j v d =
      ground (arith, lookup-append j (erase k d) ((k, v) ∷ []), lookup-erase k j d, e.beq_iff k j)
