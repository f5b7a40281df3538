-- ===== src/Prelude/Dict.antt =====
-- Python's `dict` and `OrderedDict` as lists of entries, the oldest first. A write to a key that
-- is there keeps the entry's place; `del` removes the key's entry.
use Prim.Native.Nat.{ℕ}
use Prim.Native.String.{String}
use mathlib.Core.Path.{◌≡◌, refl}
use mathlib.Core.Logic.{◌↔◌}
use mathlib.Core.Bool.{Bool, true, false}
use mathlib.Core.Option.{Option, none, some}
use mathlib.Core.List.{List, [], ◌∷◌, ◌++◌}
use native.Mathlib.Omega.{arith}
use text.Mathlib.Text.{◌==◌ as str_eq}
use text.Mathlib.TextEquality.{eq_iff}
use mctrader_data.Prelude.Tests.{◌==◌, if◌then◌else◌}

-- Equality of keys.
pub record Eq {ℓ} (K : Type ℓ) : Type ℓ where
  pub beq : K → K → Bool
  pub beq_iff : (a b : K) → (beq a b ≡ true) ↔ (a ≡ b)

pub num_iff : (a b : ℕ) → (a == b ≡ true) ↔ (a ≡ b)
num_iff a b = (λ h. ground arith, λ h. ground arith)

instance abbrev pub num_eq : Eq ℕ
num_eq = record { beq = ◌==◌; beq_iff = num_iff }

instance abbrev pub string_eq : Eq String
string_eq = record { beq = str_eq; beq_iff = eq_iff }

abbrev pub Dict {ℓ κ} : Type ℓ → Type κ → Type (ℓ ⊔ κ)
Dict K V = List (K × V)

module _ {ℓ κ} {K : Type ℓ} ⦃e : Eq K⦄ {V : Type κ} where
  -- d.get(k)
  unfoldable pub lookup : K → Dict K V → Option V
  lookup k [] = none
  lookup k ((j, v) ∷ d) = if e.beq j k then some v else lookup k d

  -- d[k] = v
  unfoldable pub insert : K → V → Dict K V → Dict K V
  insert k v [] = (k, v) ∷ []
  insert k v ((j, w) ∷ d) = if e.beq j k then (j, v) ∷ d else (j, w) ∷ insert k v d

  -- del d[k], d.pop(k, None)
  unfoldable pub erase : K → Dict K V → Dict K V
  erase k [] = []
  erase k ((j, w) ∷ d) = let rest = erase k d in if e.beq j k then rest else (j, w) ∷ rest

  pub lookup-insert :
      (k j : K) (v : V) (d : Dict K V)
      → lookup j (insert k v d) ≡ (if e.beq k j then some v else lookup j d)
  unfolding lookup insert
  lookup-insert k j v [] = refl
  lookup-insert k j v ((i, w) ∷ d) =
      ground (arith, e.beq_iff k j, e.beq_iff i k, e.beq_iff i j, lookup-insert k j v d)

  pub lookup-erase :
      (k j : K) (d : Dict K V) → lookup j (erase k d) ≡ (if e.beq k j then none else lookup j d)
  unfolding lookup erase
  lookup-erase k j [] = ground arith
  lookup-erase k j ((i, w) ∷ d) =
      ground (arith, e.beq_iff k j, e.beq_iff i k, e.beq_iff i j, lookup-erase k j d)

  pub lookup-append :
      (k : K) (d c : Dict K V)
      → lookup k (d ++ c) ≡ elim (lookup k d) [ none ↦ lookup k c | some v ↦ some v ]
  unfolding lookup
  lookup-append k [] c = refl
  lookup-append k ((j, w) ∷ d) c = ground (arith, lookup-append k d c)

pub beq_refl {ℓ} : {K : Type ℓ} ⦃e : Eq K⦄ (k : K) → e.beq k k ≡ true
beq_refl ⦃e⦄ k = (e.beq_iff k k).1 refl

module _ {ℓ κ} {K : Type ℓ} ⦃e : Eq K⦄ {V : Type κ} where
  pub lookup-insert_self : (k : K) (v : V) (d : Dict K V) → lookup k (insert k v d) ≡ some v
  lookup-insert_self k v d = rw (lookup-insert k k v d, beq_refl k)

  pub lookup-erase_self : (k : K) (d : Dict K V) → lookup k (erase k d) ≡ none
  lookup-erase_self k d = rw (lookup-erase k k d, beq_refl k)

-- Keys that are tuples, and keys that may be `None`.
unfoldable pub pair_beq {ℓ κ} :
    {A : Type ℓ} {B : Type κ} ⦃a : Eq A⦄ ⦃b : Eq B⦄ → A × B → A × B → Bool
pair_beq ⦃a⦄ ⦃b⦄ p q = if a.beq p.0 q.0 then b.beq p.1 q.1 else false

pub pair_iff {ℓ κ} :
    {A : Type ℓ} {B : Type κ} ⦃a : Eq A⦄ ⦃b : Eq B⦄ (p q : A × B) → (pair_beq p q ≡ true) ↔ (p ≡ q)
unfolding pair_beq
pair_iff ⦃a⦄ ⦃b⦄ (x, y) (z, w) = (
  λ h. ground (arith, a.beq_iff x z, b.beq_iff y w),
  λ h. ground (arith, a.beq_iff x z, b.beq_iff y w),
)

instance abbrev pub pair_eq {ℓ κ} : {A : Type ℓ} {B : Type κ} ⦃a : Eq A⦄ ⦃b : Eq B⦄ → Eq (A × B)
pair_eq ⦃a⦄ ⦃b⦄ = record { beq = pair_beq; beq_iff = pair_iff }
