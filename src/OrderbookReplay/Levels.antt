-- ===== src/OrderbookReplay/Levels.antt =====
-- The sorted levels of one side, and what a row does to the levels of its side.
use mctrader_data.Prelude.{
  if-cases, subst, ℕ, ◌≡◌, ◌⊎◌, refl, inl, inr, Bool, true, false, none, some, List, [], ◌∷◌, ◌==◌,
  leb, if◌then◌else◌, arith, All, Bool-cases,
}
use mctrader_data.Prelude.Integers.{ℤ, is_zero, is_positive}
use mctrader_data.Prelude.Dict.{Dict, num_eq, lookup, insert, erase, lookup-insert, lookup-erase}
use mctrader_data.Prelude.Ordered.{Distinct, Distinct-erase}
use mctrader_data.OrderbookReplay.{
  Event, snapshot, delta, insert_level, sort_levels, place, apply_delta, apply_snapshot,
}

-- To split on the kind of an event and keep the equation.
pub kind_of : (e : Event) → (e.event_type ≡ delta) ⊎ (e.event_type ≡ snapshot)
kind_of e = elim e.event_type as (λ t. (t ≡ delta) ⊎ (t ≡ snapshot)) [
  | delta ↦ inl refl
  | snapshot ↦ inr refl
]

-- Each level stands strictly before the later ones.
abbrev pub Strict : (ℕ → ℕ → Bool) → List (ℕ × ℤ) → Type 0
Strict le [] = Unit
Strict le (x ∷ xs) = All (λ y. le y.0 x.0 ≡ false) xs × Strict le xs

-- A total order of prices.
pub record TotalOrder (le : ℕ → ℕ → Bool) : Type 0 where
  pub antisym : (a b : ℕ) → le a b ≡ true → le b a ≡ true → a ≡ b
  pub transitive : (a b c : ℕ) → le a b ≡ true → le b c ≡ true → le a c ≡ true

pub upwards-TotalOrder : TotalOrder (λ a b. leb a b)
upwards-TotalOrder = record {
  antisym = λ a b h k. ground arith;
  transitive = λ a b c h k. ground arith;
}

pub downwards-TotalOrder : TotalOrder (λ a b. leb b a)
downwards-TotalOrder = record {
  antisym = λ a b h k. ground arith;
  transitive = λ a b c h k. ground arith;
}

module _ (le : ℕ → ℕ → Bool) where
  lookup-insert_level :
      (k j : ℕ) (v : ℤ) (d : Dict ℕ ℤ)
      → lookup k d ≡ none
      → lookup j (insert_level le (k, v) d) ≡ (if k == j then some v else lookup j d)
  unfolding insert_level lookup
  lookup-insert_level k j v [] h = refl
  lookup-insert_level k j v ((i, w) ∷ d) h = ground (arith, lookup-insert_level k j v d)

  -- Sorting keeps what each price leads to.
  pub lookup-sort_levels :
      (j : ℕ) (d : Dict ℕ ℤ) → Distinct d → lookup j (sort_levels le d) ≡ lookup j d
  unfolding sort_levels lookup Distinct
  lookup-sort_levels j [] u = refl
  lookup-sort_levels j ((k, v) ∷ d) u = ground (
    arith,
    lookup-insert_level k j v (sort_levels le d),
    lookup-sort_levels j d u.1,
    lookup-sort_levels k d u.1,
  )

  All-insert_level :
      (P : ℕ × ℤ → Type 0) (x : ℕ × ℤ) (xs : List (ℕ × ℤ))
      → P x
      → All P xs
      → All P (insert_level le x xs)
  unfolding insert_level
  All-insert_level P x [] h k = (h, tt)
  All-insert_level P x (y ∷ ys) h k = elim (Bool-cases (le x.0 y.0)) [
    | inl before ↦ rw before (h, k)
    | inr after ↦ rw after (k.0, All-insert_level P x ys h k.1)
  ]

  module _ (order : TotalOrder le) where
    not_before : (a b c : ℕ) → le a b ≡ true → le c b ≡ false → le c a ≡ false
    not_before a b c h k = elim (Bool-cases (le c a)) [
      | inr differs ↦ differs
      | inl below ↦ absurd (cc (order.transitive c a b below h, k))
    ]

    All-before :
        (a b : ℕ) (xs : List (ℕ × ℤ))
        → le a b ≡ true
        → All (λ y. le y.0 b ≡ false) xs
        → All (λ y. le y.0 a ≡ false) xs
    All-before a b [] h k = tt
    All-before a b (x ∷ xs) h k = (not_before a b x.0 h k.0, All-before a b xs h k.1)

    Strict-insert_level :
        (k : ℕ) (v : ℤ) (d : Dict ℕ ℤ)
        → lookup k d ≡ none
        → Strict le d
        → Strict le (insert_level le (k, v) d)
    unfolding insert_level lookup
    Strict-insert_level k v [] h s = (tt, tt)
    Strict-insert_level k v ((i, w) ∷ d) h s = elim (Bool-cases (le k i)) [
      | inl before ↦ rw before (elim (Bool-cases (le i k)) [
        | inl after ↦ absurd (let same : k ≡ i = order.antisym k i before after in ground arith)
        | inr strictly ↦ ((strictly, All-before k i d before s.0), s)
      ])
      | inr after ↦
          let below : lookup k d ≡ none = ground arith in
          rw after (
            All-insert_level (λ y. le y.0 i ≡ false) (k, v) d after s.0,
            Strict-insert_level k v d below s.1,
          )
    ]

    pub Strict-sort_levels : (d : Dict ℕ ℤ) → Distinct d → Strict le (sort_levels le d)
    unfolding sort_levels Distinct
    Strict-sort_levels [] u = tt
    Strict-sort_levels ((k, v) ∷ d) u =
        Strict-insert_level k v (sort_levels le d) (rw (lookup-sort_levels k d u.1) u.0)
          (Strict-sort_levels d u.1)

Distinct-insert : (k : ℕ) (v : ℤ) (d : Dict ℕ ℤ) → Distinct d → Distinct (insert k v d)
unfolding insert lookup Distinct
Distinct-insert k v [] u = (refl, tt)
Distinct-insert k v ((j, w) ∷ d) u =
    ground (arith, lookup-insert k j v d, Distinct-insert k v d u.1)

-- No price stands twice, and every quantity is allowed by `P`.
pub record IsSide (P : ℤ → Type 0) (d : Dict ℕ ℤ) : Type 0 where
  pub distinct : Distinct d
  pub allowed : (p : ℕ) (q : ℤ) → lookup p d ≡ some q → P q

module _ (P : ℤ → Type 0) where
  pub empty-IsSide : IsSide P []
  unfolding lookup Distinct
  empty-IsSide = record { distinct = tt; allowed = λ p q h. absurd (ground arith) }

  insert-IsSide :
      (price : ℕ) (quantity : ℤ) (d : Dict ℕ ℤ)
      → P quantity
      → IsSide P d
      → IsSide P (insert price quantity d)
  insert-IsSide price quantity d ok h = record {
    distinct = Distinct-insert price quantity d h.distinct;
    allowed = λ p q e. elim (Bool-cases (price == p)) [
      | inl same ↦
          let is_new : quantity ≡ q = ground (arith, lookup-insert price p quantity d) in
          subst P is_new ok
      | inr other ↦ h.allowed p q (ground (arith, lookup-insert price p quantity d))
    ];
  }

  erase-IsSide : (price : ℕ) (d : Dict ℕ ℤ) → IsSide P d → IsSide P (erase price d)
  erase-IsSide price d h = record {
    distinct = Distinct-erase price d h.distinct;
    allowed = λ p q e. h.allowed p q (ground (arith, lookup-erase price p d));
  }

  pub place-IsSide :
      (positives : (q : ℤ) → is_positive q ≡ true → P q) (price : ℕ) (quantity : ℤ) (d : Dict ℕ ℤ)
      → IsSide P d
      → IsSide P (place price quantity d)
  unfolding place
  place-IsSide positives price quantity d h =
      if-cases (IsSide P) (is_positive quantity) _ _
        (λ above. insert-IsSide price quantity d (positives quantity above) h) (λ not_above. h)

  pub apply_delta-IsSide :
      (price : ℕ) (quantity : ℤ)
      → (is_zero quantity ≡ false → P quantity)
      → (d : Dict ℕ ℤ) → IsSide P d
      → IsSide P (apply_delta price quantity d)
  unfolding apply_delta
  apply_delta-IsSide price quantity ok d h =
      if-cases (IsSide P) (is_zero quantity) _ _ (λ gone. erase-IsSide price d h)
        (λ there. insert-IsSide price quantity d (ok there) h)

  pub apply_snapshot-IsSide :
      (positives : (q : ℤ) → is_positive q ≡ true → P q) (same : Bool) (price : ℕ) (quantity : ℤ)
      (d : Dict ℕ ℤ)
      → IsSide P d
      → IsSide P (apply_snapshot same price quantity d)
  unfolding apply_snapshot
  apply_snapshot-IsSide positives true price quantity d h =
      place-IsSide positives price quantity d h
  apply_snapshot-IsSide positives false price quantity d h =
      place-IsSide positives price quantity [] empty-IsSide
