-- ===== src/OrderbookReplay/Valid.antt =====
-- What a rebuilt order book looks like.
use mctrader_data.Prelude.{
  refl, ◌⊎◌, true, ℕ, ◌+◌, ◌<◌, ◌≡◌, inl, inr, Bool, false, some, List, [], ◌∷◌, ◌==◌, ltb, subst,
  leb, arith, All, Bool-cases, Option-cases,
}
use mctrader_data.Prelude.Integers.{ℤ, is_zero, is_positive}
use mctrader_data.Prelude.Dict.{Dict, num_eq, lookup}
use mctrader_data.OrderbookReplay.{
  delta, Side, bid, ask, Event, Snap, Book, Replay, rebuilt, no_events, missing_baseline,
  gap_detected, non_monotonic, Folded, folded, gap, backwards, empty_book, update_side, place,
  apply_delta, apply_snapshot, fold_event, fold_forward, sort_levels, upwards, downwards, to_result,
  best_seq, group_of, book_of, baseline_of_group, load_baseline, from_first_delta,
  from_first_snapshot, take_baseline, replay_from, legacy_replay, legacy, get_orderbook_at,
}
use mctrader_data.OrderbookReplay.Levels.{
  kind_of, IsSide, empty-IsSide, place-IsSide, apply_delta-IsSide, apply_snapshot-IsSide, Strict,
  upwards-TotalOrder, downwards-TotalOrder, Strict-sort_levels, lookup-sort_levels,
}

pub record IsBook (P : ℤ → Type 0) (b : Book) : Type 0 where
  pub bids_valid : IsSide P b.bids
  pub asks_valid : IsSide P b.asks

-- Prices strictly downwards and upwards.
abbrev pub Descending : List (ℕ × ℤ) → Type 0
Descending [] = Unit
Descending (x ∷ xs) = All (λ y. y.0 < x.0) xs × Descending xs

abbrev pub Ascending : List (ℕ × ℤ) → Type 0
Ascending [] = Unit
Ascending (x ∷ xs) = All (λ y. x.0 < y.0) xs × Ascending xs

abbrev pub Allowed : (ℤ → Type 0) → List (ℕ × ℤ) → Type 0
Allowed P xs = (p : ℕ) (q : ℤ) → lookup p xs ≡ some q → P q

abbrev pub IsProperFor : (ℤ → Type 0) → Replay → Type 0
IsProperFor P (rebuilt bids asks) =
    (Descending bids × Allowed P bids) × (Ascending asks × Allowed P asks)
IsProperFor P no_events = Unit
IsProperFor P missing_baseline = Unit
IsProperFor P gap_detected = Unit
IsProperFor P non_monotonic = Unit

-- A delta that is not zero has a quantity that `P` allows.
abbrev pub DeltasAllowed : (ℤ → Type 0) → List Event → Type 0
DeltasAllowed P es = All (λ e. e.event_type ≡ delta → is_zero e.quantity ≡ false → P e.quantity) es

below_levels :
    (a : ℕ) (xs : List (ℕ × ℤ)) → All (λ y. downwards y.0 a ≡ false) xs → All (λ y. y.0 < a) xs
below_levels a [] h = tt
below_levels a (x ∷ xs) h = (ground (arith, h.0), below_levels a xs h.1)

above_levels :
    (a : ℕ) (xs : List (ℕ × ℤ)) → All (λ y. upwards y.0 a ≡ false) xs → All (λ y. a < y.0) xs
above_levels a [] h = tt
above_levels a (x ∷ xs) h = (ground (arith, h.0), above_levels a xs h.1)

Strict-Descending : (xs : List (ℕ × ℤ)) → Strict (λ a b. leb b a) xs → Descending xs
Strict-Descending [] h = tt
Strict-Descending (x ∷ xs) h = (below_levels x.0 xs h.0, Strict-Descending xs h.1)

Strict-Ascending : (xs : List (ℕ × ℤ)) → Strict (λ a b. leb a b) xs → Ascending xs
Strict-Ascending [] h = tt
Strict-Ascending (x ∷ xs) h = (above_levels x.0 xs h.0, Strict-Ascending xs h.1)

module _ (P : ℤ → Type 0) (positives : (q : ℤ) → is_positive q ≡ true → P q) where
  -- The events that are folded are events of the day.
  from_first_delta-DeltasAllowed :
      (t : ℕ) (es : List Event) → DeltasAllowed P es → DeltasAllowed P (from_first_delta t es)
  unfolding from_first_delta
  from_first_delta-DeltasAllowed t [] a = tt
  from_first_delta-DeltasAllowed t (e ∷ es) a = elim (kind_of e) [
    | inr s ↦ rw (s, from_first_delta) (from_first_delta-DeltasAllowed t es a.1)
    | inl d ↦ elim (Bool-cases (ltb t e.ts)) [
      | inl later ↦ rw (d, later, from_first_delta) a
      | inr early ↦ rw (d, early, from_first_delta) (from_first_delta-DeltasAllowed t es a.1)
    ]
  ]

  from_first_snapshot-DeltasAllowed :
      (es : List Event) → DeltasAllowed P es → DeltasAllowed P (from_first_snapshot es)
  unfolding from_first_snapshot
  from_first_snapshot-DeltasAllowed [] a = tt
  from_first_snapshot-DeltasAllowed (e ∷ es) a = elim (kind_of e) [
    | inl d ↦ rw (d, from_first_snapshot) (from_first_snapshot-DeltasAllowed es a.1)
    | inr s ↦ rw (s, from_first_snapshot) a
  ]

  take_baseline-DeltasAllowed :
      (t : ℕ) (es : List Event) (b : Book)
      → DeltasAllowed P es
      → DeltasAllowed P (take_baseline t es b).1
  unfolding take_baseline
  take_baseline-DeltasAllowed t [] b a = tt
  take_baseline-DeltasAllowed t (e ∷ es) b a = elim (kind_of e) [
    | inl d ↦ rw (d, take_baseline) a
    | inr s ↦ elim (Bool-cases (e.ts == t)) [
      | inr later ↦ rw (s, later, take_baseline) a
      | inl same ↦ rw (s, same, take_baseline) (take_baseline-DeltasAllowed t es _ a.1)
    ]
  ]

  sorted-Allowed : (le : ℕ → ℕ → Bool) (d : Dict ℕ ℤ) → IsSide P d → Allowed P (sort_levels le d)
  sorted-Allowed le d h p q e = h.allowed p q (rw⁻¹ (lookup-sort_levels le p d h.distinct) e)

  pub empty_book-IsBook : IsBook P empty_book
  empty_book-IsBook = record { bids_valid = empty-IsSide P; asks_valid = empty-IsSide P }

  update_side-IsBook :
      (s : Side) (f : Dict ℕ ℤ → Dict ℕ ℤ) (b : Book)
      → ((d : Dict ℕ ℤ) → IsSide P d → IsSide P (f d))
      → IsBook P b
      → IsBook P (update_side s f b)
  unfolding update_side
  update_side-IsBook bid f b keeps h = record {
    bids_valid = keeps b.bids h.bids_valid;
    asks_valid = h.asks_valid;
  }
  update_side-IsBook ask f b keeps h = record {
    bids_valid = h.bids_valid;
    asks_valid = keeps b.asks h.asks_valid;
  }

  fold_event-IsBook :
      (baseline_ts last_ts : ℕ) (e : Event) (b : Book)
      → (e.event_type ≡ delta → is_zero e.quantity ≡ false → P e.quantity)
      → IsBook P b
      → IsBook P (fold_event baseline_ts last_ts e b)
  unfolding fold_event
  fold_event-IsBook baseline_ts last_ts e b ok h = elim (kind_of e) [
    | inl d ↦
        rw (d, fold_event)
          (update_side-IsBook e.side (apply_delta e.price e.quantity) b
            (apply_delta-IsSide P e.price e.quantity (ok d)) h)
    | inr s ↦ elim (Bool-cases (e.ts == baseline_ts)) [
      | inl same ↦ rw (s, same, fold_event) h
      | inr later ↦
          rw (s, later, fold_event)
            (update_side-IsBook e.side (apply_snapshot (last_ts == e.ts) e.price e.quantity) b
              (apply_snapshot-IsSide P positives (last_ts == e.ts) e.price e.quantity) h)
    ]
  ]

  abbrev pub IsFolded : Folded → Type 0
  IsFolded (folded b) = IsBook P b
  IsFolded gap = Unit
  IsFolded backwards = Unit

  pub fold_forward-IsFolded :
      (baseline_ts ts_utc threshold last_ts : ℕ) (es : List Event) (b : Book)
      → DeltasAllowed P es
      → IsBook P b
      → IsFolded (fold_forward baseline_ts ts_utc threshold last_ts es b)
  unfolding fold_forward
  fold_forward-IsFolded baseline_ts ts_utc threshold last_ts [] b a h = h
  fold_forward-IsFolded baseline_ts ts_utc threshold last_ts (e ∷ es) b a h =
      elim (Bool-cases (ltb ts_utc e.ts)) [
        | inl over ↦ rw over h
        | inr within ↦ elim (Bool-cases (ltb (last_ts + threshold) e.ts)) [
          | inl far ↦ rw (within, far) tt
          | inr near ↦ elim (Bool-cases (ltb e.ts last_ts)) [
            | inl back ↦ rw (within, near, back) tt
            | inr on ↦
                rw (within, near, on)
                  (fold_forward-IsFolded baseline_ts ts_utc threshold e.ts es
                    (fold_event baseline_ts last_ts e b) a.1
                    (fold_event-IsBook baseline_ts last_ts e b a.0 h))
          ]
        ]
      ]

  to_result-IsProperFor : (f : Folded) → IsFolded f → IsProperFor P (to_result f)
  unfolding to_result
  to_result-IsProperFor (folded b) h = (
    (
      Strict-Descending _
          (Strict-sort_levels (λ x y. leb y x) downwards-TotalOrder b.bids h.bids_valid.distinct),
      sorted-Allowed downwards b.bids h.bids_valid,
    ),
    (
      Strict-Ascending _
          (Strict-sort_levels (λ x y. leb x y) upwards-TotalOrder b.asks h.asks_valid.distinct),
      sorted-Allowed upwards b.asks h.asks_valid,
    ),
  )
  to_result-IsProperFor gap h = tt
  to_result-IsProperFor backwards h = tt

  book_of-IsBook : (rows : List Snap) (b : Book) → IsBook P b → IsBook P (book_of rows b)
  unfolding book_of
  book_of-IsBook [] b h = h
  book_of-IsBook (r ∷ rs) b h =
      book_of-IsBook rs (update_side r.side (place r.price r.quantity) b) (
        update_side-IsBook r.side (place r.price r.quantity) b
          (place-IsSide P positives r.price r.quantity) h)

  pub baseline_of_group-IsBook :
      (rows : List Snap) (base : ℕ × Book) → baseline_of_group rows ≡ some base → IsBook P base.1
  unfolding baseline_of_group
  baseline_of_group-IsBook [] base e = absurd (ground arith)
  baseline_of_group-IsBook (r ∷ rs) base e =
      let made : (r.ts, book_of (r ∷ rs) empty_book) ≡ base = ground arith in
      subst (λ x. IsBook P x.1) made (book_of-IsBook (r ∷ rs) empty_book empty_book-IsBook)

  pub take_baseline-IsBook :
      (baseline_ts : ℕ) (es : List Event) (b : Book)
      → IsBook P b
      → IsBook P (take_baseline baseline_ts es b).0
  unfolding take_baseline
  take_baseline-IsBook baseline_ts [] b h = h
  take_baseline-IsBook baseline_ts (e ∷ es) b h = elim (kind_of e) [
    | inl d ↦ rw (d, take_baseline) h
    | inr s ↦ elim (Bool-cases (e.ts == baseline_ts)) [
      | inr later ↦ rw (s, later, take_baseline) h
      | inl same ↦
          rw (s, same, take_baseline)
            (take_baseline-IsBook baseline_ts es (update_side e.side (place e.price e.quantity) b) (
              update_side-IsBook e.side (place e.price e.quantity) b
                (place-IsSide P positives e.price e.quantity) h))
    ]
  ]

  replay_from-IsProperFor :
      (baseline_ts ts_utc threshold : ℕ) (start : Book × List Event)
      → DeltasAllowed P start.1
      → IsBook P start.0
      → IsProperFor P (replay_from baseline_ts ts_utc threshold start)
  unfolding replay_from
  replay_from-IsProperFor baseline_ts ts_utc threshold (b, es) a h =
      to_result-IsProperFor (fold_forward baseline_ts ts_utc threshold baseline_ts es b)
        (fold_forward-IsFolded baseline_ts ts_utc threshold baseline_ts es b a h)

  legacy_replay-IsProperFor :
      (ts_utc threshold : ℕ) (es : List Event)
      → DeltasAllowed P es
      → IsProperFor P (legacy_replay ts_utc threshold es)
  unfolding legacy_replay
  legacy_replay-IsProperFor ts_utc threshold [] a = tt
  legacy_replay-IsProperFor ts_utc threshold (e ∷ es) a =
      replay_from-IsProperFor e.ts ts_utc threshold (take_baseline e.ts (e ∷ es) empty_book)
        (take_baseline-DeltasAllowed e.ts (e ∷ es) empty_book a)
        (take_baseline-IsBook e.ts (e ∷ es) empty_book empty_book-IsBook)

  legacy-IsProperFor :
      (ts_utc threshold : ℕ) (es : List Event)
      → DeltasAllowed P es
      → IsProperFor P (legacy ts_utc threshold es)
  unfolding legacy
  legacy-IsProperFor ts_utc threshold [] a = tt
  legacy-IsProperFor ts_utc threshold (e ∷ es) a =
      legacy_replay-IsProperFor ts_utc threshold (from_first_snapshot (e ∷ es))
        (from_first_snapshot-DeltasAllowed (e ∷ es) a)

  pub get_orderbook_at-IsProperFor :
      (snaps : List Snap) (events : List Event) (ts_utc threshold : ℕ)
      → DeltasAllowed P events
      → IsProperFor P (get_orderbook_at snaps events ts_utc threshold)
  unfolding get_orderbook_at load_baseline
  get_orderbook_at-IsProperFor snaps events ts_utc threshold a =
      elim (Option-cases (load_baseline snaps)) [
        | inl absent ↦ rw (absent, get_orderbook_at) (legacy-IsProperFor ts_utc threshold events a)
        | inr (base, found) ↦
            rw (found, get_orderbook_at)
              (replay_from-IsProperFor base.0 ts_utc threshold
                (base.1, from_first_delta base.0 events)
                (from_first_delta-DeltasAllowed base.0 events a)
                (baseline_of_group-IsBook (group_of (best_seq snaps) snaps) base found))
      ]

-- A delta of the day has this quantity.
abbrev pub IsDelta : ℤ → List Event → Type 0
IsDelta q [] = ⊥
IsDelta q (e ∷ es) = ((e.event_type ≡ delta) × (q ≡ e.quantity)) ⊎ IsDelta q es

-- Above zero, or below and that of a delta.
abbrev pub Held : List Event → ℤ → Type 0
Held events q = (is_positive q ≡ true) ⊎ ((is_zero q ≡ false) × IsDelta q events)

abbrev pub IsProper : List Event → Replay → Type 0
IsProper events r = IsProperFor (Held events) r

DeltasAllowed-weaken :
    (P Q : ℤ → Type 0) (es : List Event)
    → ((q : ℤ) → P q → Q q)
    → DeltasAllowed P es
    → DeltasAllowed Q es
DeltasAllowed-weaken P Q [] f a = tt
DeltasAllowed-weaken P Q (e ∷ es) f a =
    (λ d z. f e.quantity (a.0 d z), DeltasAllowed-weaken P Q es f a.1)

deltas-Held : (es : List Event) → DeltasAllowed (λ q. (is_zero q ≡ false) × IsDelta q es) es
deltas-Held [] = tt
deltas-Held (e ∷ es) = (
  λ d z. (z, inl (d, refl)),
  DeltasAllowed-weaken (λ q. (is_zero q ≡ false) × IsDelta q es)
      (λ q. (is_zero q ≡ false) × IsDelta q (e ∷ es)) es (λ q h. (h.0, inr h.1)) (deltas-Held es),
)

-- Whatever the rows of the two partitions, in whatever order: a book that is rebuilt has its bids
-- strictly downwards and its asks strictly upwards by price, so no price stands twice on a side, and
-- every level has a quantity above zero, or one that is not zero and is the quantity of a delta of the
-- day.
pub get_orderbook_at-IsProper :
    (snaps : List Snap) (events : List Event) (ts_utc threshold : ℕ)
    → IsProper events (get_orderbook_at snaps events ts_utc threshold)
get_orderbook_at-IsProper snaps events ts_utc threshold =
    get_orderbook_at-IsProperFor (Held events) (λ q h. inl h) snaps events ts_utc threshold
      (DeltasAllowed-weaken (λ q. (is_zero q ≡ false) × IsDelta q events) (Held events) events
        (λ q h. inr h) (deltas-Held events))
