-- ===== src/OrderbookReplay/Cells.antt =====
-- The order book as one cell for each side and price.
use mctrader_data.Prelude.{
  ℕ, ◌+◌, ◌≡◌, refl, ap, ◌∙◌, inl, inr, Bool, true, false, ◌&&◌, Option, none, some, List, [], ◌∷◌,
  ◌==◌, ltb, if◌then◌else◌, arith, Bool-cases, Option-cases,
}
use mctrader_data.Prelude.Integers.{ℤ, is_zero, is_positive}
use mctrader_data.Prelude.Dict.{Dict, num_eq, lookup, lookup-insert, lookup-erase}
use mctrader_data.OrderbookReplay.{
  snapshot, delta, Side, bid, ask, Event, Snap, Book, Replay, rebuilt, no_events, missing_baseline,
  gap_detected, non_monotonic, Folded, folded, gap, backwards, empty_book, update_side, place,
  apply_delta, apply_snapshot, fold_event, fold_forward, upwards, downwards, to_result, best_seq,
  group_of, load_baseline, from_first_delta, from_first_snapshot, take_baseline, replay_from,
  legacy_replay, legacy, get_orderbook_at,
}
use mctrader_data.OrderbookReplay.Levels.{kind_of, lookup-sort_levels}
use mctrader_data.OrderbookReplay.Valid.{
  DeltasAllowed, IsBook, IsFolded, fold_forward-IsFolded, baseline_of_group-IsBook,
  take_baseline-IsBook, empty_book-IsBook,
}

abbrev pub side_of : Side → Book → Dict ℕ ℤ
side_of bid b = b.bids
side_of ask b = b.asks

abbrev pub same_side : Side → Side → Bool
same_side bid bid = true
same_side ask ask = true
same_side bid ask = false
same_side ask bid = false

-- The quantity at a price of a side after an event: an update sets it, or takes it away at zero; a
-- row of a later snapshot sets it if it names the price, and takes it away if it is the first event
-- at its time.
pub cell_event : ℕ → ℕ → Event → Side → ℕ → Option ℤ → Option ℤ
cell_event baseline_ts last_ts e s p o = elim e.event_type [
  | delta ↦
      if same_side e.side s && (e.price == p)
      then (if is_zero e.quantity then none else some e.quantity)
      else o
  | snapshot ↦
      if e.ts == baseline_ts
      then o
      else if same_side e.side s
      then (if (e.price == p) && is_positive e.quantity
          then some e.quantity
          else if last_ts == e.ts
          then o
          else none)
      else o
]

pub cell_forward : ℕ → ℕ → ℕ → List Event → Side → ℕ → Option ℤ → Option ℤ
cell_forward baseline_ts ts_utc last_ts [] s p o = o
cell_forward baseline_ts ts_utc last_ts (e ∷ es) s p o =
    let rest =
      cell_forward baseline_ts ts_utc e.ts es s p (cell_event baseline_ts last_ts e s p o) in
    if ltb ts_utc e.ts then o else rest

-- A row of a snapshot that is later than the baseline.
pub cell_event-snapshot :
    (baseline_ts last_ts : ℕ) (e : Event) (t s : Side) (p : ℕ) (o : Option ℤ)
    → e.event_type ≡ snapshot
    → (e.ts == baseline_ts) ≡ false
    → e.side ≡ t
    → cell_event baseline_ts last_ts e s p o ≡ (
        if same_side t s
        then (if (e.price == p) && is_positive e.quantity
            then some e.quantity
            else if last_ts == e.ts
            then o
            else none)
        else o)
unfolding cell_event
cell_event-snapshot baseline_ts last_ts e t s p o kind later on =
    rw (kind, cell_event, later, on) refl

lookup-update_side :
    (t s : Side) (f : Dict ℕ ℤ → Dict ℕ ℤ) (b : Book)
    → side_of s (update_side t f b) ≡ (if same_side t s then f (side_of s b) else side_of s b)
unfolding update_side
lookup-update_side bid bid f b = refl
lookup-update_side bid ask f b = refl
lookup-update_side ask bid f b = refl
lookup-update_side ask ask f b = refl

lookup-apply_delta :
    (k : ℕ) (q : ℤ) (p : ℕ) (d : Dict ℕ ℤ)
    → lookup p (apply_delta k q d)
      ≡ (if k == p then (if is_zero q then none else some q) else lookup p d)
unfolding apply_delta
lookup-apply_delta k q p d = ground (arith, lookup-insert k p q d, lookup-erase k p d)

lookup-apply_snapshot :
    (same : Bool) (k : ℕ) (q : ℤ) (p : ℕ) (d : Dict ℕ ℤ)
    → lookup p (apply_snapshot same k q d)
      ≡ (if (k == p) && is_positive q then some q else if same then lookup p d else none)
unfolding apply_snapshot place lookup
lookup-apply_snapshot true k q p d = ground (arith, lookup-insert k p q d)
lookup-apply_snapshot false k q p d = ground (arith, lookup-insert k p q [])

pub lookup-fold_event :
    (baseline_ts last_ts : ℕ) (e : Event) (b : Book) (s : Side) (p : ℕ)
    → lookup p (side_of s (fold_event baseline_ts last_ts e b))
      ≡ cell_event baseline_ts last_ts e s p (lookup p (side_of s b))
unfolding fold_event cell_event
lookup-fold_event baseline_ts last_ts e b s p = elim (kind_of e) [
  | inl d ↦
      rw (d, fold_event, cell_event, lookup-update_side)
        (elim (Bool-cases (same_side e.side s)) [
          | inl same ↦ rw (same, lookup-apply_delta e.price e.quantity p (side_of s b)) refl
          | inr other ↦ rw other refl
        ])
  | inr n ↦ elim (Bool-cases (e.ts == baseline_ts)) [
    | inl first ↦ rw (n, first, fold_event, cell_event) refl
    | inr later ↦
        rw (n, later, fold_event, cell_event, lookup-update_side)
          (elim (Bool-cases (same_side e.side s)) [
            | inl same ↦
                rw
                  (same, lookup-apply_snapshot (last_ts == e.ts) e.price e.quantity p (side_of s b))
                  refl
            | inr other ↦ rw other refl
          ])
  ]
]

abbrev CellsOf : (Side → ℕ → Option ℤ) → Folded → Type 0
CellsOf cell (folded b) = (s : Side) (p : ℕ) → lookup p (side_of s b) ≡ cell s p
CellsOf cell gap = Unit
CellsOf cell backwards = Unit

CellsOf-change :
    (f g : Side → ℕ → Option ℤ) (x : Folded)
    → ((s : Side) (p : ℕ) → f s p ≡ g s p)
    → CellsOf f x
    → CellsOf g x
CellsOf-change f g (folded b) h k = λ s p. k s p ∙ h s p
CellsOf-change f g gap h k = tt
CellsOf-change f g backwards h k = tt

fold_forward-CellsOf :
    (baseline_ts ts_utc threshold last_ts : ℕ) (es : List Event) (b : Book)
    → CellsOf
        (λ s p. cell_forward baseline_ts ts_utc last_ts es s p (lookup p (side_of s b)))
        (fold_forward baseline_ts ts_utc threshold last_ts es b)
unfolding fold_forward cell_forward
fold_forward-CellsOf baseline_ts ts_utc threshold last_ts [] b = λ s p. refl
fold_forward-CellsOf baseline_ts ts_utc threshold last_ts (e ∷ es) b =
    elim (Bool-cases (ltb ts_utc e.ts)) [
      | inl over ↦ rw over (λ s p. refl)
      | inr within ↦ elim (Bool-cases (ltb (last_ts + threshold) e.ts)) [
        | inl far ↦ rw (within, far) tt
        | inr near ↦ elim (Bool-cases (ltb e.ts last_ts)) [
          | inl back ↦ rw (within, near, back) tt
          | inr on ↦
              rw (within, near, on)
                (CellsOf-change _ _ _
                  (λ s p.
                    ap (cell_forward baseline_ts ts_utc e.ts es s p)
                      (lookup-fold_event baseline_ts last_ts e b s p))
                  (fold_forward-CellsOf baseline_ts ts_utc threshold e.ts es
                    (fold_event baseline_ts last_ts e b)))
        ]
      ]
    ]

-- The baseline, its book and the events behind it.
abbrev pub at_snapshot : List Event → Option (ℕ × Book × List Event)
at_snapshot [] = none
at_snapshot (e ∷ es) =
    some
      (e.ts, (take_baseline e.ts (e ∷ es) empty_book).0, (take_baseline e.ts (e ∷ es) empty_book).1)

pub beginning : List Snap → List Event → Option (ℕ × Book × List Event)
beginning snaps events = elim (load_baseline snaps) [
  | some base ↦ some (base.0, base.1, from_first_delta base.0 events)
  | none ↦ at_snapshot (from_first_snapshot events)
]

-- Here any quantity is allowed.
abbrev Any : ℤ → Type 0
Any q = Unit

any_positive : (q : ℤ) → is_positive q ≡ true → Any q
any_positive q h = tt

any-DeltasAllowed : (es : List Event) → DeltasAllowed Any es
any-DeltasAllowed [] = tt
any-DeltasAllowed (e ∷ es) = (λ d z. tt, any-DeltasAllowed es)

-- A book that is rebuilt has, at each price, the quantity of the cell.
abbrev pub Agrees : ℕ → Option (ℕ × Book × List Event) → Replay → Type 0
Agrees ts_utc (some (t, b, es)) (rebuilt bids asks) =
    (p : ℕ)
    → (lookup p bids ≡ cell_forward t ts_utc t es bid p (lookup p b.bids))
      × (lookup p asks ≡ cell_forward t ts_utc t es ask p (lookup p b.asks))
Agrees ts_utc none (rebuilt bids asks) = ⊥
Agrees ts_utc start no_events = Unit
Agrees ts_utc start missing_baseline = Unit
Agrees ts_utc start gap_detected = Unit
Agrees ts_utc start non_monotonic = Unit

to_result-Agrees :
    (ts_utc t : ℕ) (b : Book) (es : List Event) (f : Folded)
    → IsFolded Any any_positive f
    → CellsOf (λ s p. cell_forward t ts_utc t es s p (lookup p (side_of s b))) f
    → Agrees ts_utc (some (t, b, es)) (to_result f)
unfolding to_result
to_result-Agrees ts_utc t b es (folded c) valid cells = λ p. (
  lookup-sort_levels downwards p c.bids valid.bids_valid.distinct ∙ cells bid p,
  lookup-sort_levels upwards p c.asks valid.asks_valid.distinct ∙ cells ask p,
)
to_result-Agrees ts_utc t b es gap valid cells = tt
to_result-Agrees ts_utc t b es backwards valid cells = tt

replay_from-Agrees :
    (t ts_utc threshold : ℕ) (b : Book) (es : List Event)
    → IsBook Any b
    → Agrees ts_utc (some (t, b, es)) (replay_from t ts_utc threshold (b, es))
unfolding replay_from
replay_from-Agrees t ts_utc threshold b es h =
    to_result-Agrees ts_utc t b es (fold_forward t ts_utc threshold t es b)
      (fold_forward-IsFolded Any any_positive t ts_utc threshold t es b (any-DeltasAllowed es) h)
      (fold_forward-CellsOf t ts_utc threshold t es b)

legacy_replay-Agrees :
    (ts_utc threshold : ℕ) (es : List Event)
    → Agrees ts_utc (at_snapshot es) (legacy_replay ts_utc threshold es)
unfolding legacy_replay
legacy_replay-Agrees ts_utc threshold [] = tt
legacy_replay-Agrees ts_utc threshold (e ∷ es) =
    replay_from-Agrees e.ts ts_utc threshold (take_baseline e.ts (e ∷ es) empty_book).0
      (take_baseline e.ts (e ∷ es) empty_book).1
      (take_baseline-IsBook Any any_positive e.ts (e ∷ es) empty_book
        (empty_book-IsBook Any any_positive))

legacy-Agrees :
    (ts_utc threshold : ℕ) (es : List Event)
    → Agrees ts_utc (at_snapshot (from_first_snapshot es)) (legacy ts_utc threshold es)
unfolding legacy
legacy-Agrees ts_utc threshold [] = unfold from_first_snapshot in tt
legacy-Agrees ts_utc threshold (e ∷ es) =
    legacy_replay-Agrees ts_utc threshold (from_first_snapshot (e ∷ es))

-- A book that is rebuilt is that of a cell for each side and price, which begins with the quantity of
-- the baseline and takes the events behind the baseline, up to the first one that is later than the
-- time that is asked for, in turn: whatever is behind that event has no part in the book.
pub get_orderbook_at-Agrees :
    (snaps : List Snap) (events : List Event) (ts_utc threshold : ℕ)
    → Agrees ts_utc (beginning snaps events) (get_orderbook_at snaps events ts_utc threshold)
unfolding get_orderbook_at beginning load_baseline
get_orderbook_at-Agrees snaps events ts_utc threshold = elim (Option-cases (load_baseline snaps)) [
  | inl absent ↦ rw (absent, get_orderbook_at, beginning) (legacy-Agrees ts_utc threshold events)
  | inr (base, found) ↦
      rw (found, get_orderbook_at, beginning)
        (replay_from-Agrees base.0 ts_utc threshold base.1 (from_first_delta base.0 events)
          (baseline_of_group-IsBook Any any_positive (group_of (best_seq snaps) snaps) base found))
]
