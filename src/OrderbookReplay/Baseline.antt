-- ===== src/OrderbookReplay/Baseline.antt =====
-- The baseline beside the time that is asked for, and a snapshot during the day.
use mctrader_data.Prelude.{
  ℕ, ◌<◌, ◌≡◌, ◌≢◌, refl, inl, inr, true, false, none, some, List, [], ◌∷◌, ◌==◌, ltb, arith, ap,
  Bool-cases,
}
use mctrader_data.Prelude.Dict.{num_eq, lookup}
use mctrader_data.OrderbookReplay.{
  snapshot, bid, ask, Event, Snap, Book, folded, fold_event, fold_forward, to_result, load_baseline,
  from_first_delta, replay_from, get_orderbook_at,
}
use mctrader_data.OrderbookReplay.Levels.{kind_of}
use mctrader_data.OrderbookReplay.Cells.{lookup-fold_event, cell_event-snapshot}

-- Nothing is folded before the first event behind a baseline that is itself too late.
stops :
    (t ts_utc threshold last : ℕ) (es : List Event) (b : Book)
    → ts_utc < t
    → fold_forward t ts_utc threshold last (from_first_delta t es) b ≡ folded b
unfolding from_first_delta fold_forward
stops t ts_utc threshold last [] b h = refl
stops t ts_utc threshold last (e ∷ es) b h = elim (kind_of e) [
  | inr s ↦ rw (s, from_first_delta) (stops t ts_utc threshold last es b h)
  | inl d ↦ elim (Bool-cases (ltb t e.ts)) [
    | inr early ↦ rw (d, early, from_first_delta) (stops t ts_utc threshold last es b h)
    | inl later ↦
        let over : ltb ts_utc e.ts ≡ true = ground arith in
        rw (d, later, from_first_delta) (rw (fold_forward, over) refl)
  ]
]

-- When the latest snapshot of the day is later than the time that is asked for, the answer is the
-- book of that snapshot, with no regard to the time and the events.
pub get_orderbook_at-future :
    (snaps : List Snap) (events : List Event) (ts_utc threshold : ℕ) (base : ℕ × Book)
    → load_baseline snaps ≡ some base
    → ts_utc < base.0
    → get_orderbook_at snaps events ts_utc threshold ≡ to_result (folded base.1)
unfolding get_orderbook_at replay_from
get_orderbook_at-future snaps events ts_utc threshold base found later =
    rw (found, get_orderbook_at)
      (ap to_result (stops base.0 ts_utc threshold base.0 events base.1 later))

-- A snapshot during the day whose first row is a bid, and whose next row is an ask of the same time:
-- after the two rows there is no bid but the one of the snapshot, and every ask of before, but at the
-- price of the new row, is still there.
pub refresh-keeps_asks :
    (baseline_ts last_ts : ℕ) (b a : Event) (before : Book) (p : ℕ)
    → b.event_type ≡ snapshot
    → a.event_type ≡ snapshot
    → b.side ≡ bid
    → a.side ≡ ask
    → a.ts ≡ b.ts
    → b.ts ≢ baseline_ts
    → last_ts ≢ b.ts
    → ((b.price ≢ p)
        → lookup p (fold_event baseline_ts b.ts a (fold_event baseline_ts last_ts b before)).bids
          ≡ none)
      × ((a.price ≢ p)
          → lookup p (fold_event baseline_ts b.ts a (fold_event baseline_ts last_ts b before)).asks
            ≡ lookup p before.asks)
refresh-keeps_asks baseline_ts last_ts b a before p kb ka sb sa same later fresh =
    let later_b : (b.ts == baseline_ts) ≡ false = ground arith in
    let later_a : (a.ts == baseline_ts) ≡ false = ground arith in
    let once : Book = fold_event baseline_ts last_ts b before in
    (
      λ other. ground (
        arith,
        lookup-fold_event baseline_ts b.ts a once bid p,
        cell_event-snapshot baseline_ts b.ts a ask bid p (lookup p once.bids) ka later_a sa,
        lookup-fold_event baseline_ts last_ts b before bid p,
        cell_event-snapshot baseline_ts last_ts b bid bid p (lookup p before.bids) kb later_b sb,
      ),
      λ other. ground (
        arith,
        lookup-fold_event baseline_ts b.ts a once ask p,
        cell_event-snapshot baseline_ts b.ts a ask ask p (lookup p once.asks) ka later_a sa,
        lookup-fold_event baseline_ts last_ts b before ask p,
        cell_event-snapshot baseline_ts last_ts b bid ask p (lookup p before.asks) kb later_b sb,
      ),
    )
