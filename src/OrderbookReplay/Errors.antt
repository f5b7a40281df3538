-- ===== src/OrderbookReplay/Errors.antt =====
-- When the replay raises, for events in the order of their times.
use mctrader_data.Prelude.{
  ℕ, ◌+◌, ◌≤◌, ◌<◌, ◌≡◌, ◌⊎◌, inl, inr, false, Option, none, some, List, [], ◌∷◌, ◌==◌, ltb, arith,
  All, Bool-cases, Option-cases,
}
use mctrader_data.OrderbookReplay.{
  Event, Snap, Book, Replay, rebuilt, no_events, missing_baseline, gap_detected, Folded, folded,
  gap, backwards, empty_book, update_side, place, fold_event, fold_forward, to_result,
  load_baseline, from_first_delta, from_first_snapshot, take_baseline, replay_from, legacy_replay,
  legacy, get_orderbook_at,
}
use mctrader_data.OrderbookReplay.Levels.{kind_of}
use mctrader_data.OrderbookReplay.Rows.{TimesRise}

-- No event is earlier, and their times do not go back.
abbrev From : ℕ → List Event → Type 0
From t es = All (λ e. t ≤ e.ts) es × TimesRise es

From-weaken : (s t : ℕ) (es : List Event) → s ≤ t → All (λ e. t ≤ e.ts) es → All (λ e. s ≤ e.ts) es
From-weaken s t [] h k = tt
From-weaken s t (e ∷ es) h k = (omega (arith, k.0), From-weaken s t es h k.1)

-- Between the events up to `ts_utc`, the first of which follows `last`, no two neighbours are further
-- apart than the threshold; or two are.
abbrev pub NoGap : ℕ → ℕ → ℕ → List Event → Type 0
NoGap ts_utc threshold last [] = Unit
NoGap ts_utc threshold last (e ∷ es) =
    (ts_utc < e.ts) ⊎ ((e.ts ≤ last + threshold) × NoGap ts_utc threshold e.ts es)

abbrev pub HasGap : ℕ → ℕ → ℕ → List Event → Type 0
HasGap ts_utc threshold last [] = ⊥
HasGap ts_utc threshold last (e ∷ es) =
    (e.ts ≤ ts_utc) × ((last + threshold < e.ts) ⊎ HasGap ts_utc threshold e.ts es)

-- The time of the baseline and the events behind it.
abbrev pub after_snapshot : List Event → Option (ℕ × List Event)
after_snapshot [] = none
after_snapshot (e ∷ es) = some (e.ts, (take_baseline e.ts (e ∷ es) empty_book).1)

pub started : List Snap → List Event → Option (ℕ × List Event)
started snaps events = elim (load_baseline snaps) [
  | some base ↦ some (base.0, from_first_delta base.0 events)
  | none ↦ after_snapshot (from_first_snapshot events)
]

abbrev pub Explains : ℕ → ℕ → Option (ℕ × List Event) → Replay → Type 0
Explains ts_utc threshold (some (t, es)) (rebuilt bids asks) = NoGap ts_utc threshold t es
Explains ts_utc threshold (some (t, es)) gap_detected = HasGap ts_utc threshold t es
Explains ts_utc threshold none no_events = Unit
Explains ts_utc threshold none missing_baseline = Unit
Explains ts_utc threshold _ _ = ⊥

abbrev FoldExplains : ℕ → ℕ → ℕ → List Event → Folded → Type 0
FoldExplains ts_utc threshold t es (folded b) = NoGap ts_utc threshold t es
FoldExplains ts_utc threshold t es gap = HasGap ts_utc threshold t es
FoldExplains ts_utc threshold t es backwards = ⊥

prepend-FoldExplains :
    (ts_utc threshold t : ℕ) (e : Event) (es : List Event) (f : Folded)
    → e.ts ≤ ts_utc
    → e.ts ≤ t + threshold
    → FoldExplains ts_utc threshold e.ts es f
    → FoldExplains ts_utc threshold t (e ∷ es) f
prepend-FoldExplains ts_utc threshold t e es (folded b) h k i = inr (k, i)
prepend-FoldExplains ts_utc threshold t e es gap h k i = (h, inr i)
prepend-FoldExplains ts_utc threshold t e es backwards h k i = i

fold_forward-FoldExplains :
    (baseline_ts ts_utc threshold t : ℕ) (es : List Event) (b : Book)
    → From t es
    → FoldExplains ts_utc threshold t es (fold_forward baseline_ts ts_utc threshold t es b)
unfolding fold_forward
fold_forward-FoldExplains baseline_ts ts_utc threshold t [] b h = tt
fold_forward-FoldExplains baseline_ts ts_utc threshold t (e ∷ es) b h =
    elim (Bool-cases (ltb ts_utc e.ts)) [
      | inl over ↦ rw over (inl (ground arith))
      | inr within ↦ elim (Bool-cases (ltb (t + threshold) e.ts)) [
        | inl far ↦ rw (within, far) (ground arith, inl (ground arith))
        | inr near ↦
            let on : ltb e.ts t ≡ false = ground (arith, h.0.0) in
            rw (within, near, on)
              (prepend-FoldExplains ts_utc threshold t e es _ (ground arith) (ground arith) (
                fold_forward-FoldExplains baseline_ts ts_utc threshold e.ts es
                  (fold_event baseline_ts t e b) h.1))
      ]
    ]

to_result-Explains :
    (ts_utc threshold t : ℕ) (es : List Event) (f : Folded)
    → FoldExplains ts_utc threshold t es f
    → Explains ts_utc threshold (some (t, es)) (to_result f)
unfolding to_result
to_result-Explains ts_utc threshold t es (folded b) h = h
to_result-Explains ts_utc threshold t es gap h = h
to_result-Explains ts_utc threshold t es backwards h = h

replay_from-Explains :
    (t ts_utc threshold : ℕ) (start : Book × List Event)
    → From t start.1
    → Explains ts_utc threshold (some (t, start.1)) (replay_from t ts_utc threshold start)
unfolding replay_from
replay_from-Explains t ts_utc threshold (b, es) h =
    to_result-Explains ts_utc threshold t es (fold_forward t ts_utc threshold t es b)
      (fold_forward-FoldExplains t ts_utc threshold t es b h)

-- The events from the first delta behind the baseline are behind it.
from_first_delta-From : (t : ℕ) (es : List Event) → TimesRise es → From t (from_first_delta t es)
unfolding from_first_delta
from_first_delta-From t [] h = (tt, tt)
from_first_delta-From t (e ∷ es) h = elim (kind_of e) [
  | inr s ↦ rw (s, from_first_delta) (from_first_delta-From t es h.1)
  | inl d ↦ elim (Bool-cases (ltb t e.ts)) [
    | inr early ↦ rw (d, early, from_first_delta) (from_first_delta-From t es h.1)
    | inl later ↦
        rw (d, later, from_first_delta)
          ((ground arith, From-weaken t e.ts es (ground arith) h.0), h)
  ]
]

take_baseline-From :
    (t : ℕ) (es : List Event) (b : Book) → From t es → From t (take_baseline t es b).1
unfolding take_baseline
take_baseline-From t [] b h = h
take_baseline-From t (e ∷ es) b h = elim (kind_of e) [
  | inl d ↦ rw (d, take_baseline) h
  | inr s ↦ elim (Bool-cases (e.ts == t)) [
    | inr later ↦ rw (s, later, take_baseline) h
    | inl same ↦
        rw (s, same, take_baseline)
          (take_baseline-From t es (update_side e.side (place e.price e.quantity) b) (h.0.1, h.1.1))
  ]
]

from_first_snapshot-TimesRise :
    (es : List Event) → TimesRise es → TimesRise (from_first_snapshot es)
unfolding from_first_snapshot
from_first_snapshot-TimesRise [] h = tt
from_first_snapshot-TimesRise (e ∷ es) h = elim (kind_of e) [
  | inl d ↦ rw (d, from_first_snapshot) (from_first_snapshot-TimesRise es h.1)
  | inr s ↦ rw (s, from_first_snapshot) h
]

legacy_replay-Explains :
    (ts_utc threshold : ℕ) (es : List Event)
    → TimesRise es
    → Explains ts_utc threshold (after_snapshot es) (legacy_replay ts_utc threshold es)
unfolding legacy_replay
legacy_replay-Explains ts_utc threshold [] h = tt
legacy_replay-Explains ts_utc threshold (e ∷ es) h =
    replay_from-Explains e.ts ts_utc threshold (take_baseline e.ts (e ∷ es) empty_book)
      (take_baseline-From e.ts (e ∷ es) empty_book ((omega arith, h.0), h))

legacy-Explains :
    (ts_utc threshold : ℕ) (es : List Event)
    → TimesRise es
    → Explains ts_utc threshold
        (after_snapshot (from_first_snapshot es))
        (legacy ts_utc threshold es)
unfolding legacy
legacy-Explains ts_utc threshold [] h = unfold from_first_snapshot in tt
legacy-Explains ts_utc threshold (e ∷ es) h =
    legacy_replay-Explains ts_utc threshold (from_first_snapshot (e ∷ es))
      (from_first_snapshot-TimesRise (e ∷ es) h)

-- For events in the order of their times, which is how the scan gives them: the replay never raises
-- for times that go back. With a baseline, from the snapshot rows or else from the first snapshot
-- event, it gives a book if no two neighbours among the events up to the time that is asked for, the
-- baseline's included, are further apart than the threshold, and raises for the gap if two are.
-- Without a baseline it raises for that.
pub get_orderbook_at-Explains :
    (snaps : List Snap) (events : List Event) (ts_utc threshold : ℕ)
    → TimesRise events
    → Explains ts_utc threshold
        (started snaps events)
        (get_orderbook_at snaps events ts_utc threshold)
unfolding get_orderbook_at started
get_orderbook_at-Explains snaps events ts_utc threshold h =
    elim (Option-cases (load_baseline snaps)) [
      | inl absent ↦
          rw (absent, get_orderbook_at, started) (legacy-Explains ts_utc threshold events h)
      | inr (base, found) ↦
          rw (found, get_orderbook_at, started)
            (replay_from-Explains base.0 ts_utc threshold (base.1, from_first_delta base.0 events)
              (from_first_delta-From base.0 events h))
    ]
