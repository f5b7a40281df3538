-- ===== src/OrderbookReplay/Rows.antt =====
-- The rows that a scan reads, by what is kept and in which order.
use mctrader_data.Prelude.{
  ℕ, ◌≤◌, ◌≡◌, inl, inr, true, false, Option, List, [], ◌∷◌, arith, All, Bool-cases,
}
use mctrader_data.OrderbookReplay.{
  Event, FileRow, row_leb, insert_row, sort_rows, events_of, scan_orderbook_events,
}

-- In the order of the tuples of the code.
abbrev pub InOrder : List FileRow → Type 0
InOrder [] = Unit
InOrder (r ∷ rs) = All (λ s. row_leb r s ≡ true) rs × InOrder rs

-- Times do not go back.
abbrev pub TimesRise : List Event → Type 0
TimesRise [] = Unit
TimesRise (e ∷ es) = All (λ f. e.ts ≤ f.ts) es × TimesRise es

All-insert_row :
    (P : FileRow → Type 0) (r : FileRow) (rs : List FileRow)
    → P r
    → All P rs
    → All P (insert_row r rs)
unfolding insert_row
All-insert_row P r [] h k = (h, tt)
All-insert_row P r (s ∷ rs) h k = elim (Bool-cases (row_leb r s)) [
  | inl before ↦ rw before (h, k)
  | inr after ↦ rw after (k.0, All-insert_row P r rs h k.1)
]

row_leb-total : (a b : FileRow) → row_leb a b ≡ false → row_leb b a ≡ true
unfolding row_leb
row_leb-total a b h = ground arith

row_leb-transitive :
    (a b c : FileRow) → row_leb a b ≡ true → row_leb b c ≡ true → row_leb a c ≡ true
unfolding row_leb
row_leb-transitive a b c h k = ground arith

row_leb-ts : (a b : FileRow) → row_leb a b ≡ true → a.event.ts ≤ b.event.ts
unfolding row_leb
row_leb-ts a b h = ground arith

All-later :
    (a b : FileRow) (rs : List FileRow)
    → row_leb a b ≡ true
    → All (λ s. row_leb b s ≡ true) rs
    → All (λ s. row_leb a s ≡ true) rs
All-later a b [] h k = tt
All-later a b (s ∷ rs) h k = (row_leb-transitive a b s h k.0, All-later a b rs h k.1)

InOrder-insert_row : (r : FileRow) (rs : List FileRow) → InOrder rs → InOrder (insert_row r rs)
unfolding insert_row
InOrder-insert_row r [] h = (tt, tt)
InOrder-insert_row r (s ∷ rs) h = elim (Bool-cases (row_leb r s)) [
  | inl before ↦ rw before ((before, All-later r s rs before h.0), h)
  | inr after ↦ rw after (
    All-insert_row (λ t. row_leb s t ≡ true) r rs (row_leb-total r s after) h.0,
    InOrder-insert_row r rs h.1,
  )
]

InOrder-sort_rows : (rs : List FileRow) → InOrder (sort_rows rs)
unfolding sort_rows
InOrder-sort_rows [] = tt
InOrder-sort_rows (r ∷ rs) = InOrder-insert_row r (sort_rows rs) (InOrder-sort_rows rs)

All-events_of :
    (r : FileRow) (rs : List FileRow)
    → All (λ s. row_leb r s ≡ true) rs
    → All (λ f. r.event.ts ≤ f.ts) (events_of rs)
unfolding events_of
All-events_of r [] h = tt
All-events_of r (s ∷ rs) h = (row_leb-ts r s h.0, All-events_of r rs h.1)

TimesRise-events_of : (rs : List FileRow) → InOrder rs → TimesRise (events_of rs)
unfolding events_of
TimesRise-events_of [] h = tt
TimesRise-events_of (r ∷ rs) h = (All-events_of r rs h.0, TimesRise-events_of rs h.1)

-- The times of a scan do not go back.
pub scan-TimesRise :
    (start stop : ℕ) (clock : Option ℕ) (rows : List FileRow)
    → TimesRise (scan_orderbook_events start stop clock rows)
unfolding scan_orderbook_events
scan-TimesRise start stop clock rows = TimesRise-events_of _ (InOrder-sort_rows _)
