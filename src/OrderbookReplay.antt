-- ===== src/OrderbookReplay.antt =====
-- src/mctrader_data/orderbook_replay.py: get_orderbook_at and _load_baseline_from_d14, and the filter
-- and the order of scan_orderbook_events with one node. The rows of the Parquet files are a
-- parameter, each with the place of its file and its place in the file. Times are microseconds;
-- prices, Decimals that are not negative, and quantities, Decimals that may be, are whole numbers of
-- a small unit.
mod Levels
mod Rows
mod Cells
mod Valid
mod Errors
mod Baseline
mod Tests
use mctrader_data.Prelude.{
  ℕ, ◌+◌, Bool, true, false, ◌&&◌, ◌||◌, not, Option, none, some, List, [], ◌∷◌, ◌==◌, ltb, leb,
  max, if◌then◌else◌,
}
use mctrader_data.Prelude.Integers.{ℤ, pos, negsuc, is_zero, is_positive}
use mctrader_data.Prelude.Dict.{Dict, num_eq, insert, erase}

pub data EventType : Type 0 where
  snapshot delta : EventType

pub data Side : Type 0 where
  bid ask : Side

pub record Event : Type 0 where
  pub ts : ℕ
  pub event_type : EventType
  pub side : Side
  pub price : ℕ
  pub quantity : ℤ

-- A row of a Parquet file, with the index of the file and that of the row.
pub record FileRow : Type 0 where
  pub event : Event
  pub received_at : ℕ
  pub file_offset : ℕ
  pub row_idx : ℕ

-- A row of the partition of snapshots.
pub record Snap : Type 0 where
  pub baseline_seq : ℕ
  pub ts : ℕ
  pub side : Side
  pub price : ℕ
  pub quantity : ℤ

-- bids and asks, from prices to quantities.
pub record Book : Type 0 where
  pub bids : Dict ℕ ℤ
  pub asks : Dict ℕ ℤ

-- The Decimals of OrderbookSnapshot, or what is raised.
pub data Replay : Type 0 where
  rebuilt : List (ℕ × ℤ) → List (ℕ × ℤ) → Replay
  no_events : Replay
  missing_baseline : Replay
  gap_detected : Replay
  non_monotonic : Replay

pub data Folded : Type 0 where
  folded : Book → Folded
  gap : Folded
  backwards : Folded

abbrev pub empty_book : Book
empty_book = record { bids = []; asks = [] }

pub update_side : Side → (Dict ℕ ℤ → Dict ℕ ℤ) → Book → Book
update_side bid f b = record b { bids = f b.bids }
update_side ask f b = record b { asks = f b.asks }

-- `if quantity > 0: target[price] = quantity`
pub place : ℕ → ℤ → Dict ℕ ℤ → Dict ℕ ℤ
place price quantity d = if is_positive quantity then insert price quantity d else d

-- A delta: a quantity of zero takes the level away.
pub apply_delta : ℕ → ℤ → Dict ℕ ℤ → Dict ℕ ℤ
apply_delta price quantity d = if is_zero quantity then erase price d else insert price quantity d

-- A row of a snapshot during the day, after an event at `last_ts`.
pub apply_snapshot : Bool → ℕ → ℤ → Dict ℕ ℤ → Dict ℕ ℤ
apply_snapshot same_ts price quantity d = place price quantity (if same_ts then d else [])

-- One turn of the fold, after the checks.
pub fold_event : ℕ → ℕ → Event → Book → Book
fold_event baseline_ts last_ts e b = elim e.event_type [
  | delta ↦ update_side e.side (apply_delta e.price e.quantity) b
  | snapshot ↦
      if e.ts == baseline_ts
      then b
      else update_side e.side (apply_snapshot (last_ts == e.ts) e.price e.quantity) b
]

pub fold_forward : ℕ → ℕ → ℕ → ℕ → List Event → Book → Folded
fold_forward baseline_ts ts_utc threshold last_ts [] b = folded b
fold_forward baseline_ts ts_utc threshold last_ts (e ∷ es) b =
    let rest =
      fold_forward baseline_ts ts_utc threshold e.ts es (fold_event baseline_ts last_ts e b) in
    if ltb ts_utc e.ts
    then folded b
    else if ltb (last_ts + threshold) e.ts
    then gap
    else if ltb e.ts last_ts
    then backwards
    else rest

-- sorted(…, key=price) of the levels, upwards by `leb`, or downwards by its converse.
pub insert_level : (ℕ → ℕ → Bool) → ℕ × ℤ → List (ℕ × ℤ) → List (ℕ × ℤ)
insert_level le x [] = x ∷ []
insert_level le x (y ∷ ys) =
    let rest = insert_level le x ys in if le x.0 y.0 then x ∷ y ∷ ys else y ∷ rest

pub sort_levels : (ℕ → ℕ → Bool) → List (ℕ × ℤ) → List (ℕ × ℤ)
sort_levels le [] = []
sort_levels le (x ∷ xs) = insert_level le x (sort_levels le xs)

abbrev pub upwards : ℕ → ℕ → Bool
upwards a b = leb a b

abbrev pub downwards : ℕ → ℕ → Bool
downwards a b = leb b a

pub to_result : Folded → Replay
to_result (folded b) = rebuilt (sort_levels downwards b.bids) (sort_levels upwards b.asks)
to_result gap = gap_detected
to_result backwards = non_monotonic

-- The highest baseline_seq, its rows, and the book that they make.
pub best_seq : List Snap → ℕ
best_seq [] = 0
best_seq (r ∷ rs) = max r.baseline_seq (best_seq rs)

pub group_of : ℕ → List Snap → List Snap
group_of seq [] = []
group_of seq (r ∷ rs) =
    let rest = group_of seq rs in if r.baseline_seq == seq then r ∷ rest else rest

pub book_of : List Snap → Book → Book
book_of [] b = b
book_of (r ∷ rs) b = book_of rs (update_side r.side (place r.price r.quantity) b)

pub baseline_of_group : List Snap → Option (ℕ × Book)
baseline_of_group [] = none
baseline_of_group (r ∷ rs) = some (r.ts, book_of (r ∷ rs) empty_book)

pub load_baseline : List Snap → Option (ℕ × Book)
load_baseline rows = baseline_of_group (group_of (best_seq rows) rows)

-- events[delta_start_idx:], or no events.
pub from_first_delta : ℕ → List Event → List Event
from_first_delta baseline_ts [] = []
from_first_delta baseline_ts (e ∷ es) =
    let rest = from_first_delta baseline_ts es in
    elim e.event_type [ delta ↦ if ltb baseline_ts e.ts then e ∷ es else rest | snapshot ↦ rest ]

-- The first snapshot row and what is behind it.
pub from_first_snapshot : List Event → List Event
from_first_snapshot [] = []
from_first_snapshot (e ∷ es) = elim e.event_type [
  | snapshot ↦ e ∷ es
  | delta ↦ from_first_snapshot es
]

-- The group of the baseline: its book, and the events behind it.
pub take_baseline : ℕ → List Event → Book → Book × List Event
take_baseline baseline_ts [] b = (b, [])
take_baseline baseline_ts (e ∷ es) b =
    let rest = take_baseline baseline_ts es (update_side e.side (place e.price e.quantity) b) in
    elim e.event_type [
      | delta ↦ (b, e ∷ es)
      | snapshot ↦ if e.ts == baseline_ts then rest else (b, e ∷ es)
    ]

pub replay_from : ℕ → ℕ → ℕ → Book × List Event → Replay
replay_from baseline_ts ts_utc threshold (b, es) =
    to_result (fold_forward baseline_ts ts_utc threshold baseline_ts es b)

-- The events of the day from the first snapshot row.
pub legacy_replay : ℕ → ℕ → List Event → Replay
legacy_replay ts_utc threshold [] = missing_baseline
legacy_replay ts_utc threshold (e ∷ es) =
    replay_from e.ts ts_utc threshold (take_baseline e.ts (e ∷ es) empty_book)

pub legacy : ℕ → ℕ → List Event → Replay
legacy ts_utc threshold [] = no_events
legacy ts_utc threshold (e ∷ es) = legacy_replay ts_utc threshold (from_first_snapshot (e ∷ es))

-- With the rows of the snapshot partition of the day and its events.
pub get_orderbook_at : List Snap → List Event → ℕ → ℕ → Replay
get_orderbook_at snaps events ts_utc threshold = elim (load_baseline snaps) [
  | some base ↦ replay_from base.0 ts_utc threshold (base.1, from_first_delta base.0 events)
  | none ↦ legacy ts_utc threshold events
]

-- start <= ts < end, and received_at <= simulated_clock if there is one.
pub wanted : ℕ → ℕ → Option ℕ → FileRow → Bool
wanted start stop clock r =
    leb start r.event.ts
    && (ltb r.event.ts stop && elim clock [ none ↦ true | some c ↦ leb r.received_at c ])

pub keep_wanted : (FileRow → Bool) → List FileRow → List FileRow
keep_wanted p [] = []
keep_wanted p (r ∷ rs) = if p r then r ∷ keep_wanted p rs else keep_wanted p rs

-- The order of the tuples (ts, received_at, file_offset, row_idx).
pub row_leb : FileRow → FileRow → Bool
row_leb a b =
    ltb a.event.ts b.event.ts
    || ((a.event.ts == b.event.ts)
        && (ltb a.received_at b.received_at
            || ((a.received_at == b.received_at)
                && (ltb a.file_offset b.file_offset
                    || ((a.file_offset == b.file_offset) && leb a.row_idx b.row_idx)))))

pub insert_row : FileRow → List FileRow → List FileRow
insert_row r [] = r ∷ []
insert_row r (s ∷ rs) = let rest = insert_row r rs in if row_leb r s then r ∷ s ∷ rs else s ∷ rest

pub sort_rows : List FileRow → List FileRow
sort_rows [] = []
sort_rows (r ∷ rs) = insert_row r (sort_rows rs)

pub events_of : List FileRow → List Event
events_of [] = []
events_of (r ∷ rs) = r.event ∷ events_of rs

pub scan_orderbook_events : ℕ → ℕ → Option ℕ → List FileRow → List Event
scan_orderbook_events start stop clock rows =
    events_of (sort_rows (keep_wanted (wanted start stop clock) rows))
