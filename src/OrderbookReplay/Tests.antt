-- ===== src/OrderbookReplay/Tests.antt =====
-- A day with a snapshot at 10, updates, and a snapshot at 50.
use mctrader_data.Prelude.{ℕ, ◌≡◌, ◌≢◌, refl, none, some, List, [], ◌∷◌, arith}
use mctrader_data.Prelude.Integers.{ℤ, pos, negsuc, is_zero, is_positive}
use mctrader_data.Prelude.Dict.{num_eq, lookup, insert, erase}
use mctrader_data.OrderbookReplay.{
  EventType, snapshot, delta, Side, bid, ask, Event, FileRow, Snap, Book, rebuilt, no_events,
  missing_baseline, gap_detected, non_monotonic, folded, update_side, place, apply_delta,
  apply_snapshot, fold_event, fold_forward, insert_level, sort_levels, to_result, best_seq,
  group_of, book_of, baseline_of_group, load_baseline, from_first_delta, from_first_snapshot,
  take_baseline, replay_from, legacy_replay, legacy, get_orderbook_at, wanted, keep_wanted, row_leb,
  insert_row, sort_rows, events_of, scan_orderbook_events,
}
use mctrader_data.OrderbookReplay.Valid.{IsProper, get_orderbook_at-IsProper}
use mctrader_data.OrderbookReplay.Rows.{TimesRise}
use mctrader_data.OrderbookReplay.Errors.{started, Explains, get_orderbook_at-Explains}
use mctrader_data.OrderbookReplay.Cells.{beginning, Agrees, get_orderbook_at-Agrees}
use mctrader_data.OrderbookReplay.Baseline.{get_orderbook_at-future, refresh-keeps_asks}

abbrev event : ℕ → EventType → Side → ℕ → ℤ → Event
event ts kind side price quantity = record {
  ts = ts;
  event_type = kind;
  side = side;
  price = price;
  quantity = quantity;
}

abbrev day : List Event
day =
    event 5 delta bid 1 (pos 1)
    ∷ event 10 snapshot bid 99 (pos 5)
    ∷ event 10 snapshot ask 101 (pos 7)
    ∷ event 20 delta bid 98 (pos 3)
    ∷ event 30 delta ask 101 (pos 0)
    ∷ event 40 delta ask 102 (pos 4)
    ∷ event 50 snapshot bid 97 (pos 2)
    ∷ event 50 snapshot ask 103 (pos 6)
    ∷ []

abbrev snaps : List Snap
snaps =
    record { baseline_seq = 1; ts = 15; side = bid; price = 90; quantity = pos 1 }
    ∷ record { baseline_seq = 2; ts = 35; side = bid; price = 91; quantity = pos 1 }
    ∷ record { baseline_seq = 2; ts = 35; side = ask; price = 95; quantity = pos 0 }
    ∷ []

abbrev snap_book : Book
snap_book = record { bids = (91, pos 1) ∷ []; asks = [] }

-- With an update by a quantity below zero, which is stored.
abbrev odd_day : List Event
odd_day = event 36 delta bid 92 (negsuc 2) ∷ []

get_orderbook_at-IsProper_example : IsProper odd_day (get_orderbook_at snaps odd_day 40 100)
get_orderbook_at-IsProper_example = get_orderbook_at-IsProper snaps odd_day 40 100

day-TimesRise : TimesRise day
day-TimesRise = omega arith

get_orderbook_at-Explains_example :
    Explains 40 100 (started [] day) (get_orderbook_at [] day 40 100)
get_orderbook_at-Explains_example = get_orderbook_at-Explains [] day 40 100 day-TimesRise

get_orderbook_at-Agrees_example : Agrees 40 (beginning [] day) (get_orderbook_at [] day 40 100)
get_orderbook_at-Agrees_example = get_orderbook_at-Agrees [] day 40 100

snaps-baseline : load_baseline snaps ≡ some (35, snap_book)
unfolding is_positive load_baseline best_seq group_of baseline_of_group book_of update_side place
    insert
snaps-baseline = refl

get_orderbook_at-future_example : get_orderbook_at snaps day 20 100 ≡ to_result (folded snap_book)
get_orderbook_at-future_example =
    get_orderbook_at-future snaps day 20 100 (35, snap_book) snaps-baseline (omega arith)

abbrev full : Book
full = record { bids = (99, pos 5) ∷ []; asks = (102, pos 4) ∷ [] }

refresh-keeps_asks_example :
    ((◌≢◌ {A = ℕ} 97 102)
      → lookup 102
          (fold_event 10 50
            (event 50 snapshot ask 103 (pos 6))
            (fold_event 10 40 (event 50 snapshot bid 97 (pos 2)) full)).bids
        ≡ none)
    × ((◌≢◌ {A = ℕ} 103 102)
        → lookup 102
            (fold_event 10 50
              (event 50 snapshot ask 103 (pos 6))
              (fold_event 10 40 (event 50 snapshot bid 97 (pos 2)) full)).asks
          ≡ lookup 102 full.asks)
refresh-keeps_asks_example =
    refresh-keeps_asks 10 40 (event 50 snapshot bid 97 (pos 2)) (event 50 snapshot ask 103 (pos 6))
      full 102 refl refl refl refl refl (ground arith) (ground arith)

abbrev file_row : Event → ℕ → ℕ → ℕ → FileRow
file_row e received file row_at = record {
  event = e;
  received_at = received;
  file_offset = file;
  row_idx = row_at;
}

abbrev rows : List FileRow
rows =
    file_row (event 30 delta bid 1 (pos 1)) 31 0 0
    ∷ file_row (event 20 delta bid 2 (pos 1)) 29 0 1
    ∷ file_row (event 20 delta bid 3 (pos 1)) 25 1 0
    ∷ file_row (event 99 delta bid 4 (pos 1)) 99 1 1
    ∷ file_row (event 21 delta bid 5 (pos 1)) 90 1 2
    ∷ []

scenario_scan :
    (scan_orderbook_events 10 60 (some 40) rows
      ≡ event 20 delta bid 3 (pos 1)
        ∷ event 20 delta bid 2 (pos 1)
        ∷ event 30 delta bid 1 (pos 1)
        ∷ [])
    × (scan_orderbook_events 21 22 none rows ≡ event 21 delta bid 5 (pos 1) ∷ [])
unfolding scan_orderbook_events wanted keep_wanted row_leb insert_row sort_rows events_of
scenario_scan = (refl, refl)

-- The book after the updates; after the second snapshot, where the ask at 102 is still there; from the
-- rows of the snapshot partition; and the errors.
scenario :
    (get_orderbook_at [] day 40 100 ≡ rebuilt ((99, pos 5) ∷ (98, pos 3) ∷ []) ((102, pos 4) ∷ []))
    × (get_orderbook_at [] day 50 100
        ≡ rebuilt ((97, pos 2) ∷ []) ((102, pos 4) ∷ (103, pos 6) ∷ []))
    × (get_orderbook_at [] day 10 100 ≡ rebuilt ((99, pos 5) ∷ []) ((101, pos 7) ∷ []))
    × (get_orderbook_at snaps day 40 100 ≡ rebuilt ((91, pos 1) ∷ []) ((102, pos 4) ∷ []))
    × (get_orderbook_at snaps odd_day 40 100 ≡ rebuilt ((92, negsuc 2) ∷ (91, pos 1) ∷ []) [])
    × (get_orderbook_at [] day 40 9 ≡ gap_detected)
    × (get_orderbook_at [] [] 40 9 ≡ no_events)
    × (get_orderbook_at [] (event 5 delta bid 1 (pos 1) ∷ []) 40 9 ≡ missing_baseline)
    × (get_orderbook_at [] (event 5 snapshot bid 1 (pos 1) ∷ event 4 delta bid 1 (pos 1) ∷ []) 40 9
        ≡ non_monotonic)
unfolding get_orderbook_at legacy legacy_replay replay_from take_baseline from_first_snapshot
    is_zero is_positive from_first_delta load_baseline baseline_of_group book_of group_of best_seq
    to_result sort_levels insert_level fold_forward fold_event apply_snapshot apply_delta place
    update_side insert erase
scenario = (refl, refl, refl, refl, refl, refl, refl, refl, refl)
