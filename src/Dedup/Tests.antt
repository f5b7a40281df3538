-- ===== src/Dedup/Tests.antt =====
-- Two nodes that see the same market.
use mctrader_data.Prelude.{ℕ, ◌*◌, String, ◌≡◌, refl, true, false, some, List, [], ◌∷◌, length}
use mctrader_data.Prelude.Integers.{int_beq, pos, int_eq}
use mctrader_data.Prelude.Dict.{num_eq, string_eq, pair_eq, pair_beq, lookup, insert}
use mctrader_data.Prelude.Sort.{insert_sorted, sorted}
use mctrader_data.Dedup.{
  CandleRow, EventRow, unique, hash_conflict, compute_data_hash, is_duplicate, candle_logical_key,
  tick_logical_key, orderbook_logical_key, node_priority, str_lt, values, BackpressureLimiter,
  limiter_init, admit_counted, admit_rolled, admit, limiter_flush, received, candle_wins,
  candle_step, candle_loop, deduplicate_candles, content_differs, quarantine, event_step,
  event_loop, event_start, deduplicate_events, deduplicate_ticks, deduplicate_orderbook_events,
}
use mctrader_data.Dedup.Candles.{KeepsLatest, deduplicate_candles-KeepsLatest}
use mctrader_data.Dedup.Events.{Reconciles, deduplicate_ticks-Reconciles}

abbrev candle : String → ℕ → CandleRow
candle node at = record {
  exchange = "bithumb";
  symbol = "KRW-BTC";
  timeframe = "1m";
  ts_utc = 60;
  open_price = "1";
  high = "2";
  low = "1";
  close_price = "2";
  volume = "3";
  received_at = some at;
  node_id = some node;
}

abbrev tick : String → String → EventRow
tick node raw = record {
  exchange = "bithumb";
  symbol = "KRW-BTC";
  ts_utc = 7;
  event_type = "";
  side = "buy";
  level = pos 0;
  price = 100;
  quantity = 2;
  raw_json = some raw;
  node_id = some node;
}

abbrev candles : List CandleRow
candles = candle "B" 70 ∷ candle "A" 70 ∷ candle "C" 65 ∷ []

abbrev ticks : List EventRow
ticks = tick "B" "x" ∷ tick "A" "y" ∷ tick "C" "y" ∷ []

abbrev clock : ℕ → ℕ
clock n = n * 600

abbrev limiter : BackpressureLimiter ℕ
limiter = record { cap = 1; window_start = 0; window_count = 0; batch = []; artifact_count = 0 }

deduplicate_candles-KeepsLatest_example : KeepsLatest candles (deduplicate_candles true candles)
deduplicate_candles-KeepsLatest_example = deduplicate_candles-KeepsLatest candles

deduplicate_ticks-Reconciles_example :
    Reconciles "tick" tick_logical_key ticks (deduplicate_ticks clock true ticks)
deduplicate_ticks-Reconciles_example = deduplicate_ticks-Reconciles clock ticks

-- The tie at 70 goes to node A, and so does the tick.
nodes :
    ((deduplicate_candles true candles).emitted ≡ candle "A" 70 ∷ [])
    × ((deduplicate_ticks clock true ticks).emitted ≡ tick "A" "y" ∷ [])
    × ((deduplicate_ticks clock true ticks).dup_skip_count ≡ 1)
    × (length (deduplicate_orderbook_events clock true ticks).quarantine_records ≡ 1)
    × ((deduplicate_orderbook_events clock false ticks).dup_skip_count ≡ 0)
unfolding int_beq deduplicate_candles candle_loop candle_step candle_wins received
    candle_logical_key node_priority str_lt values sorted insert_sorted lookup insert
    deduplicate_ticks deduplicate_events event_loop event_step event_start quarantine
    content_differs admit admit_counted admit_rolled limiter_flush limiter_init tick_logical_key
    orderbook_logical_key deduplicate_orderbook_events pair_beq
nodes = (refl, refl, refl, refl, refl)

session :
    ((is_duplicate (λ s. s) (λ t. "t") (candle "A" 1) []).0 ≡ unique)
    × ((is_duplicate (λ s. s) (λ t. "t") (candle "A" 1) ((60, "other") ∷ [])).0 ≡ hash_conflict)
unfolding is_duplicate compute_data_hash lookup insert
session = (refl, refl)
