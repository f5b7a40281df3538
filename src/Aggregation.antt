-- ===== src/Aggregation.antt =====
-- src/mctrader_data/aggregation/core.py: the running bar of a symbol, and the aggregators that
-- close it by volume, tick count, notional value or time. Decimal prices are a parameter with
-- its operations and the laws of its order; times are microseconds since the epoch.
pub mod Numbers
mod Stream
mod Laws
mod Time
mod Blocks
mod Tests
use Numbers.{Decimal}
use mctrader_data.Prelude.{
  ℕ, ◌+◌, ◌*◌, ◌/◌, ◌%◌, String, Bool, true, false, not, Option, none, some, ltb, leb, ◌==◌,
  if◌then◌else◌,
}
use mctrader_data.Prelude.Dict.{Dict, string_eq, lookup, insert, erase}

-- The fields of `TickRowV1_1` that the aggregators read.
pub record Tick (D : Type 0) : Type 0 where
  pub ts_utc : ℕ
  pub exchange : String
  pub symbol : String
  pub price : D
  pub quantity : D

-- `_BarState`; `open` and `close` are the first and the last price.
pub record BarState (D : Type 0) : Type 0 where
  pub genesis_ts : ℕ
  pub open_price : D
  pub high : D
  pub low : D
  pub close_price : D
  pub volume : D
  pub value : D
  pub last_ts : ℕ
  pub tick_count : ℕ

-- `bar_label` before it is formatted, as in "vol_1000".
pub data BarLabel (D : Type 0) : Type 0 where
  time_bar : ℕ → BarLabel D
  vol_bar : D → BarLabel D
  tick_bar : ℕ → BarLabel D
  dollar_bar : D → BarLabel D

-- `InformationBarModel` with the arguments that the aggregators pass.
pub record Bar (D : Type 0) : Type 0 where
  pub bar_label : BarLabel D
  pub genesis_ts : ℕ
  pub ts_close : ℕ
  pub threshold : D
  pub exchange : String
  pub symbol : String
  pub open_price : D
  pub high : D
  pub low : D
  pub close_price : D
  pub volume : D
  pub value : D

-- The aggregators that close a bar after the merge of a tick, each with its threshold.
pub data Aggregator (D : Type 0) : Type 0 where
  volume_aggregator : D → Aggregator D
  tick_aggregator : ℕ → Aggregator D
  dollar_aggregator : D → Aggregator D

abbrev pub States : Type 0 → Type 0
States D = Dict String (BarState D)

-- `TimeBarAggregator.__init__`, on a duration in microseconds: positive whole seconds.
pub time_init : ℕ → Option ℕ
time_init timeframe =
    if leb timeframe 0 then none else if timeframe % 1000000 == 0 then some timeframe else none

pub window_start : ℕ → ℕ → ℕ
window_start timeframe ts = (ts / timeframe) * timeframe

pub tick_init : {D : Type 0} → ℕ → Option (Aggregator D)
tick_init threshold = if leb threshold 0 then none else some (tick_aggregator threshold)

module _ {D : Type 0} (num : Decimal D) where
  open num use {add, mul, lt, of_nat}

  pub new_state : Tick D → BarState D
  new_state tick = record {
    genesis_ts = tick.ts_utc;
    open_price = tick.price;
    high = tick.price;
    low = tick.price;
    close_price = tick.price;
    volume = tick.quantity;
    value = mul tick.price tick.quantity;
    last_ts = tick.ts_utc;
    tick_count = 1;
  }

  pub update_ohlc : BarState D → D → BarState D
  update_ohlc s price = record s {
    high = if lt s.high price then price else s.high;
    low = if lt price s.low then price else s.low;
    close_price = price;
  }

  pub merge : BarState D → Tick D → BarState D
  unfolding update_ohlc
  merge s tick = record (update_ohlc s tick.price) {
    volume = add s.volume tick.quantity;
    value = add s.value (mul tick.price tick.quantity);
    last_ts = tick.ts_utc;
    tick_count = s.tick_count + 1;
  }

  -- The constructors refuse a threshold that is not positive; `none` is `ValueError`.
  pub volume_init : D → Option (Aggregator D)
  volume_init threshold =
      if not (lt (of_nat 0) threshold) then none else some (volume_aggregator threshold)

  pub dollar_init : D → Option (Aggregator D)
  dollar_init threshold =
      if not (lt (of_nat 0) threshold) then none else some (dollar_aggregator threshold)

  pub bar_label : Aggregator D → BarLabel D
  bar_label (volume_aggregator t) = vol_bar t
  bar_label (tick_aggregator n) = tick_bar n
  bar_label (dollar_aggregator t) = dollar_bar t

  pub threshold_decimal : Aggregator D → D
  threshold_decimal (volume_aggregator t) = t
  threshold_decimal (tick_aggregator n) = of_nat n
  threshold_decimal (dollar_aggregator t) = t

  pub should_close : Aggregator D → BarState D → Bool
  should_close (volume_aggregator t) s = not (lt s.volume t)
  should_close (tick_aggregator n) s = leb n s.tick_count
  should_close (dollar_aggregator t) s = not (lt s.value t)

  pub emit : Aggregator D → BarState D → Tick D → Bar D
  unfolding bar_label threshold_decimal
  emit a s tick = record {
    bar_label = bar_label a;
    genesis_ts = s.genesis_ts;
    ts_close = if leb tick.ts_utc s.genesis_ts then s.genesis_ts + 1 else tick.ts_utc;
    threshold = threshold_decimal a;
    exchange = tick.exchange;
    symbol = tick.symbol;
    open_price = s.open_price;
    high = s.high;
    low = s.low;
    close_price = s.close_price;
    volume = s.volume;
    value = s.value;
  }

  -- The state is stored; a bar that has reached its threshold is emitted, and its state deleted.
  pub close_if_reached : Aggregator D → BarState D → Tick D → States D → Option (Bar D) × States D
  close_if_reached a s tick states =
      let stored = insert tick.symbol s states in
      if should_close a s then (some (emit a s tick), erase tick.symbol stored) else (none, stored)

  -- `_default_process`; the merge writes to the stored state in place.
  pub process_tick : Aggregator D → Tick D → States D → Option (Bar D) × States D
  unfolding close_if_reached
  process_tick a tick states = elim (lookup tick.symbol states) [
    | none ↦ close_if_reached a (new_state tick) tick states
    | some s ↦ close_if_reached a (merge s tick) tick states
  ]

  pub time_emit : ℕ → BarState D → Tick D → Bar D
  time_emit timeframe s tick = record {
    bar_label = time_bar (timeframe / 1000000);
    genesis_ts = s.genesis_ts;
    ts_close = s.genesis_ts + timeframe;
    threshold = of_nat (timeframe / 1000000);
    exchange = tick.exchange;
    symbol = tick.symbol;
    open_price = s.open_price;
    high = s.high;
    low = s.low;
    close_price = s.close_price;
    volume = s.volume;
    value = s.value;
  }

  -- A fresh state for the tick's own window.
  pub seed : ℕ → Tick D → BarState D
  unfolding new_state window_start
  seed timeframe tick = record (new_state tick) { genesis_ts = window_start timeframe tick.ts_utc }

  -- `TimeBarAggregator.process_tick`
  pub process_tick_time : ℕ → Tick D → States D → Option (Bar D) × States D
  process_tick_time timeframe tick states = elim (lookup tick.symbol states) [
    | none ↦ (none, insert tick.symbol (seed timeframe tick) states)
    | some s ↦
        if ltb tick.ts_utc (s.genesis_ts + timeframe)
        then (none, insert tick.symbol (merge s tick) states)
        else (some (time_emit timeframe s tick), insert tick.symbol (seed timeframe tick) states)
  ]
