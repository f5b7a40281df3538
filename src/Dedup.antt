-- ===== src/Dedup.antt =====
-- src/mctrader_data/dedup.py: the checks of one session, the back-pressure of quarantine records,
-- and the passes over candles, ticks and order book events. The digest and the texts of dates are
-- parameters. Prices are the numbers that they compare as. A clock gives milliseconds; detected_at
-- and the counter sink, which repeats the two counts of the result, are left out.
mod Keys
mod Limiter
mod Candles
mod Session
mod Events
mod Tests
use Prim.Native.Nat.{Ordering}
use Prim.Native.String.{compare, ◌++◌ as str_append}
use mctrader_data.Prelude.{
  ℕ, suc, ◌+◌, ◌-◌, String, Bool, true, false, not, Option, none, some, List, [], ◌∷◌, ◌++◌, ltb,
  leb, if◌then◌else◌, str_eq,
}
use mctrader_data.Prelude.Integers.{ℤ, pos, int_eq}
use mctrader_data.Prelude.Dict.{Eq, Dict, num_eq, string_eq, pair_eq, lookup, insert}
use mctrader_data.Prelude.Sort.{sorted}

pub record CandleRow : Type 0 where
  pub exchange : String
  pub symbol : String
  pub timeframe : String
  pub ts_utc : ℕ
  pub open_price : String
  pub high : String
  pub low : String
  pub close_price : String
  pub volume : String
  pub received_at : Option ℕ
  pub node_id : Option String

-- A tick, whose level and event type are not used, or an order book event.
pub record EventRow : Type 0 where
  pub exchange : String
  pub symbol : String
  pub ts_utc : ℕ
  pub event_type : String
  pub side : String
  pub level : ℤ
  pub price : ℕ
  pub quantity : ℕ
  pub raw_json : Option String
  pub node_id : Option String

pub data DedupStatus : Type 0 where
  unique same_hash hash_conflict : DedupStatus

pub compute_data_hash : (String → String) → (ℕ → String) → CandleRow → String
compute_data_hash sha256 date_text c = sha256 (
    str_append (date_text c.ts_utc) (
      str_append "|" (
        str_append c.open_price (
          str_append "|" (
            str_append c.high (
              str_append "|" (
                str_append c.low
                  (str_append "|" (str_append c.close_price (str_append "|" c.volume))))))))))

pub is_duplicate :
    (String → String) → (ℕ → String) → CandleRow → Dict ℕ String → DedupStatus × Dict ℕ String
is_duplicate sha256 date_text c seen =
    let current = compute_data_hash sha256 date_text c in
    elim (lookup c.ts_utc seen) [
      | none ↦ (unique, insert c.ts_utc current seen)
      | some prior ↦ if str_eq prior current then (same_hash, seen) else (hash_conflict, seen)
    ]

abbrev pub CandleKey : Type 0
CandleKey = String × (String × (String × ℕ))

pub candle_logical_key : CandleRow → CandleKey
candle_logical_key r = (r.exchange, (r.symbol, (r.timeframe, r.ts_utc)))

-- The key of a tick has the first and the last four parts of an event's.
abbrev pub TickKey : Type 0
TickKey = String × (String × (ℕ × (ℕ × (ℕ × String))))

pub tick_logical_key : EventRow → TickKey
tick_logical_key r = (r.exchange, (r.symbol, (r.ts_utc, (r.price, (r.quantity, r.side)))))

abbrev pub BookKey : Type 0
BookKey = String × (String × (ℕ × (String × (String × (ℤ × (ℕ × ℕ))))))

pub orderbook_logical_key : EventRow → BookKey
orderbook_logical_key r =
    (r.exchange, (r.symbol, (r.ts_utc, (r.event_type, (r.side, (r.level, (r.price, r.quantity)))))))

-- `not node_id` holds of None and of the empty string.
pub node_priority : Option String → String
node_priority none = "zzz_DEFAULT"
node_priority (some node_id) = if str_eq node_id "" then "zzz_DEFAULT" else node_id

-- The order of strings, by their characters' codes.
pub str_lt : String → String → Bool
str_lt a b = elim (compare a b) [ Ordering.lt ↦ true | Ordering.eq ↦ false | Ordering.gt ↦ false ]

pub record QuarantineRecord (K R : Type 0) : Type 0 where
  pub tier : String
  pub logical_key : K
  pub existing : R
  pub row : R

pub record DedupResult (K R : Type 0) : Type 0 where
  pub emitted : List R
  pub dup_skip_count : ℕ
  pub quarantine_count : ℕ
  pub quarantine_records : List (QuarantineRecord K R)

pub values : {K V : Type 0} → Dict K V → List V
values [] = []
values ((k, v) ∷ d) = v ∷ values d

-- `_BackpressureLimiter`, over any records.
pub record BackpressureLimiter (Q : Type 0) : Type 0 where
  pub cap : ℕ
  pub window_start : ℕ
  pub window_count : ℕ
  pub batch : List Q
  pub artifact_count : ℕ

module _ {Q : Type 0} where
  pub limiter_init : ℕ → ℕ → BackpressureLimiter Q
  limiter_init cap now = record {
    cap = cap;
    window_start = now;
    window_count = 0;
    batch = [];
    artifact_count = 0;
  }

  -- After the window's rollover: what is emitted now, if anything.
  pub admit_counted : Q → BackpressureLimiter Q → List Q × BackpressureLimiter Q
  admit_counted q l =
      if leb (l.window_count + 1) l.cap
      then (
        q ∷ [],
        record l { window_count = l.window_count + 1; artifact_count = l.artifact_count + 1 },
      )
      else ([], record l { window_count = l.window_count + 1; batch = l.batch ++ q ∷ [] })

  pub admit_rolled : ℕ → Q → BackpressureLimiter Q → List Q × BackpressureLimiter Q
  admit_rolled now q l = elim l.batch [
    | [] ↦ admit_counted q (record l { window_start = now; window_count = 0 })
    | first ∷ others ↦ (
      first ∷ others,
      record l {
        window_start = now;
        window_count = 0;
        batch = q ∷ [];
        artifact_count = l.artifact_count + 1;
      },
    )
  ]

  pub admit : ℕ → Q → BackpressureLimiter Q → List Q × BackpressureLimiter Q
  admit now q l =
      if leb 1000 (now - l.window_start) then admit_rolled now q l else admit_counted q l

  pub limiter_flush : BackpressureLimiter Q → List Q × BackpressureLimiter Q
  limiter_flush l = elim l.batch [
    | [] ↦ ([], l)
    | first ∷ others ↦
        (first ∷ others, record l { batch = []; artifact_count = l.artifact_count + 1 })
  ]

-- `getattr(row, "received_at", None) or row.ts_utc`
pub received : CandleRow → ℕ
received r = elim r.received_at [ none ↦ r.ts_utc | some t ↦ t ]

-- The new row replaces the one that is there.
pub candle_wins : CandleRow → CandleRow → Bool
candle_wins new old =
    if ltb (received old) (received new)
    then true
    else if ltb (received new) (received old)
    then false
    else str_lt (node_priority new.node_id) (node_priority old.node_id)

pub record CandleRun : Type 0 where
  pub by_key : Dict CandleKey CandleRow
  pub dup_skip : ℕ

pub candle_step : CandleRow → CandleRun → CandleRun
candle_step row s =
    let key = candle_logical_key row in
    elim (lookup key s.by_key) [
      | none ↦ record s { by_key = insert key row s.by_key }
      | some old ↦ record {
        by_key = if candle_wins row old then insert key row s.by_key else s.by_key;
        dup_skip = s.dup_skip + 1;
      }
    ]

pub candle_loop : List CandleRow → CandleRun → CandleRun
candle_loop [] s = s
candle_loop (row ∷ rows) s = candle_loop rows (candle_step row s)

pub deduplicate_candles : Bool → List CandleRow → DedupResult CandleKey CandleRow
deduplicate_candles multi_node rows =
    if not multi_node
    then record {
      emitted = sorted (λ r. r.ts_utc) rows;
      dup_skip_count = 0;
      quarantine_count = 0;
      quarantine_records = [];
    }
    else let done = candle_loop rows (record { by_key = []; dup_skip = 0 }) in
      record {
        emitted = sorted (λ r. r.ts_utc) (values done.by_key);
        dup_skip_count = done.dup_skip;
        quarantine_count = 0;
        quarantine_records = [];
      }

-- Both texts are there and differ.
pub content_differs : EventRow → EventRow → Bool
content_differs old new = elim old.raw_json [
  | none ↦ false
  | some old_raw ↦ elim new.raw_json [ none ↦ false | some new_raw ↦ not (str_eq old_raw new_raw) ]
]

pub record EventRun (K : Type 0) : Type 0 where
  pub by_key : Dict K EventRow
  pub dup_skip : ℕ
  pub quarantine_count : ℕ
  pub quarantine_records : List (QuarantineRecord K EventRow)
  pub limiter : BackpressureLimiter (QuarantineRecord K EventRow)

-- The two passes are the same code but for their key and their tier; the clock is read for the
-- limiter and then once for each record.
module _ {K : Type 0} ⦃e : Eq K⦄ (tier : String) (logical_key : EventRow → K) (clock : ℕ → ℕ) where
  pub quarantine : EventRow → EventRow → EventRun K → EventRun K
  quarantine old row s =
      let key = logical_key row in
      let n = s.quarantine_count + 1 in
      let qr : QuarantineRecord K EventRow = record {
        tier = tier;
        logical_key = key;
        existing = old;
        row = row;
      } in
      let admitted = admit (clock n) qr s.limiter in
      record s {
        by_key =
            if str_lt (node_priority row.node_id) (node_priority old.node_id)
            then insert key row s.by_key
            else s.by_key;
        quarantine_count = n;
        quarantine_records = s.quarantine_records ++ admitted.0;
        limiter = admitted.1;
      }

  pub event_step : EventRow → EventRun K → EventRun K
  event_step row s = elim (lookup (logical_key row) s.by_key) [
    | none ↦ record s { by_key = insert (logical_key row) row s.by_key }
    | some old ↦
        if content_differs old row
        then quarantine old row s
        else record s { dup_skip = s.dup_skip + 1 }
  ]

  pub event_loop : List EventRow → EventRun K → EventRun K
  event_loop [] s = s
  event_loop (row ∷ rows) s = event_loop rows (event_step row s)

  pub event_start : EventRun K
  event_start = record {
    by_key = [];
    dup_skip = 0;
    quarantine_count = 0;
    quarantine_records = [];
    limiter = limiter_init 100 (clock 0);
  }

  pub deduplicate_events : Bool → List EventRow → DedupResult K EventRow
  deduplicate_events multi_node rows =
      if not multi_node
      then record {
        emitted = sorted (λ r. r.ts_utc) rows;
        dup_skip_count = 0;
        quarantine_count = 0;
        quarantine_records = [];
      }
      else let done = event_loop rows event_start in
        record {
          emitted = sorted (λ r. r.ts_utc) (values done.by_key);
          dup_skip_count = done.dup_skip;
          quarantine_count = done.quarantine_count;
          quarantine_records = done.quarantine_records ++ (limiter_flush done.limiter).0;
        }

pub deduplicate_ticks : (ℕ → ℕ) → Bool → List EventRow → DedupResult TickKey EventRow
deduplicate_ticks clock multi_node rows =
    deduplicate_events "tick" tick_logical_key clock multi_node rows

pub deduplicate_orderbook_events : (ℕ → ℕ) → Bool → List EventRow → DedupResult BookKey EventRow
deduplicate_orderbook_events clock multi_node rows =
    deduplicate_events "orderbook" orderbook_logical_key clock multi_node rows
