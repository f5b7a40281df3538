-- ===== src/Dedup/Candles.antt =====
-- The candle pass: deduplicate_candles.
use mctrader_data.Prelude.{
  ℕ, ◌+◌, max, ◌≡◌, refl, ap, ◌∙◌, Bool, true, false, none, some, List, [], ◌∷◌, arith, ltb,
  if◌then◌else◌, All, length,
}
use mctrader_data.Prelude.Integers.{int_eq}
use mctrader_data.Prelude.Dict.{Eq, Dict, num_eq, string_eq, pair_eq, lookup, lookup-insert}
use mctrader_data.Prelude.Ordered.{Distinct}
use mctrader_data.Prelude.Sort.{
  count, count-sorted, IsSorted, sorted-IsSorted, All-sorted, sorted, length-count,
}
use mctrader_data.Dedup.{
  CandleRow, CandleKey, candle_logical_key, DedupResult, values, received, candle_wins, CandleRun,
  candle_step, candle_loop, deduplicate_candles,
}
use mctrader_data.Dedup.Keys.{
  has, has-insert, length-insert, length-values, IsKeyed, IsKeyed-insert, count-values,
  found_values,
}

abbrev pub candle_key_eq : Eq CandleKey
candle_key_eq = pair_eq

abbrev pub is_key : CandleKey → CandleRow → Bool
is_key k r = candle_key_eq.beq (candle_logical_key r) k

-- The latest time at which a row with this key was received, and zero when there is none.
pub latest : CandleKey → List CandleRow → ℕ
latest k [] = 0
latest k (r ∷ rs) = if is_key k r then max (received r) (latest k rs) else latest k rs

kept : CandleKey → Dict CandleKey CandleRow → ℕ
kept k d = elim (lookup k d) [ none ↦ 0 | some r ↦ received r ]

IsKeyed-candle_step :
    (row : CandleRow) (s : CandleRun)
    → IsKeyed candle_logical_key s.by_key
    → IsKeyed candle_logical_key (candle_step row s).by_key
unfolding candle_step
IsKeyed-candle_step row s h = ground (arith, IsKeyed-insert candle_logical_key row s.by_key h)

has-candle_step :
    (k : CandleKey) (row : CandleRow) (s : CandleRun)
    → has k (candle_step row s).by_key ≡ (if is_key k row then true else has k s.by_key)
unfolding candle_step has
has-candle_step k row s = ground (
  arith,
  has-insert (candle_logical_key row) k row s.by_key,
  candle_key_eq.beq_iff (candle_logical_key row) k,
)

kept-candle_step :
    (k : CandleKey) (row : CandleRow) (s : CandleRun)
    → kept k (candle_step row s).by_key
      ≡ (if is_key k row then max (received row) (kept k s.by_key) else kept k s.by_key)
unfolding candle_step kept candle_wins
kept-candle_step k row s = ground (
  arith,
  lookup-insert (candle_logical_key row) k row s.by_key,
  candle_key_eq.beq_iff (candle_logical_key row) k,
)

length-candle_step :
    (row : CandleRow) (s : CandleRun)
    → length (candle_step row s).by_key + (candle_step row s).dup_skip
      ≡ length s.by_key + s.dup_skip + 1
unfolding candle_step has
length-candle_step row s = ground (arith, length-insert (candle_logical_key row) row s.by_key)

IsKeyed-candle_loop :
    (rows : List CandleRow) (s : CandleRun)
    → IsKeyed candle_logical_key s.by_key
    → IsKeyed candle_logical_key (candle_loop rows s).by_key
unfolding candle_loop
IsKeyed-candle_loop [] s h = h
IsKeyed-candle_loop (row ∷ rows) s h =
    IsKeyed-candle_loop rows (candle_step row s) (IsKeyed-candle_step row s h)

has-candle_loop :
    (k : CandleKey) (rows : List CandleRow) (s : CandleRun)
    → has k (candle_loop rows s).by_key
      ≡ (if ltb 0 (count (is_key k) rows) then true else has k s.by_key)
unfolding candle_loop
has-candle_loop k [] s = refl
has-candle_loop k (row ∷ rows) s =
    ground (arith, has-candle_loop k rows (candle_step row s), has-candle_step k row s)

kept-candle_loop :
    (k : CandleKey) (rows : List CandleRow) (s : CandleRun)
    → kept k (candle_loop rows s).by_key ≡ max (kept k s.by_key) (latest k rows)
unfolding candle_loop latest
kept-candle_loop k [] s = omega arith
kept-candle_loop k (row ∷ rows) s =
    ground (arith, kept-candle_loop k rows (candle_step row s), kept-candle_step k row s)

length-candle_loop :
    (rows : List CandleRow) (s : CandleRun)
    → length (candle_loop rows s).by_key + (candle_loop rows s).dup_skip
      ≡ length s.by_key + s.dup_skip + length rows
unfolding candle_loop
length-candle_loop [] s = omega arith
length-candle_loop (row ∷ rows) s =
    omega (arith, length-candle_loop rows (candle_step row s), length-candle_step row s)

-- What the pass promises for the candles of several nodes.
pub record KeepsLatest (rows : List CandleRow) (result : DedupResult CandleKey CandleRow)
    : Type 0 where
  pub in_order : IsSorted (λ r. r.ts_utc) result.emitted
  pub one_each :
      (k : CandleKey)
      → count (is_key k) result.emitted ≡ (if ltb 0 (count (is_key k) rows) then 1 else 0)
  pub latest_of : All (λ r. received r ≡ latest (candle_logical_key r) rows) result.emitted
  pub accounted : length result.emitted + result.dup_skip_count ≡ length rows

abbrev empty : CandleRun
empty = record { by_key = []; dup_skip = 0 }

empty-IsKeyed : IsKeyed candle_logical_key empty.by_key
unfolding Distinct
empty-IsKeyed = record { keyed = tt; distinct = tt }

seen_only : (k : CandleKey) (b : Bool) → (if b then true else has k empty.by_key) ≡ b
unfolding has lookup
seen_only k b = ground arith

received_when_found :
    (k : CandleKey) (r : CandleRow) (rows : List CandleRow)
    → lookup k (candle_loop rows empty).by_key ≡ some r
    → received r ≡ latest k rows
unfolding kept lookup
received_when_found k r rows h = ground (arith, kept-candle_loop k rows empty)

All-map :
    (P Q : CandleRow → Type 0) (rs : List CandleRow)
    → ((r : CandleRow) → P r → Q r)
    → All P rs
    → All Q rs
All-map P Q [] f h = tt
All-map P Q (r ∷ rs) f h = (f r h.0, All-map P Q rs f h.1)

length-sorted : (rs : List CandleRow) → length (sorted (λ r. r.ts_utc) rs) ≡ length rs
length-sorted rs = omega (
  arith,
  count-sorted (λ r. r.ts_utc) (λ r. true) rs,
  length-count rs,
  length-count (sorted (λ r. r.ts_utc) rs),
)

-- For the rows of several nodes, the candles that are emitted are in the order of their times; each
-- key that occurs has exactly one of them, and no other key has any; its time of receipt is the
-- latest among the rows of its key; and the rows that are left out are counted.
pub deduplicate_candles-KeepsLatest :
    (rows : List CandleRow) → KeepsLatest rows (deduplicate_candles true rows)
unfolding deduplicate_candles
deduplicate_candles-KeepsLatest rows =
    let d = (candle_loop rows empty).by_key in
    let keyed : IsKeyed candle_logical_key d = IsKeyed-candle_loop rows empty empty-IsKeyed in
    record {
      in_order = sorted-IsSorted (λ r. r.ts_utc) (values d);
      one_each = λ k.
          count-sorted (λ r. r.ts_utc) (is_key k) (values d)
          ∙ count-values candle_logical_key k d keyed
          ∙ ap (λ b. if b then 1 else 0)
              (has-candle_loop k rows empty ∙ seen_only k (ltb 0 (count (is_key k) rows)));
      latest_of =
          All-sorted _ (λ r. r.ts_utc) (values d)
            (All-map _ _ (values d) (λ r. received_when_found (candle_logical_key r) r rows)
              (found_values candle_logical_key d keyed));
      accounted =
          omega (arith, length-candle_loop rows empty, length-sorted (values d), length-values d);
    }

-- The rows of one node are emitted as they are, in the order of their times.
pub deduplicate_candles-one_node :
    (rows : List CandleRow) (p : CandleRow → Bool)
    → IsSorted (λ r. r.ts_utc) (deduplicate_candles false rows).emitted
      × (count p (deduplicate_candles false rows).emitted ≡ count p rows)
unfolding deduplicate_candles
deduplicate_candles-one_node rows p =
    (sorted-IsSorted (λ r. r.ts_utc) rows, count-sorted (λ r. r.ts_utc) p rows)
