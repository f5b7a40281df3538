-- ===== src/Dedup/Events.antt =====
-- The passes over ticks and order book events, for any key: deduplicate_ticks and
-- deduplicate_orderbook_events.
use mctrader_data.Prelude.{
  ℕ, ◌+◌, String, ◌≡◌, refl, ap, ◌∙◌, inl, inr, Bool, true, List, [], ◌∷◌, arith, ltb,
  if◌then◌else◌, All, length, length-append, Bool-cases, Option-cases,
}
use mctrader_data.Prelude.Integers.{int_eq}
use mctrader_data.Prelude.Dict.{Eq, num_eq, string_eq, pair_eq, lookup}
use mctrader_data.Prelude.Ordered.{Distinct}
use mctrader_data.Prelude.Sort.{
  count, count-append, count-sorted, IsSorted, sorted-IsSorted, sorted, length-count,
}
use mctrader_data.Dedup.{
  EventRow, tick_logical_key, orderbook_logical_key, QuarantineRecord, DedupResult, values,
  limiter_init, admit, limiter_flush, content_differs, EventRun, quarantine, event_step, event_loop,
  event_start, deduplicate_events, deduplicate_ticks, deduplicate_orderbook_events,
}
use mctrader_data.Dedup.Limiter.{
  count-admit, count-limiter_flush, Both-admit, All-limiter_flush, All-append,
}
use mctrader_data.Dedup.Keys.{
  has, has-insert, length-insert, length-values, IsKeyed, IsKeyed-insert, count-values, found_key,
}

module _ {K : Type 0} ⦃e : Eq K⦄ (tier : String) (logical_key : EventRow → K) where
  abbrev pub at_key : K → EventRow → Bool
  at_key k r = e.beq (logical_key r) k

  -- Two rows of one key whose texts differ.
  pub record IsMismatch (q : QuarantineRecord K EventRow) : Type 0 where
    pub in_tier : q.tier ≡ tier
    pub key_of_existing : logical_key q.existing ≡ q.logical_key
    pub key_of_row : logical_key q.row ≡ q.logical_key
    pub differ : content_differs q.existing q.row ≡ true

  -- What a pass promises for the rows of several nodes.
  pub record Reconciles (rows : List EventRow) (result : DedupResult K EventRow) : Type 0 where
    pub in_order : IsSorted (λ r. r.ts_utc) result.emitted
    pub one_each :
        (k : K) → count (at_key k) result.emitted ≡ (if ltb 0 (count (at_key k) rows) then 1 else 0)
    pub accounted :
        length result.emitted + result.dup_skip_count + result.quarantine_count ≡ length rows
    pub none_lost : length result.quarantine_records ≡ result.quarantine_count
    pub mismatches : All IsMismatch result.quarantine_records

  module _ (clock : ℕ → ℕ) where
    -- What holds before and after each row.
    record Sound (s : EventRun K) : Type 0 where
      is_keyed : IsKeyed logical_key s.by_key
      emitted_real : All IsMismatch s.quarantine_records
      waiting_real : All IsMismatch s.limiter.batch
      records_counted :
          count (λ q. true) s.quarantine_records + count (λ q. true) s.limiter.batch
          ≡ s.quarantine_count

    quarantine-Sound :
        (old row : EventRow) (s : EventRun K)
        → Sound s
        → logical_key old ≡ logical_key row
        → content_differs old row ≡ true
        → Sound (quarantine tier logical_key clock old row s)
    unfolding quarantine
    quarantine-Sound old row s h same differ =
        let q : QuarantineRecord K EventRow = record {
          tier = tier;
          logical_key = logical_key row;
          existing = old;
          row = row;
        } in
        let real : IsMismatch q = record {
          in_tier = refl;
          key_of_existing = same;
          key_of_row = refl;
          differ = differ;
        } in
        let now = clock (s.quarantine_count + 1) in
        let both = Both-admit IsMismatch now q s.limiter real h.waiting_real in
        record {
          is_keyed = ground (arith, IsKeyed-insert logical_key row s.by_key h.is_keyed);
          emitted_real =
              All-append IsMismatch s.quarantine_records (admit now q s.limiter).0 h.emitted_real
                both.0;
          waiting_real = both.1;
          records_counted = omega (
            arith,
            h.records_counted,
            count-admit (λ x. true) now q s.limiter,
            count-append (λ x. true) s.quarantine_records (admit now q s.limiter).0,
          );
        }

    event_step-Sound :
        (row : EventRow) (s : EventRun K)
        → Sound s
        → Sound (event_step tier logical_key clock row s)
    unfolding event_step
    event_step-Sound row s h = elim (Option-cases (lookup (logical_key row) s.by_key)) [
      | inl fresh ↦
          rw (fresh, event_step)
            (record {
              is_keyed = IsKeyed-insert logical_key row s.by_key h.is_keyed;
              emitted_real = h.emitted_real;
              waiting_real = h.waiting_real;
              records_counted = h.records_counted;
            })
      | inr (old, found) ↦ elim (Bool-cases (content_differs old row)) [
        | inl differ ↦
            rw (found, event_step, differ)
              (quarantine-Sound old row s h
                (found_key logical_key (logical_key row) old s.by_key h.is_keyed found) differ)
        | inr same ↦
            rw (found, event_step, same)
              (record {
                is_keyed = h.is_keyed;
                emitted_real = h.emitted_real;
                waiting_real = h.waiting_real;
                records_counted = h.records_counted;
              })
      ]
    ]

    event_loop-Sound :
        (rows : List EventRow) (s : EventRun K)
        → Sound s
        → Sound (event_loop tier logical_key clock rows s)
    unfolding event_loop
    event_loop-Sound [] s h = h
    event_loop-Sound (row ∷ rows) s h =
        event_loop-Sound rows (event_step tier logical_key clock row s) (event_step-Sound row s h)

    has-event_step :
        (k : K) (row : EventRow) (s : EventRun K)
        → has k (event_step tier logical_key clock row s).by_key
          ≡ (if at_key k row then true else has k s.by_key)
    unfolding event_step has quarantine
    has-event_step k row s =
        ground (arith, has-insert (logical_key row) k row s.by_key, e.beq_iff (logical_key row) k)

    length-event_step :
        (row : EventRow) (s : EventRun K)
        → length (event_step tier logical_key clock row s).by_key
            + (event_step tier logical_key clock row s).dup_skip
            + (event_step tier logical_key clock row s).quarantine_count
          ≡ length s.by_key + s.dup_skip + s.quarantine_count + 1
    unfolding event_step has quarantine
    length-event_step row s = ground (arith, length-insert (logical_key row) row s.by_key)

    has-event_loop :
        (k : K) (rows : List EventRow) (s : EventRun K)
        → has k (event_loop tier logical_key clock rows s).by_key
          ≡ (if ltb 0 (count (at_key k) rows) then true else has k s.by_key)
    unfolding event_loop
    has-event_loop k [] s = refl
    has-event_loop k (row ∷ rows) s = ground (
      arith,
      has-event_loop k rows (event_step tier logical_key clock row s),
      has-event_step k row s,
    )

    length-event_loop :
        (rows : List EventRow) (s : EventRun K)
        → length (event_loop tier logical_key clock rows s).by_key
            + (event_loop tier logical_key clock rows s).dup_skip
            + (event_loop tier logical_key clock rows s).quarantine_count
          ≡ length s.by_key + s.dup_skip + s.quarantine_count + length rows
    unfolding event_loop
    length-event_loop [] s = omega arith
    length-event_loop (row ∷ rows) s = omega (
      arith,
      length-event_loop rows (event_step tier logical_key clock row s),
      length-event_step row s,
    )

    event_start-Sound : Sound (event_start tier logical_key clock)
    unfolding event_start limiter_init Distinct
    event_start-Sound = record {
      is_keyed = record { keyed = tt; distinct = tt };
      emitted_real = tt;
      waiting_real = tt;
      records_counted = refl;
    }

    has-event_start :
        (k : K) (b : Bool)
        → (if b then true else has k (event_start tier logical_key clock).by_key) ≡ b
    unfolding has lookup event_start
    has-event_start k b = ground arith

    length-event_start :
        (rows : List EventRow)
        → length
              (event_loop tier logical_key clock rows (event_start tier logical_key clock)).by_key
            + (event_loop tier logical_key clock rows (event_start tier logical_key clock)).dup_skip
            + (event_loop tier logical_key clock rows
                (event_start tier logical_key clock)).quarantine_count
          ≡ length rows
    unfolding event_start
    length-event_start rows =
        omega (arith, length-event_loop rows (event_start tier logical_key clock))

    length-sorted : (rs : List EventRow) → length (sorted (λ r. r.ts_utc) rs) ≡ length rs
    length-sorted rs = omega (
      arith,
      count-sorted (λ r. r.ts_utc) (λ r. true) rs,
      length-count rs,
      length-count (sorted (λ r. r.ts_utc) rs),
    )

    pub deduplicate_events-Reconciles :
        (rows : List EventRow)
        → Reconciles rows (deduplicate_events tier logical_key clock true rows)
    unfolding deduplicate_events
    deduplicate_events-Reconciles rows =
        let done = event_loop tier logical_key clock rows (event_start tier logical_key clock) in
        let sound : Sound done = event_loop-Sound rows _ event_start-Sound in
        let flushed = (limiter_flush done.limiter).0 in
        record {
          in_order = sorted-IsSorted (λ r. r.ts_utc) (values done.by_key);
          one_each = λ k.
              count-sorted (λ r. r.ts_utc) (at_key k) (values done.by_key)
              ∙ count-values logical_key k done.by_key sound.is_keyed
              ∙ ap (λ b. if b then 1 else 0)
                  (has-event_loop k rows _ ∙ has-event_start k (ltb 0 (count (at_key k) rows)));
          accounted = omega (
            arith,
            length-event_start rows,
            length-sorted (values done.by_key),
            length-values done.by_key,
          );
          none_lost = omega (
            arith,
            length-append {0} done.quarantine_records flushed,
            length-count done.quarantine_records,
            length-count flushed,
            count-limiter_flush (λ x. true) done.limiter,
            sound.records_counted,
          );
          mismatches =
              All-append IsMismatch done.quarantine_records flushed sound.emitted_real
                (All-limiter_flush IsMismatch done.limiter sound.waiting_real);
        }

-- For the ticks of several nodes, at any times: those that are emitted are in the order of their
-- times, with exactly one for each key that occurs and none for another; every row is emitted, or
-- counted as a duplicate or as quarantined; and as many records as are counted are handed on, each
-- of two rows of its key whose texts differ.
pub deduplicate_ticks-Reconciles :
    (clock : ℕ → ℕ) (rows : List EventRow)
    → Reconciles "tick" tick_logical_key rows (deduplicate_ticks clock true rows)
unfolding deduplicate_ticks
deduplicate_ticks-Reconciles clock rows =
    deduplicate_events-Reconciles "tick" tick_logical_key clock rows

-- For the order book events of several nodes, under their own key and at any times: those that are
-- emitted are in the order of their times, with exactly one for each key that occurs and none for
-- another; every row is emitted, or counted as a duplicate or as quarantined; and as many records
-- as are counted are handed on, each of two rows of its key whose texts differ.
pub deduplicate_orderbook-Reconciles :
    (clock : ℕ → ℕ) (rows : List EventRow)
    → Reconciles "orderbook" orderbook_logical_key rows
        (deduplicate_orderbook_events clock true rows)
unfolding deduplicate_orderbook_events
deduplicate_orderbook-Reconciles clock rows =
    deduplicate_events-Reconciles "orderbook" orderbook_logical_key clock rows
