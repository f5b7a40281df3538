-- ===== src/RetryQueue/Counts.antt =====
-- The counts and the sleeps of a drain.
use mctrader_data.Prelude.{
  ℕ, ◌+◌, ◌≤◌, ◌≡◌, refl, inl, inr, Bool, true, false, List, [], ◌∷◌, arith, Option-cases, length,
  All,
}
use mctrader_data.Prelude.Dict.{string_eq, lookup}
use mctrader_data.RetryQueue.{
  Bytes, Row, Queue, PutResult, queued, uploaded, unreachable, throttled, put_failed, DrainStats,
  DrainRun, skip_one, fail_one, succeed, throttle, answer_put, drain_row, drain_rows, is_pending,
  count_where, select, insert_by_ts, order_by_ts, drain_start, first_cycle, is_quarantined, drain,
}

-- The counts of the rows that a drain has tried.
abbrev pub tried : DrainStats → ℕ
tried s = s.drained + s.failed + s.skipped

module _ (put : Row → Bytes → PutResult) where
  tried-answer_put :
      (b : Bool) (a : PutResult) (r : Row) (d : DrainRun)
      → tried (answer_put b a r d).stats ≡ tried d.stats + 1
  unfolding answer_put fail_one succeed throttle
  tried-answer_put b queued r d = omega arith
  tried-answer_put b uploaded r d = omega arith
  tried-answer_put b unreachable r d = omega arith
  tried-answer_put true throttled r d = omega arith
  tried-answer_put false throttled r d = omega arith
  tried-answer_put b put_failed r d = omega arith

  tried-drain_row :
      (b : Bool) (r : Row) (d : DrainRun) → tried (drain_row put b r d).stats ≡ tried d.stats + 1
  unfolding drain_row skip_one
  tried-drain_row b r d = elim (Option-cases (lookup r.payload_file d.queue.payloads)) [
    | inl gone ↦ rw (gone, drain_row) (omega arith)
    | inr (bytes, found) ↦ rw (found, drain_row) (tried-answer_put b (put r bytes) r d)
  ]

  tried-drain_rows :
      (b : Bool) (rs : List Row) (d : DrainRun)
      → tried (drain_rows put b rs d).stats ≡ tried d.stats + length rs
  unfolding drain_rows
  tried-drain_rows b [] d = omega arith
  tried-drain_rows b (r ∷ rs) d =
      omega (arith, tried-drain_row b r d, tried-drain_rows b rs (drain_row put b r d))

  slept-answer_put :
      (b : Bool) (a : PutResult) (s : Row) (d : DrainRun)
      → All (λ t. t ≤ 60) d.slept
      → All (λ t. t ≤ 60) (answer_put b a s d).slept
  unfolding answer_put fail_one succeed throttle
  slept-answer_put b queued s d h = h
  slept-answer_put b uploaded s d h = h
  slept-answer_put b unreachable s d h = h
  slept-answer_put true throttled s d h = (omega arith, h)
  slept-answer_put false throttled s d h = h
  slept-answer_put b put_failed s d h = h

  slept-drain_row :
      (b : Bool) (s : Row) (d : DrainRun)
      → All (λ t. t ≤ 60) d.slept
      → All (λ t. t ≤ 60) (drain_row put b s d).slept
  unfolding drain_row skip_one
  slept-drain_row b s d h = elim (Option-cases (lookup s.payload_file d.queue.payloads)) [
    | inl gone ↦ rw (gone, drain_row) h
    | inr (bytes, found) ↦ rw (found, drain_row) (slept-answer_put b (put s bytes) s d h)
  ]

  slept-drain_rows :
      (b : Bool) (rs : List Row) (d : DrainRun)
      → All (λ t. t ≤ 60) d.slept
      → All (λ t. t ≤ 60) (drain_rows put b rs d).slept
  unfolding drain_rows
  slept-drain_rows b [] d h = h
  slept-drain_rows b (s ∷ rs) d h =
      slept-drain_rows b rs (drain_row put b s d) (slept-drain_row b s d h)

  length-insert_by_ts : (s : Row) (rs : List Row) → length (insert_by_ts s rs) ≡ length rs + 1
  unfolding insert_by_ts
  length-insert_by_ts s [] = omega arith
  length-insert_by_ts s (x ∷ rs) = ground (arith, length-insert_by_ts s rs)

  length-order_by_ts : (rs : List Row) → length (order_by_ts rs) ≡ length rs
  unfolding order_by_ts
  length-order_by_ts [] = refl
  length-order_by_ts (s ∷ rs) =
      omega (arith, length-insert_by_ts s (order_by_ts rs), length-order_by_ts rs)

  length-select : (p : Row → Bool) (rs : List Row) → length (select p rs) ≡ count_where p rs
  unfolding select count_where
  length-select p [] = refl
  length-select p (s ∷ rs) = ground (arith, length-select p rs)

  tried_cycle :
      (b : Bool) (p : Row → Bool) (rows : List Row) (d : DrainRun)
      → tried (drain_rows put b (order_by_ts (select p rows)) d).stats
        ≡ tried d.stats + count_where p rows
  tried_cycle b p rows d = omega (
    arith,
    tried-drain_rows b (order_by_ts (select p rows)) d,
    length-order_by_ts (select p rows),
    length-select p rows,
  )

  -- For every uploader: drained, failed and skipped together count the rows that were pending at
  -- the start and those that were quarantined after the first cycle, and no sleep of the backoff is
  -- longer than sixty seconds.
  pub drain_counts :
      (q : Queue)
      → (tried (drain put q).stats
          ≡ count_where is_pending q.rows
            + count_where is_quarantined (first_cycle put q).queue.rows)
        × All (λ t. t ≤ 60) (drain put q).slept
  unfolding drain first_cycle drain_start
  drain_counts q = (
    omega (
      arith,
      tried_cycle true is_pending q.rows (drain_start q),
      tried_cycle false is_quarantined (first_cycle put q).queue.rows (first_cycle put q),
    ),
    slept-drain_rows false _ _ (slept-drain_rows true _ (drain_start q) tt),
  )
