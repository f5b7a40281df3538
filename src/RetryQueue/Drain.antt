-- ===== src/RetryQueue/Drain.antt =====
-- The rows and payloads through a drain, for any uploader.
use mctrader_data.Prelude.{
  String, ◌≡◌, refl, ap, ◌∙◌, ◌⊎◌, inl, inr, Bool, true, false, some, List, [], ◌∷◌, arith,
  Option-cases,
}
use mctrader_data.Prelude.Dict.{Dict, string_eq, lookup, lookup-erase}
use mctrader_data.RetryQueue.{
  Bytes, Row, Queue, PutResult, queued, uploaded, unreachable, throttled, put_failed, DrainRun,
  skip_one, fail_one, succeed, throttle, answer_put, drain_row, drain_rows, is_pending, select,
  order_by_ts, drain_start, first_cycle, is_quarantined, drain,
}
use mctrader_data.RetryQueue.Select.{
  Has, Within, Has-delete_row, Has-of_delete_row, Has-of_select, Has-of_order_by_ts,
}

module _ (put : Row → Bytes → PutResult) where
  -- A row with the id was offered to the uploader with its stored payload, and taken.
  pub record Uploaded (id : String) (rows : List Row) (payloads : Dict String Bytes) : Type 0 where
    pub row : Row
    pub bytes : Bytes
    pub same_id : row.id ≡ id
    pub was_there : Has row rows
    pub payload : lookup row.payload_file payloads ≡ some bytes
    pub answer : put row bytes ≡ uploaded

  -- A step leaves the queue as it is, or has uploaded its row and taken it out.
  abbrev StepTakes : Bool → Row → DrainRun → Type 0
  StepTakes b s d =
      (bytes : Bytes) × (lookup s.payload_file d.queue.payloads ≡ some bytes)
      × (put s bytes ≡ uploaded)
      × ((drain_row put b s d).queue ≡ (succeed s d).queue)

  queue-answer_put :
      (b : Bool) (a : PutResult) (s : Row) (d : DrainRun)
      → ((answer_put b a s d).queue ≡ d.queue)
        ⊎ ((a ≡ uploaded) × ((answer_put b a s d).queue ≡ (succeed s d).queue))
  unfolding answer_put fail_one throttle
  queue-answer_put b queued s d = inl refl
  queue-answer_put b uploaded s d = inr (refl, refl)
  queue-answer_put b unreachable s d = inl refl
  queue-answer_put true throttled s d = inl refl
  queue-answer_put false throttled s d = inl refl
  queue-answer_put b put_failed s d = inl refl

  drain_row_cases :
      (b : Bool) (s : Row) (d : DrainRun)
      → ((drain_row put b s d).queue ≡ d.queue) ⊎ StepTakes b s d
  unfolding drain_row skip_one
  drain_row_cases b s d = elim (Option-cases (lookup s.payload_file d.queue.payloads)) [
    | inl gone ↦ inl (rw (gone, drain_row))
    | inr (bytes, found) ↦
        let opened : drain_row put b s d ≡ answer_put b (put s bytes) s d = rw (found, drain_row) in
        elim (queue-answer_put b (put s bytes) s d) [
          | inl same ↦ inl (ap (λ x. x.queue) opened ∙ same)
          | inr (answer, taken) ↦ inr (bytes, found, answer, ap (λ x. x.queue) opened ∙ taken)
        ]
  ]

  lookup_of_drain_row :
      (b : Bool) (s : Row) (d : DrainRun) (f : String) (v : Bytes)
      → lookup f (drain_row put b s d).queue.payloads ≡ some v
      → lookup f d.queue.payloads ≡ some v
  unfolding succeed
  lookup_of_drain_row b s d f v h = elim (drain_row_cases b s d) [
    | inl same ↦ rw (← same) h
    | inr (bytes, found, answer, taken) ↦
        ground (arith, lookup-erase s.payload_file f d.queue.payloads)
  ]

  Has-of_drain_row :
      (b : Bool) (s : Row) (d : DrainRun) (r : Row)
      → Has r (drain_row put b s d).queue.rows
      → Has r d.queue.rows
  unfolding succeed
  Has-of_drain_row b s d r h = elim (drain_row_cases b s d) [
    | inl same ↦ rw (← same) h
    | inr (bytes, found, answer, taken) ↦ Has-of_delete_row r s.id d.queue.rows (rw taken at h)
  ]

  -- Every payload of the one is in the other.
  abbrev Stored : Dict String Bytes → Dict String Bytes → Type 0
  Stored now before = (f : String) (v : Bytes) → lookup f now ≡ some v → lookup f before ≡ some v

  module _ (rows : List Row) (payloads : Dict String Bytes) where
    -- One step keeps a row, or has uploaded the row with its id.
    Has-drain_row :
        (b : Bool) (s : Row) (d : DrainRun) (r : Row)
        → Has s rows
        → Stored d.queue.payloads payloads
        → Has r d.queue.rows
        → Has r (drain_row put b s d).queue.rows ⊎ Uploaded r.id rows payloads
    unfolding succeed
    Has-drain_row b s d r hs stored hr = elim (drain_row_cases b s d) [
      | inl same ↦ inl (rw same hr)
      | inr (bytes, found, answer, taken) ↦ elim (Has-delete_row r s.id d.queue.rows hr) [
        | inl kept ↦ inl (rw taken kept)
        | inr same ↦ inr (record {
          row = s;
          bytes = bytes;
          same_id = same;
          was_there = hs;
          payload = stored s.payload_file bytes found;
          answer = answer;
        })
      ]
    ]

    Has-drain_rows :
        (b : Bool) (rs : List Row) (d : DrainRun) (r : Row)
        → Within rs rows
        → Stored d.queue.payloads payloads
        → Has r d.queue.rows
        → Has r (drain_rows put b rs d).queue.rows ⊎ Uploaded r.id rows payloads
    unfolding drain_rows
    Has-drain_rows b [] d r within stored hr = inl hr
    Has-drain_rows b (s ∷ rs) d r within stored hr =
        elim (Has-drain_row b s d r (within s (inl refl)) stored hr) [
          | inl kept ↦
              Has-drain_rows b rs (drain_row put b s d) r (λ x h. within x (inr h))
                (λ f v e. stored f v (lookup_of_drain_row b s d f v e)) kept
          | inr gone ↦ inr gone
        ]

  Has-of_drain_rows :
      (b : Bool) (rs : List Row) (d : DrainRun) (r : Row)
      → Has r (drain_rows put b rs d).queue.rows
      → Has r d.queue.rows
  unfolding drain_rows
  Has-of_drain_rows b [] d r h = h
  Has-of_drain_rows b (s ∷ rs) d r h =
      Has-of_drain_row b s d r (Has-of_drain_rows b rs (drain_row put b s d) r h)

  lookup_of_drain_rows :
      (b : Bool) (rs : List Row) (d : DrainRun)
      → Stored (drain_rows put b rs d).queue.payloads d.queue.payloads
  unfolding drain_rows
  lookup_of_drain_rows b [] d f v h = h
  lookup_of_drain_rows b (s ∷ rs) d f v h =
      lookup_of_drain_row b s d f v (lookup_of_drain_rows b rs (drain_row put b s d) f v h)

  -- For every uploader: a row that was in the table is there after a drain, or a row with its id
  -- was offered to the uploader with its stored payload and the answer was a success.
  pub Has-drain :
      (q : Queue) (r : Row)
      → Has r q.rows
      → Has r (drain put q).queue.rows ⊎ Uploaded r.id q.rows q.payloads
  unfolding drain first_cycle
  Has-drain q r h =
      let first = first_cycle put q in
      let first_within : Within (order_by_ts (select is_pending q.rows)) q.rows =
        λ x k. Has-of_select is_pending q.rows x (Has-of_order_by_ts _ x k) in
      let second_within : Within (order_by_ts (select is_quarantined first.queue.rows)) q.rows =
        λ x k.
          Has-of_drain_rows true _ (drain_start q) x
            (Has-of_select is_quarantined first.queue.rows x (Has-of_order_by_ts _ x k)) in
      elim (Has-drain_rows q.rows q.payloads true _ (drain_start q) r first_within (λ f v e. e) h) [
        | inl kept ↦
            Has-drain_rows q.rows q.payloads false _ first r second_within
              (lookup_of_drain_rows true _ (drain_start q)) kept
        | inr gone ↦ inr gone
      ]

  -- A drain adds no row.
  pub Has-of_drain : (q : Queue) (r : Row) → Has r (drain put q).queue.rows → Has r q.rows
  unfolding drain first_cycle
  Has-of_drain q r h = Has-of_drain_rows true _ _ r (Has-of_drain_rows false _ _ r h)
