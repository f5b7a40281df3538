-- ===== src/Uploader/Put.antt =====
-- What put answers, by what has become of the data.
use mctrader_data.Prelude.{
  ◌≤◌, String, true, false, ◌≡◌, refl, ap, ◌⊎◌, inl, inr, Option, none, some, str_eq, eq_iff, subst,
  Bool-cases, Option-cases,
}
use mctrader_data.RetryQueue.{
  Bytes, Queue, EnqueueResult, ok, hard_floor_blocked as floor_reached, insert_raised, enqueue,
  depth,
}
use mctrader_data.RetryQueue.Enqueue.{Keeps, enqueue-Keeps}
use mctrader_data.Uploader.{
  PutStatus, uploaded, skipped_idempotent, queued, hard_floor_blocked, skipped_etag_overwrite,
  conflict, operational_alert, endpoint_unreachable, client_error, enqueue_failed, other_exception,
  Outcome, returned, raised, HeadReply, object_at, head_error, head_unreachable, head_other,
  WriteReply, stored, write_error, write_unreachable, write_other, Client, Nas, Insertion,
  classify_4xx, answer_enqueue, absorb, answer_write, put_after_head, put_with_idempotency,
  refuse_or_absorb, settle_put, put, answer_upload, upload, streaming_after_head, put_streaming,
  path_source, sent_bytes, retry_bytes,
}

-- What the code relies on of the store. `Labelled key d s`: in the bucket `s` the object at `key`
-- carries the digest `d` in its metadata. A HEAD that shows a digest, and a write that is
-- acknowledged, make it so.
pub record Laws {S : Type 0} (client : Client S) (Labelled : String → String → S → Type 0)
    : Type 0 where
  pub shown :
      (key d : String) (s t : S)
      → client.head_object key s ≡ (object_at (some d), t)
      → Labelled key d t
  pub put_stored :
      (key : String) (body : Bytes) (d : String) (s t : S)
      → client.put_object key body d s ≡ (stored, t)
      → Labelled key d t
  pub upload_stored :
      (key : String) (body : Bytes) (d : String) (s t : S)
      → client.upload_fileobj key body d s ≡ (stored, t)
      → Labelled key d t

module _ {S : Type 0} (client : Client S) (Labelled : String → String → S → Type 0)
    (laws : Laws client Labelled) (i : Insertion) (key : String) (body : Bytes) (d : String) where
  -- The queue before and after a call that answers "queued", blocks, or fails.
  abbrev pub Queued : Option Queue → Option Queue → Type 0
  Queued before after =
      ((before ≡ none) × (after ≡ none))
      ⊎ ((q r : Queue) × (before ≡ some q)
          × (after ≡ some r)
          × Keeps i.commits i.item_id i.ts key body d q (ok i.item_id, r))

  abbrev pub Blocked : Option Queue → Option Queue → Type 0
  Blocked before after =
      (q : Queue) × (before ≡ some q) × (after ≡ some q) × (q.hard_floor ≤ depth true q)

  abbrev pub Failed : Option Queue → Option Queue → Type 0
  Failed before after =
      (q r : Queue) × (before ≡ some q)
      × (after ≡ some r)
      × Keeps i.commits i.item_id i.ts key body d q (insert_raised, r)

  -- By the outcome of a call: where the data are, and that the queue is as it was when they are not
  -- in it.
  abbrev pub Accounts : Option Queue → Outcome PutStatus × Nas S → Type 0
  Accounts q (returned uploaded, n) = Labelled key d n.store × (n.retry_queue ≡ q)
  Accounts q (returned skipped_idempotent, n) = Labelled key d n.store × (n.retry_queue ≡ q)
  Accounts q (returned skipped_etag_overwrite, n) = ⊥
  Accounts q (returned queued, n) = Queued q n.retry_queue
  Accounts q (returned hard_floor_blocked, n) = Blocked q n.retry_queue
  Accounts q (raised conflict, n) = n.retry_queue ≡ q
  Accounts q (raised (operational_alert reason), n) =
      ((code : String) × (classify_4xx code ≡ some reason)) × (n.retry_queue ≡ q)
  Accounts q (raised endpoint_unreachable, n) = ⊥
  Accounts q (raised (client_error code), n) = ⊥
  Accounts q (raised enqueue_failed, n) = Failed q n.retry_queue
  Accounts q (raised other_exception, n) = n.retry_queue ≡ q

  answer_enqueue-Accounts :
      (n : Nas S) (q : Queue) (e : EnqueueResult × Queue)
      → n.retry_queue ≡ some q
      → Keeps i.commits i.item_id i.ts key body d q e
      → Accounts (some q) (answer_enqueue client n e)
  unfolding answer_enqueue
  answer_enqueue-Accounts n q (ok id, r) h (same, rows, demoted, added, held, others) =
      inr (q, r, refl, refl, (refl, rows, demoted, added, held, others))
  answer_enqueue-Accounts n q (floor_reached, r) h k = (q, refl, ap some k.0, k.1)
  answer_enqueue-Accounts n q (insert_raised, r) h k = (q, r, refl, refl, k)

  pub absorb-Accounts : (n : Nas S) → Accounts n.retry_queue (absorb client i key body d n)
  unfolding absorb
  absorb-Accounts n = elim (Option-cases n.retry_queue) [
    | inl alone ↦ rw (alone, absorb) (inl (refl, alone))
    | inr (q, found) ↦
        rw (found, absorb)
          (answer_enqueue-Accounts n q (enqueue i.commits i.item_id i.ts key body d q) found
            (enqueue-Keeps i.commits i.item_id i.ts key body d q))
  ]

  pub refuse_or_absorb-Accounts :
      (code : String) (n : Nas S)
      → Accounts n.retry_queue (refuse_or_absorb client false i key body d code n)
  unfolding refuse_or_absorb
  refuse_or_absorb-Accounts code n = elim (Option-cases (classify_4xx code)) [
    | inl other ↦ rw (other, refuse_or_absorb) (absorb-Accounts n)
    | inr (reason, found) ↦ rw (found, refuse_or_absorb) ((code, found), refl)
  ]

  -- What the PUT with its HEAD says of the bucket.
  abbrev Stores : Outcome PutStatus × S → Type 0
  Stores (returned uploaded, s) = Labelled key d s
  Stores (returned skipped_idempotent, s) = Labelled key d s
  Stores (returned skipped_etag_overwrite, s) = ⊥
  Stores (returned queued, s) = ⊥
  Stores (returned hard_floor_blocked, s) = ⊥
  Stores (raised (operational_alert reason), s) = ⊥
  Stores (raised enqueue_failed, s) = ⊥
  Stores (raised conflict, s) = Unit
  Stores (raised endpoint_unreachable, s) = Unit
  Stores (raised (client_error code), s) = Unit
  Stores (raised other_exception, s) = Unit

  answer_write-Stores :
      (w : WriteReply × S) (s : S)
      → client.put_object key body d s ≡ w
      → Stores (answer_write client w)
  unfolding answer_write
  answer_write-Stores (stored, t) s from = laws.put_stored key body d s t from
  answer_write-Stores (write_error code, t) s from = tt
  answer_write-Stores (write_unreachable, t) s from = tt
  answer_write-Stores (write_other, t) s from = tt

  put_after_head-Stores :
      (h : HeadReply × S) (s : S)
      → client.head_object key s ≡ h
      → Stores (put_after_head client key body d h)
  unfolding put_after_head
  put_after_head-Stores (object_at none, t) s from =
      answer_write-Stores (client.put_object key body d t) t refl
  put_after_head-Stores (object_at (some existing), t) s from =
      elim (Bool-cases (str_eq existing d)) [
        | inl same ↦
            let agree : existing ≡ d = (eq_iff existing d).0 same in
            rw same (subst (λ e. Labelled key e t) agree (laws.shown key existing s t from))
        | inr differs ↦ rw differs tt
      ]
  put_after_head-Stores (head_error code, t) s from = elim (Bool-cases (str_eq code "404")) [
    | inl absent ↦ rw absent (answer_write-Stores (client.put_object key body d t) t refl)
    | inr failed ↦ rw failed tt
  ]
  put_after_head-Stores (head_unreachable, t) s from = tt
  put_after_head-Stores (head_other, t) s from = tt

  settle_put-Accounts :
      (q : Option Queue) (o : Outcome PutStatus × S)
      → Stores o
      → Accounts q (settle_put client false i key body d q o)
  unfolding settle_put
  settle_put-Accounts q (returned uploaded, s) h = (h, refl)
  settle_put-Accounts q (returned skipped_idempotent, s) h = (h, refl)
  settle_put-Accounts q (returned skipped_etag_overwrite, s) h = h
  settle_put-Accounts q (returned queued, s) h = absurd h
  settle_put-Accounts q (returned hard_floor_blocked, s) h = absurd h
  settle_put-Accounts q (raised conflict, s) h = refl
  settle_put-Accounts q (raised (operational_alert reason), s) h = absurd h
  settle_put-Accounts q (raised endpoint_unreachable, s) h = absorb-Accounts _
  settle_put-Accounts q (raised (client_error code), s) h = refuse_or_absorb-Accounts code _
  settle_put-Accounts q (raised enqueue_failed, s) h = absurd h
  settle_put-Accounts q (raised other_exception, s) h = refl

  -- For a store that shows a digest only on an object that has it, and whose acknowledged writes
  -- leave it, `put` on the hot path (suppress_enqueue=False) accounts for the data. "uploaded" and
  -- "skipped_idempotent": the object at the key carries the digest, and the queue is as it was.
  -- "queued": there is no retry queue, or it has kept all of its rows and has the data in a new one.
  -- "hard_floor_blocked": the queue is at its hard floor, and as it was. "skipped_etag_overwrite" is
  -- never answered. A call never raises for an unreachable store nor for a ClientError but an alert
  -- for a code of the table; it raises then, for a conflict of digests and for other exceptions with
  -- the queue as it was, and when the INSERT fails.
  pub put-Accounts :
      (digest : Bytes → String) (n : Nas S)
      → Accounts n.retry_queue (put client digest false i key body (some d) n)
  unfolding put put_with_idempotency
  put-Accounts digest n =
      settle_put-Accounts n.retry_queue
        (put_after_head client key body d (client.head_object key n.store))
        (put_after_head-Stores (client.head_object key n.store) n.store refl)

  -- Without what an exception leaves: a form that put_streaming meets too.
  abbrev pub Told : Option Queue → Outcome PutStatus × Nas S → Type 0
  Told q (returned status, n) = Accounts q (returned status, n)
  Told q (raised e, n) = Unit

  pub Accounts-Told :
      (q : Option Queue) (run : Outcome PutStatus × Nas S) → Accounts q run → Told q run
  Accounts-Told q (returned status, n) h = h
  Accounts-Told q (raised e, n) h = tt

  answer_upload-Told :
      (q : Option Queue) (w : WriteReply × S) (s : S)
      → client.upload_fileobj key body d s ≡ w
      → Told q (answer_upload client i key body d q w)
  unfolding answer_upload
  answer_upload-Told q (stored, t) s from = (laws.upload_stored key body d s t from, refl)
  answer_upload-Told q (write_error code, t) s from =
      Accounts-Told q _ (refuse_or_absorb-Accounts code _)
  answer_upload-Told q (write_unreachable, t) s from = Accounts-Told q _ (absorb-Accounts _)
  answer_upload-Told q (write_other, t) s from = tt

  upload-Told : (q : Option Queue) (s : S) → Told q (upload client i key (path_source body) d q s)
  unfolding upload sent_bytes retry_bytes
  upload-Told q s = answer_upload-Told q (client.upload_fileobj key body d s) s refl

  streaming_after_head-Told :
      (q : Option Queue) (h : HeadReply × S) (s : S)
      → client.head_object key s ≡ h
      → Told q (streaming_after_head client i key (path_source body) d q h)
  unfolding streaming_after_head
  streaming_after_head-Told q (object_at none, t) s from = upload-Told q t
  streaming_after_head-Told q (object_at (some existing), t) s from =
      elim (Bool-cases (str_eq existing d)) [
        | inl same ↦
            let agree : existing ≡ d = (eq_iff existing d).0 same in
            rw same (subst (λ e. Labelled key e t) agree (laws.shown key existing s t from), refl)
        | inr differs ↦ rw differs tt
      ]
  streaming_after_head-Told q (head_error code, t) s from = elim (Bool-cases (str_eq code "404")) [
    | inl absent ↦ rw absent (upload-Told q t)
    | inr failed ↦ elim (Option-cases (classify_4xx code)) [
      | inl other ↦ rw (failed, other, streaming_after_head) tt
      | inr (reason, found) ↦ rw (failed, found, streaming_after_head) tt
    ]
  ]
  streaming_after_head-Told q (head_unreachable, t) s from = tt
  streaming_after_head-Told q (head_other, t) s from = tt

  pub put_streaming-Told :
      (n : Nas S) → Told n.retry_queue (put_streaming client i key (path_source body) d n)
  unfolding put_streaming
  put_streaming-Told n =
      streaming_after_head-Told n.retry_queue (client.head_object key n.store) n.store refl
