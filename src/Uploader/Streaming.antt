-- ===== src/Uploader/Streaming.antt =====
-- put_streaming, beside put.
use mctrader_data.Prelude.{
  String, false, ◌≡◌, refl, ◌⊎◌, inl, inr, Option, none, some, str_eq, Bool-cases, Option-cases,
}
use mctrader_data.RetryQueue.{Bytes, Queue}
use mctrader_data.Uploader.{
  StreamSource, path_source, file_source, sent_bytes, retry_bytes, PutStatus, raised, Outcome,
  client_error, endpoint_unreachable, HeadReply, object_at, head_error, head_unreachable,
  head_other, WriteReply, stored, write_error, write_unreachable, write_other, Client, Nas,
  Insertion, classify_4xx, answer_write, put_after_head, put_with_idempotency, refuse_or_absorb,
  settle_put, put, answer_upload, upload, streaming_after_head, put_streaming,
}

module _ {S : Type 0} (client : Client S) (i : Insertion) (key : String) (source : StreamSource)
    (d : String) where
  -- What put_streaming does with any other HEAD: it raises what the HEAD raised, and queues nothing.
  abbrev pub RaisesHead : HeadReply → Outcome PutStatus × Nas S → Option Queue → Type 0
  RaisesHead (object_at o) run q = ⊥
  RaisesHead (head_error code) run q =
      (classify_4xx code ≡ none)
      × (str_eq code "404" ≡ false)
      × (run.0 ≡ raised (client_error code))
      × (run.1.retry_queue ≡ q)
  RaisesHead head_unreachable run q =
      (run.0 ≡ raised endpoint_unreachable) × (run.1.retry_queue ≡ q)
  RaisesHead head_other run q = ⊥

  -- put with the digest, on the hot path; for an open file, put of its bytes whose retry, if one is
  -- queued, has what read() still gives.
  abbrev pub Alike : StreamSource → (Bytes → String) → Nas S → Outcome PutStatus × Nas S → Type 0
  Alike (path_source body) digest n run = run ≡ put client digest false i key body (some d) n
  Alike (file_source body rest) digest n run =
      run
      ≡ settle_put client false i key rest d n.retry_queue
          (put_with_idempotency client key body d n.store)

  uploads_alike :
      (q : Option Queue) (w : WriteReply × S)
      → answer_upload client i key (retry_bytes source) d q w
        ≡ settle_put client false i key (retry_bytes source) d q (answer_write client w)
  unfolding answer_upload settle_put answer_write
  uploads_alike q (stored, s) = refl
  uploads_alike q (write_error code, s) = refl
  uploads_alike q (write_unreachable, s) = refl
  uploads_alike q (write_other, s) = refl

  module _
      (same : (k : String) (b : Bytes) (e : String) (s : S)
        → client.upload_fileobj k b e s ≡ client.put_object k b e s) where
    upload-alike :
        (q : Option Queue) (s : S)
        → upload client i key source d q s
          ≡ settle_put client false i key
              (retry_bytes source)
              d
              q
              (answer_write client (client.put_object key (sent_bytes source) d s))
    unfolding upload
    upload-alike q s = rw same (uploads_alike q (client.put_object key (sent_bytes source) d s))

    after_head :
        (q : Option Queue) (h : HeadReply) (s : S)
        → (streaming_after_head client i key source d q (h, s)
            ≡ settle_put client false i key
                (retry_bytes source)
                d
                q
                (put_after_head client key (sent_bytes source) d (h, s)))
          ⊎ RaisesHead h (streaming_after_head client i key source d q (h, s)) q
    unfolding streaming_after_head put_after_head
    after_head q (object_at none) s = inl (upload-alike q s)
    after_head q (object_at (some e)) s = elim (Bool-cases (str_eq e d)) [
      | inl eq ↦ rw eq (inl (unfold settle_put in refl))
      | inr differs ↦ rw differs (inl (unfold settle_put in refl))
    ]
    after_head q (head_error code) s = elim (Bool-cases (str_eq code "404")) [
      | inl absent ↦ rw absent (inl (upload-alike q s))
      | inr failed ↦ elim (Option-cases (classify_4xx code)) [
        | inl other ↦ rw (failed, other, streaming_after_head) (inr (refl, refl, refl, refl))
        | inr (reason, found) ↦
            rw (failed, found, streaming_after_head)
              (inl (unfold settle_put refuse_or_absorb in rw (found, refuse_or_absorb) refl))
      ]
    ]
    after_head q head_unreachable s = inr (refl, refl)
    after_head q head_other s = inl (unfold settle_put in refl)

    streams-Alike :
        (x : StreamSource) (digest : Bytes → String) (n : Nas S) (run : Outcome PutStatus × Nas S)
        → run
          ≡ settle_put client false i key
              (retry_bytes x)
              d
              n.retry_queue
              (put_with_idempotency client key (sent_bytes x) d n.store)
        → Alike x digest n run
    unfolding put sent_bytes retry_bytes
    streams-Alike (path_source body) digest n run h = h
    streams-Alike (file_source body rest) digest n run h = h

    -- For a client whose upload_fileobj answers as its put_object. Of a Path, put_streaming does what put
    -- of its bytes does on the hot path: its status or exception, the bucket and the queue are
    -- alike. Of an open file it does the same, but when the upload fails and a retry is queued, the
    -- retry has, under the digest of all the bytes, the bytes that read() still gives. Or else, of
    -- either, the HEAD was answered by EndpointConnectionError or by a ClientError
    -- other than a 404 and the codes of the table, and then put_streaming raises that and leaves the
    -- queue as it was.
    pub put_streaming-put :
        (digest : Bytes → String) (n : Nas S)
        → Alike source digest n (put_streaming client i key source d n)
          ⊎ RaisesHead
              (client.head_object key n.store).0
              (put_streaming client i key source d n)
              n.retry_queue
    unfolding put_streaming put_with_idempotency
    put_streaming-put digest n =
        elim (after_head n.retry_queue (client.head_object key n.store).0
          (client.head_object key n.store).1) [
            | inl same ↦
                inl (streams-Alike source digest n (put_streaming client i key source d n) same)
            | inr raises ↦ inr raises
          ]
