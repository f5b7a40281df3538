-- ===== src/Uploader.antt =====
-- src/mctrader_data/nas_storage/nas_uploader.py: put, put_streaming, copy_object and the rest of
-- NASUploader. The S3 client is a parameter: what it answers to each call, and the bucket that a call
-- leaves. Of a PutResult the status is kept, since its ETag and latency are only reported. The data
-- of a Path are the bytes of its file.
pub mod Put
mod Streaming
mod Copy
pub mod Retry
pub mod Bucket
mod Tests
use mctrader_data.Prelude.{
  ℕ, String, Bool, true, false, ◌&&◌, not, Option, none, some, List, [], ◌∷◌, str_eq, if◌then◌else◌,
}
use mctrader_data.Prelude.Dict.{Dict, string_eq, lookup}
use mctrader_data.RetryQueue.{
  Bytes, Queue, EnqueueResult, ok, hard_floor_blocked as floor_reached, insert_raised, enqueue,
}

-- PutResult.status.
pub data PutStatus : Type 0 where
  uploaded skipped_idempotent queued hard_floor_blocked skipped_etag_overwrite : PutStatus

-- What a call raises: ConditionalWriteConflict, NASOperationalAlert with its reason,
-- EndpointConnectionError, a ClientError with its code, an error of the INSERT of the retry queue,
-- any other exception.
pub data UploadError : Type 0 where
  conflict : UploadError
  operational_alert : String → UploadError
  endpoint_unreachable : UploadError
  client_error : String → UploadError
  enqueue_failed : UploadError
  other_exception : UploadError

pub data Outcome {ℓ} (A : Type ℓ) : Type ℓ where
  returned : A → Outcome A
  raised : UploadError → Outcome A

-- The answer to head_object: the digest in the metadata of the object, if it has one.
pub data HeadReply : Type 0 where
  object_at : Option String → HeadReply
  head_error : String → HeadReply
  head_unreachable : HeadReply
  head_other : HeadReply

-- The answer to a call that writes.
pub data WriteReply : Type 0 where
  stored : WriteReply
  write_error : String → WriteReply
  write_unreachable : WriteReply
  write_other : WriteReply

-- The calls of the S3 client, on a bucket `S`. put_object and upload_fileobj take the key, the body
-- and the digest for the metadata; copy_object takes the key of the source and that of the copy.
pub record Client (S : Type 0) : Type 0 where
  pub head_object : String → S → HeadReply × S
  pub put_object : String → Bytes → String → S → WriteReply × S
  pub upload_fileobj : String → Bytes → String → S → WriteReply × S
  pub copy_object : String → String → S → WriteReply × S
  pub delete_object : String → S → WriteReply × S

-- The bucket, and the retry queue that the uploader was given, if any.
pub record Nas (S : Type 0) : Type 0 where
  pub store : S
  pub retry_queue : Option Queue

-- What an INSERT into the retry queue gets from outside: whether it commits, its id, the clock.
pub record Insertion : Type 0 where
  pub commits : Bool
  pub item_id : String
  pub ts : ℕ

-- _FAIL_FAST_CODE_TO_REASON
abbrev pub fail_fast_code_to_reason : Dict String String
fail_fast_code_to_reason =
    ("401", "auth_failed")
    ∷ ("InvalidAccessKeyId", "auth_failed")
    ∷ ("SignatureDoesNotMatch", "auth_failed")
    ∷ ("403", "policy_denied")
    ∷ ("AccessDenied", "policy_denied")
    ∷ ("NoSuchBucket", "bucket_missing")
    ∷ ("QuotaExceeded", "quota_exceeded")
    ∷ ("StorageClassNotSupported", "quota_exceeded")
    ∷ []

unfoldable pub classify_4xx : String → Option String
classify_4xx code = lookup code fail_fast_code_to_reason

-- CopyResult.status.
pub data CopyStatus : Type 0 where
  copied already_exists_idempotent source_not_found dst_conflict : CopyStatus

-- What put_streaming is given: a Path, with the bytes of its file, or an open file, with the bytes ahead
-- of its position and those that read() still gives after an upload that failed.
pub data StreamSource : Type 0 where
  path_source : Bytes → StreamSource
  file_source : Bytes → Bytes → StreamSource

unfoldable pub sent_bytes : StreamSource → Bytes
sent_bytes (path_source body) = body
sent_bytes (file_source body rest) = body

-- read_bytes() of the Path, read() of the open file.
unfoldable pub retry_bytes : StreamSource → Bytes
retry_bytes (path_source body) = body
retry_bytes (file_source body rest) = rest

module _ {S : Type 0} (client : Client S) where
  unfoldable pub answer_enqueue : Nas S → EnqueueResult × Queue → Outcome PutStatus × Nas S
  answer_enqueue n (ok id, q) = (returned queued, record n { retry_queue = some q })
  answer_enqueue n (floor_reached, q) =
      (returned hard_floor_blocked, record n { retry_queue = some q })
  answer_enqueue n (insert_raised, q) = (raised enqueue_failed, record n { retry_queue = some q })

  -- The end of `put` and of `put_streaming` when the store did not take the data.
  unfoldable pub absorb : Insertion → String → Bytes → String → Nas S → Outcome PutStatus × Nas S
  absorb i key body sha256 n = elim n.retry_queue [
    | none ↦ (returned queued, n)
    | some q ↦ answer_enqueue n (enqueue i.commits i.item_id i.ts key body sha256 q)
  ]

  unfoldable pub answer_write : WriteReply × S → Outcome PutStatus × S
  answer_write (stored, s) = (returned uploaded, s)
  answer_write (write_error code, s) = (raised (client_error code), s)
  answer_write (write_unreachable, s) = (raised endpoint_unreachable, s)
  answer_write (write_other, s) = (raised other_exception, s)

  -- After the HEAD.
  unfoldable pub put_after_head : String → Bytes → String → HeadReply × S → Outcome PutStatus × S
  put_after_head key body sha256 (object_at none, s) =
      answer_write (client.put_object key body sha256 s)
  put_after_head key body sha256 (object_at (some existing), s) =
      if str_eq existing sha256 then (returned skipped_idempotent, s) else (raised conflict, s)
  put_after_head key body sha256 (head_error code, s) =
      if str_eq code "404"
      then answer_write (client.put_object key body sha256 s)
      else (raised (client_error code), s)
  put_after_head key body sha256 (head_unreachable, s) = (raised endpoint_unreachable, s)
  put_after_head key body sha256 (head_other, s) = (raised other_exception, s)

  unfoldable pub put_with_idempotency : String → Bytes → String → S → Outcome PutStatus × S
  put_with_idempotency key body sha256 s = put_after_head key body sha256 (client.head_object key s)

  unfoldable pub refuse_or_absorb :
      Bool → Insertion → String → Bytes → String → String → Nas S → Outcome PutStatus × Nas S
  refuse_or_absorb suppress_enqueue i key body sha256 code n = elim (classify_4xx code) [
    | some reason ↦ (raised (operational_alert reason), n)
    | none ↦ if suppress_enqueue then (returned queued, n) else absorb i key body sha256 n
  ]

  -- The except clauses of `put`, and its return.
  unfoldable pub settle_put :
      Bool
      → Insertion
      → String
      → Bytes
      → String
      → Option Queue
      → Outcome PutStatus × S
      → Outcome PutStatus × Nas S
  settle_put suppress_enqueue i key body sha256 q (returned status, s) =
      (returned status, record { store = s; retry_queue = q })
  settle_put suppress_enqueue i key body sha256 q (raised endpoint_unreachable, s) =
      if suppress_enqueue
      then (raised endpoint_unreachable, record { store = s; retry_queue = q })
      else absorb i key body sha256 (record { store = s; retry_queue = q })
  settle_put suppress_enqueue i key body sha256 q (raised (client_error code), s) =
      refuse_or_absorb suppress_enqueue i key body sha256 code
        (record { store = s; retry_queue = q })
  settle_put suppress_enqueue i key body sha256 q (raised conflict, s) =
      (raised conflict, record { store = s; retry_queue = q })
  settle_put suppress_enqueue i key body sha256 q (raised (operational_alert reason), s) =
      (raised (operational_alert reason), record { store = s; retry_queue = q })
  settle_put suppress_enqueue i key body sha256 q (raised enqueue_failed, s) =
      (raised enqueue_failed, record { store = s; retry_queue = q })
  settle_put suppress_enqueue i key body sha256 q (raised other_exception, s) =
      (raised other_exception, record { store = s; retry_queue = q })

  unfoldable pub put :
      (Bytes → String)
      → Bool
      → Insertion
      → String
      → Bytes
      → Option String
      → Nas S
      → Outcome PutStatus × Nas S
  put digest suppress_enqueue i key body given n =
      let sha256 : String = elim given [ none ↦ digest body | some d ↦ d ] in
      settle_put suppress_enqueue i key body sha256 n.retry_queue
        (put_with_idempotency key body sha256 n.store)

  -- The upload of `put_streaming`, with its except clauses.
  unfoldable pub answer_upload :
      Insertion
      → String
      → Bytes
      → String
      → Option Queue
      → WriteReply × S
      → Outcome PutStatus × Nas S
  answer_upload i key body sha256 q (stored, s) =
      (returned uploaded, record { store = s; retry_queue = q })
  answer_upload i key body sha256 q (write_error code, s) =
      refuse_or_absorb false i key body sha256 code (record { store = s; retry_queue = q })
  answer_upload i key body sha256 q (write_unreachable, s) =
      absorb i key body sha256 (record { store = s; retry_queue = q })
  answer_upload i key body sha256 q (write_other, s) =
      (raised other_exception, record { store = s; retry_queue = q })

  unfoldable pub upload :
      Insertion → String → StreamSource → String → Option Queue → S → Outcome PutStatus × Nas S
  upload i key source sha256 q s =
      answer_upload i key (retry_bytes source) sha256 q
        (client.upload_fileobj key (sent_bytes source) sha256 s)

  -- The HEAD of `put_streaming`, which catches ClientError alone.
  unfoldable pub streaming_after_head :
      Insertion
      → String
      → StreamSource
      → String
      → Option Queue
      → HeadReply × S
      → Outcome PutStatus × Nas S
  streaming_after_head i key source sha256 q (object_at none, s) = upload i key source sha256 q s
  streaming_after_head i key source sha256 q (object_at (some existing), s) =
      if str_eq existing sha256
      then (returned skipped_idempotent, record { store = s; retry_queue = q })
      else (raised conflict, record { store = s; retry_queue = q })
  streaming_after_head i key source sha256 q (head_error code, s) =
      if str_eq code "404" then upload i key source sha256 q s else elim (classify_4xx code) [
        | some reason ↦ (raised (operational_alert reason), record { store = s; retry_queue = q })
        | none ↦ (raised (client_error code), record { store = s; retry_queue = q })
      ]
  streaming_after_head i key source sha256 q (head_unreachable, s) =
      (raised endpoint_unreachable, record { store = s; retry_queue = q })
  streaming_after_head i key source sha256 q (head_other, s) =
      (raised other_exception, record { store = s; retry_queue = q })

  unfoldable pub put_streaming :
      Insertion → String → StreamSource → String → Nas S → Outcome PutStatus × Nas S
  put_streaming i key source sha256 n =
      streaming_after_head i key source sha256 n.retry_queue (client.head_object key n.store)

  unfoldable pub keep_queue : Nas S → EnqueueResult × Queue → Outcome (Unit {0}) × Nas S
  keep_queue n (ok id, q) = (returned tt, record n { retry_queue = some q })
  keep_queue n (floor_reached, q) = (returned tt, record n { retry_queue = some q })
  keep_queue n (insert_raised, q) = (raised enqueue_failed, record n { retry_queue = some q })

  -- The answer of the queue is not looked at.
  unfoldable pub enqueue_retry :
      Insertion → String → Bytes → String → Nas S → Outcome (Unit {0}) × Nas S
  enqueue_retry i key body sha256 n = elim n.retry_queue [
    | none ↦ (returned tt, n)
    | some q ↦ keep_queue n (enqueue i.commits i.item_id i.ts key body sha256 q)
  ]

  unfoldable pub answer_copy : WriteReply × S → Outcome CopyStatus × S
  answer_copy (stored, s) = (returned copied, s)
  answer_copy (write_error code, s) = (raised (client_error code), s)
  answer_copy (write_unreachable, s) = (raised endpoint_unreachable, s)
  answer_copy (write_other, s) = (raised other_exception, s)

  -- Both digests are there, and they agree or differ; or one is absent, and the copy goes on.
  unfoldable pub compare_digests :
      String → String → Option String → Option String → S → Outcome CopyStatus × S
  compare_digests src_key dst_key (some src) (some dst) s =
      if str_eq src dst then (returned already_exists_idempotent, s) else (returned dst_conflict, s)
  compare_digests src_key dst_key (some src) none s =
      answer_copy (client.copy_object src_key dst_key s)
  compare_digests src_key dst_key none dst s = answer_copy (client.copy_object src_key dst_key s)

  -- After the HEAD of the copy, with the digest of the source.
  unfoldable pub copy_after_dst :
      String → String → Option String → HeadReply × S → Outcome CopyStatus × S
  copy_after_dst src_key dst_key src (object_at dst, s) = compare_digests src_key dst_key src dst s
  copy_after_dst src_key dst_key src (head_error code, s) =
      if str_eq code "404"
      then answer_copy (client.copy_object src_key dst_key s)
      else (raised (client_error code), s)
  copy_after_dst src_key dst_key src (head_unreachable, s) = (raised endpoint_unreachable, s)
  copy_after_dst src_key dst_key src (head_other, s) = (raised other_exception, s)

  unfoldable pub copy_after_src : String → String → HeadReply × S → Outcome CopyStatus × S
  copy_after_src src_key dst_key (object_at src, s) =
      copy_after_dst src_key dst_key src (client.head_object dst_key s)
  copy_after_src src_key dst_key (head_error code, s) =
      if str_eq code "404" then (returned source_not_found, s) else (raised (client_error code), s)
  copy_after_src src_key dst_key (head_unreachable, s) = (raised endpoint_unreachable, s)
  copy_after_src src_key dst_key (head_other, s) = (raised other_exception, s)

  unfoldable pub copy_object : String → String → S → Outcome CopyStatus × S
  copy_object src_key dst_key s = copy_after_src src_key dst_key (client.head_object src_key s)

  unfoldable pub answer_delete : WriteReply × S → Outcome (Unit {0}) × S
  answer_delete (stored, s) = (returned tt, s)
  answer_delete (write_error code, s) =
      if str_eq code "404" then (returned tt, s) else (raised (client_error code), s)
  answer_delete (write_unreachable, s) = (raised endpoint_unreachable, s)
  answer_delete (write_other, s) = (raised other_exception, s)

  unfoldable pub delete_object : String → S → Outcome (Unit {0}) × S
  delete_object key s = answer_delete (client.delete_object key s)
