-- ===== src/Uploader/Tests.antt =====
-- The uploader on a bucket within reach, out of reach, and one that fails.
use mctrader_data.Prelude.{String, Bool, true, false, ◌≡◌, refl, ◌⊎◌, none, some, [], ◌∷◌}
use mctrader_data.Prelude.Dict.{string_eq, lookup, insert, erase}
use mctrader_data.RetryQueue.{
  Bytes, is_active, is_pending, count_where, bytes_where, threshold_breached, enqueue,
  payload_filename, new_row,
}
use mctrader_data.Uploader.{
  PutStatus, uploaded, skipped_idempotent, queued, hard_floor_blocked, conflict, operational_alert,
  endpoint_unreachable, client_error, Outcome, returned, raised, head_error, head_unreachable,
  write_error, write_unreachable, Client, Nas, Insertion, classify_4xx, copied,
  already_exists_idempotent, source_not_found, dst_conflict, answer_enqueue, absorb, answer_write,
  put_after_head, put_with_idempotency, refuse_or_absorb, settle_put, put, answer_upload, upload,
  streaming_after_head, put_streaming, StreamSource, path_source, file_source, sent_bytes,
  retry_bytes, keep_queue, enqueue_retry, answer_copy, compare_digests, copy_after_dst,
  copy_after_src, copy_object, answer_delete, delete_object,
}
use mctrader_data.Uploader.Bucket.{
  Bucket, show, copy_label, client, Labelled, client-Laws, empty_queue,
}
use mctrader_data.Uploader.Put.{Accounts, put-Accounts}
use mctrader_data.Uploader.Streaming.{RaisesHead, Alike, put_streaming-put}
use mctrader_data.Uploader.Copy.{ReadLaws, Refuses, copy_object-Refuses}

abbrev down : Client Bucket
down = record client {
  head_object = λ key s. (head_unreachable, s);
  put_object = λ key body d s. (write_unreachable, s);
  upload_fileobj = λ key body d s. (write_unreachable, s);
}

-- A store that answers every HEAD and write by a ClientError with this code.
abbrev failing : String → Client Bucket
failing code = record client {
  head_object = λ key s. (head_error code, s);
  put_object = λ key body d s. (write_error code, s);
  upload_fileobj = λ key body d s. (write_error code, s);
}

client-ReadLaws : ReadLaws client Labelled
unfolding show
client-ReadLaws = record { truthful = λ key d s h. rw h refl; keeps = λ key d other s h. h }

abbrev insertion : Insertion
insertion = record { commits = true; item_id = "a"; ts = 7 }

abbrev nas : Nas Bucket
nas = record { store = ("k", some "old") ∷ ("l", none) ∷ []; retry_queue = some empty_queue }

abbrev digest : Bytes → String
digest body = "computed"

put-Accounts_example :
    Accounts client Labelled client-Laws insertion "m"
      (1 ∷ [])
      "new"
      (some empty_queue)
      (put client digest false insertion "m" (1 ∷ []) (some "new") nas)
put-Accounts_example =
    put-Accounts client Labelled client-Laws insertion "m" (1 ∷ []) "new" digest nas

abbrev half_read : StreamSource
half_read = file_source (1 ∷ 2 ∷ []) (2 ∷ [])

put_streaming-put_example :
    Alike client insertion "m" half_read "new" half_read digest nas
      (put_streaming client insertion "m" half_read "new" nas)
    ⊎ RaisesHead client insertion "m" half_read "new"
        (client.head_object "m" nas.store).0
        (put_streaming client insertion "m" half_read "new" nas)
        (some empty_queue)
put_streaming-put_example =
    put_streaming-put client insertion "m" half_read "new" (λ k b e s. refl) digest nas

copy_object-Refuses_example :
    Refuses client Labelled client-ReadLaws "k" "n" "old" "other"
      (copy_object client "k" "n" (("k", some "old") ∷ ("n", some "other") ∷ []))
unfolding lookup
copy_object-Refuses_example =
    copy_object-Refuses client Labelled client-ReadLaws "k" "n" "old" "other"
      (("k", some "old") ∷ ("n", some "other") ∷ []) refl refl

-- What put and put_streaming answer to an object with the digest, with another one, and with none,
-- and to a store that fails; with the hard floor reached the second segment is blocked.
abbrev answers_of_put : Client Bucket → Bool → String → String → Outcome PutStatus
answers_of_put c suppress key d = (put c digest suppress insertion key (1 ∷ []) (some d) nas).0

scenario_put :
    (answers_of_put client false "k" "old" ≡ returned skipped_idempotent)
    × (answers_of_put client false "k" "new" ≡ raised conflict)
    × (answers_of_put client false "l" "new" ≡ returned uploaded)
    × (answers_of_put down false "k" "new" ≡ returned queued)
    × (answers_of_put down true "k" "new" ≡ raised endpoint_unreachable)
    × (answers_of_put (failing "403") false "k" "new" ≡ raised (operational_alert "policy_denied"))
    × (answers_of_put (failing "500") false "k" "new" ≡ returned queued)
    × ((put client digest false insertion "z" [] none nas).1.store
        ≡ ("k", some "old") ∷ ("l", none) ∷ ("z", some "computed") ∷ [])
unfolding lookup insert show answer_enqueue absorb answer_write put_after_head put_with_idempotency
    refuse_or_absorb settle_put put classify_4xx enqueue count_where is_active is_pending
    bytes_where threshold_breached payload_filename new_row
scenario_put = (refl, refl, refl, refl, refl, refl, refl, refl)

abbrev after_one : Nas Bucket
after_one = (put down digest false insertion "m" (1 ∷ []) (some "new") nas).1

abbrev refuses_upload : Client Bucket
refuses_upload = record client { upload_fileobj = λ key body d s. (write_unreachable, s) }

scenario_streaming :
    ((put_streaming client insertion "k" (path_source []) "old" nas).0
      ≡ returned skipped_idempotent)
    × ((put_streaming down insertion "k" (path_source []) "new" nas).0
        ≡ raised endpoint_unreachable)
    × ((put_streaming (failing "500") insertion "k" (path_source []) "new" nas).0
        ≡ raised (client_error "500"))
    × ((put_streaming refuses_upload insertion "m" half_read "new" nas).1.retry_queue
        ≡ (enqueue_retry client insertion "m" (2 ∷ []) "new" nas).1.retry_queue)
    × ((put down digest false insertion "n" [] (some "new") after_one).0
        ≡ returned hard_floor_blocked)
    × ((enqueue_retry client insertion "k" [] "new" nas).0 ≡ returned tt)
    × ((enqueue_retry client insertion "k" [] "new" after_one).1.retry_queue
        ≡ after_one.retry_queue)
unfolding lookup insert show answer_enqueue absorb answer_write put_after_head put_with_idempotency
    refuse_or_absorb settle_put put classify_4xx enqueue count_where is_active is_pending
    bytes_where threshold_breached payload_filename new_row answer_upload upload
    streaming_after_head put_streaming sent_bytes retry_bytes keep_queue enqueue_retry
scenario_streaming = (refl, refl, refl, refl, refl, refl, refl)

scenario_copy :
    ((copy_object client "k" "n" nas.store).0 ≡ returned copied)
    × ((copy_object client "k" "n" (copy_object client "k" "n" nas.store).1).0
        ≡ returned already_exists_idempotent)
    × ((copy_object client "x" "k" nas.store).0 ≡ returned source_not_found)
    × ((copy_object client "l" "k" nas.store).0 ≡ returned copied)
    × ((copy_object client "k" "n" (("k", some "old") ∷ ("n", some "other") ∷ [])).0
        ≡ returned dst_conflict)
    × ((delete_object client "k" nas.store).1 ≡ ("l", none) ∷ [])
unfolding lookup insert erase show copy_label answer_copy compare_digests copy_after_dst
    copy_after_src copy_object answer_delete delete_object
scenario_copy = (refl, refl, refl, refl, refl, refl)
