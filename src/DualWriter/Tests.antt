-- ===== src/DualWriter/Tests.antt =====
-- A file that is uploaded, verified by two equal HEAD answers, and deleted.
use mctrader_data.Prelude.{ℕ, String, true, false, ◌≡◌, refl, Option, none, some, [], ◌∷◌}
use mctrader_data.Prelude.Dict.{string_eq, lookup, insert, erase}
use mctrader_data.RetryQueue.{
  Bytes, is_active, is_pending, count_where, bytes_where, threshold_breached, enqueue,
  payload_filename, new_row,
}
use mctrader_data.Promotion.{
  Head, HeadAnswer, head_ok, client_error, strip_left, reverse_onto, strip_quotes, same_etag,
  head_attempts, head_with_retry, promote_absent, guard_and_delete, sha_matches, verify_local,
  promote_l1,
}
use mctrader_data.Uploader.{
  endpoint_unreachable, head_unreachable, write_unreachable, Client, Insertion, answer_enqueue,
  absorb, answer_write, put_after_head, put_with_idempotency, refuse_or_absorb, settle_put, put,
  answer_upload, upload, streaming_after_head, put_streaming, sent_bytes, retry_bytes, keep_queue,
  enqueue_retry, classify_4xx,
}
use mctrader_data.Uploader.Bucket.{
  Bucket, show, copy_label, client, Labelled, client-Laws, empty_queue,
}
use mctrader_data.DualWriter.{
  DualOutcome, dual_ok, dual_raised, committed, local_only, data_missing, sha256_mismatch,
  tmp_write_failed, source_missing, upload_failed, Payload, in_memory, at_path, Unlink, unlinked,
  unlink_failed, World, tmp_of, replace_file, after_unlink, retried, retry_source, after_promotion,
  promote_after_nas_put, promote_source, commit, put_payload, write_body, write, commit_l1, put_l1,
}
use mctrader_data.DualWriter.Level1.{SettlesAllL1, put_l1-SettlesL1}

abbrev object : Head
object = record { etag = 97 ∷ []; version_id = none; sha256 = some "d"; content_length = 2 }

abbrev heads : ℕ → HeadAnswer
heads n = head_ok object

abbrev absent : ℕ → HeadAnswer
absent n = client_error

abbrev digest : Bytes → String
digest body = "d"

abbrev insertion : Insertion
insertion = record { commits = true; item_id = "a"; ts = 7 }

abbrev down : Client Bucket
down = record client {
  head_object = λ key s. (head_unreachable, s);
  put_object = λ key body d s. (write_unreachable, s);
}

abbrev world : World Bucket
world = record {
  files = ("src", 1 ∷ 2 ∷ []) ∷ ("other", 9 ∷ []) ∷ [];
  nas = record { store = []; retry_queue = some empty_queue };
}

put_l1-SettlesL1_example :
    SettlesAllL1 client Labelled client-Laws digest heads unlinked insertion insertion "src" "k"
      (lookup "src" world.files)
      world
      (put_l1 client digest heads unlinked insertion insertion "src" "k" world)
put_l1-SettlesL1_example =
    put_l1-SettlesL1 client Labelled client-Laws digest heads unlinked insertion insertion "src" "k"
      world

abbrev write_from :
    Client Bucket → (ℕ → HeadAnswer) → Payload → String → Option String → DualOutcome × World Bucket
write_from c h payload sha256 source =
    write c digest h unlinked insertion insertion true "out" "k" payload sha256 source world

-- A committed write of bytes, one of a path whose object is not found afterwards, one that is queued,
-- one with another digest, one of a file that is not there, and the two outcomes of a promotion whose
-- source is not there.
scenario_write :
    (write_from client heads (in_memory (1 ∷ 2 ∷ [])) "d" (some "src") ≡ (
      dual_ok committed,
      record {
        files = ("other", 9 ∷ []) ∷ ("out", 1 ∷ 2 ∷ []) ∷ [];
        nas = record { store = ("k", some "d") ∷ []; retry_queue = some empty_queue };
      },
    ))
    × ((write_from client absent (at_path "src") "d" none).0 ≡ dual_ok local_only)
    × ((write_from client heads (at_path "src") "d" none).1.files
        ≡ ("other", 9 ∷ []) ∷ ("out", 1 ∷ 2 ∷ []) ∷ [])
    × ((write_from down heads (in_memory []) "d" none).0 ≡ dual_ok local_only)
    × ((write_from down heads (at_path "src") "d" none).0
        ≡ dual_raised (upload_failed endpoint_unreachable))
    × (write_from client heads (at_path "src") "e" none ≡ (dual_raised sha256_mismatch, world))
    × (write_from client heads (at_path "x") "d" none ≡ (dual_raised data_missing, world))
    × ((write_from client heads (in_memory []) "d" (some "x")).0 ≡ dual_ok committed)
    × ((write_from client absent (in_memory []) "d" (some "x")).0 ≡ dual_raised source_missing)
    × ((write client digest heads unlinked insertion insertion false "out" "k"
          (in_memory [])
          "d"
          none
          world).0
        ≡ dual_raised tmp_write_failed)
unfolding lookup insert erase show copy_label enqueue count_where is_active is_pending bytes_where
    threshold_breached payload_filename new_row answer_enqueue absorb answer_write put_after_head
    put_with_idempotency refuse_or_absorb settle_put put answer_upload upload streaming_after_head
    put_streaming sent_bytes retry_bytes keep_queue enqueue_retry classify_4xx strip_left
    reverse_onto strip_quotes same_etag head_attempts head_with_retry promote_absent
    guard_and_delete sha_matches verify_local promote_l1 tmp_of replace_file after_unlink retried
    retry_source after_promotion promote_after_nas_put promote_source commit put_payload write_body
    write
scenario_write = (refl, refl, refl, refl, refl, refl, refl, refl, refl, refl)

abbrev put_from : Client Bucket → (ℕ → HeadAnswer) → Unlink → DualOutcome × World Bucket
put_from c h u = put_l1 c digest h u insertion insertion "src" "k" world

-- With an unlink that fails the file stays; a promotion that is not verified keeps the file in the
-- queue too; a store out of reach raises.
scenario_l1 :
    ((put_from client heads unlinked).1.files ≡ ("other", 9 ∷ []) ∷ [])
    × ((put_from client heads unlink_failed).1.files ≡ world.files)
    × ((put_from client absent unlinked).0 ≡ dual_ok local_only)
    × ((put_from client absent unlinked).1.files ≡ world.files)
    × ((put_from down heads unlinked).0 ≡ dual_raised (upload_failed endpoint_unreachable))
unfolding lookup insert erase show copy_label enqueue count_where is_active is_pending bytes_where
    threshold_breached payload_filename new_row absorb refuse_or_absorb answer_upload upload
    streaming_after_head put_streaming sent_bytes retry_bytes keep_queue enqueue_retry strip_left
    reverse_onto strip_quotes same_etag head_attempts head_with_retry promote_absent
    guard_and_delete sha_matches verify_local promote_l1 after_unlink retried retry_source
    after_promotion promote_after_nas_put commit_l1 put_l1
scenario_l1 = (refl, refl, refl, refl, refl)
