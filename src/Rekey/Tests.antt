-- ===== src/Rekey/Tests.antt =====
-- The re-key of one object of a bucket.
use mctrader_data.Prelude.{String, true, false, ◌≡◌, refl, Option, none, some, [], ◌∷◌}
use mctrader_data.Prelude.Dict.{string_eq, lookup, insert, erase}
use mctrader_data.Uploader.{
  classify_4xx, answer_copy, compare_digests, copy_after_dst, copy_after_src, copy_object,
  answer_delete, delete_object,
}
use mctrader_data.Uploader.Bucket.{Bucket, show, copy_label, client}
use mctrader_data.Rekey.{
  at_pending, at_done, at_failed, at_legacy_no_sha256, FullReply, full, full_error, Work, Processed,
  ended, save, save_status, fail, is_truthy, digests_pass, heads_pass, is_absent, finish,
  after_delete, begin_delete, step_c, verdict_of, verify_dst, verify_src, verify_4head, store_heads,
  after_verify, step_b, without_source, after_copy, step_a, process_at, process_partition, sweep,
}
use mctrader_data.Rekey.Safety.{Safe, process_partition-Safe}
use mctrader_data.Rekey.DryRun.{dry_run-Blocks}

abbrev head_of : Option (Option String) → FullReply
head_of none = full_error "404"
head_of (some d) =
    full (record { etag = []; version_id = some "v1"; sha256 = d; content_length = 5 })

abbrev head_full : String → Bucket → FullReply × Bucket
head_full key s = (head_of (lookup key s), s)

abbrev pending : Bucket → Work Bucket
pending s = record {
  entry = record {
    partition_id = "p";
    old_key = "l1/a";
    new_key = "a";
    status = at_pending;
    old_head = none;
    new_head = none;
    pre_delete_version_id = none;
    retry_count = 0;
  };
  written = [];
  sentinel = false;
  store = s;
  delete_called = false;
}

abbrev two_keys : Work Bucket
two_keys = pending (("l1/a", some "d") ∷ [])

abbrev live : Work Bucket → Processed × Work Bucket
live = process_partition client head_full false

scenario_live :
    ((live two_keys).0 ≡ ended at_done)
    × ((live two_keys).1.store ≡ ("a", some "d") ∷ [])
    × ((live two_keys).1.entry.pre_delete_version_id ≡ some "v1")
    × ((live (pending (("l1/a", some "d") ∷ ("a", some "e") ∷ []))).0 ≡ ended at_failed)
    × ((live (pending (("l1/a", none) ∷ []))).0 ≡ ended at_legacy_no_sha256)
    × ((live (pending (("a", some "d") ∷ []))).0 ≡ ended at_done)
    × ((live (pending [])).0 ≡ ended at_failed)
    × ((live (pending (("l1/a", none) ∷ ("a", some "d") ∷ []))).0 ≡ ended at_legacy_no_sha256)
unfolding lookup insert erase show copy_label classify_4xx answer_copy compare_digests
    copy_after_dst copy_after_src copy_object answer_delete delete_object save save_status fail
    is_truthy digests_pass heads_pass is_absent finish after_delete begin_delete step_c verdict_of
    verify_dst verify_src verify_4head store_heads after_verify step_b without_source after_copy
    step_a process_at process_partition
scenario_live = (refl, refl, refl, refl, refl, refl, refl, refl)

process_partition-Safe_example :
    Safe client head_full false (process_partition client head_full false two_keys)
process_partition-Safe_example =
    process_partition-Safe client head_full false two_keys
      (record { durable = tt; undeleted = refl; incomplete = refl }) tt

abbrev rehearsed : Work Bucket
rehearsed = (process_partition client head_full true two_keys).1

rehearsal-at_done : (process_partition client head_full true two_keys).0 ≡ ended at_done
unfolding lookup insert erase show copy_label classify_4xx answer_copy compare_digests
    copy_after_dst copy_after_src copy_object answer_delete delete_object save save_status fail
    is_truthy digests_pass heads_pass is_absent finish after_delete begin_delete step_c verdict_of
    verify_dst verify_src verify_4head store_heads after_verify step_b without_source after_copy
    step_a process_at process_partition
rehearsal-at_done = refl

dry_run-Blocks_example :
    (rehearsed.delete_called ≡ false)
    × (sweep client head_full false rehearsed ≡ (none, save_status at_done rehearsed))
    × ((save_status at_done rehearsed).store ≡ rehearsed.store)
    × ((save_status at_done rehearsed).delete_called ≡ false)
dry_run-Blocks_example =
    dry_run-Blocks client head_full two_keys
      (record { durable = tt; undeleted = refl; incomplete = refl }) tt rehearsal-at_done
