-- ===== src/Rekey.antt =====
-- src/mctrader_data/nas_migration/rekey.py: how one object moves from its legacy key to its flat one,
-- _process_partition with _verify_4head, and what `run` does with a partition before and after it.
-- copy_object and delete_object are those of the uploader; the HEAD with all its fields is a
-- parameter. The manifest that write_atomic makes durable is kept as the list of the entries that were
-- written, the latest first. Metrics, timestamps and messages are left out, and so are the ETag and
-- the version that Step A records, since Step B overwrites them.
pub mod Safety
pub mod Verified
mod DryRun
mod Tests
use mctrader_data.Prelude.{
  ℕ, ◌+◌, String, Bool, true, false, ◌&&◌, ◌||◌, not, Option, none, some, List, [], ◌∷◌, ◌==◌,
  str_eq, if◌then◌else◌,
}
use mctrader_data.Promotion.{Head}
use mctrader_data.Uploader.{
  Outcome, returned, raised, Client, CopyStatus, copied, already_exists_idempotent,
  source_not_found, dst_conflict, copy_object, delete_object,
}

-- The states that the code writes, and the other valid ones.
pub data Status : Type 0 where
  at_pending at_copying at_copied at_verifying at_verified at_deleting : Status
  at_done at_failed at_legacy_no_sha256 at_rolled_back at_deleted : Status

-- PartitionEntry, with the two answers that Step B stores.
pub record Entry : Type 0 where
  pub partition_id : String
  pub old_key : String
  pub new_key : String
  pub status : Status
  pub old_head : Option Head
  pub new_head : Option Head
  pub pre_delete_version_id : Option String
  pub retry_count : ℕ

-- The answer to head_object, with all its fields.
pub data FullReply : Type 0 where
  full : Head → FullReply
  full_error : String → FullReply
  full_raised : FullReply

-- The entry, the entries that are durable, whether its sentinel file is there, the bucket, and whether
-- a deletion was asked of it.
pub record Work (S : Type 0) : Type 0 where
  pub entry : Entry
  pub written : List Entry
  pub sentinel : Bool
  pub store : S
  pub delete_called : Bool

pub data Processed : Type 0 where
  ended : Status → Processed
  process_raised : Processed

module _ {S : Type 0} where
  -- update_status and write_atomic.
  pub save : Entry → Work S → Work S
  save e w = record w { entry = e; written = e ∷ w.written }

  pub save_status : Status → Work S → Work S
  save_status s w = save (record w.entry { status = s }) w

  pub fail : Work S → Processed × Work S
  fail w = (
    ended at_failed,
    save (record w.entry { status = at_failed; retry_count = w.entry.retry_count + 1 }) w,
  )

-- `if version_id:`, `if dst_sha256:`
pub is_truthy : Option String → Bool
is_truthy none = false
is_truthy (some s) = not (str_eq s "")

-- HEAD-3
pub digests_pass : Option String → Option String → Bool
digests_pass none none = true
digests_pass (some a) (some b) = str_eq a b
digests_pass none (some b) = false
digests_pass (some a) none = false

-- HEAD-2, HEAD-3 and HEAD-4; HEAD-1 is advisory.
pub heads_pass : Head → Head → Bool
heads_pass src dst =
    is_truthy dst.version_id
    && (digests_pass src.sha256 dst.sha256 && (src.content_length == dst.content_length))

pub is_absent : Option String → Bool
is_absent none = true
is_absent (some s) = false

-- What `_verify_4head` gives: True with both answers, False, or an exception.
pub data Verdict : Type 0 where
  passes : Head → Head → Verdict
  differs : Head → Head → Verdict
  not_found : Verdict
  verify_raised : Verdict

module _ {S : Type 0} (client : Client S) (head_full : String → S → FullReply × S)
    (dry_run : Bool) where
  pub finish : Work S → Processed × Work S
  finish w = (ended at_done, save_status at_done (record w { sentinel = true }))

  pub after_delete : Work S → Outcome (Unit {0}) × S → Processed × Work S
  after_delete w (returned done, s) = finish (record w { store = s; delete_called = true })
  after_delete w (raised e, s) = fail (record w { store = s; delete_called = true })

  pub begin_delete : Work S → Work S
  begin_delete w =
      save
        (record w.entry {
          status = at_deleting;
          pre_delete_version_id = elim w.entry.old_head [ none ↦ none | some h ↦ h.version_id ];
        })
        w

  pub step_c : Work S → Processed × Work S
  step_c w =
      let begun : Work S = begin_delete w in
      if dry_run
      then finish begun
      else after_delete begun (delete_object client begun.entry.old_key begun.store)

  pub verdict_of : Head → Head → Verdict
  verdict_of src dst = if heads_pass src dst then passes src dst else differs src dst

  -- Any ClientError of the second HEAD fails the check.
  pub verify_dst : Head → FullReply × S → Verdict × S
  verify_dst src (full dst, s) = (verdict_of src dst, s)
  verify_dst src (full_error code, s) = (not_found, s)
  verify_dst src (full_raised, s) = (verify_raised, s)

  pub verify_src : String → FullReply × S → Verdict × S
  verify_src new_key (full src, s) = verify_dst src (head_full new_key s)
  verify_src new_key (full_error code, s) =
      if str_eq code "404" then (not_found, s) else (verify_raised, s)
  verify_src new_key (full_raised, s) = (verify_raised, s)

  pub verify_4head : String → String → S → Verdict × S
  verify_4head old_key new_key s = verify_src new_key (head_full old_key s)

  pub store_heads : Head → Head → Work S → Work S
  store_heads src dst w = record w {
    entry = record w.entry { old_head = some src; new_head = some dst };
  }

  pub after_verify : Work S → Verdict × S → Processed × Work S
  after_verify w (passes src dst, s) =
      let checked : Work S = store_heads src dst (record w { store = s }) in
      if is_absent src.sha256 && is_absent dst.sha256
      then (ended at_legacy_no_sha256, save_status at_legacy_no_sha256 checked)
      else step_c (save_status at_verified checked)
  after_verify w (differs src dst, s) = fail (store_heads src dst (record w { store = s }))
  after_verify w (not_found, s) = fail (record w { store = s })
  after_verify w (verify_raised, s) = (process_raised, record w { store = s })

  pub step_b : Work S → Processed × Work S
  step_b w =
      let begun : Work S = save_status at_verifying w in
      after_verify begun (verify_4head begun.entry.old_key begun.entry.new_key begun.store)

  -- The source is not there: the HEAD of the destination.
  pub without_source : Work S → FullReply × S → Processed × Work S
  without_source w (full dst, s) =
      if is_truthy dst.sha256
      then (
        ended at_done,
        record (save_status at_done (record w { store = s })) { sentinel = true },
      )
      else fail (record w { store = s })
  without_source w (full_error code, s) =
      if str_eq code "404"
      then fail (record w { store = s })
      else (process_raised, record w { store = s })
  without_source w (full_raised, s) = (process_raised, record w { store = s })

  pub after_copy : Work S → Outcome CopyStatus × S → Processed × Work S
  after_copy w (raised e, s) = fail (record w { store = s })
  after_copy w (returned source_not_found, s) = without_source w (head_full w.entry.new_key s)
  after_copy w (returned dst_conflict, s) = fail (record w { store = s })
  after_copy w (returned already_exists_idempotent, s) =
      step_b (save_status at_copied (record w { store = s }))
  after_copy w (returned copied, s) = step_b (save_status at_copied (record w { store = s }))

  pub step_a : Work S → Processed × Work S
  step_a w =
      let begun : Work S = save_status at_copying w in
      after_copy begun (copy_object client begun.entry.old_key begun.entry.new_key begun.store)

  -- _process_partition, by the status that the entry has.
  pub process_at : Status → Work S → Processed × Work S
  process_at at_copied w = step_b w
  process_at at_verifying w = step_b w
  process_at at_verified w = step_c w
  process_at at_deleting w = step_c w
  process_at _ w = step_a w

  pub process_partition : Work S → Processed × Work S
  process_partition w = process_at w.entry.status w

  -- _MID_FLIGHT_STATUSES
  pub is_resumable : Status → Bool
  is_resumable s = elim s [
    | at_pending ↦ true
    | at_copying ↦ true
    | at_copied ↦ true
    | at_verifying ↦ true
    | at_verified ↦ true
    | at_deleting ↦ true
    | _ ↦ false
  ]

  -- `run` at a partition that is in the manifest: the sentinel makes it done, and what is resumable is
  -- processed.
  pub populate : Work S → Work S
  populate w = if w.sentinel then save_status at_done w else w

  pub resume : Work S → Option Processed × Work S
  resume w =
      if is_resumable w.entry.status
      then (some (process_partition w).0, (process_partition w).1)
      else (none, w)

  pub sweep : Work S → Option Processed × Work S
  sweep w = resume (populate w)
