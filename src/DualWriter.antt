-- ===== src/DualWriter.antt =====
-- src/mctrader_data/nas_storage/dual_writer.py: DualWriter.write, put_l1 and _promote_after_nas_put,
-- over the uploader and the promotion as they are modelled. The local disk is a dictionary from
-- paths to bytes. Outside are the digest, the answers to the HEAD requests of the promotion, how its
-- unlink ends, and whether the temporary file can be written; os.replace of a file that is there
-- succeeds. An exception of the promotion other than PromotionVerifyError is taken for one that is
-- not an OSError. Counters, logs and latencies are left out.
mod Files
mod Promote
mod Write
mod Level1
mod Tests
use Prim.Native.String.{◌++◌ as str_append}
use mctrader_data.Prelude.{
  ℕ, String, Bool, true, false, not, Option, none, some, List, [], ◌∷◌, str_eq, if◌then◌else◌,
}
use mctrader_data.Prelude.Dict.{Dict, string_eq, lookup, insert, erase}
use mctrader_data.RetryQueue.{Bytes}
use mctrader_data.Promotion.{
  HeadAnswer, Promotion, promoted, already_promoted, verify_error, raised as promotion_raised,
  promote_l1,
}
use mctrader_data.Uploader.{
  PutStatus, uploaded, skipped_idempotent, queued, hard_floor_blocked, skipped_etag_overwrite,
  UploadError, Outcome, returned, raised, Client, Nas, Insertion, put, put_streaming, path_source,
  enqueue_retry,
}

-- DualWriteResult.status.
pub data DualStatus : Type 0 where
  committed local_only floor_blocked : DualStatus

-- What a call raises: FileNotFoundError for the data, ValueError for the digest, an error of the
-- copy to the temporary file, what the uploader raises, what the promotion raises, and
-- FileNotFoundError or an error of the queue when the source is enqueued after the promotion.
pub data DualError : Type 0 where
  data_missing sha256_mismatch tmp_write_failed promotion_failed source_missing : DualError
  upload_failed : UploadError → DualError
  enqueue_retry_failed : UploadError → DualError

pub data DualOutcome : Type 0 where
  dual_ok : DualStatus → DualOutcome
  dual_raised : DualError → DualOutcome

-- The argument `data`: bytes, or a Path.
pub data Payload : Type 0 where
  in_memory : Bytes → Payload
  at_path : String → Payload

-- How local_path.unlink ends in the promotion: done, FileNotFoundError since another process has
-- unlinked the file, or another OSError.
pub data Unlink : Type 0 where
  unlinked vanished unlink_failed : Unlink

pub record World (S : Type 0) : Type 0 where
  pub files : Dict String Bytes
  pub nas : Nas S

-- local_path.with_suffix(local_path.suffix + ".tmp_dw")
pub tmp_of : String → String
tmp_of p = str_append p ".tmp_dw"

-- os.replace
pub replace_file : String → String → Dict String Bytes → Dict String Bytes
replace_file from to files = elim (lookup from files) [
  | none ↦ files
  | some bytes ↦ insert to bytes (erase from files)
]

module _ {S : Type 0} (client : Client S) (digest : Bytes → String) (heads : ℕ → HeadAnswer)
    (unlink : Unlink) (retry : Insertion) where
  -- promote_l1 has returned, or raised FileNotFoundError or another OSError.
  pub after_unlink : Unlink → String → World S → DualOutcome × World S
  after_unlink unlinked source w = (dual_ok committed, record w { files = erase source w.files })
  after_unlink vanished source w = (dual_ok committed, record w { files = erase source w.files })
  after_unlink unlink_failed source w = (dual_ok committed, w)

  pub retried : World S → Outcome (Unit {0}) × Nas S → DualOutcome × World S
  retried w (returned done, n) = (dual_ok local_only, record w { nas = n })
  retried w (raised e, n) = (dual_raised (enqueue_retry_failed e), record w { nas = n })

  -- enqueue_retry with a Path: only a queue reads the file.
  pub retry_source : String → String → String → World S → DualOutcome × World S
  retry_source source nas_key sha256 w = elim (lookup source w.files) [
    | some bytes ↦ retried w (enqueue_retry client retry nas_key bytes sha256 w.nas)
    | none ↦ elim w.nas.retry_queue [
      | none ↦ (dual_ok local_only, w)
      | some q ↦ (dual_raised source_missing, w)
    ]
  ]

  pub after_promotion : String → String → String → World S → Promotion → DualOutcome × World S
  after_promotion source nas_key sha256 w (promoted version etag) = after_unlink unlink source w
  after_promotion source nas_key sha256 w (already_promoted version etag) = (dual_ok committed, w)
  after_promotion source nas_key sha256 w verify_error = retry_source source nas_key sha256 w
  after_promotion source nas_key sha256 w promotion_raised = (dual_raised promotion_failed, w)

  -- With "already_promoted" made "committed", as both callers do.
  pub promote_after_nas_put : String → String → String → World S → DualOutcome × World S
  promote_after_nas_put source nas_key sha256 w =
      after_promotion source nas_key sha256 w
        (promote_l1 heads digest (lookup source w.files)).result

  -- After the first os.replace of a committed write.
  pub promote_source :
      String → String → Payload → String → Option String → World S → DualOutcome × World S
  promote_source local_path nas_key payload sha256 (some source) w =
      promote_after_nas_put source nas_key sha256 w
  promote_source local_path nas_key (in_memory body) sha256 none w = (dual_ok committed, w)
  promote_source local_path nas_key (at_path path) sha256 none w =
      let promotion = promote_after_nas_put path nas_key sha256 w in
      if str_eq path local_path then (dual_ok committed, w) else promotion

  -- Phase 2, with the files that phase 1 left.
  pub commit :
      String
      → String
      → Payload
      → String
      → Option String
      → Dict String Bytes
      → Outcome PutStatus × Nas S
      → DualOutcome × World S
  commit local_path nas_key payload sha256 source files (returned uploaded, n) =
      promote_source local_path nas_key payload sha256 source
        (record { files = replace_file (tmp_of local_path) local_path files; nas = n })
  commit local_path nas_key payload sha256 source files (returned skipped_idempotent, n) =
      promote_source local_path nas_key payload sha256 source
        (record { files = replace_file (tmp_of local_path) local_path files; nas = n })
  commit local_path nas_key payload sha256 source files (returned skipped_etag_overwrite, n) =
      promote_source local_path nas_key payload sha256 source
        (record { files = replace_file (tmp_of local_path) local_path files; nas = n })
  commit local_path nas_key payload sha256 source files (returned queued, n) = (
    dual_ok local_only,
    record { files = replace_file (tmp_of local_path) local_path files; nas = n },
  )
  commit local_path nas_key payload sha256 source files (returned hard_floor_blocked, n) =
      (dual_ok floor_blocked, record { files = erase (tmp_of local_path) files; nas = n })
  commit local_path nas_key payload sha256 source files (raised e, n) =
      (dual_raised (upload_failed e), record { files = erase (tmp_of local_path) files; nas = n })

  -- put for bytes, put_streaming for a Path.
  pub put_payload :
      Insertion → String → Payload → Bytes → String → Nas S → Outcome PutStatus × Nas S
  put_payload i nas_key (in_memory given) body sha256 n =
      put client digest false i nas_key body (some sha256) n
  put_payload i nas_key (at_path path) body sha256 n =
      put_streaming client i nas_key (path_source body) sha256 n

  pub write_body :
      Insertion
      → Bool
      → String
      → String
      → Payload
      → Bytes
      → String
      → Option String
      → World S
      → DualOutcome × World S
  write_body i tmp_written local_path nas_key payload body sha256 source w =
      if not (str_eq (digest body) sha256)
      then (dual_raised sha256_mismatch, w)
      else if not tmp_written
      then (dual_raised tmp_write_failed, record w { files = erase (tmp_of local_path) w.files })
      else commit local_path nas_key payload sha256 source (insert (tmp_of local_path) body w.files)
          (put_payload i nas_key payload body sha256 w.nas)

  pub write :
      Insertion
      → Bool
      → String
      → String
      → Payload
      → String
      → Option String
      → World S
      → DualOutcome × World S
  write i tmp_written local_path nas_key (in_memory body) sha256 source w =
      write_body i tmp_written local_path nas_key (in_memory body) body sha256 source w
  write i tmp_written local_path nas_key (at_path path) sha256 source w =
      elim (lookup path w.files) [
        | none ↦ (dual_raised data_missing, w)
        | some body ↦
            write_body i tmp_written local_path nas_key (at_path path) body sha256 source w
      ]

  pub commit_l1 :
      String
      → String
      → String
      → Dict String Bytes
      → Outcome PutStatus × Nas S
      → DualOutcome × World S
  commit_l1 path nas_key sha256 files (returned uploaded, n) =
      promote_after_nas_put path nas_key sha256 (record { files = files; nas = n })
  commit_l1 path nas_key sha256 files (returned skipped_idempotent, n) =
      promote_after_nas_put path nas_key sha256 (record { files = files; nas = n })
  commit_l1 path nas_key sha256 files (returned skipped_etag_overwrite, n) =
      promote_after_nas_put path nas_key sha256 (record { files = files; nas = n })
  commit_l1 path nas_key sha256 files (returned queued, n) =
      (dual_ok local_only, record { files = files; nas = n })
  commit_l1 path nas_key sha256 files (returned hard_floor_blocked, n) =
      (dual_ok floor_blocked, record { files = files; nas = n })
  commit_l1 path nas_key sha256 files (raised e, n) =
      (dual_raised (upload_failed e), record { files = files; nas = n })

  -- For a path below the root, with the key that build_nas_key makes of it.
  pub put_l1 : Insertion → String → String → World S → DualOutcome × World S
  put_l1 i path nas_key w = elim (lookup path w.files) [
    | none ↦ (dual_raised data_missing, w)
    | some body ↦
        commit_l1 path nas_key (digest body) w.files
          (put_streaming client i nas_key (path_source body) (digest body) w.nas)
  ]
