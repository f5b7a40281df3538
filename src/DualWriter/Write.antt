-- ===== src/DualWriter/Write.antt =====
-- DualWriter.write: the files, the bucket and the queue after each outcome.
use mctrader_data.Prelude.{ℕ, String, false, ◌≡◌, ◌⊎◌, Option, none, some, str_eq}
use mctrader_data.Prelude.Dict.{Dict, string_eq, lookup}
use mctrader_data.RetryQueue.{Bytes}
use mctrader_data.Promotion.{HeadAnswer}
use mctrader_data.Uploader.{Client, Insertion}
use mctrader_data.Uploader.Put.{Laws, Queued, Blocked}
use mctrader_data.DualWriter.{
  DualOutcome, dual_ok, dual_raised, committed, local_only, floor_blocked, data_missing,
  sha256_mismatch, tmp_write_failed, promotion_failed, source_missing, upload_failed,
  enqueue_retry_failed, Payload, in_memory, at_path, Unlink, World,
}
use mctrader_data.DualWriter.Files.{Written, Untouched}
use mctrader_data.DualWriter.Promote.{Deleted}

module _ {S : Type 0} (client : Client S) (Labelled : String → String → S → Type 0)
    (laws : Laws client Labelled) (digest : Bytes → String) (heads : ℕ → HeadAnswer)
    (unlink : Unlink) (retry i : Insertion) (path nas_key sha256 : String) where
  -- The data are at the path, and a promotion has deleted at most one verified file after that.
  abbrev pub Kept : Bytes → Dict String Bytes → Dict String Bytes → Type 0
  Kept body before after =
      Written path body before after
      ⊎ ((source : String) × (between : Dict String Bytes) × Written path body before between
          × Deleted client digest heads unlink retry source nas_key sha256 between after)

  -- By the outcome.
  abbrev pub Settles : Bytes → World S → DualOutcome × World S → Type 0
  Settles body w (dual_ok committed, a) =
      Labelled nas_key sha256 a.nas.store
      × (a.nas.retry_queue ≡ w.nas.retry_queue)
      × Kept body w.files a.files
  Settles body w (dual_ok local_only, a) =
      (Labelled nas_key sha256 a.nas.store
        ⊎ Queued client Labelled laws i nas_key body sha256 w.nas.retry_queue a.nas.retry_queue)
      × Written path body w.files a.files
  Settles body w (dual_ok floor_blocked, a) =
      Blocked client Labelled laws i nas_key body sha256 w.nas.retry_queue a.nas.retry_queue
      × Untouched path w.files a.files
  Settles body w (dual_raised data_missing, a) = a ≡ w
  Settles body w (dual_raised sha256_mismatch, a) = (a ≡ w) × (str_eq (digest body) sha256 ≡ false)
  Settles body w (dual_raised tmp_write_failed, a) =
      (a.nas ≡ w.nas) × Untouched path w.files a.files
  Settles body w (dual_raised (upload_failed e), a) = Untouched path w.files a.files
  Settles body w (dual_raised promotion_failed, a) =
      Labelled nas_key sha256 a.nas.store × Written path body w.files a.files
  Settles body w (dual_raised source_missing, a) =
      Labelled nas_key sha256 a.nas.store × Written path body w.files a.files
  Settles body w (dual_raised (enqueue_retry_failed e), a) =
      Labelled nas_key sha256 a.nas.store × Written path body w.files a.files

  -- The bytes of the data; a Path whose file is absent has none.
  abbrev pub bytes_of : Payload → World S → Option Bytes
  bytes_of (in_memory body) w = some body
  bytes_of (at_path from) w = lookup from w.files

  abbrev pub SettlesAll : Option Bytes → World S → DualOutcome × World S → Type 0
  SettlesAll none w run = run ≡ (dual_raised data_missing, w)
  SettlesAll (some body) w run = Settles body w run
