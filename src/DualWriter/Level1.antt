-- ===== src/DualWriter/Level1.antt =====
-- put_l1, where the file that is uploaded is the one that the promotion deletes.
use mctrader_data.Prelude.{
  ℕ, String, ◌≡◌, refl, sym, ap, ◌∙◌, ◌⊎◌, inl, inr, Option, none, some, subst, Option-cases,
}
use mctrader_data.Prelude.Dict.{Dict, string_eq, lookup}
use mctrader_data.RetryQueue.{Bytes}
use mctrader_data.Promotion.{HeadAnswer}
use mctrader_data.Uploader.{
  PutStatus, uploaded, skipped_idempotent, queued, hard_floor_blocked, skipped_etag_overwrite,
  Outcome, returned, raised, Client, Nas, Insertion,
}
use mctrader_data.Uploader.Put.{Laws, Queued, Blocked, Told, put_streaming-Told}
use mctrader_data.DualWriter.{
  DualOutcome, dual_ok, dual_raised, committed, local_only, floor_blocked, data_missing,
  sha256_mismatch, tmp_write_failed, promotion_failed, source_missing, upload_failed,
  enqueue_retry_failed, Unlink, World, commit_l1, put_l1,
}
use mctrader_data.DualWriter.Promote.{Deleted, Promotes, promote_after_nas_put-Promotes}

module _ {S : Type 0} (client : Client S) (Labelled : String → String → S → Type 0)
    (laws : Laws client Labelled) (digest : Bytes → String) (heads : ℕ → HeadAnswer)
    (unlink : Unlink) (retry i : Insertion) (path nas_key : String) where
  abbrev pub Deletes : String → Dict String Bytes → Dict String Bytes → Type 0
  Deletes sha256 before after =
      Deleted client digest heads unlink retry path nas_key sha256 before after

  -- By the outcome.
  abbrev pub SettlesL1 : Bytes → World S → DualOutcome × World S → Type 0
  SettlesL1 body w (dual_ok committed, a) =
      Labelled nas_key (digest body) a.nas.store
      × ((a.files ≡ w.files) ⊎ Deletes (digest body) w.files a.files)
  SettlesL1 body w (dual_ok local_only, a) =
      (Labelled nas_key (digest body) a.nas.store
        ⊎ Queued client Labelled laws i nas_key body (digest body) w.nas.retry_queue
            a.nas.retry_queue)
      × (a.files ≡ w.files)
  SettlesL1 body w (dual_ok floor_blocked, a) =
      Blocked client Labelled laws i nas_key body (digest body) w.nas.retry_queue a.nas.retry_queue
      × (a.files ≡ w.files)
  SettlesL1 body w (dual_raised e, a) = a.files ≡ w.files

  promotion-SettlesL1 :
      (body : Bytes) (w v : World S) (run : DualOutcome × World S)
      → Labelled nas_key (digest body) v.nas.store
      → v.files ≡ w.files
      → Promotes client digest heads unlink retry path nas_key (digest body) v run
      → SettlesL1 body w run
  promotion-SettlesL1 body w v (dual_ok committed, a) label same (nas_same, inl kept) =
      (subst (λ n. Labelled nas_key (digest body) n.store) (sym nas_same) label, inl (kept ∙ same))
  promotion-SettlesL1 body w v (dual_ok committed, a) label same (nas_same, inr deleted) = (
    subst (λ n. Labelled nas_key (digest body) n.store) (sym nas_same) label,
    inr (subst (λ f. Deletes (digest body) f a.files) same deleted),
  )
  promotion-SettlesL1 body w v (dual_ok local_only, a) label same (kept, store_same) =
      (inl (subst (Labelled nas_key (digest body)) (sym store_same) label), kept ∙ same)
  promotion-SettlesL1 body w v (dual_ok floor_blocked, a) label same h = absurd h
  promotion-SettlesL1 body w v (dual_raised data_missing, a) label same h = absurd h
  promotion-SettlesL1 body w v (dual_raised sha256_mismatch, a) label same h = absurd h
  promotion-SettlesL1 body w v (dual_raised tmp_write_failed, a) label same h = absurd h
  promotion-SettlesL1 body w v (dual_raised (upload_failed e), a) label same h = absurd h
  promotion-SettlesL1 body w v (dual_raised promotion_failed, a) label same h =
      ap (λ z. z.files) h ∙ same
  promotion-SettlesL1 body w v (dual_raised source_missing, a) label same h =
      ap (λ z. z.files) h.0 ∙ same
  promotion-SettlesL1 body w v (dual_raised (enqueue_retry_failed e), a) label same h = h.0 ∙ same

  commit_l1-SettlesL1 :
      (body : Bytes) (w : World S) (run : Outcome PutStatus × Nas S)
      → Told client Labelled laws i nas_key body (digest body) w.nas.retry_queue run
      → SettlesL1 body w
          (commit_l1 client digest heads unlink retry path nas_key (digest body) w.files run)
  unfolding commit_l1
  commit_l1-SettlesL1 body w (returned uploaded, n) h = promotion-SettlesL1 body w _ _ h.0 refl (
      promote_after_nas_put-Promotes client digest heads unlink retry path nas_key (digest body)
        (record { files = w.files; nas = n }))
  commit_l1-SettlesL1 body w (returned skipped_idempotent, n) h =
      promotion-SettlesL1 body w _ _ h.0 refl (
        promote_after_nas_put-Promotes client digest heads unlink retry path nas_key (digest body)
          (record { files = w.files; nas = n }))
  commit_l1-SettlesL1 body w (returned skipped_etag_overwrite, n) h = absurd h
  commit_l1-SettlesL1 body w (returned queued, n) h = (inr h, refl)
  commit_l1-SettlesL1 body w (returned hard_floor_blocked, n) h = (h, refl)
  commit_l1-SettlesL1 body w (raised e, n) h = refl

  abbrev pub SettlesAllL1 : Option Bytes → World S → DualOutcome × World S → Type 0
  SettlesAllL1 none w run = run ≡ (dual_raised data_missing, w)
  SettlesAllL1 (some body) w run = SettlesL1 body w run

  -- For a store that shows a digest only on an object that has it, and whose acknowledged writes
  -- leave it: put_l1 deletes no file but its own, and that only when it answers "committed", after
  -- the promotion has verified it. "committed" says that the object at the key carries the file's
  -- digest, "local_only" that it does or that the queue, if there is one, holds the data, and
  -- "hard_floor_blocked" that the queue is at its hard floor. A missing file raises with nothing
  -- changed.
  pub put_l1-SettlesL1 :
      (w : World S)
      → SettlesAllL1
          (lookup path w.files)
          w
          (put_l1 client digest heads unlink retry i path nas_key w)
  unfolding put_l1
  put_l1-SettlesL1 w = elim (Option-cases (lookup path w.files)) [
    | inl missing ↦ rw (missing, put_l1) refl
    | inr (body, found) ↦
        rw (found, put_l1)
          (commit_l1-SettlesL1 body w _
            (put_streaming-Told client Labelled laws i nas_key body (digest body) w.nas))
  ]
