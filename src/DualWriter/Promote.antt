-- ===== src/DualWriter/Promote.antt =====
-- The promotion after an upload: which file it deletes, and on what evidence.
use mctrader_data.Prelude.{ℕ, String, ◌≡◌, refl, ◌⊎◌, inl, inr, none, some, Option-cases}
use mctrader_data.Prelude.Dict.{Dict, string_eq, lookup, erase}
use mctrader_data.RetryQueue.{Bytes}
use mctrader_data.Promotion.{
  HeadAnswer, Promotion, promoted, already_promoted, verify_error, raised as promotion_raised,
  promote_l1,
}
use mctrader_data.Promotion.Safety.{Verified, promoted-Verified}
use mctrader_data.Uploader.{Outcome, returned, raised, Client, Nas, Insertion, enqueue_retry}
use mctrader_data.Uploader.Retry.{enqueue_retry-store}
use mctrader_data.DualWriter.{
  DualOutcome, dual_ok, dual_raised, committed, local_only, floor_blocked, data_missing,
  sha256_mismatch, tmp_write_failed, promotion_failed, source_missing, upload_failed,
  enqueue_retry_failed, Unlink, unlinked, vanished, unlink_failed, World, after_unlink, retried,
  retry_source, after_promotion, promote_after_nas_put,
}

module _ {S : Type 0} (client : Client S) (digest : Bytes → String) (heads : ℕ → HeadAnswer)
    (unlink : Unlink) (retry : Insertion) (source nas_key sha256 : String) where
  -- The source was there, the promotion has verified it, and it is the only file that is gone.
  pub record Deleted (before after : Dict String Bytes) : Type 0 where
    pub bytes : Bytes
    pub was_there : lookup source before ≡ some bytes
    pub verified : Verified heads digest bytes (promote_l1 heads digest (some bytes))
    pub only_source : after ≡ erase source before

  -- By the outcome: the files, the bucket and the queue.
  abbrev pub Promotes : World S → DualOutcome × World S → Type 0
  Promotes w (dual_ok committed, a) =
      (a.nas ≡ w.nas) × ((a.files ≡ w.files) ⊎ Deleted w.files a.files)
  Promotes w (dual_ok local_only, a) = (a.files ≡ w.files) × (a.nas.store ≡ w.nas.store)
  Promotes w (dual_ok floor_blocked, a) = ⊥
  Promotes w (dual_raised data_missing, a) = ⊥
  Promotes w (dual_raised sha256_mismatch, a) = ⊥
  Promotes w (dual_raised tmp_write_failed, a) = ⊥
  Promotes w (dual_raised promotion_failed, a) = a ≡ w
  Promotes w (dual_raised source_missing, a) = (a ≡ w) × (lookup source w.files ≡ none)
  Promotes w (dual_raised (upload_failed e), a) = ⊥
  Promotes w (dual_raised (enqueue_retry_failed e), a) =
      (a.files ≡ w.files) × (a.nas.store ≡ w.nas.store)

  after_unlink-Promotes :
      (u : Unlink) (w : World S) (bytes : Bytes)
      → lookup source w.files ≡ some bytes
      → Verified heads digest bytes (promote_l1 heads digest (some bytes))
      → Promotes w (after_unlink client digest heads unlink retry u source w)
  unfolding after_unlink
  after_unlink-Promotes unlinked w bytes found v =
      (refl, inr (record { bytes = bytes; was_there = found; verified = v; only_source = refl }))
  after_unlink-Promotes vanished w bytes found v =
      (refl, inr (record { bytes = bytes; was_there = found; verified = v; only_source = refl }))
  after_unlink-Promotes unlink_failed w bytes found v = (refl, inl refl)

  retried-Promotes :
      (w : World S) (o : Outcome (Unit {0}) × Nas S)
      → o.1.store ≡ w.nas.store
      → Promotes w (retried client digest heads unlink retry w o)
  unfolding retried
  retried-Promotes w (returned done, n) h = (refl, h)
  retried-Promotes w (raised e, n) h = (refl, h)

  retry_source-Promotes :
      (w : World S)
      → Promotes w (retry_source client digest heads unlink retry source nas_key sha256 w)
  unfolding retry_source
  retry_source-Promotes w = elim (Option-cases (lookup source w.files)) [
    | inr (bytes, found) ↦
        rw (found, retry_source)
          (retried-Promotes w (enqueue_retry client retry nas_key bytes sha256 w.nas)
            (enqueue_retry-store client retry nas_key sha256 bytes w.nas))
    | inl gone ↦ elim (Option-cases w.nas.retry_queue) [
      | inl alone ↦ rw (gone, alone, retry_source) (refl, refl)
      | inr (q, there) ↦ simp (gone, there, retry_source) (refl, refl)
    ]
  ]

  after_promotion-Promotes :
      (w : World S) (p : Promotion)
      → (promote_l1 heads digest (lookup source w.files)).result ≡ p
      → Promotes w (after_promotion client digest heads unlink retry source nas_key sha256 w p)
  unfolding after_promotion
  after_promotion-Promotes w (promoted v etag) e =
      let (bytes, found, verified) =
        promoted-Verified heads digest (lookup source w.files) v etag e in
      after_unlink-Promotes unlink w bytes found verified
  after_promotion-Promotes w (already_promoted v etag) e = (refl, inl refl)
  after_promotion-Promotes w verify_error e = retry_source-Promotes w
  after_promotion-Promotes w promotion_raised e = refl

  pub promote_after_nas_put-Promotes :
      (w : World S)
      → Promotes w (promote_after_nas_put client digest heads unlink retry source nas_key sha256 w)
  unfolding promote_after_nas_put
  promote_after_nas_put-Promotes w =
      after_promotion-Promotes w (promote_l1 heads digest (lookup source w.files)).result refl
