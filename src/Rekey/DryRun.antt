-- ===== src/Rekey/DryRun.antt =====
-- A dry run, and the sweep that deletes after it.
use mctrader_data.Prelude.{
  String, Bool, true, false, ◌≡◌, refl, none, arith, if_true, ap, Bool-cases, inl, inr,
}
use mctrader_data.Uploader.{Client}
use mctrader_data.Rekey.{
  at_done, FullReply, Work, ended, save, save_status, process_partition, is_resumable, populate,
  resume, sweep,
}
use mctrader_data.Rekey.Verified.{WellFormed}
use mctrader_data.Rekey.Safety.{Begun, Safe, process_partition-Safe}

module _ {S : Type 0} (client : Client S) (head_full : String → S → FullReply × S) where
  -- A sweep in either mode of a partition with a sentinel does no more than to write that it is done.
  sweep-sentinel :
      (dry_run : Bool) (w : Work S)
      → w.sentinel ≡ true
      → sweep client head_full dry_run w ≡ (none, save_status at_done w)
  unfolding sweep populate resume is_resumable save_status save
  sweep-sentinel dry_run w h =
      ap (resume client head_full dry_run) (if_true w.sentinel (save_status at_done w) w h)

  -- A partition that a dry run ends with "done", from a well-formed entry with no deletion asked for
  -- and no sentinel: the dry run asks for no deletion, and the next sweep, which is no dry run, writes
  -- that the partition is done, does not process it, and leaves the store as it was.
  pub dry_run-Blocks :
      (w : Work S)
      → Begun client head_full true w
      → WellFormed w.entry
      → (process_partition client head_full true w).0 ≡ ended at_done
      → let after : Work S = (process_partition client head_full true w).1 in
        (after.delete_called ≡ false)
        × (sweep client head_full false after ≡ (none, save_status at_done after))
        × ((save_status at_done after).store ≡ after.store)
        × ((save_status at_done after).delete_called ≡ false)
  unfolding save_status save
  dry_run-Blocks w b v h =
      let safe : Safe client head_full true (process_partition client head_full true w) =
        process_partition-Safe client head_full true w b v in
      let kept : (process_partition client head_full true w).1.delete_called ≡ false =
        elim (Bool-cases (process_partition client head_full true w).1.delete_called) [
          | inl d ↦ absurd (ground (arith, (safe.deletes d).0))
          | inr d ↦ d
        ] in
      (kept, sweep-sentinel false _ (safe.marks h), refl, kept)
