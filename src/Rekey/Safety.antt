-- ===== src/Rekey/Safety.antt =====
-- When _process_partition deletes, and what it leaves in the manifest.
use mctrader_data.Prelude.{
  String, Bool, true, false, ◌≡◌, refl, ◌⊎◌, inl, inr, List, [], ◌∷◌, str_eq, All, if-cases, arith,
  ◌&&◌,
}
use mctrader_data.Promotion.{Head}
use mctrader_data.Uploader.{
  Outcome, returned, raised, Client, CopyStatus, copied, already_exists_idempotent,
  source_not_found, dst_conflict,
}
use mctrader_data.Rekey.{
  Status, at_pending, at_copying, at_copied, at_verifying, at_verified, at_deleting, at_done,
  at_failed, at_legacy_no_sha256, at_rolled_back, at_deleted, Entry, FullReply, full, full_error,
  full_raised, Work, Processed, ended, process_raised, save, save_status, fail, is_truthy,
  is_absent, Verdict, passes, differs, not_found, verify_raised, finish, after_delete, begin_delete,
  step_c, verify_4head, store_heads, after_verify, step_b, without_source, after_copy, step_a,
  process_at, process_partition,
}
use mctrader_data.Rekey.Verified.{
  SameObject, IsVerified, WellFormedAt, WellFormed, IsVerified-moves, heads_pass-SameObject, Sound,
  verify_src-Sound,
}

module _ {S : Type 0} (client : Client S) (head_full : String → S → FullReply × S)
    (dry_run : Bool) where
  -- A deletion stands after a durable entry that is being deleted and is verified.
  abbrev pub Recorded : List Entry → Type 0
  Recorded [] = ⊥
  Recorded (e ∷ es) = ((e.status ≡ at_deleting) × IsVerified e) ⊎ Recorded es

  abbrev pub Told : Processed → Work S → Type 0
  Told (ended s) w = (rest : List Entry) × (w.written ≡ w.entry ∷ rest) × (w.entry.status ≡ s)
  Told process_raised w = Unit

  -- What holds of an answer and of what it leaves.
  pub record Safe (run : Processed × Work S) : Type 0 where
    pub durable : All WellFormed run.1.written
    pub deletes :
        run.1.delete_called ≡ true
        → (dry_run ≡ false) × IsVerified run.1.entry × Recorded run.1.written
    pub completes : run.1.sentinel ≡ true → run.0 ≡ ended at_done
    pub marks : run.0 ≡ ended at_done → run.1.sentinel ≡ true
    pub told : Told run.0 run.1

  -- A partition in process, before any deletion.
  pub record Begun (w : Work S) : Type 0 where
    pub durable : All WellFormed w.written
    pub undeleted : w.delete_called ≡ false
    pub incomplete : w.sentinel ≡ false

  fail-Safe : (w : Work S) → Begun w → Safe (fail w)
  unfolding fail save
  fail-Safe w b = record {
    durable = (tt, b.durable);
    deletes = λ h. absurd (ground (arith, b.undeleted));
    completes = λ h. absurd (ground (arith, b.incomplete));
    marks = λ h. absurd (ground arith);
    told = (w.written, refl, refl);
  }

  save_status-Begun :
      (s : Status) (w : Work S)
      → Begun w
      → WellFormedAt s (save_status s w).entry
      → Begun (save_status s w)
  unfolding save_status save
  save_status-Begun s w b h = record {
    durable = (h, b.durable);
    undeleted = b.undeleted;
    incomplete = b.incomplete;
  }

  finish-Safe :
      (w : Work S)
      → All WellFormed w.written
      → (w.delete_called ≡ true → (dry_run ≡ false) × IsVerified w.entry × Recorded w.written)
      → Safe (finish client head_full dry_run w)
  unfolding finish save_status save
  finish-Safe w b d = record {
    durable = (tt, b);
    deletes = λ h. ((d h).0, IsVerified-moves w.entry _ (d h).1 refl refl, inr (d h).2);
    completes = λ h. refl;
    marks = λ h. refl;
    told = (w.written, refl, refl);
  }

  after_delete-Safe :
      (w : Work S) (run : Outcome (Unit {0}) × S)
      → All WellFormed w.written
      → dry_run ≡ false
      → IsVerified w.entry
      → Recorded w.written
      → w.sentinel ≡ false
      → Safe (after_delete client head_full dry_run w run)
  unfolding after_delete fail save
  after_delete-Safe w (returned done, s) b l v r i =
      finish-Safe (record w { store = s; delete_called = true }) b (λ h. (l, v, r))
  after_delete-Safe w (raised e, s) b l v r i = record {
    durable = (tt, b);
    deletes = λ h. (l, IsVerified-moves w.entry _ v refl refl, inr r);
    completes = λ h. absurd (ground (arith, i));
    marks = λ h. absurd (ground arith);
    told = (w.written, refl, refl);
  }

  step_c-Safe :
      (w : Work S) → Begun w → IsVerified w.entry → Safe (step_c client head_full dry_run w)
  unfolding step_c begin_delete save
  step_c-Safe w b v =
      let begun : Work S = begin_delete client head_full dry_run w in
      let kept : IsVerified begun.entry = IsVerified-moves w.entry begun.entry v refl refl in
      if-cases Safe dry_run _ _
        (λ dry. finish-Safe begun (kept, b.durable) (λ h. absurd (ground (arith, b.undeleted))))
        (λ live.
          after_delete-Safe begun _ (kept, b.durable) live kept (inl (refl, kept)) b.incomplete)

  store_heads-Begun :
      (src dst : Head) (w : Work S) (s : S)
      → Begun w
      → Begun (store_heads client head_full dry_run src dst (record w { store = s }))
  unfolding store_heads
  store_heads-Begun src dst w s b = record {
    durable = b.durable;
    undeleted = b.undeleted;
    incomplete = b.incomplete;
  }

  moved : (w : Work S) (s : S) → Begun w → Begun (record w { store = s })
  moved w s b = record { durable = b.durable; undeleted = b.undeleted; incomplete = b.incomplete }

  raised-Safe : (w : Work S) → Begun w → Safe (process_raised, w)
  raised-Safe w b = record {
    durable = b.durable;
    deletes = λ h. absurd (ground (arith, b.undeleted));
    completes = λ h. absurd (ground (arith, b.incomplete));
    marks = λ h. absurd (ground arith);
    told = tt;
  }

  legacy-Safe :
      (w : Work S) → Begun w → Safe (ended at_legacy_no_sha256, save_status at_legacy_no_sha256 w)
  unfolding save_status save
  legacy-Safe w b = record {
    durable = (tt, b.durable);
    deletes = λ h. absurd (ground (arith, b.undeleted));
    completes = λ h. absurd (ground (arith, b.incomplete));
    marks = λ h. absurd (ground arith);
    told = (w.written, refl, refl);
  }

  after_verify-Safe :
      (w : Work S) (run : Verdict × S)
      → Sound run.0
      → Begun w
      → Safe (after_verify client head_full dry_run w run)
  unfolding after_verify store_heads save_status save
  after_verify-Safe w (passes src dst, s) sound b =
      let checked : Work S =
        store_heads client head_full dry_run src dst (record w { store = s }) in
      let begun : Begun checked = store_heads-Begun src dst w s b in
      if-cases Safe (is_absent src.sha256 && is_absent dst.sha256) _ _
        (λ legacy. legacy-Safe checked begun)
        (λ held.
          let same : SameObject src dst = heads_pass-SameObject src dst sound held in
          let v : IsVerified checked.entry = record {
            src = src;
            dst = dst;
            has_src = refl;
            has_dst = refl;
            same = same;
          } in
          let v_saved : IsVerified (save_status at_verified checked).entry =
            IsVerified-moves checked.entry _ v refl refl in
          step_c-Safe (save_status at_verified checked)
            (save_status-Begun at_verified checked begun v_saved) v_saved)
  after_verify-Safe w (differs src dst, s) sound b = fail-Safe _ (store_heads-Begun src dst w s b)
  after_verify-Safe w (not_found, s) sound b = fail-Safe _ (moved w s b)
  after_verify-Safe w (verify_raised, s) sound b = raised-Safe _ (moved w s b)

  step_b-Safe : (w : Work S) → Begun w → Safe (step_b client head_full dry_run w)
  unfolding step_b verify_4head
  step_b-Safe w b =
      after_verify-Safe (save_status at_verifying w) _
        (verify_src-Sound client head_full dry_run _ _) (save_status-Begun at_verifying w b tt)

  done-Safe :
      (w : Work S)
      → Begun w
      → Safe (ended at_done, record (save_status at_done w) { sentinel = true })
  unfolding save_status save
  done-Safe w b = record {
    durable = (tt, b.durable);
    deletes = λ h. absurd (ground (arith, b.undeleted));
    completes = λ h. refl;
    marks = λ h. refl;
    told = (w.written, refl, refl);
  }

  without_source-Safe :
      (w : Work S) (answer : FullReply × S)
      → Begun w
      → Safe (without_source client head_full dry_run w answer)
  unfolding without_source
  without_source-Safe w (full dst, s) b =
      if-cases Safe (is_truthy dst.sha256) _ _
        (λ there. done-Safe (record w { store = s }) (moved w s b))
        (λ absent. fail-Safe _ (moved w s b))
  without_source-Safe w (full_error code, s) b =
      if-cases Safe (str_eq code "404") _ _ (λ gone. fail-Safe _ (moved w s b))
        (λ other. raised-Safe _ (moved w s b))
  without_source-Safe w (full_raised, s) b = raised-Safe _ (moved w s b)

  after_copy-Safe :
      (w : Work S) (run : Outcome CopyStatus × S)
      → Begun w
      → Safe (after_copy client head_full dry_run w run)
  unfolding after_copy
  after_copy-Safe w (raised e, s) b = fail-Safe _ (moved w s b)
  after_copy-Safe w (returned source_not_found, s) b = without_source-Safe w _ b
  after_copy-Safe w (returned dst_conflict, s) b = fail-Safe _ (moved w s b)
  after_copy-Safe w (returned already_exists_idempotent, s) b =
      step_b-Safe _ (save_status-Begun at_copied (record w { store = s }) (moved w s b) tt)
  after_copy-Safe w (returned copied, s) b =
      step_b-Safe _ (save_status-Begun at_copied (record w { store = s }) (moved w s b) tt)

  step_a-Safe : (w : Work S) → Begun w → Safe (step_a client head_full dry_run w)
  unfolding step_a
  step_a-Safe w b =
      after_copy-Safe (save_status at_copying w) _ (save_status-Begun at_copying w b tt)

  process_at-Safe :
      (s : Status) (w : Work S)
      → Begun w
      → WellFormedAt s w.entry
      → Safe (process_at client head_full dry_run s w)
  unfolding process_at
  process_at-Safe at_pending w b v = step_a-Safe w b
  process_at-Safe at_copying w b v = step_a-Safe w b
  process_at-Safe at_copied w b v = step_b-Safe w b
  process_at-Safe at_verifying w b v = step_b-Safe w b
  process_at-Safe at_verified w b v = step_c-Safe w b v
  process_at-Safe at_deleting w b v = step_c-Safe w b v
  process_at-Safe at_done w b v = step_a-Safe w b
  process_at-Safe at_failed w b v = step_a-Safe w b
  process_at-Safe at_legacy_no_sha256 w b v = step_a-Safe w b
  process_at-Safe at_rolled_back w b v = step_a-Safe w b
  process_at-Safe at_deleted w b v = step_a-Safe w b

  -- For a partition with no deletion asked for and no sentinel, whose entry and durable entries are
  -- well-formed (verified or being deleted only with the two HEAD answers stored that show one digest,
  -- one length and a version of the copy): whatever the store answers, the entries written are
  -- well-formed; a deletion is asked for only outside a dry run, with such answers stored and after
  -- an entry that says "deleting" is durable; a sentinel is there just when the answer is "done"; and
  -- a status that is answered is that of the entry written last.
  pub process_partition-Safe :
      (w : Work S)
      → Begun w
      → WellFormed w.entry
      → Safe (process_partition client head_full dry_run w)
  unfolding process_partition
  process_partition-Safe w b v = process_at-Safe w.entry.status w b v
