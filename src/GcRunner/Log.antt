-- ===== src/GcRunner/Log.antt =====
-- What the loop of gc does to a file and to its row of the log.
use mctrader_data.Prelude.{
  String, Bool, true, false, ◌≡◌, refl, sym, ◌∙◌, ◌⊎◌, inl, inr, Option, none, some, List, [], ◌∷◌,
  str_eq, eq_iff, Bool-cases, if-cases, arith, ap, subst, if_true, if_false, if◌then◌else◌,
}
use mctrader_data.Prelude.Dict.{string_eq, lookup, insert, lookup-insert, lookup-erase, beq_refl}
use mctrader_data.GcRunner.{
  LogRow, size_of, digest_of, Access, RecoveryStatus, is_unconfirmed, confirmed_deleted,
  recovery_failed, LocalFile, Disk, row_is_deleted, is_already_deleted, row_of, write_log, log_as,
  Tally, unlink_file, delete_one, delete_all,
}

abbrev pub Listed : String → List String → Type 0
Listed p [] = ⊥
Listed p (q ∷ qs) = (p ≡ q) ⊎ Listed p qs

-- A file of the first disk that the second does not have, as the log keeps it: with what was read of it.
pub record Deleted (a : Access) (p : String) (targets : List String) (before : Disk) (after : Disk)
    : Type 0 where
  pub file : LocalFile
  pub was_there : lookup p before.files ≡ some file
  pub is_gone : lookup p after.files ≡ none
  pub unlinked : a.unlinks p ≡ true
  pub row : LogRow
  pub is_logged : lookup p after.deletion_log ≡ some row
  pub is_confirmed : row.recovery_status ≡ confirmed_deleted
  pub has_size : row.size_bytes ≡ (if a.stats p then file.size else 0)
  pub has_digest : row.sha256 ≡ (if a.reads p then file.digest else "")
  pub was_listed : Listed p targets

abbrev pub Traced : Access → String → List String → Disk → Disk → Type 0
Traced a p targets before after =
    (lookup p after.files ≡ lookup p before.files) ⊎ Deleted a p targets before after

lookup-log_as :
    (a : Access) (p q : String) (f : Option LocalFile) (s : RecoveryStatus) (d : Disk)
    → lookup p (log_as a q f s d).deletion_log
      ≡ (if str_eq q p then some (row_of a q f s) else lookup p d.deletion_log)
unfolding log_as write_log
lookup-log_as a p q f s d = ground (
  arith,
  lookup-insert q p (row_of a q f s) (insert q (row_of a q f is_unconfirmed) d.deletion_log),
  lookup-insert q p (row_of a q f is_unconfirmed) d.deletion_log,
)

abbrev SameAt : String → Disk → Disk → Type 0
SameAt p a b =
    (lookup p a.files ≡ lookup p b.files) × (lookup p a.deletion_log ≡ lookup p b.deletion_log)

unlink_file-other :
    (a : Access) (b : Bool) (p q : String) (o : Option LocalFile) (t : Tally)
    → str_eq q p ≡ false
    → SameAt p (unlink_file a b q o t).disk t.disk
unfolding unlink_file log_as write_log
unlink_file-other a b p q none t h =
    (refl, lookup-log_as a p q none recovery_failed t.disk ∙ if_false _ _ _ h)
unlink_file-other a false p q (some f) t h =
    (refl, lookup-log_as a p q (some f) recovery_failed t.disk ∙ if_false _ _ _ h)
unlink_file-other a true p q (some f) t h = (
  lookup-erase q p t.disk.files ∙ if_false _ _ _ h,
  lookup-log_as a p q (some f) confirmed_deleted t.disk ∙ if_false _ _ _ h,
)

unlink_file-Traced :
    (a : Access) (b : Bool) (p : String) (o : Option LocalFile) (t : Tally)
    → lookup p t.disk.files ≡ o
    → a.unlinks p ≡ b
    → Traced a p (p ∷ []) t.disk (unlink_file a b p o t).disk
unfolding unlink_file log_as write_log row_of size_of digest_of
unlink_file-Traced a b p none t h u = inl refl
unlink_file-Traced a false p (some f) t h u = inl refl
unlink_file-Traced a true p (some f) t h u = inr (record {
  file = f;
  was_there = h;
  is_gone = lookup-erase p p t.disk.files ∙ if_true _ _ _ (beq_refl p);
  unlinked = u;
  row = row_of a p (some f) confirmed_deleted;
  is_logged = lookup-log_as a p p (some f) confirmed_deleted t.disk ∙ if_true _ _ _ (beq_refl p);
  is_confirmed = refl;
  has_size = refl;
  has_digest = refl;
  was_listed = inl refl;
})

module _ (a : Access) where
  delete_one-other :
      (p q : String) (t : Tally) → str_eq q p ≡ false → SameAt p (delete_one a q t).disk t.disk
  unfolding delete_one
  delete_one-other p q t h =
      if-cases (λ u. SameAt p u.disk t.disk) (is_already_deleted q t.disk) t _
        (λ skips. (refl, refl))
        (λ goes. unlink_file-other a (a.unlinks q) p q (lookup q t.disk.files) t h)

  abbrev Confirmed : String → LogRow → Disk → Type 0
  Confirmed p r d =
      (r.recovery_status ≡ confirmed_deleted)
      × (lookup p d.deletion_log ≡ some r)
      × (lookup p d.files ≡ none)

  row_is_deleted-confirmed :
      (r : LogRow) → r.recovery_status ≡ confirmed_deleted → row_is_deleted (some r) ≡ true
  unfolding row_is_deleted
  row_is_deleted-confirmed r h = ground arith

  -- A path that is confirmed as deleted stays so.
  delete_one-Confirmed :
      (p q : String) (r : LogRow) (t : Tally)
      → Confirmed p r t.disk
      → Confirmed p r (delete_one a q t).disk
  unfolding delete_one is_already_deleted
  delete_one-Confirmed p q r t c = elim (Bool-cases (str_eq q p)) [
    | inl same ↦
        subst (λ x. Confirmed p r (delete_one a x t).disk) (sym ((eq_iff q p).0 same))
          (subst (λ (u : Tally). Confirmed p r u.disk)
            (sym (
              if_true (is_already_deleted p t.disk) t _
                (ap row_is_deleted c.1 ∙ row_is_deleted-confirmed r c.0)))
            c)
    | inr differs ↦
        let same : SameAt p (delete_one a q t).disk t.disk = delete_one-other p q t differs in
        (c.0, same.1 ∙ c.1, same.0 ∙ c.2)
  ]

  delete_all-Confirmed :
      (p : String) (r : LogRow) (qs : List String) (t : Tally)
      → Confirmed p r t.disk
      → Confirmed p r (delete_all a qs t).disk
  unfolding delete_all
  delete_all-Confirmed p r [] t c = c
  delete_all-Confirmed p r (q ∷ qs) t c =
      delete_all-Confirmed p r qs (delete_one a q t) (delete_one-Confirmed p q r t c)

  delete_one-Traced :
      (p q : String) (t : Tally) → Traced a p (q ∷ []) t.disk (delete_one a q t).disk
  unfolding delete_one
  delete_one-Traced p q t = elim (Bool-cases (str_eq q p)) [
    | inl same ↦
        subst (λ r. Traced a p (r ∷ []) t.disk (delete_one a r t).disk) (sym ((eq_iff q p).0 same))
          (if-cases (λ u. Traced a p (p ∷ []) t.disk u.disk) (is_already_deleted p t.disk) t _
            (λ skips. inl refl)
            (λ goes. unlink_file-Traced a (a.unlinks p) p (lookup p t.disk.files) t refl refl))
    | inr differs ↦ inl (delete_one-other p q t differs).0
  ]

  pub delete_all-Traced :
      (p : String) (qs : List String) (t : Tally) → Traced a p qs t.disk (delete_all a qs t).disk
  unfolding delete_all
  delete_all-Traced p [] t = inl refl
  delete_all-Traced p (q ∷ qs) t =
      let next : Tally = delete_one a q t in
      elim (delete_one-Traced p q t) [
        | inl same ↦ elim (delete_all-Traced p qs next) [
          | inl later ↦ inl (later ∙ same)
          | inr d ↦ inr (record {
            file = d.file;
            was_there = sym same ∙ d.was_there;
            is_gone = d.is_gone;
            is_logged = d.is_logged;
            unlinked = d.unlinked;
            row = d.row;
            is_confirmed = d.is_confirmed;
            has_size = d.has_size;
            has_digest = d.has_digest;
            was_listed = inr d.was_listed;
          })
        ]
        | inr d ↦
            let kept : Confirmed p d.row (delete_all a qs next).disk =
              delete_all-Confirmed p d.row qs next (d.is_confirmed, d.is_logged, d.is_gone) in
            inr (record {
              file = d.file;
              was_there = d.was_there;
              is_gone = kept.2;
              is_logged = kept.1;
              unlinked = d.unlinked;
              row = d.row;
              is_confirmed = d.is_confirmed;
              has_size = d.has_size;
              has_digest = d.has_digest;
              was_listed = elim d.was_listed [ inl e ↦ inl e | inr n ↦ absurd n ];
            })
      ]
