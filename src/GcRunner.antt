-- ===== src/GcRunner.antt =====
-- src/mctrader_data/nas_migration/gc_runner.py: the deletion of local files behind three locks, with
-- a log of what was deleted. The files under the root, the log and the three evidence files are one
-- state; rglob with sorted() and the mtimes are given, and so is which calls on a path succeed. Ratios of
-- the disk are per cent; durations, times and messages are left out.
mod Log
mod Guarded
mod Tests
use mctrader_data.Prelude.{
  ℕ, zero, suc, ◌+◌, String, Bool, true, false, ◌&&◌, not, Option, none, some, List, [], ◌∷◌,
  str_eq, ltb, leb, if◌then◌else◌,
}
use mctrader_data.Prelude.Dict.{Dict, string_eq, lookup, insert, erase}

-- An evidence file: not there, not readable as JSON or as a number, of a shape that raises another
-- exception, or with the field, or without it.
pub data Evidence (A : Type 0) : Type 0 where
  file_missing parse_error wrong_shape : Evidence A
  found : Option A → Evidence A

pub data Check (A : Type 0) : Type 0 where
  check_ok : Check A
  check_fails : A → Check A
  check_raised : Check A

pub data Reason : Type 0 where
  evidence_file_missing evidence_parse_error : Reason
  verify_status : String → Reason
  pass_days_short : ℕ → Reason

pub data RecoveryStatus : Type 0 where
  is_unconfirmed confirmed_deleted recovery_failed expired : RecoveryStatus

pub record LogRow : Type 0 where
  pub sha256 : String
  pub size_bytes : ℕ
  pub recovery_status : RecoveryStatus

-- A file, its bytes by their digest.
pub record LocalFile : Type 0 where
  pub size : ℕ
  pub digest : String

pub record Disk : Type 0 where
  pub files : Dict String LocalFile
  pub deletion_log : Dict String LogRow

pub data GcStatus : Type 0 where
  dry_run_complete executed : GcStatus
  blocked_grace_period : ℕ → GcStatus
  blocked_invariant_fail : Reason → GcStatus

pub record GcResult : Type 0 where
  pub status : GcStatus
  pub deletion_targets : List String
  pub target_size_bytes : ℕ
  pub deleted_count : ℕ
  pub freed_bytes : ℕ

-- The evidence, with a negative number of days as zero.
pub record Locks : Type 0 where
  pub cutover : Evidence String
  pub grace_remaining : Evidence ℕ
  pub pass_days : Evidence ℕ

pub check_cutover_rpo_verified : Evidence String → Check Reason
check_cutover_rpo_verified file_missing = check_fails evidence_file_missing
check_cutover_rpo_verified parse_error = check_fails evidence_parse_error
check_cutover_rpo_verified wrong_shape = check_raised
check_cutover_rpo_verified (found none) = check_fails (verify_status "")
check_cutover_rpo_verified (found (some s)) =
    if str_eq s "rpo_zero_verified" then check_ok else check_fails (verify_status s)

pub days_left : ℕ → Check ℕ
days_left zero = check_ok
days_left (suc n) = check_fails (suc n)

pub check_grace_period_expired : ℕ → Evidence ℕ → Check ℕ
check_grace_period_expired required file_missing = check_fails required
check_grace_period_expired required parse_error = check_fails required
check_grace_period_expired required wrong_shape = check_raised
check_grace_period_expired required (found none) = days_left required
check_grace_period_expired required (found (some n)) = days_left n

pub enough_days : ℕ → ℕ → Check Reason
enough_days required n = if leb required n then check_ok else check_fails (pass_days_short n)

pub check_invariant_all_pass_7d : ℕ → Evidence ℕ → Check Reason
check_invariant_all_pass_7d required file_missing = check_fails evidence_file_missing
check_invariant_all_pass_7d required parse_error = check_fails evidence_parse_error
check_invariant_all_pass_7d required wrong_shape = check_raised
check_invariant_all_pass_7d required (found none) = enough_days required 0
check_invariant_all_pass_7d required (found (some n)) = enough_days required n

-- The sort by mtime, which keeps the order of equal ones.
pub insert_by_mtime : (String → ℕ) → String → List String → List String
insert_by_mtime mtime p [] = p ∷ []
insert_by_mtime mtime p (q ∷ qs) =
    let rest = insert_by_mtime mtime p qs in
    if leb (mtime p) (mtime q) then p ∷ q ∷ qs else q ∷ rest

pub sort_by_mtime : (String → ℕ) → List String → List String
sort_by_mtime mtime [] = []
sort_by_mtime mtime (p ∷ ps) = insert_by_mtime mtime p (sort_by_mtime mtime ps)

-- What the file system shows as gc starts.
pub record Listing : Type 0 where
  pub root_exists : Bool
  pub sorted_paths : List String
  pub usage_pct : ℕ
  pub mtime : String → ℕ

pub list_deletion_targets : ℕ → Listing → List String
list_deletion_targets threshold l =
    if l.root_exists
    then if ltb threshold l.usage_pct then sort_by_mtime l.mtime l.sorted_paths else l.sorted_paths
    else []

-- Which calls on a path succeed: stat(), the reads of the digest, unlink().
pub record Access : Type 0 where
  pub stats : String → Bool
  pub reads : String → Bool
  pub unlinks : String → Bool

-- 0 after an OSError, of a file that is there too.
pub size_of : Bool → Option LocalFile → ℕ
size_of stats none = 0
size_of stats (some f) = if stats then f.size else 0

-- "" after an OSError, of a file that is there too.
pub digest_of : Bool → Option LocalFile → String
digest_of reads none = ""
digest_of reads (some f) = if reads then f.digest else ""

pub sum_sizes : Access → Dict String LocalFile → List String → ℕ
sum_sizes a files [] = 0
sum_sizes a files (p ∷ ps) = size_of (a.stats p) (lookup p files) + sum_sizes a files ps

pub row_is_deleted : Option LogRow → Bool
row_is_deleted none = false
row_is_deleted (some r) = elim r.recovery_status [
  | confirmed_deleted ↦ true
  | expired ↦ true
  | _ ↦ false
]

pub is_already_deleted : String → Disk → Bool
is_already_deleted p d = row_is_deleted (lookup p d.deletion_log)

-- The row of a path, with the size and the digest that were read.
pub row_of : Access → String → Option LocalFile → RecoveryStatus → LogRow
row_of a p f s = record {
  sha256 = digest_of (a.reads p) f;
  size_bytes = size_of (a.stats p) f;
  recovery_status = s;
}

pub write_log : String → LogRow → Disk → Disk
write_log p row d = record d { deletion_log = insert p row d.deletion_log }

pub record Tally : Type 0 where
  pub disk : Disk
  pub deleted_count : ℕ
  pub freed_bytes : ℕ

-- The row is written before the unlink and its status changed after it.
pub log_as : Access → String → Option LocalFile → RecoveryStatus → Disk → Disk
log_as a p f s d = write_log p (row_of a p f s) (write_log p (row_of a p f is_unconfirmed) d)

-- By whether the unlink succeeds. That of a file that is not there fails.
pub unlink_file : Access → Bool → String → Option LocalFile → Tally → Tally
unlink_file a unlinks p none t = record t { disk = log_as a p none recovery_failed t.disk }
unlink_file a false p (some f) t = record t { disk = log_as a p (some f) recovery_failed t.disk }
unlink_file a true p (some f) t = record {
  disk = log_as a p (some f) confirmed_deleted (record t.disk { files = erase p t.disk.files });
  deleted_count = t.deleted_count + 1;
  freed_bytes = t.freed_bytes + size_of (a.stats p) (some f);
}

module _ (a : Access) where
  pub delete_one : String → Tally → Tally
  delete_one p t =
      if is_already_deleted p t.disk
      then t
      else unlink_file a (a.unlinks p) p (lookup p t.disk.files) t

  pub delete_all : List String → Tally → Tally
  delete_all [] t = t
  delete_all (p ∷ ps) t = delete_all ps (delete_one p t)

  pub blocked : GcStatus → GcResult
  blocked s = record {
    status = s;
    deletion_targets = [];
    target_size_bytes = 0;
    deleted_count = 0;
    freed_bytes = 0;
  }

  pub execute : List String → Disk → GcResult × Disk
  execute targets d =
      let t : Tally =
        delete_all targets (record { disk = d; deleted_count = 0; freed_bytes = 0 }) in
      (
        record {
          status = executed;
          deletion_targets = [];
          target_size_bytes = 0;
          deleted_count = t.deleted_count;
          freed_bytes = t.freed_bytes;
        },
        t.disk,
      )

  pub collect : Bool → List String → Disk → Option GcResult × Disk
  collect true targets d = (
    some (record {
      status = dry_run_complete;
      deletion_targets = targets;
      target_size_bytes = sum_sizes a d.files targets;
      deleted_count = 0;
      freed_bytes = 0;
    }),
    d,
  )
  collect false targets d = (some (execute targets d).0, (execute targets d).1)

  pub after_invariant : Check Reason → Bool → List String → Disk → Option GcResult × Disk
  after_invariant check_ok dry_run targets d = collect dry_run targets d
  after_invariant (check_fails r) dry_run targets d = (some (blocked (blocked_invariant_fail r)), d)
  after_invariant check_raised dry_run targets d = (none, d)

  pub after_grace : Check ℕ → Check Reason → Bool → List String → Disk → Option GcResult × Disk
  after_grace check_ok invariant dry_run targets d = after_invariant invariant dry_run targets d
  after_grace (check_fails n) invariant dry_run targets d =
      (some (blocked (blocked_grace_period n)), d)
  after_grace check_raised invariant dry_run targets d = (none, d)

  pub after_cutover :
      Check Reason → Check ℕ → Check Reason → Bool → List String → Disk → Option GcResult × Disk
  after_cutover check_ok grace invariant dry_run targets d =
      after_grace grace invariant dry_run targets d
  after_cutover (check_fails r) grace invariant dry_run targets d =
      (some (blocked (blocked_invariant_fail r)), d)
  after_cutover check_raised grace invariant dry_run targets d = (none, d)

  -- gc: nothing for an exception of a check that goes on.
  pub gc : ℕ → ℕ → ℕ → Locks → Listing → Bool → Disk → Option GcResult × Disk
  gc grace_days_required pass_days_required threshold locks listing dry_run d =
      after_cutover (check_cutover_rpo_verified locks.cutover)
        (check_grace_period_expired grace_days_required locks.grace_remaining)
        (check_invariant_all_pass_7d pass_days_required locks.pass_days) dry_run
        (list_deletion_targets threshold listing) d
