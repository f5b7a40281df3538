-- ===== src/GcRunner/Tests.antt =====
-- Two files, one of which cannot be deleted, behind open and closed locks.
use mctrader_data.Prelude.{String, Bool, not, true, false, ◌≡◌, refl, Option, some, [], ◌∷◌, str_eq}
use mctrader_data.Prelude.Dict.{string_eq, lookup, insert, erase}
use mctrader_data.GcRunner.{
  Access, file_missing, found, confirmed_deleted, recovery_failed, Disk, dry_run_complete,
  blocked_grace_period, GcResult, Locks, check_cutover_rpo_verified, days_left,
  check_grace_period_expired, enough_days, check_invariant_all_pass_7d, insert_by_mtime,
  sort_by_mtime, Listing, list_deletion_targets, size_of, digest_of, sum_sizes, row_is_deleted,
  is_already_deleted, row_of, write_log, log_as, unlink_file, delete_one, delete_all, blocked,
  execute, collect, after_invariant, after_grace, after_cutover, gc,
}
use mctrader_data.GcRunner.Guarded.{Guarded, gc-Guarded}

abbrev disk : Disk
disk = record {
  files =
      ("a", record { size = 3; digest = "da" }) ∷ ("b", record { size = 4; digest = "db" }) ∷ [];
  deletion_log = [];
}

abbrev open_locks : Locks
open_locks = record {
  cutover = found (some "rpo_zero_verified");
  grace_remaining = found (some 0);
  pass_days = found (some 9);
}

abbrev listing : Listing
listing = record {
  root_exists = true;
  sorted_paths = "a" ∷ "b" ∷ [];
  usage_pct = 95;
  mtime = λ p. elim (str_eq p "b") [ true ↦ 1 | false ↦ 2 ];
}

-- "a" cannot be read, and "b" cannot be unlinked.
abbrev is_b : String → Bool
is_b p = str_eq p "b"

abbrev access : Access
access = record { stats = λ p. true; reads = is_b; unlinks = λ p. not (is_b p) }

gc-Guarded_example :
    Guarded access 7 7 open_locks false
      (list_deletion_targets 90 listing)
      disk
      (gc access 7 7 90 open_locks listing false disk)
gc-Guarded_example = gc-Guarded access 7 7 90 open_locks listing false disk

abbrev run_of : Locks → Bool → Option GcResult × Disk
run_of locks dry_run = gc access 7 7 90 locks listing dry_run disk

abbrev live : Disk
live = (run_of open_locks false).1

scenario_gc :
    (live.files ≡ ("b", record { size = 4; digest = "db" }) ∷ [])
    × (lookup "a" live.deletion_log
        ≡ some (record { sha256 = ""; size_bytes = 3; recovery_status = confirmed_deleted }))
    × (lookup "b" live.deletion_log
        ≡ some (record { sha256 = "db"; size_bytes = 4; recovery_status = recovery_failed }))
    × ((run_of open_locks true).0
        ≡ some (record {
          status = dry_run_complete;
          deletion_targets = "b" ∷ "a" ∷ [];
          target_size_bytes = 7;
          deleted_count = 0;
          freed_bytes = 0;
        }))
    × ((run_of (record open_locks { grace_remaining = file_missing }) false).0
        ≡ some (blocked access (blocked_grace_period 7)))
unfolding lookup insert erase check_cutover_rpo_verified days_left check_grace_period_expired
    enough_days check_invariant_all_pass_7d insert_by_mtime sort_by_mtime list_deletion_targets
    size_of digest_of sum_sizes row_is_deleted is_already_deleted row_of write_log log_as
    unlink_file delete_one delete_all blocked execute collect after_invariant after_grace
    after_cutover gc
scenario_gc = (refl, refl, refl, refl, refl)
