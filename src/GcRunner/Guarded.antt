-- ===== src/GcRunner/Guarded.antt =====
-- When gc deletes, and what it deletes.
use mctrader_data.Prelude.{
  ℕ, zero, suc, ◌≤◌, String, Bool, true, false, ◌≡◌, refl, ◌⊎◌, inl, inr, Option, none, some, List,
  eq_iff, ap, arith,
}
use mctrader_data.GcRunner.{
  Access, Evidence, file_missing, parse_error, wrong_shape, found, Check, check_ok, check_fails,
  check_raised, Reason, Disk, GcStatus, executed, GcResult, Locks, check_cutover_rpo_verified,
  days_left, check_grace_period_expired, enough_days, check_invariant_all_pass_7d, Listing,
  list_deletion_targets, blocked, execute, collect, after_invariant, after_grace, after_cutover, gc,
}
use mctrader_data.GcRunner.Log.{Traced, delete_all-Traced}

abbrev pub Verified : Evidence String → Type 0
Verified e = e ≡ found (some "rpo_zero_verified")

-- No days are left, or none are required and the file does not say.
abbrev pub GraceOver : ℕ → Evidence ℕ → Type 0
GraceOver required e = (e ≡ found (some 0)) ⊎ ((e ≡ found none) × (required ≡ 0))

abbrev pub Passed : ℕ → Evidence ℕ → Type 0
Passed required e =
    ((n : ℕ) × (e ≡ found (some n)) × (required ≤ n)) ⊎ ((e ≡ found none) × (required ≡ 0))

cutover-Verified : (e : Evidence String) → check_cutover_rpo_verified e ≡ check_ok → Verified e
unfolding check_cutover_rpo_verified
cutover-Verified file_missing h = absurd (ground arith)
cutover-Verified parse_error h = absurd (ground arith)
cutover-Verified wrong_shape h = absurd (ground arith)
cutover-Verified (found none) h = absurd (ground arith)
cutover-Verified (found (some s)) h =
    ap (λ t. found (some t)) ((eq_iff s "rpo_zero_verified").0 (ground arith))

days_left-none : (n : ℕ) → days_left n ≡ check_ok → n ≡ 0
unfolding days_left
days_left-none zero h = refl
days_left-none (suc n) h = absurd (ground arith)

grace-GraceOver :
    (required : ℕ) (e : Evidence ℕ)
    → check_grace_period_expired required e ≡ check_ok
    → GraceOver required e
unfolding check_grace_period_expired
grace-GraceOver required file_missing h = absurd (ground arith)
grace-GraceOver required parse_error h = absurd (ground arith)
grace-GraceOver required wrong_shape h = absurd (ground arith)
grace-GraceOver required (found none) h = inr (refl, days_left-none required h)
grace-GraceOver required (found (some n)) h = inl (ap (λ m. found (some m)) (days_left-none n h))

enough_days-le : (required n : ℕ) → enough_days required n ≡ check_ok → required ≤ n
unfolding enough_days
enough_days-le required n h = ground arith

invariant-Passed :
    (required : ℕ) (e : Evidence ℕ)
    → check_invariant_all_pass_7d required e ≡ check_ok
    → Passed required e
unfolding check_invariant_all_pass_7d
invariant-Passed required file_missing h = absurd (ground arith)
invariant-Passed required parse_error h = absurd (ground arith)
invariant-Passed required wrong_shape h = absurd (ground arith)
invariant-Passed required (found none) h =
    let few : required ≤ 0 = enough_days-le required 0 h in inr (refl, omega arith)
invariant-Passed required (found (some n)) h = inl (n, refl, enough_days-le required n h)

abbrev pub NotExecuted : GcStatus → Type 0
NotExecuted executed = ⊥
NotExecuted _ = Unit

abbrev pub Answers : Option GcResult → Type 0
Answers none = Unit
Answers (some r) = NotExecuted r.status

module _ (a : Access) (grace_days_required pass_days_required : ℕ) (locks : Locks) (dry_run : Bool)
    (targets : List String) (d : Disk) where
  -- All the locks are open, it is no dry run, and every file that went is a target and is logged.
  pub record Executes (run : Option GcResult × Disk) : Type 0 where
    pub is_live : dry_run ≡ false
    pub cutover_verified : Verified locks.cutover
    pub grace_over : GraceOver grace_days_required locks.grace_remaining
    pub invariants_passed : Passed pass_days_required locks.pass_days
    pub result : GcResult
    pub answers : (run.0 ≡ some result) × (result.status ≡ executed)
    pub traced : (p : String) → Traced a p targets d run.1

  abbrev pub Guarded : Option GcResult × Disk → Type 0
  Guarded run = ((run.1 ≡ d) × Answers run.0) ⊎ Executes run

  collect-Guarded :
      Verified locks.cutover
      → GraceOver grace_days_required locks.grace_remaining
      → Passed pass_days_required locks.pass_days
      → (b : Bool) → dry_run ≡ b
      → Guarded (collect a b targets d)
  unfolding collect execute
  collect-Guarded c g i true h = inl (refl, tt)
  collect-Guarded c g i false h = inr (record {
    is_live = h;
    cutover_verified = c;
    grace_over = g;
    invariants_passed = i;
    result = (execute a targets d).0;
    answers = (refl, refl);
    traced = λ p. delete_all-Traced a p targets _;
  })

  after_invariant-Guarded :
      (k : Check Reason)
      → Verified locks.cutover
      → GraceOver grace_days_required locks.grace_remaining
      → (k ≡ check_ok → Passed pass_days_required locks.pass_days)
      → Guarded (after_invariant a k dry_run targets d)
  unfolding after_invariant blocked
  after_invariant-Guarded check_ok c g i = collect-Guarded c g (i refl) dry_run refl
  after_invariant-Guarded (check_fails r) c g i = inl (refl, tt)
  after_invariant-Guarded check_raised c g i = inl (refl, tt)

  after_grace-Guarded :
      (k : Check ℕ) (l : Check Reason)
      → Verified locks.cutover
      → (k ≡ check_ok → GraceOver grace_days_required locks.grace_remaining)
      → (l ≡ check_ok → Passed pass_days_required locks.pass_days)
      → Guarded (after_grace a k l dry_run targets d)
  unfolding after_grace blocked
  after_grace-Guarded check_ok l c g i = after_invariant-Guarded l c (g refl) i
  after_grace-Guarded (check_fails n) l c g i = inl (refl, tt)
  after_grace-Guarded check_raised l c g i = inl (refl, tt)

  after_cutover-Guarded :
      (j : Check Reason) (k : Check ℕ) (l : Check Reason)
      → (j ≡ check_ok → Verified locks.cutover)
      → (k ≡ check_ok → GraceOver grace_days_required locks.grace_remaining)
      → (l ≡ check_ok → Passed pass_days_required locks.pass_days)
      → Guarded (after_cutover a j k l dry_run targets d)
  unfolding after_cutover blocked
  after_cutover-Guarded check_ok k l c g i = after_grace-Guarded k l (c refl) g i
  after_cutover-Guarded (check_fails r) k l c g i = inl (refl, tt)
  after_cutover-Guarded check_raised k l c g i = inl (refl, tt)

-- For any evidence, listing, disk and choice of the calls that succeed: either gc leaves the files and
-- the log as they were and does not answer "executed"; or it is no dry run, the cutover evidence says
-- "rpo_zero_verified", no days of grace are left, the days passed are at least those required, the
-- answer is "executed", and each path has the file it had, or it is one of the targets, its file
-- is gone, and the log says "confirmed_deleted" with the size of the file, or 0 when stat()
-- fails, and its digest, or the empty text when the file cannot be read.
pub gc-Guarded :
    (a : Access) (grace_days_required pass_days_required threshold : ℕ) (locks : Locks)
    (listing : Listing) (dry_run : Bool) (d : Disk)
    → Guarded a grace_days_required pass_days_required locks dry_run
        (list_deletion_targets threshold listing)
        d
        (gc a grace_days_required pass_days_required threshold locks listing dry_run d)
unfolding gc
gc-Guarded a g i threshold locks listing dry_run d =
    after_cutover-Guarded a g i locks dry_run (list_deletion_targets threshold listing) d
      (check_cutover_rpo_verified locks.cutover)
      (check_grace_period_expired g locks.grace_remaining)
      (check_invariant_all_pass_7d i locks.pass_days) (cutover-Verified locks.cutover)
      (grace-GraceOver g locks.grace_remaining) (invariant-Passed i locks.pass_days)
