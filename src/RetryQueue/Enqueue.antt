-- ===== src/RetryQueue/Enqueue.antt =====
-- enqueue on each of its branches, with the hard floor and the segment threshold.
use mctrader_data.Prelude.{
  ℕ, ◌+◌, ◌≤◌, ◌<◌, String, ◌≡◌, refl, inl, inr, Bool, true, false, none, some, List, [], ◌∷◌, ◌++◌,
  arith, leb, str_eq, if◌then◌else◌, Bool-cases, length, length-append,
}
use mctrader_data.Prelude.Dict.{
  string_eq, lookup, insert, erase, lookup-insert, lookup-erase, lookup-insert_self,
  lookup-erase_self,
}
use mctrader_data.RetryQueue.{
  Bytes, Row, Queue, EnqueueResult, ok, hard_floor_blocked, insert_raised, is_pending, is_active,
  count_where, depth, quarantine_oldest, threshold_breached, payload_filename, new_row, enqueue,
}
use mctrader_data.RetryQueue.Oldest.{
  Demoted, Demoted-refl, quarantine_oldest-Demoted, length-Demoted, count-quarantine_oldest,
  count-quarantine_oldest-le,
}

-- Both states are counted, so the depth is the number of rows.
count-is_active : (rows : List Row) → count_where is_active rows ≡ length rows
unfolding count_where is_active
count-is_active [] = refl
count-is_active (r ∷ rs) = ground (arith, count-is_active rs)

depth-length : (q : Queue) → depth true q ≡ length q.rows
unfolding depth
depth-length q = count-is_active q.rows

-- The rows before the INSERT.
pub rows_before_insert : ℕ → Queue → List Row
rows_before_insert n q = if threshold_breached n q then quarantine_oldest q.rows else q.rows

rows_before_insert-Demoted : (n : ℕ) (q : Queue) → Demoted q.rows (rows_before_insert n q)
unfolding rows_before_insert
rows_before_insert-Demoted n q = elim (Bool-cases (threshold_breached n q)) [
  | inl breached ↦ rw breached (quarantine_oldest-Demoted q.rows)
  | inr room ↦ rw room (Demoted-refl q.rows)
]

count-append :
    (p : Row → Bool) (xs ys : List Row)
    → count_where p (xs ++ ys) ≡ count_where p xs + count_where p ys
unfolding count_where
count-append p [] ys = omega arith
count-append p (x ∷ xs) ys = omega (arith, count-append p xs ys)

module _ (commits : Bool) (item_id : String) (ts : ℕ) (key : String) (bytes : Bytes)
    (sha256 : String) (q : Queue) where
  abbrev pub call : EnqueueResult × Queue
  call = enqueue commits item_id ts key bytes sha256 q

  file : String
  file = payload_filename item_id

  rows_before : List Row
  rows_before = rows_before_insert (length bytes) q

  added : Queue
  added = record q {
    rows = rows_before ++ new_row key bytes sha256 item_id ts ∷ [];
    payloads = insert file bytes q.payloads;
  }

  dropped : Queue
  dropped = record q { rows = rows_before; payloads = erase file (insert file bytes q.payloads) }

  blocked_call :
      leb q.hard_floor (count_where is_active q.rows) ≡ true → call ≡ (hard_floor_blocked, q)
  unfolding enqueue
  blocked_call h = rw h

  added-call :
      leb q.hard_floor (count_where is_active q.rows) ≡ false
      → commits ≡ true
      → call ≡ (ok item_id, added)
  unfolding enqueue added rows_before rows_before_insert file
  added-call h c = rw (h, c)

  raised_call :
      leb q.hard_floor (count_where is_active q.rows) ≡ false
      → commits ≡ false
      → call ≡ (insert_raised, dropped)
  unfolding enqueue dropped rows_before rows_before_insert file
  raised_call h c = rw (h, c)

  -- What a call has done, by its answer. Blocked: the queue is as it was, at its hard floor. Added:
  -- the old rows are there in their order, demoted at most, with the new one behind them, its
  -- payload is stored under its file, and the other files are as they were. Raised: the old rows
  -- are there, demoted at most, and no payload file is left behind.
  abbrev pub Keeps : EnqueueResult × Queue → Type 0
  Keeps (hard_floor_blocked, after) = (after ≡ q) × (q.hard_floor ≤ depth true q)
  Keeps (ok id, after) =
      (id ≡ item_id)
      × (rows : List Row) × Demoted q.rows rows
      × (after.rows ≡ rows ++ new_row key bytes sha256 item_id ts ∷ [])
      × (lookup (payload_filename item_id) after.payloads ≡ some bytes)
      × ((f : String)
          → str_eq (payload_filename item_id) f ≡ false
          → lookup f after.payloads ≡ lookup f q.payloads)
  Keeps (insert_raised, after) =
      Demoted q.rows after.rows
      × (lookup (payload_filename item_id) after.payloads ≡ none)
      × ((f : String)
          → str_eq (payload_filename item_id) f ≡ false
          → lookup f after.payloads ≡ lookup f q.payloads)

  added-Keeps : Keeps (ok item_id, added)
  unfolding added rows_before file
  added-Keeps = (
    refl,
    rows_before_insert (length bytes) q,
    rows_before_insert-Demoted (length bytes) q,
    refl,
    lookup-insert_self (payload_filename item_id) bytes q.payloads,
    λ f other. rw (lookup-insert, other) refl,
  )

  dropped-Keeps : Keeps (insert_raised, dropped)
  unfolding dropped rows_before file
  dropped-Keeps = (
    rows_before_insert-Demoted (length bytes) q,
    lookup-erase_self (payload_filename item_id) _,
    λ f other. rw (lookup-erase, other, lookup-insert, other) refl,
  )

  -- A call drops no row, and no payload file but that of the new id, whatever it answers. Blocked:
  -- the queue is as it was, at its hard floor. Added: the old rows are there in their order,
  -- demoted at most, with the new one behind them, its payload is stored under its file, and the
  -- other files are as they were. Raised: the old rows are there, demoted at most, no payload file
  -- of the new id is left, and the other files are as they were.
  pub enqueue-Keeps : Keeps call
  unfolding depth
  enqueue-Keeps = elim (Bool-cases (leb q.hard_floor (count_where is_active q.rows))) [
    | inl full ↦ rw (blocked_call full) (refl, ground arith)
    | inr room ↦ elim (Bool-cases commits) [
      | inl committed ↦ rw (added-call room committed) added-Keeps
      | inr failed ↦ rw (raised_call room failed) dropped-Keeps
    ]
  ]

  length-rows_before : length rows_before ≡ length q.rows
  unfolding rows_before
  length-rows_before =
      length-Demoted q.rows (rows_before_insert (length bytes) q)
        (rows_before_insert-Demoted (length bytes) q)

  -- A call keeps the number of rows, pending and quarantined, within the hard floor.
  pub depth-enqueue-le : depth true q ≤ q.hard_floor → depth true call.1 ≤ call.1.hard_floor
  depth-enqueue-le h = elim (Bool-cases (leb q.hard_floor (count_where is_active q.rows))) [
    | inl full ↦ rw (blocked_call full) h
    | inr room ↦
        let below : length q.rows < q.hard_floor = ground (arith, count-is_active q.rows) in
        elim (Bool-cases commits) [
          | inl committed ↦
              rw (added-call room committed, depth-length)
                (unfold added in omega (arith, length-append {0}, length-rows_before))
          | inr failed ↦
              rw (raised_call room failed, depth-length)
                (unfold dropped in omega (arith, length-rows_before))
        ]
  ]

  pending-rows_before :
      0 < q.max_segments
      → count_where is_pending q.rows ≤ q.max_segments
      → count_where is_pending rows_before + 1 ≤ q.max_segments
  unfolding rows_before rows_before_insert threshold_breached
  pending-rows_before pos h =
      ground (arith, count-quarantine_oldest-le q.rows, count-quarantine_oldest q.rows)

  pending-added : count_where is_pending added.rows ≡ count_where is_pending rows_before + 1
  unfolding added new_row is_pending count_where
  pending-added = rw count-append refl

  -- With a threshold of at least one segment, a call keeps the number of pending rows within the
  -- segment threshold.
  pub pending-enqueue-le :
      0 < q.max_segments
      → count_where is_pending q.rows ≤ q.max_segments
      → count_where is_pending call.1.rows ≤ call.1.max_segments
  pending-enqueue-le pos h = elim (Bool-cases (leb q.hard_floor (count_where is_active q.rows))) [
    | inl full ↦ rw (blocked_call full) h
    | inr room ↦ elim (Bool-cases commits) [
      | inl committed ↦
          rw (added-call room committed)
            (unfold added in omega (arith, pending-added, pending-rows_before pos h))
      | inr failed ↦
          rw (raised_call room failed) (unfold dropped in omega (arith, pending-rows_before pos h))
    ]
  ]
