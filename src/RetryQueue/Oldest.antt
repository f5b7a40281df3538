-- ===== src/RetryQueue/Oldest.antt =====
-- The row that a threshold breach demotes.
use mctrader_data.Prelude.{
  ℕ, ◌+◌, ◌≤◌, ◌<◌, String, ◌≡◌, refl, ◌⊎◌, inl, inr, none, some, List, [], ◌∷◌, arith, str_eq,
  eq_iff, length, Option-cases, Bool-cases,
}
use mctrader_data.RetryQueue.{
  pending, quarantined, Row, is_pending, count_where, earlier, oldest_pending, set_quarantined,
  quarantine_oldest,
}

-- No pending row of the list is earlier than `ts`.
abbrev pub NotBefore : ℕ → List Row → Type 0
NotBefore ts [] = Unit
NotBefore ts (s ∷ rs) = ((s.state ≡ pending) → ts ≤ s.enqueue_ts) × NotBefore ts rs

-- Some pending row of the list has the id.
abbrev pub HasPending : String → List Row → Type 0
HasPending id [] = ⊥
HasPending id (s ∷ rs) = ((s.state ≡ pending) × (s.id ≡ id)) ⊎ HasPending id rs

NotBefore-mono : (a b : ℕ) (rows : List Row) → b ≤ a → NotBefore a rows → NotBefore b rows
NotBefore-mono a b [] h k = tt
NotBefore-mono a b (s ∷ rs) h k = (λ e. let p = k.0 e in omega arith, NotBefore-mono a b rs h k.1)

no_pending : (rows : List Row) (ts : ℕ) → oldest_pending rows ≡ none → NotBefore ts rows
unfolding oldest_pending is_pending
no_pending [] ts h = tt
no_pending (s ∷ rs) ts h = (λ e. ground arith, no_pending rs ts (ground arith))

state_of_oldest : (rows : List Row) (r : Row) → oldest_pending rows ≡ some r → r.state ≡ pending
unfolding oldest_pending is_pending earlier
state_of_oldest [] r h = cc
state_of_oldest (s ∷ rs) r h = elim (Option-cases (oldest_pending rs)) [
  | inl alone ↦ ground arith
  | inr (o, more) ↦ ground (arith, state_of_oldest rs o more)
]

oldest-HasPending :
    (rows : List Row) (r : Row) → oldest_pending rows ≡ some r → HasPending r.id rows
unfolding oldest_pending is_pending earlier
oldest-HasPending [] r h = cc
oldest-HasPending (s ∷ rs) r h = elim (Option-cases (oldest_pending rs)) [
  | inl alone ↦ ground arith
  | inr (o, more) ↦ ground (arith, oldest-HasPending rs o more)
]

oldest-NotBefore :
    (rows : List Row) (r : Row) → oldest_pending rows ≡ some r → NotBefore r.enqueue_ts rows
unfolding oldest_pending is_pending earlier
oldest-NotBefore [] r h = cc
oldest-NotBefore (s ∷ rs) r h = elim (Option-cases (oldest_pending rs)) [
  | inl alone ↦ (λ e. ground arith, no_pending rs r.enqueue_ts alone)
  | inr (o, more) ↦
      let rest = oldest-NotBefore rs o more in
      (λ e. ground arith, NotBefore-mono o.enqueue_ts r.enqueue_ts rs (ground arith) rest)
]

-- Demotion of the rows with an id: each row is kept, or kept with the state `quarantined`.
abbrev pub Demoted : List Row → List Row → Type 0
Demoted [] [] = Unit
Demoted [] (s ∷ ss) = ⊥
Demoted (r ∷ rs) [] = ⊥
Demoted (r ∷ rs) (s ∷ ss) = ((s ≡ r) ⊎ (s ≡ record r { state = quarantined })) × Demoted rs ss

pub Demoted-refl : (rows : List Row) → Demoted rows rows
Demoted-refl [] = tt
Demoted-refl (r ∷ rs) = (inl refl, Demoted-refl rs)

set_quarantined-Demoted : (id : String) (rows : List Row) → Demoted rows (set_quarantined id rows)
unfolding set_quarantined
set_quarantined-Demoted id [] = tt
set_quarantined-Demoted id (r ∷ rs) = elim (Bool-cases (str_eq r.id id)) [
  | inl same ↦ (ground arith, set_quarantined-Demoted id rs)
  | inr other ↦ (ground arith, set_quarantined-Demoted id rs)
]

pub quarantine_oldest-Demoted : (rows : List Row) → Demoted rows (quarantine_oldest rows)
unfolding quarantine_oldest
quarantine_oldest-Demoted rows = elim (Option-cases (oldest_pending rows)) [
  | inl nothing ↦ rw (nothing, quarantine_oldest) (Demoted-refl rows)
  | inr (r, found) ↦ rw (found, quarantine_oldest) (set_quarantined-Demoted r.id rows)
]

pub length-Demoted : (rs ss : List Row) → Demoted rs ss → length ss ≡ length rs
length-Demoted [] [] d = refl
length-Demoted [] (s ∷ ss) d = elim d [ ]
length-Demoted (r ∷ rs) [] d = elim d [ ]
length-Demoted (r ∷ rs) (s ∷ ss) d = omega (arith, length-Demoted rs ss d.1)

count-set_quarantined-le :
    (id : String) (rows : List Row)
    → count_where is_pending (set_quarantined id rows) ≤ count_where is_pending rows
unfolding count_where is_pending set_quarantined
count-set_quarantined-le id [] = omega arith
count-set_quarantined-le id (r ∷ rs) = ground (arith, count-set_quarantined-le id rs)

-- Demoting an id that a pending row has lowers the number of pending rows.
count-set_quarantined :
    (id : String) (rows : List Row)
    → HasPending id rows
    → count_where is_pending (set_quarantined id rows) + 1 ≤ count_where is_pending rows
unfolding count_where is_pending set_quarantined
count-set_quarantined id [] h = elim h [ ]
count-set_quarantined id (r ∷ rs) (inl here) =
    ground (arith, eq_iff r.id id, count-set_quarantined-le id rs)
count-set_quarantined id (r ∷ rs) (inr there) = ground (arith, count-set_quarantined id rs there)

no_pending_count : (rows : List Row) → oldest_pending rows ≡ none → count_where is_pending rows ≡ 0
unfolding count_where is_pending oldest_pending
no_pending_count [] h = refl
no_pending_count (r ∷ rs) h = ground (arith, no_pending_count rs)

pub count-quarantine_oldest :
    (rows : List Row)
    → 0 < count_where is_pending rows
    → count_where is_pending (quarantine_oldest rows) + 1 ≤ count_where is_pending rows
unfolding quarantine_oldest
count-quarantine_oldest rows h = elim (Option-cases (oldest_pending rows)) [
  | inl nothing ↦ absurd (omega (arith, no_pending_count rows nothing))
  | inr (r, found) ↦
      rw (found, quarantine_oldest)
        (count-set_quarantined r.id rows (oldest-HasPending rows r found))
]

pub count-quarantine_oldest-le :
    (rows : List Row)
    → count_where is_pending (quarantine_oldest rows) ≤ count_where is_pending rows
unfolding quarantine_oldest
count-quarantine_oldest-le rows = elim (Option-cases (oldest_pending rows)) [
  | inl nothing ↦ rw (nothing, quarantine_oldest) (omega arith)
  | inr (r, found) ↦ rw (found, quarantine_oldest) (count-set_quarantined-le r.id rows)
]

-- The row is pending, is in the table, and no pending row is earlier.
pub record IsOldest (rows : List Row) (r : Row) : Type 0 where
  pub state_is : r.state ≡ pending
  pub is_there : HasPending r.id rows
  pub is_first : NotBefore r.enqueue_ts rows

-- As soon as some row is pending, one is chosen: it is pending, its id is that of a pending row of
-- the table, and no pending row is earlier.
pub oldest_pending-IsOldest :
    (rows : List Row)
    → 0 < count_where is_pending rows
    → (r : Row) × (oldest_pending rows ≡ some r) × IsOldest rows r
oldest_pending-IsOldest rows h = elim (Option-cases (oldest_pending rows)) [
  | inl nothing ↦ absurd (omega (arith, no_pending_count rows nothing))
  | inr (r, found) ↦ (
    r,
    found,
    record {
      state_is = state_of_oldest rows r found;
      is_there = oldest-HasPending rows r found;
      is_first = oldest-NotBefore rows r found;
    },
  )
]
