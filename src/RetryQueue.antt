-- ===== src/RetryQueue.antt =====
-- src/mctrader_data/nas_storage/retry_queue.py: the persistent backlog of segments whose upload
-- failed. The sqlite table is the list of its rows in the order of insertion, the payload
-- directory a dictionary from file names to bytes. What the uploader answers is a parameter.
pub mod Enqueue
pub mod Oldest
mod Select
mod Drain
mod Counts
mod Tests
use Prim.Native.String.{◌++◌ as str_append}
use mctrader_data.Prelude.{
  ℕ, ◌+◌, ◌*◌, ◌≡◌, String, Bool, true, false, ◌&&◌, ◌||◌, not, Option, none, some, List, [], ◌∷◌,
  ◌++◌, min, ltb, leb, str_eq, if◌then◌else◌, length,
}
use mctrader_data.Prelude.Dict.{Dict, string_eq, lookup, insert, erase}

-- The states that the code writes; its comments also name in_flight and succeeded.
pub data RowState : Type 0 where
  pending quarantined : RowState

abbrev pub Bytes : Type 0
Bytes = List ℕ

-- A row of the table `retry_queue`; `updated_ts` is written and never read.
pub record Row : Type 0 where
  pub id : String
  pub key : String
  pub sha256 : String
  pub payload_file : String
  pub payload_bytes : ℕ
  pub state : RowState
  pub enqueue_ts : ℕ

pub record Queue : Type 0 where
  pub max_segments : ℕ
  pub max_bytes : ℕ
  pub hard_floor : ℕ
  pub rows : List Row
  pub payloads : Dict String Bytes

pub data EnqueueResult : Type 0 where
  ok : String → EnqueueResult
  hard_floor_blocked : EnqueueResult
  -- the INSERT raised; the payload file is unlinked and the exception goes on
  insert_raised : EnqueueResult

unfoldable pub is_pending : Row → Bool
is_pending r = elim r.state [ pending ↦ true | quarantined ↦ false ]

-- state IN ('pending', 'quarantined')
unfoldable pub is_active : Row → Bool
is_active r = elim r.state [ pending ↦ true | quarantined ↦ true ]

-- SELECT COUNT(*), and SELECT COALESCE(SUM(payload_bytes), 0), over the rows that pass a test
unfoldable pub count_where : (Row → Bool) → List Row → ℕ
count_where p [] = 0
count_where p (r ∷ rs) = (if p r then 1 else 0) + count_where p rs

unfoldable pub bytes_where : (Row → Bool) → List Row → ℕ
bytes_where p [] = 0
bytes_where p (r ∷ rs) = (if p r then r.payload_bytes else 0) + bytes_where p rs

unfoldable pub depth : Bool → Queue → ℕ
unfolding is_active is_pending
depth include_quarantined q =
    count_where (if include_quarantined then is_active else is_pending) q.rows

pub total_bytes : Bool → Queue → ℕ
unfolding is_active is_pending
total_bytes include_quarantined q =
    bytes_where (if include_quarantined then is_active else is_pending) q.rows

-- The pending row that ORDER BY enqueue_ts LIMIT 1 gives: the earliest, the first of equals.
unfoldable pub earlier : Row → Option Row → Row
earlier r none = r
earlier r (some s) = if ltb s.enqueue_ts r.enqueue_ts then s else r

unfoldable pub oldest_pending : List Row → Option Row
oldest_pending [] = none
oldest_pending (r ∷ rs) =
    let rest = oldest_pending rs in if is_pending r then some (earlier r rest) else rest

-- UPDATE … SET state='quarantined' WHERE id=?
unfoldable pub set_quarantined : String → List Row → List Row
set_quarantined id [] = []
set_quarantined id (r ∷ rs) =
    (if str_eq r.id id then record r { state = quarantined } else r) ∷ set_quarantined id rs

unfoldable pub quarantine_oldest : List Row → List Row
quarantine_oldest rows = elim (oldest_pending rows) [
  | none ↦ rows
  | some r ↦ set_quarantined r.id rows
]

unfoldable pub threshold_breached : ℕ → Queue → Bool
threshold_breached payload_bytes q =
    leb q.max_segments (count_where is_pending q.rows)
    || ltb q.max_bytes (bytes_where is_pending q.rows + payload_bytes)

unfoldable pub payload_filename : String → String
payload_filename id = str_append id ".bin"

unfoldable pub new_row : String → Bytes → String → String → ℕ → Row
new_row key bytes sha256 item_id ts = record {
  id = item_id;
  key = key;
  sha256 = sha256;
  payload_file = payload_filename item_id;
  payload_bytes = length bytes;
  state = pending;
  enqueue_ts = ts;
}

-- `enqueue` with the bytes read, a fresh id, the clock, and whether the INSERT commits. The
-- demotion of the oldest row is a transaction of its own, so it stays when the INSERT raises.
unfoldable pub enqueue : Bool → String → ℕ → String → Bytes → String → Queue → EnqueueResult × Queue
enqueue commits item_id ts key bytes sha256 q =
    if leb q.hard_floor (count_where is_active q.rows)
    then (hard_floor_blocked, q)
    else let rows =
        if threshold_breached (length bytes) q then quarantine_oldest q.rows else q.rows in
      let payloads = insert (payload_filename item_id) bytes q.payloads in
      if commits
      then (
        ok item_id,
        record q { rows = rows ++ new_row key bytes sha256 item_id ts ∷ []; payloads = payloads },
      )
      else (
        insert_raised,
        record q { rows = rows; payloads = erase (payload_filename item_id) payloads },
      )

-- What `uploader.put(…, suppress_enqueue=True)` answers or raises: "queued", a success,
-- `EndpointConnectionError`, a throttling `ClientError`, any other exception.
pub data PutResult : Type 0 where
  queued uploaded unreachable throttled put_failed : PutResult

pub record DrainStats : Type 0 where
  pub drained : ℕ
  pub failed : ℕ
  pub skipped : ℕ

-- The queue, the counts, and the backoff of the first cycle with the sleeps that it made, the
-- latest first, in seconds.
pub record DrainRun : Type 0 where
  pub queue : Queue
  pub stats : DrainStats
  pub backoff : ℕ
  pub slept : List ℕ

-- DELETE … WHERE id=?
pub delete_row : String → List Row → List Row
delete_row id [] = []
delete_row id (r ∷ rs) = let rest = delete_row id rs in if str_eq r.id id then rest else r ∷ rest

pub skip_one : DrainRun → DrainRun
skip_one d = record d { stats = record d.stats { skipped = d.stats.skipped + 1 } }

pub fail_one : DrainRun → DrainRun
fail_one d = record d { stats = record d.stats { failed = d.stats.failed + 1 } }

pub succeed : Row → DrainRun → DrainRun
succeed r d = record d {
  queue = record d.queue {
    rows = delete_row r.id d.queue.rows;
    payloads = erase r.payload_file d.queue.payloads;
  };
  stats = record d.stats { drained = d.stats.drained + 1 };
  backoff = 1;
}

pub throttle : DrainRun → DrainRun
throttle d = record d { backoff = min (d.backoff * 2) 60; slept = min d.backoff 60 ∷ d.slept }

-- The body of either cycle; only the first backs off.
pub answer_put : Bool → PutResult → Row → DrainRun → DrainRun
answer_put backs_off queued r d = fail_one d
answer_put backs_off uploaded r d = succeed r d
answer_put backs_off unreachable r d = fail_one d
answer_put backs_off throttled r d = fail_one (if backs_off then throttle d else d)
answer_put backs_off put_failed r d = fail_one d

pub drain_row : (Row → Bytes → PutResult) → Bool → Row → DrainRun → DrainRun
drain_row put backs_off r d = elim (lookup r.payload_file d.queue.payloads) [
  | none ↦ skip_one d
  | some bytes ↦ answer_put backs_off (put r bytes) r d
]

pub drain_rows : (Row → Bytes → PutResult) → Bool → List Row → DrainRun → DrainRun
drain_rows put backs_off [] d = d
drain_rows put backs_off (r ∷ rs) d = drain_rows put backs_off rs (drain_row put backs_off r d)

-- SELECT … WHERE state=… ORDER BY enqueue_ts, with equal times in the order of insertion.
pub select : (Row → Bool) → List Row → List Row
select p [] = []
select p (r ∷ rs) = if p r then r ∷ select p rs else select p rs

pub insert_by_ts : Row → List Row → List Row
insert_by_ts r [] = r ∷ []
insert_by_ts r (s ∷ rs) =
    let rest = insert_by_ts r rs in if leb r.enqueue_ts s.enqueue_ts then r ∷ s ∷ rs else s ∷ rest

pub order_by_ts : List Row → List Row
order_by_ts [] = []
order_by_ts (r ∷ rs) = insert_by_ts r (order_by_ts rs)

pub drain_start : Queue → DrainRun
drain_start q = record {
  queue = q;
  stats = record { drained = 0; failed = 0; skipped = 0 };
  backoff = 1;
  slept = [];
}

pub first_cycle : (Row → Bytes → PutResult) → Queue → DrainRun
unfolding drain_start
first_cycle put q = drain_rows put true (order_by_ts (select is_pending q.rows)) (drain_start q)

pub is_quarantined : Row → Bool
is_quarantined r = elim r.state [ pending ↦ false | quarantined ↦ true ]

pub drain : (Row → Bytes → PutResult) → Queue → DrainRun
drain put q =
    let first = first_cycle put q in
    drain_rows put false (order_by_ts (select is_quarantined first.queue.rows)) first
