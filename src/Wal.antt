-- ===== src/Wal.antt =====
-- src/mctrader_data/wal/ingester.py and the segment index of wal/segment.py: the writer of one
-- symbol and channel, with its fsync policy, its back-pressure and the sealing of segments. The
-- path of a segment is a function of its index, the other parts being fixed, so the directory is
-- two dictionaries over indices. A line is what `encode_record` gave. Calls of the system succeed.
mod Fsync
mod Durability
mod Segments
mod Close
mod Tests
use mctrader_data.Prelude.{
  ℕ, ◌+◌, ◌-◌, ◌*◌, ◌/◌, ◌%◌, String, Bool, true, false, ◌&&◌, not, Option, none, some, List, [],
  ◌∷◌, ◌++◌, ltb, leb, ◌==◌, if◌then◌else◌, length,
}
use mctrader_data.Prelude.Dict.{Dict, num_eq, lookup, insert, erase}

-- A file with the number of its lines that an fsync has covered.
pub record SegmentFile : Type 0 where
  pub lines : List String
  pub synced : ℕ

-- segment-<index>.ndjson and segment-<index>.ndjson.sealed
pub record Directory : Type 0 where
  pub active : Dict ℕ SegmentFile
  pub sealed : Dict ℕ SegmentFile

-- The arguments of the constructor that the policy reads, times in milliseconds.
pub record Policy : Type 0 where
  pub fsync_batch : ℕ
  pub segment_seconds : ℕ
  pub fsync_window_ms : Option ℕ
  pub fsync_window_msgs : Option ℕ
  pub buffer_max_msgs : Option ℕ

-- `_fd` is open while the writer is not closed, so it is no field of its own.
pub record WalIngester : Type 0 where
  pub policy : Policy
  pub segment_start_idx : ℕ
  pub write_count : ℕ
  pub writes_since_fsync : ℕ
  pub last_fsync : ℕ
  pub closed : Bool
  pub directory : Directory

-- The clocks as one call reads them: the wall clock in seconds, and the monotonic clock in
-- milliseconds when a segment is opened, when the window is tested, and after an fsync.
pub record Clock : Type 0 where
  pub wall : ℕ
  pub at_open : ℕ
  pub at_test : ℕ
  pub at_fsync : ℕ

pub data AppendResult : Type 0 where
  appended closed_error buffer_overflow division_error : AppendResult

pub segment_index : ℕ → ℕ → ℕ
segment_index ts segment_seconds = ts / segment_seconds

pub file_at : ℕ → Dict ℕ SegmentFile → SegmentFile
file_at idx files = elim (lookup idx files) [
  | none ↦ record { lines = []; synced = 0 }
  | some f ↦ f
]

-- O_APPEND | O_CREAT: a file that is there is kept as it is, with the lines of an earlier writer that
-- no fsync has covered.
pub open_new_segment : ℕ → ℕ → WalIngester → WalIngester
open_new_segment start_idx mono w = record w {
  segment_start_idx = start_idx;
  write_count = 0;
  writes_since_fsync = 0;
  last_fsync = mono;
  directory = record w.directory {
    active = insert start_idx (file_at start_idx w.directory.active) w.directory.active;
  };
}

-- os.fsync of the open file
pub fsync : WalIngester → WalIngester
fsync w =
    let f = file_at w.segment_start_idx w.directory.active in
    record w {
      directory = record w.directory {
        active =
            insert w.segment_start_idx (record f { synced = length f.lines }) w.directory.active;
      };
    }

-- os.replace of the active path by the sealed one, which overwrites what is there.
pub rename_to_sealed : WalIngester → WalIngester
rename_to_sealed w =
    let idx = w.segment_start_idx in
    record w {
      directory = record {
        active = erase idx w.directory.active;
        sealed = insert idx (file_at idx w.directory.active) w.directory.sealed;
      };
    }

pub seal_current : WalIngester → WalIngester
seal_current w = rename_to_sealed (fsync w)

pub maybe_seal : Clock → WalIngester → WalIngester
maybe_seal c w =
    let now_idx = segment_index c.wall w.policy.segment_seconds in
    if ltb w.segment_start_idx now_idx
    then open_new_segment now_idx c.at_open (seal_current w)
    else w

pub window_trips : Clock → WalIngester → Bool
window_trips c w =
    let by_time : Bool = elim w.policy.fsync_window_ms [
      | none ↦ false
      | some ms ↦ leb ms (c.at_test - w.last_fsync)
    ] in
    elim w.policy.fsync_window_msgs [
      | none ↦ by_time
      | some msgs ↦ if leb msgs w.writes_since_fsync then true else by_time
    ]

pub has_window : Policy → Bool
has_window p = elim p.fsync_window_ms [
  | none ↦ elim p.fsync_window_msgs [ none ↦ false | some _ ↦ true ]
  | some _ ↦ true
]

-- `none` is `ZeroDivisionError`.
pub should_fsync_now : Clock → WalIngester → Option Bool
should_fsync_now c w =
    if has_window w.policy
    then some (window_trips c w)
    else if w.policy.fsync_batch == 0
    then none
    else some ((w.write_count % w.policy.fsync_batch) == 0)

pub buffer_is_full : WalIngester → Bool
buffer_is_full w = elim w.policy.buffer_max_msgs [
  | none ↦ false
  | some cap ↦ leb cap w.writes_since_fsync
]

-- os.write and the two counters
pub write_line : String → WalIngester → WalIngester
write_line line w =
    let f = file_at w.segment_start_idx w.directory.active in
    record w {
      write_count = w.write_count + 1;
      writes_since_fsync = w.writes_since_fsync + 1;
      directory = record w.directory {
        active =
            insert w.segment_start_idx (record f { lines = f.lines ++ line ∷ [] })
              w.directory.active;
      };
    }

pub fsync_and_reset : ℕ → WalIngester → WalIngester
fsync_and_reset mono w = record (fsync w) { writes_since_fsync = 0; last_fsync = mono }

pub after_write : Option Bool → Clock → WalIngester → AppendResult × WalIngester
after_write none c w = (division_error, w)
after_write (some true) c w = (appended, fsync_and_reset c.at_fsync w)
after_write (some false) c w = (appended, w)

pub append_open : Clock → String → WalIngester → AppendResult × WalIngester
append_open c line w =
    if buffer_is_full w
    then (buffer_overflow, w)
    else let w' = write_line line w in after_write (should_fsync_now c w') c w'

pub wal_append : Clock → String → WalIngester → AppendResult × WalIngester
wal_append c line w = if w.closed then (closed_error, w) else append_open c line (maybe_seal c w)

pub wal_flush : Clock → WalIngester → WalIngester
wal_flush c w =
    if w.closed then w else if ltb 0 w.writes_since_fsync then fsync_and_reset c.at_fsync w else w

-- By whether the active path exists. An fsync of a file that was unlinked changes no path.
pub close_file : Option SegmentFile → WalIngester → WalIngester
close_file none w = record w { closed = true }
close_file (some f) w = record (rename_to_sealed (fsync w)) { closed = true }

pub wal_close : WalIngester → WalIngester
wal_close w = if w.closed then w else close_file (lookup w.segment_start_idx w.directory.active) w

-- `__init__`, over the directory that is found.
pub wal_init : Policy → Clock → Directory → WalIngester
wal_init p c d = open_new_segment (segment_index c.wall p.segment_seconds) c.at_open (record {
  policy = p;
  segment_start_idx = 0;
  write_count = 0;
  writes_since_fsync = 0;
  last_fsync = c.at_open;
  closed = false;
  directory = d;
})
