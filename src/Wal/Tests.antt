-- ===== src/Wal/Tests.antt =====
-- A writer with two lines per fsync window and room for three unsynced lines, in segments of 300 s.
use mctrader_data.Prelude.{ℕ, ◌*◌, ◌≡◌, refl, true, false, none, some, [], ◌∷◌, arith}
use mctrader_data.Prelude.Dict.{num_eq, lookup, insert, erase}
use mctrader_data.Wal.{
  Policy, WalIngester, Clock, appended, closed_error, segment_index, file_at, open_new_segment,
  fsync, rename_to_sealed, seal_current, maybe_seal, window_trips, has_window, should_fsync_now,
  buffer_is_full, write_line, fsync_and_reset, after_write, append_open, wal_append, wal_flush,
  close_file, wal_close, wal_init,
}
use mctrader_data.Wal.Fsync.{
  Covered, unsynced_at, IsConsistent, wal_init-IsConsistent, Counts, wal_append-IsConsistent,
}
use mctrader_data.Wal.Segments.{Appends, wal_append-Appends}
use mctrader_data.Wal.Close.{Closes, wal_close-sealed}

abbrev no_window : Policy
no_window = record {
  fsync_batch = 1;
  segment_seconds = 300;
  fsync_window_ms = none;
  fsync_window_msgs = none;
  buffer_max_msgs = none;
}

abbrev windowed : Policy
windowed = record {
  fsync_batch = 1;
  segment_seconds = 300;
  fsync_window_ms = none;
  fsync_window_msgs = some 2;
  buffer_max_msgs = some 3;
}

abbrev clock : ℕ → Clock
clock s = record { wall = s; at_open = 1000 * s; at_test = 1000 * s; at_fsync = 1000 * s }

abbrev open_at : Policy → ℕ → WalIngester
open_at p s = record {
  policy = p;
  segment_start_idx = s;
  write_count = 0;
  writes_since_fsync = 0;
  last_fsync = 0;
  closed = false;
  directory = record { active = (s, record { lines = []; synced = 0 }) ∷ []; sealed = [] };
}

abbrev start : WalIngester
start = open_at windowed 2

-- A writer that finds two lines of an earlier one, one of which is synced.
abbrev reopened : WalIngester
reopened =
    wal_init windowed (clock 601)
      (record { active = (2, record { lines = "a" ∷ "b" ∷ []; synced = 1 }) ∷ []; sealed = [] })

found-Covered : Covered ((2, record { lines = "a" ∷ "b" ∷ []; synced = 1 }) ∷ [])
unfolding lookup
found-Covered i f e = ground arith

reopened-IsConsistent : IsConsistent 1 reopened
unfolding unsynced_at file_at lookup segment_index
reopened-IsConsistent = wal_init-IsConsistent windowed (clock 601) _ found-Covered

wal_append-IsConsistent_example : Counts 1 reopened (wal_append (clock 602) "x" reopened).1
wal_append-IsConsistent_example =
    wal_append-IsConsistent 1 (clock 602) "x" reopened reopened-IsConsistent

-- Its first line leaves two that are not synced, one of them counted; the second line syncs all.
counted :
    ((wal_append (clock 602) "x" reopened).1.writes_since_fsync ≡ 1)
    × (unsynced_at 2 (wal_append (clock 602) "x" reopened).1.directory.active ≡ 2)
    × (unsynced_at 2
          (wal_append (clock 603) "y" (wal_append (clock 602) "x" reopened).1).1.directory.active
        ≡ 0)
unfolding wal_init wal_append append_open maybe_seal segment_index buffer_is_full after_write
    should_fsync_now has_window window_trips write_line open_new_segment fsync fsync_and_reset
    file_at lookup insert unsynced_at
counted = (refl, refl, refl)

plain_appended : (wal_append (clock 601) "x" (open_at no_window 2)).0 ≡ appended
unfolding wal_append append_open maybe_seal segment_index buffer_is_full after_write
    should_fsync_now has_window write_line
plain_appended = refl

windowed_appended : (wal_append (clock 901) "x" start).0 ≡ appended
unfolding wal_append append_open maybe_seal segment_index buffer_is_full after_write
    should_fsync_now has_window window_trips write_line open_new_segment seal_current
    rename_to_sealed fsync
windowed_appended = refl

plain_has_no_window : has_window no_window ≡ false
unfolding has_window
plain_has_no_window = refl

wal_append-Appends_example : Appends (clock 901) "x" start (wal_append (clock 901) "x" start).1
wal_append-Appends_example = wal_append-Appends (clock 901) "x" start windowed_appended

wal_close-sealed_example :
    ((wal_close start).closed ≡ true)
    × Closes start (wal_close start) (lookup 2 start.directory.active)
wal_close-sealed_example = wal_close-sealed start refl

-- A writer whose active file is gone.
abbrev bereft : WalIngester
bereft = record start {
  directory = record { active = []; sealed = (2, record { lines = "a" ∷ []; synced = 1 }) ∷ [] };
}

bereft-closes : (wal_close bereft).directory ≡ bereft.directory
unfolding wal_close close_file lookup
bereft-closes = refl

-- The second writer of a segment, after a restart inside it: its sealed file has its line alone.
restart :
    (file_at 2
      (wal_close
        (wal_append
          (clock 610)
          "b"
          (wal_init windowed (clock 609) (wal_close (wal_append (clock 601) "a" start).1).directory)
            ).1).directory.sealed).lines
    ≡ "b" ∷ []
unfolding wal_init wal_close close_file wal_append append_open maybe_seal segment_index
    buffer_is_full after_write should_fsync_now has_window window_trips write_line open_new_segment
    rename_to_sealed fsync fsync_and_reset file_at lookup insert erase
restart = refl

-- A closed writer refuses, and a flush of it does nothing.
closed_writer :
    ((wal_append (clock 601) "a" (wal_close start)).0 ≡ closed_error)
    × (wal_flush (clock 601) (wal_close start) ≡ wal_close start)
    × (wal_close (wal_close start) ≡ wal_close start)
unfolding wal_close close_file lookup wal_append wal_flush rename_to_sealed fsync
closed_writer = (refl, refl, refl)
