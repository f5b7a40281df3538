-- ===== src/Wal/Durability.antt =====
-- How many lines a crash can cost: the fsync policies and the back-pressure.
use mctrader_data.Prelude.{ℕ, ◌≤◌, ◌<◌, ◌≡◌, ◌∙◌, ap, String, false, some, arith}
use mctrader_data.Prelude.Dict.{num_eq}
use mctrader_data.Wal.{
  WalIngester, Clock, appended, open_new_segment, fsync, rename_to_sealed, seal_current, maybe_seal,
  window_trips, has_window, should_fsync_now, buffer_is_full, write_line, fsync_and_reset,
  after_write, append_open, wal_append, wal_flush,
}

policy-maybe_seal : (c : Clock) (w : WalIngester) → (maybe_seal c w).policy ≡ w.policy
unfolding maybe_seal open_new_segment seal_current rename_to_sealed fsync
policy-maybe_seal c w = ground arith

writes-maybe_seal :
    (c : Clock) (w : WalIngester) → (maybe_seal c w).writes_since_fsync ≤ w.writes_since_fsync
unfolding maybe_seal open_new_segment
writes-maybe_seal c w = ground arith

closed-maybe_seal : (c : Clock) (w : WalIngester) → (maybe_seal c w).closed ≡ w.closed
unfolding maybe_seal open_new_segment seal_current rename_to_sealed fsync
closed-maybe_seal c w = ground arith

-- With a cap m, at most m lines are unsynced: an append keeps the bound, on every branch.
pub wal_append-within_cap :
    (c : Clock) (line : String) (m : ℕ) (w : WalIngester)
    → w.policy.buffer_max_msgs ≡ some m
    → w.writes_since_fsync ≤ m
    → (wal_append c line w).1.writes_since_fsync ≤ m
unfolding wal_append append_open after_write fsync_and_reset fsync write_line buffer_is_full
wal_append-within_cap c line m w cap h =
    ground (arith, policy-maybe_seal c w, writes-maybe_seal c w)

-- With the default policy, an fsync for each message and no window, an append that is answered by
-- success leaves no line unsynced.
pub wal_append-synced :
    (c : Clock) (line : String) (w : WalIngester)
    → has_window w.policy ≡ false
    → w.policy.fsync_batch ≡ 1
    → (wal_append c line w).0 ≡ appended
    → (wal_append c line w).1.writes_since_fsync ≡ 0
unfolding wal_append append_open after_write fsync_and_reset fsync write_line should_fsync_now
wal_append-synced c line w plain batch ok = ground (arith, policy-maybe_seal c w)

-- With a window of n messages, n at least one, an append that is answered by success leaves fewer
-- than n lines unsynced, whatever the clock and the other window say.
pub wal_append-within_window :
    (c : Clock) (line : String) (n : ℕ) (w : WalIngester)
    → w.policy.fsync_window_msgs ≡ some n
    → 0 < n
    → (wal_append c line w).0 ≡ appended
    → (wal_append c line w).1.writes_since_fsync < n
unfolding wal_append append_open after_write fsync_and_reset fsync write_line should_fsync_now
    has_window window_trips
wal_append-within_window c line n w window pos ok = ground (arith, policy-maybe_seal c w)

flushed :
    (c : Clock) (w : WalIngester)
    → w.closed ≡ false
    → ((wal_flush c w).writes_since_fsync ≡ 0)
      × ((wal_flush c w).policy ≡ w.policy)
      × ((wal_flush c w).closed ≡ false)
unfolding wal_flush fsync_and_reset fsync
flushed c w running = ground arith

append_when_empty :
    (c : Clock) (line : String) (m : ℕ) (w : WalIngester)
    → w.closed ≡ false
    → w.policy.buffer_max_msgs ≡ some m
    → 0 < m
    → 0 < w.policy.fsync_batch
    → w.writes_since_fsync ≡ 0
    → (wal_append c line w).0 ≡ appended
unfolding wal_append append_open after_write write_line should_fsync_now buffer_is_full
append_when_empty c line m w running cap pos batch empty =
    ground (arith, policy-maybe_seal c w, writes-maybe_seal c w)

-- With a cap of at least one and a batch size that is not zero, the recovery that the overflow
-- error names works: from any open writer, a flush and then an append, at any times, end in
-- success.
pub flush_then_append :
    (c c' : Clock) (line : String) (m : ℕ) (w : WalIngester)
    → w.closed ≡ false
    → w.policy.buffer_max_msgs ≡ some m
    → 0 < m
    → 0 < w.policy.fsync_batch
    → (wal_append c' line (wal_flush c w)).0 ≡ appended
flush_then_append c c' line m w running cap pos batch =
    let f = flushed c w running in
    append_when_empty c' line m (wal_flush c w) f.2 (ap (λ p. p.buffer_max_msgs) f.1 ∙ cap) pos
      (ground arith) f.0
