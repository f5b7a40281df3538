-- ===== src/Wal/Fsync.antt =====
-- The counter of unsynced writes and the open file.
use mctrader_data.Prelude.{
  subst, sym, ap, ◌∙◌, if_false, ℕ, ◌+◌, ◌-◌, ◌≤◌, ◌<◌, ◌≡◌, ◌⊎◌, refl, inl, inr, String, Bool,
  true, false, Option, none, some, [], ◌∷◌, ◌++◌, arith, ltb, Bool-cases, Option-cases, length,
  length-append, if-cases, ◌==◌,
}
use mctrader_data.Prelude.Dict.{
  Dict, num_eq, lookup, insert, erase, lookup-insert, lookup-erase, lookup-insert_self,
}
use mctrader_data.Wal.{
  AppendResult, closed_error, buffer_overflow, SegmentFile, Directory, Policy, WalIngester, Clock,
  segment_index, file_at, open_new_segment, fsync, rename_to_sealed, seal_current, maybe_seal,
  should_fsync_now, buffer_is_full, write_line, fsync_and_reset, after_write, append_open,
  wal_append, wal_init,
}

-- No file has more lines synced than it has.
abbrev pub Covered : Dict ℕ SegmentFile → Type 0
Covered files = (i : ℕ) (f : SegmentFile) → lookup i files ≡ some f → f.synced ≤ length f.lines

-- The lines of a segment's active file that no fsync has covered.
unfoldable pub unsynced_at : ℕ → Dict ℕ SegmentFile → ℕ
unsynced_at i files = length (file_at i files).lines - (file_at i files).synced

-- The open file is there, and `writes_since_fsync` of its lines are not yet synced, besides `left`
-- lines of earlier writers.
pub record IsConsistent (left : ℕ) (w : WalIngester) : Type 0 where
  pub file : SegmentFile
  pub open_file : lookup w.segment_start_idx w.directory.active ≡ some file
  pub counted : file.synced + left + w.writes_since_fsync ≡ length file.lines
  pub covered : Covered w.directory.active

Covered-insert :
    (i : ℕ) (f : SegmentFile) (d : Dict ℕ SegmentFile)
    → f.synced ≤ length f.lines
    → Covered d
    → Covered (insert i f d)
Covered-insert i f d h k j g e = elim (Bool-cases (i == j)) [
  | inl same ↦
      let is_f : f ≡ g = ground (arith, lookup-insert i j f d) in
      subst (λ x. x.synced ≤ length x.lines) is_f h
  | inr other ↦ k j g (ground (arith, lookup-insert i j f d))
]

Covered-erase : (i : ℕ) (d : Dict ℕ SegmentFile) → Covered d → Covered (erase i d)
Covered-erase i d k j g e = elim (Bool-cases (i == j)) [
  | inl same ↦ absurd (ground (arith, lookup-erase i j d))
  | inr other ↦ k j g (ground (arith, lookup-erase i j d))
]

file_at-Covered :
    (i : ℕ) (d : Dict ℕ SegmentFile) → Covered d → (file_at i d).synced ≤ length (file_at i d).lines
unfolding file_at
file_at-Covered i d k = elim (Option-cases (lookup i d)) [
  | inl absent ↦ rw (absent, file_at) (omega arith)
  | inr (f, there) ↦ rw (there, file_at) (k i f there)
]

open_new_segment-IsConsistent :
    (i mono : ℕ) (w : WalIngester)
    → Covered w.directory.active
    → IsConsistent (unsynced_at i w.directory.active) (open_new_segment i mono w)
unfolding open_new_segment unsynced_at
open_new_segment-IsConsistent i mono w k = record {
  file = file_at i w.directory.active;
  open_file = lookup-insert_self i _ w.directory.active;
  counted = omega (arith, file_at-Covered i w.directory.active k);
  covered = Covered-insert i _ w.directory.active (file_at-Covered i w.directory.active k) k;
}

-- A new writer, over the directory that is found.
pub wal_init-IsConsistent :
    (p : Policy) (c : Clock) (d : Directory)
    → Covered d.active
    → IsConsistent (unsynced_at (segment_index c.wall p.segment_seconds) d.active) (wal_init p c d)
unfolding wal_init
wal_init-IsConsistent p c d k =
    open_new_segment-IsConsistent (segment_index c.wall p.segment_seconds) c.at_open _ k

fsync_and_reset-IsConsistent :
    (mono : ℕ) (w : WalIngester)
    → Covered w.directory.active
    → IsConsistent 0 (fsync_and_reset mono w)
unfolding fsync_and_reset fsync
fsync_and_reset-IsConsistent mono w k = record {
  file = record (file_at w.segment_start_idx w.directory.active) {
    synced = length (file_at w.segment_start_idx w.directory.active).lines;
  };
  open_file = lookup-insert_self w.segment_start_idx _ w.directory.active;
  counted = omega arith;
  covered = Covered-insert w.segment_start_idx _ w.directory.active (omega arith) k;
}

write_line-IsConsistent :
    (left : ℕ) (line : String) (w : WalIngester)
    → IsConsistent left w
    → IsConsistent left (write_line line w)
unfolding write_line file_at
write_line-IsConsistent left line w h =
    let longer : length (h.file.lines ++ line ∷ []) ≡ length h.file.lines + 1 =
      ground (arith, length-append {0} h.file.lines (line ∷ [])) in
    rw (h.open_file, file_at)
      (record {
        file = record h.file { lines = h.file.lines ++ line ∷ [] };
        open_file = lookup-insert_self w.segment_start_idx _ w.directory.active;
        counted = omega (arith, h.counted, longer);
        covered =
            Covered-insert w.segment_start_idx _ w.directory.active
              (omega (arith, h.counted, longer)) h.covered;
      })

-- What a call leaves, and the number of lines that its counter does not count: those of before in the
-- same segment, none after an fsync, or those that were found in the file of a later segment.
abbrev pub Counts : ℕ → WalIngester → WalIngester → Type 0
Counts left w v =
    (m : ℕ) × IsConsistent m v
    × (((m ≡ left) × (v.segment_start_idx ≡ w.segment_start_idx))
        ⊎ (m ≡ 0)
        ⊎ ((w.segment_start_idx < v.segment_start_idx)
            × (m ≡ unsynced_at v.segment_start_idx w.directory.active)))

-- After the test of the boundary, before the line.
abbrev Opened : ℕ → WalIngester → WalIngester → Type 0
Opened left w v =
    (m : ℕ) × IsConsistent m v
    × (((m ≡ left) × (v.segment_start_idx ≡ w.segment_start_idx))
        ⊎ ((w.segment_start_idx < v.segment_start_idx)
            × (m ≡ unsynced_at v.segment_start_idx w.directory.active)))

unsynced_at-same :
    (i : ℕ) (a b : Dict ℕ SegmentFile) → lookup i a ≡ lookup i b → unsynced_at i a ≡ unsynced_at i b
unfolding unsynced_at file_at
unsynced_at-same i a b h = rw (h, file_at) refl

lookup-seal_current :
    (i : ℕ) (w : WalIngester)
    → w.segment_start_idx < i
    → lookup i (seal_current w).directory.active ≡ lookup i w.directory.active
unfolding seal_current rename_to_sealed fsync
lookup-seal_current i w h =
    let ahead : (w.segment_start_idx == i) ≡ false = ground arith in
    lookup-erase w.segment_start_idx i _
    ∙ if_false _ _ _ ahead
    ∙ (lookup-insert w.segment_start_idx i _ w.directory.active ∙ if_false _ _ _ ahead)

unsynced_at-seal_current :
    (i : ℕ) (w : WalIngester)
    → w.segment_start_idx < i
    → unsynced_at i (seal_current w).directory.active ≡ unsynced_at i w.directory.active
unsynced_at-seal_current i w h = unsynced_at-same i _ _ (lookup-seal_current i w h)

seal_current-Covered :
    (w : WalIngester) → Covered w.directory.active → Covered (seal_current w).directory.active
unfolding seal_current rename_to_sealed fsync
seal_current-Covered w k =
    Covered-erase w.segment_start_idx _
      (Covered-insert w.segment_start_idx _ w.directory.active (omega arith) k)

open_next :
    (left i mono : ℕ) (w : WalIngester)
    → w.segment_start_idx < i
    → IsConsistent left w
    → Opened left w (open_new_segment i mono (seal_current w))
open_next left i mono w later h = (
  unsynced_at i (seal_current w).directory.active,
  open_new_segment-IsConsistent i mono (seal_current w) (seal_current-Covered w h.covered),
  inr (unfold open_new_segment in (later, unsynced_at-seal_current i w later)),
)

maybe_seal-Opened :
    (left : ℕ) (c : Clock) (w : WalIngester) → IsConsistent left w → Opened left w (maybe_seal c w)
unfolding maybe_seal
maybe_seal-Opened left c w h =
    if-cases (Opened left w)
      (ltb w.segment_start_idx (segment_index c.wall w.policy.segment_seconds)) _ _
      (λ crossed. open_next left _ c.at_open w (ground arith) h)
      (λ within. (left, h, inl (refl, refl)))

-- The line, and the fsync that may follow.
abbrev Written : ℕ → WalIngester → WalIngester → Type 0
Written m v u =
    (n : ℕ) × IsConsistent n u × ((n ≡ m) ⊎ (n ≡ 0)) × (u.segment_start_idx ≡ v.segment_start_idx)

after_write-Written :
    (m : ℕ) (o : Option Bool) (c : Clock) (v : WalIngester)
    → IsConsistent m v
    → Written m v (after_write o c v).1
unfolding after_write
after_write-Written m none c v h = (m, h, inl refl, refl)
after_write-Written m (some true) c v h = (
  0,
  fsync_and_reset-IsConsistent c.at_fsync v h.covered,
  inr refl,
  unfold fsync_and_reset fsync in refl,
)
after_write-Written m (some false) c v h = (m, h, inl refl, refl)

append_open-Written :
    (m : ℕ) (c : Clock) (line : String) (v : WalIngester)
    → IsConsistent m v
    → Written m v (append_open c line v).1
unfolding append_open write_line
append_open-Written m c line v h =
    if-cases (λ (r : AppendResult × WalIngester). Written m v r.1) (buffer_is_full v)
      (buffer_overflow, v)
      (after_write (should_fsync_now c (write_line line v)) c (write_line line v))
      (λ full. (m, h, inl refl, refl))
      (λ room.
        after_write-Written m (should_fsync_now c (write_line line v)) c (write_line line v)
          (write_line-IsConsistent m line v h))

Opened-Written :
    (left : ℕ) (w v u : WalIngester) (o : Opened left w v) → Written o.0 v u → Counts left w u
Opened-Written left w v u (m, h, inl (same, idx)) (n, k, inl e, at) =
    (n, k, inl (e ∙ same, at ∙ idx))
Opened-Written left w v u (m, h, inr (later, is)) (n, k, inl e, at) = (
  n,
  k,
  inr (
      inr (
        subst (λ i. w.segment_start_idx < i) (sym at) later,
        e ∙ is ∙ ap (λ i. unsynced_at i w.directory.active) (sym at),
      )),
)
Opened-Written left w v u o (n, k, inr e, at) = (n, k, inr (inl e))

-- From a writer whose counter, with the lines that it does not count, is the number of lines of the open
-- file that no fsync has covered: after any append, whatever it answers and whether or not it crosses
-- a boundary, the open file exists and the same is true. The lines not counted are those of before in
-- the same segment, none after an fsync, or, in a later segment, the unsynced lines that
-- were found in its file.
pub wal_append-IsConsistent :
    (left : ℕ) (c : Clock) (line : String) (w : WalIngester)
    → IsConsistent left w
    → Counts left w (wal_append c line w).1
unfolding wal_append
wal_append-IsConsistent left c line w h =
    if-cases (λ (r : AppendResult × WalIngester). Counts left w r.1) w.closed (closed_error, w)
      (append_open c line (maybe_seal c w)) (λ closed. (left, h, inl (refl, refl)))
      (λ running.
        let opened : Opened left w (maybe_seal c w) = maybe_seal-Opened left c w h in
        let done : Written opened.0 (maybe_seal c w) (append_open c line (maybe_seal c w)).1 =
          append_open-Written opened.0 c line (maybe_seal c w) opened.1 in
        Opened-Written left w (maybe_seal c w) _ opened done)
