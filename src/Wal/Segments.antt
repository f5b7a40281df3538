-- ===== src/Wal/Segments.antt =====
-- Where the lines go: the segment that an append writes to, and what a boundary seals.
use mctrader_data.Prelude.{
  subst, ℕ, ◌<◌, ◌≡◌, refl, ◌∙◌, ap, inl, inr, String, Bool, true, false, Option, none, some, List,
  [], ◌∷◌, ◌++◌, arith, ltb, ◌==◌, if◌then◌else◌, Bool-cases, length,
}
use mctrader_data.Prelude.Dict.{
  Dict, num_eq, lookup, insert, erase, lookup-insert, lookup-erase, lookup-erase_self,
}
use mctrader_data.Wal.{
  SegmentFile, WalIngester, Clock, appended, segment_index, file_at, open_new_segment, fsync,
  rename_to_sealed, seal_current, maybe_seal, should_fsync_now, buffer_is_full, write_line,
  fsync_and_reset, after_write, append_open, wal_append,
}

unfoldable pub lines_at : ℕ → Dict ℕ SegmentFile → List String
lines_at i files = (file_at i files).lines

lines_at-insert :
    (i j : ℕ) (f : SegmentFile) (d : Dict ℕ SegmentFile)
    → lines_at j (insert i f d) ≡ (if i == j then f.lines else lines_at j d)
unfolding lines_at file_at
lines_at-insert i j f d = ground (arith, lookup-insert i j f d)

lines_at-erase :
    (i j : ℕ) (d : Dict ℕ SegmentFile)
    → lines_at j (erase i d) ≡ (if i == j then [] else lines_at j d)
unfolding lines_at file_at
lines_at-erase i j d = ground (arith, lookup-erase i j d)

beq_refl_num : (i : ℕ) → (i == i) ≡ true
beq_refl_num i = ground arith

lines_at-insert_self :
    (i : ℕ) (f : SegmentFile) (d : Dict ℕ SegmentFile) → lines_at i (insert i f d) ≡ f.lines
lines_at-insert_self i f d = rw (lines_at-insert i i f d, beq_refl_num i)

-- The segment that a call at this time writes to.
pub target : Clock → WalIngester → ℕ
target c w =
    if ltb w.segment_start_idx (segment_index c.wall w.policy.segment_seconds)
    then segment_index c.wall w.policy.segment_seconds
    else w.segment_start_idx

-- What a successful append does to the lines of every segment.
pub record Appends (c : Clock) (line : String) (w w' : WalIngester) : Type 0 where
  pub writes_to : w'.segment_start_idx ≡ target c w
  pub same_segment :
      target c w ≡ w.segment_start_idx
      → (lines_at w.segment_start_idx w'.directory.active
          ≡ lines_at w.segment_start_idx w.directory.active ++ line ∷ [])
        × (w'.directory.sealed ≡ w.directory.sealed)
  pub next_segment :
      w.segment_start_idx < target c w
      → (lines_at (target c w) w'.directory.active
          ≡ lines_at (target c w) w.directory.active ++ line ∷ [])
        × (lines_at w.segment_start_idx w'.directory.sealed
            ≡ lines_at w.segment_start_idx w.directory.active)
        × (lookup w.segment_start_idx w'.directory.active ≡ none)

-- An fsync changes no line.
lines-after_write :
    (o : Option Bool) (c : Clock) (w : WalIngester)
    → lines_at w.segment_start_idx (after_write o c w).1.directory.active
      ≡ lines_at w.segment_start_idx w.directory.active
unfolding after_write fsync_and_reset fsync lines_at
lines-after_write none c w = refl
lines-after_write (some true) c w = lines_at-insert_self w.segment_start_idx _ w.directory.active
lines-after_write (some false) c w = refl

idx-append_open :
    (c : Clock) (line : String) (w : WalIngester)
    → ((append_open c line w).1.segment_start_idx ≡ w.segment_start_idx)
      × ((append_open c line w).1.directory.sealed ≡ w.directory.sealed)
unfolding append_open after_write fsync_and_reset fsync write_line
idx-append_open c line w = ground arith

lines-write_line :
    (line : String) (w : WalIngester)
    → lines_at w.segment_start_idx (write_line line w).directory.active
      ≡ lines_at w.segment_start_idx w.directory.active ++ line ∷ []
unfolding write_line lines_at
lines-write_line line w = lines_at-insert_self w.segment_start_idx _ w.directory.active

lines-append_open :
    (c : Clock) (line : String) (w : WalIngester)
    → (append_open c line w).0 ≡ appended
    → lines_at w.segment_start_idx (append_open c line w).1.directory.active
      ≡ lines_at w.segment_start_idx w.directory.active ++ line ∷ []
unfolding append_open write_line
lines-append_open c line w ok =
    let room : buffer_is_full w ≡ false = ground arith in
    rw room (
      lines-after_write (should_fsync_now c (write_line line w)) c (write_line line w)
      ∙ lines-write_line line w)

-- Other segments are not touched.
lookup-after_write :
    (j : ℕ) (o : Option Bool) (c : Clock) (w : WalIngester)
    → (w.segment_start_idx == j) ≡ false
    → lookup j (after_write o c w).1.directory.active ≡ lookup j w.directory.active
unfolding after_write fsync_and_reset fsync
lookup-after_write j none c w h = refl
lookup-after_write j (some true) c w h =
    rw (lookup-insert w.segment_start_idx j _ w.directory.active, h)
lookup-after_write j (some false) c w h = refl

lookup-append_open :
    (j : ℕ) (c : Clock) (line : String) (w : WalIngester)
    → (w.segment_start_idx == j) ≡ false
    → lookup j (append_open c line w).1.directory.active ≡ lookup j w.directory.active
unfolding append_open write_line
lookup-append_open j c line w h = elim (Bool-cases (buffer_is_full w)) [
  | inl full ↦ rw full
  | inr room ↦ rw (
    room,
    lookup-after_write j (should_fsync_now c (write_line line w)) c (write_line line w) h,
    lookup-insert w.segment_start_idx j _ w.directory.active,
    h,
  )
]

idx-maybe_seal : (c : Clock) (w : WalIngester) → (maybe_seal c w).segment_start_idx ≡ target c w
unfolding maybe_seal target open_new_segment
idx-maybe_seal c w = ground arith

maybe_seal-same :
    (c : Clock) (w : WalIngester) → target c w ≡ w.segment_start_idx → maybe_seal c w ≡ w
unfolding maybe_seal target
maybe_seal-same c w h = ground arith

maybe_seal-next :
    (c : Clock) (w : WalIngester)
    → w.segment_start_idx < target c w
    → maybe_seal c w ≡ open_new_segment (target c w) c.at_open (seal_current w)
unfolding maybe_seal target
maybe_seal-next c w h = ground arith

-- What crossing a boundary leaves, before the line is written.
Crossed : Clock → WalIngester → WalIngester → Type 0
Crossed c w v =
    (lines_at (target c w) v.directory.active ≡ lines_at (target c w) w.directory.active)
    × (lines_at w.segment_start_idx v.directory.sealed
        ≡ lines_at w.segment_start_idx w.directory.active)
    × (lookup w.segment_start_idx v.directory.active ≡ none)

pub idx-fsync : (w : WalIngester) → (fsync w).segment_start_idx ≡ w.segment_start_idx
unfolding fsync
idx-fsync w = refl

lines_at-fsync :
    (j : ℕ) (w : WalIngester)
    → lines_at j (fsync w).directory.active ≡ lines_at j w.directory.active
unfolding fsync lines_at
lines_at-fsync j w = ground (
  arith,
  lines_at-insert w.segment_start_idx j
      (record (file_at w.segment_start_idx w.directory.active) {
        synced = length (file_at w.segment_start_idx w.directory.active).lines;
      })
      w.directory.active,
)

seal_current-Crossed :
    (c : Clock) (w : WalIngester)
    → w.segment_start_idx < target c w
    → Crossed c w (open_new_segment (target c w) c.at_open (seal_current w))
unfolding Crossed open_new_segment seal_current rename_to_sealed fsync lines_at
seal_current-Crossed c w h =
    let ahead : (w.segment_start_idx == target c w) ≡ false = ground arith in
    let behind : (target c w == w.segment_start_idx) ≡ false = ground arith in
    (
      lines_at-insert_self (target c w) _ _
          ∙ rw (lines_at-erase, ahead) (lines_at-fsync (target c w) w),
      lines_at-insert_self w.segment_start_idx _ w.directory.sealed
          ∙ lines_at-fsync w.segment_start_idx w,
      rw (lookup-insert (target c w) w.segment_start_idx, behind)
          (lookup-erase_self w.segment_start_idx _),
    )

maybe_seal-Crossed :
    (c : Clock) (w : WalIngester) → w.segment_start_idx < target c w → Crossed c w (maybe_seal c w)
maybe_seal-Crossed c w h = rw (maybe_seal-next c w h) (seal_current-Crossed c w h)

wal_append_running :
    (c : Clock) (line : String) (w : WalIngester)
    → (wal_append c line w).0 ≡ appended
    → wal_append c line w ≡ append_open c line (maybe_seal c w)
unfolding wal_append
wal_append_running c line w ok = ground arith

lines-append_open_at :
    (c : Clock) (line : String) (i : ℕ) (w : WalIngester)
    → w.segment_start_idx ≡ i
    → (append_open c line w).0 ≡ appended
    → lines_at i (append_open c line w).1.directory.active
      ≡ lines_at i w.directory.active ++ line ∷ []
lines-append_open_at c line i w h ok =
    subst
      (λ k.
        lines_at k (append_open c line w).1.directory.active
        ≡ lines_at k w.directory.active ++ line ∷ [])
      h (lines-append_open c line w ok)

-- An append that is answered by success puts its line at the end of the segment of its time, or of
-- the segment that is open when that is later. In the same segment no sealed file changes. Across a
-- boundary, the lines of the earlier segment are those of its sealed file, and it has no active
-- file.
pub wal_append-Appends :
    (c : Clock) (line : String) (w : WalIngester)
    → (wal_append c line w).0 ≡ appended
    → Appends c line w (wal_append c line w).1
unfolding Crossed
wal_append-Appends c line w ok =
    let opened = wal_append_running c line w ok in
    let v = maybe_seal c w in
    let answered : (append_open c line v).0 ≡ appended = rw opened at ok in
    rw opened (record {
      writes_to = (idx-append_open c line v).0 ∙ idx-maybe_seal c w;
      same_segment = λ h.
          let same = maybe_seal-same c w h in
          rw same (lines-append_open c line w (rw same at answered), (idx-append_open c line w).1);
      next_segment = λ h.
          let crossed = maybe_seal-Crossed c w h in
          let behind : (v.segment_start_idx == w.segment_start_idx) ≡ false =
            ground (arith, idx-maybe_seal c w) in
          (
            lines-append_open_at c line (target c w) v (idx-maybe_seal c w) answered
                ∙ ap (λ l. l ++ line ∷ []) crossed.0,
            ap (lines_at w.segment_start_idx) (idx-append_open c line v).1 ∙ crossed.1,
            lookup-append_open w.segment_start_idx c line v behind ∙ crossed.2,
          );
    })
