-- ===== src/Wal/Close.antt =====
-- What a close leaves in the directory.
use mctrader_data.Prelude.{
  ◌≡◌, refl, ◌∙◌, ap, true, false, Option, none, some, length, if_false, subst, sym,
}
use mctrader_data.Prelude.Dict.{num_eq, lookup, lookup-insert_self, lookup-erase_self}
use mctrader_data.Wal.{
  SegmentFile, WalIngester, file_at, fsync, rename_to_sealed, close_file, wal_close,
}

-- By the active file of the segment that was open.
abbrev pub Closes : WalIngester → WalIngester → Option SegmentFile → Type 0
Closes w v none = v.directory ≡ w.directory
Closes w v (some f) =
    (lookup w.segment_start_idx v.directory.active ≡ none)
    × (lookup w.segment_start_idx v.directory.sealed
        ≡ some (record { lines = f.lines; synced = length f.lines }))

file_at-fsync :
    (w : WalIngester) (f : SegmentFile)
    → lookup w.segment_start_idx w.directory.active ≡ some f
    → file_at w.segment_start_idx (fsync w).directory.active
      ≡ record { lines = f.lines; synced = length f.lines }
unfolding file_at fsync
file_at-fsync w f h = rw (lookup-insert_self, file_at, h)

close_file-Closes :
    (o : Option SegmentFile) (w : WalIngester)
    → lookup w.segment_start_idx w.directory.active ≡ o
    → ((close_file o w).closed ≡ true) × Closes w (close_file o w) o
unfolding close_file rename_to_sealed fsync
close_file-Closes none w h = (refl, refl)
close_file-Closes (some f) w h = (
  refl,
  (
    lookup-erase_self w.segment_start_idx _,
    lookup-insert_self w.segment_start_idx _ w.directory.sealed ∙ ap some (file_at-fsync w f h),
  ),
)

-- Closing an open writer closes it. When the active file of its segment is there, its lines, all
-- synced, are the sealed file of the segment and no active file is left: what the sealed file held
-- before, from an earlier writer in the same segment, is replaced. When it is not there, no file
-- changes.
pub wal_close-sealed :
    (w : WalIngester)
    → w.closed ≡ false
    → ((wal_close w).closed ≡ true)
      × Closes w (wal_close w) (lookup w.segment_start_idx w.directory.active)
unfolding wal_close
wal_close-sealed w running =
    subst (λ v. (v.closed ≡ true) × Closes w v (lookup w.segment_start_idx w.directory.active))
      (sym (if_false w.closed _ _ running))
      (close_file-Closes (lookup w.segment_start_idx w.directory.active) w refl)
