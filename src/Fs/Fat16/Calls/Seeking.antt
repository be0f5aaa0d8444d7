-- ===== src/Fs/Fat16/Calls/Seeking.antt =====
-- Where a position of an open file can be.
use ra_os.Base.{ℕ, ◌+◌, ◌%◌, ◌^◌, ◌<◌, ◌≤◌, ◌≡◌, ◌≢◌, refl, leb, false, Bool-cases, inl, inr, arith}
use ra_os.Fs.Fat16.{filesize, DirectoryItem}
use ra_os.Fs.Fat16.Lookup.{FatItem, file_item, directory_item, FatFileDescriptor}
use ra_os.Fs.Fat16.Calls.{SeekMode, seek_set, seek_cur, seek_end, other, seek_switch, fat16_seek}

-- A file's position is below its size.
unfoldable pub IsInside : FatFileDescriptor → Type 0
IsInside desc = elim desc.item [
  | directory_item dir ↦ Unit
  | file_item item ↦ desc.pos < filesize item
]

leb→lt : (a b : ℕ) → leb a b ≡ false → b < a
leb→lt a b h = ground arith

lt→leb : (a b : ℕ) → a < b → leb b a ≡ false
lt→leb a b h = ground arith

kept_in_file :
    (item : DirectoryItem) (pos offset : ℕ) (mode : SeekMode)
    → mode ≢ seek_cur
    → pos < filesize item
    → IsInside (fat16_seek (record { item = file_item item; pos = pos }) offset mode).1
unfolding fat16_seek seek_switch IsInside
kept_in_file item pos offset seek_cur absolute inside = absurd (absolute refl)
kept_in_file item pos offset seek_set absolute inside =
    elim (Bool-cases (leb (filesize item) offset)) [
      | inl past ↦ rw past inside
      | inr below ↦ rw below (leb→lt (filesize item) offset below)
    ]
kept_in_file item pos offset seek_end absolute inside =
    elim (Bool-cases (leb (filesize item) offset)) [ inl e ↦ rw e inside | inr e ↦ rw e inside ]
kept_in_file item pos offset other absolute inside =
    elim (Bool-cases (leb (filesize item) offset)) [ inl e ↦ rw e inside | inr e ↦ rw e inside ]

kept_in_item :
    (item : FatItem) (pos offset : ℕ) (mode : SeekMode)
    → mode ≢ seek_cur
    → IsInside (record { item = item; pos = pos })
    → IsInside (fat16_seek (record { item = item; pos = pos }) offset mode).1
unfolding fat16_seek IsInside
kept_in_item (directory_item dir) pos offset mode absolute inside = tt
kept_in_item (file_item item) pos offset mode absolute inside =
    kept_in_file item pos offset mode absolute inside

-- A seek in any mode but SEEK_CUR keeps the position of a file below its size.
pub fat16_seek-IsInside :
    (desc : FatFileDescriptor) (offset : ℕ) (mode : SeekMode)
    → mode ≢ seek_cur
    → IsInside desc
    → IsInside (fat16_seek desc offset mode).1
fat16_seek-IsInside desc offset mode absolute inside =
    kept_in_item desc.item desc.pos offset mode absolute inside

-- With SEEK_CUR only the distance is compared with the size of the file: two such seeks from the
-- start, by distances below the size whose sum is not, leave the position at or behind the file's
-- end.
pub fat16_seek-past_end :
    (item : DirectoryItem) (a b : ℕ)
    → a < filesize item
    → b < filesize item
    → filesize item ≤ a + b
    → a + b < 2 ^ 32
    → let start : FatFileDescriptor = record { item = file_item item; pos = 0 } in
      let last = (fat16_seek (fat16_seek start a seek_cur).1 b seek_cur).1 in
      (last.pos ≡ a + b) × (¬ IsInside last)
unfolding fat16_seek seek_switch IsInside
fat16_seek-past_end item a b first second past small =
    let moved : ((0 + a) % 2 ^ 32 + b) % 2 ^ 32 ≡ a + b = omega arith in
    rw (lt→leb a (filesize item) first, lt→leb b (filesize item) second, moved)
      (refl, λ h. omega arith)
