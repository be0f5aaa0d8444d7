-- ===== src/Fs/Fat16/System/Opening.antt =====
-- From the text of a path to the bytes of the disk.
use ra_os.Base.{
  ℕ, zero, suc, ◌+◌, ◌-◌, ◌*◌, ◌^◌, ◌≤◌, ◌<◌, ◌≡◌, refl, ◌∙◌, ap, leb, true, false, not, ◌||◌, none,
  some, List, [], ◌∷◌, ◌++◌, ◌>>=◌, map, ok, done, length, get_elem?, set, get_elem?-set_self,
  arith, inl, inr, All, ==_of_ne,
}
use native.Mathlib.Decide.{dec_lt}
use ra_os.Base.Int.{pos}
use ra_os.Strings.{strncmp, isdigit, chtoi}
use ra_os.Disk.Streamer.{Contents}
use ra_os.Disk.Streamer.Bytes.{disk_bytes}
use ra_os.Fs.PathParser.{max_path, is_zero}
use ra_os.Fs.PathParser.Parts.{IsPart, buffer_of, join}
use ra_os.Fs.PathParser.Parse.{parse-join}
use ra_os.Fs.File
use ra_os.Fs.File.{
  FileSystem, Files, Table, Descriptor, max_descriptors, FileMode, read_mode, seek_set,
  get_mode_by_string, new_descriptor, get_descriptor, add_descriptor, open_descriptor, open_root,
  fopen, fread, fseek, r_mode,
}
use ra_os.Fs.File.Table.{new_descriptor-cases, get_descriptor-pos}
use ra_os.Fs.Fat16.{FatPrivate, DirectoryItem, filesize}
use ra_os.Fs.Fat16.Clusters.{get_first_cluster_for_directory_item, size_of_cluster_bytes}
use ra_os.Fs.Fat16.Clusters.Reading.{IsAligned}
use ra_os.Fs.Fat16.Lookup.{file_item, FatFileDescriptor}
use ra_os.Fs.Fat16.Lookup.Path.{Leads, fat16_open-Leads}
use ra_os.Fs.Fat16.Calls.{fat16_seek, seek_switch}
use ra_os.Fs.Fat16.Calls.Reading.{file_byte, fat16_read-file_byte}
use ra_os.Fs.Fat16.System.{fat16_fs}

pub mode_of_r : get_mode_by_string r_mode ≡ some read_mode
unfolding get_mode_by_string strncmp
mode_of_r = refl

drive_zero : chtoi b'0' ≡ pos 0
unfolding chtoi
drive_zero = refl

digit_zero : isdigit b'0' ≡ true
unfolding isdigit
digit_zero = refl

-- A free entry below the last one leads to a number that can be used.
pub new_descriptor_free :
    {P : Type 0} (table : Table P) (p : P) (k : ℕ)
    → get_elem? table k ≡ some none
    → k + 1 < max_descriptors
    → (i : ℕ) × (i + 1 < max_descriptors)
      × (i < length table)
      × (get_elem? table i ≡ some none)
      × (new_descriptor table p
          ≡ ok (i + 1, set table i (some (record { index = i + 1; private_ = p }))))
new_descriptor_free table p k free below = elim (new_descriptor-cases table p) [
  | inr (full, e) ↦ absurd (full k free)
  | inl (i, first, e) ↦ elim (dec_lt k i) [
    | yes before ↦ absurd (first.taken k before free)
    | no after ↦ (i, omega arith, first.inside, first.free, e)
  ]
]

pub get_descriptor-set_entry :
    {P : Type 0} (table : Table P) (i : ℕ) (d : Descriptor P)
    → i < length table
    → i + 1 < max_descriptors
    → get_descriptor (set table i (some d)) (pos (i + 1)) ≡ some d
get_descriptor-set_entry table i d inside below =
    get_descriptor-pos (set table i (some d)) (i + 1) (omega arith) below
    ∙ ap (λ n. File.join (get_elem? (set table i (some d)) n)) {x = i + 1 - 1} {y = i} (omega arith)
    ∙ ap File.join (get_elem?-set_self table i (some d) inside)

module _ (fs : FileSystem) (files : Files fs.Private) where
  pub fopen_run :
      (name : List ℕ) (names : List (List ℕ)) (after : List ℕ) (p : fs.Private) (fd : ℕ)
      (table : Table fs.Private)
      → files.mounted ≡ true
      → All IsPart (name ∷ names)
      → length (join (name ∷ names)) + 3 ≤ max_path
      → fs.open_path (map buffer_of (name ∷ names)) read_mode ≡ some (done p)
      → new_descriptor files.table p ≡ ok (fd, table)
      → fopen fs files (b'0' ∷ b':' ∷ b'/' ∷ join (name ∷ names) ++ 0x00 ∷ after) r_mode
        ≡ some (fd, record files { table = table })
  unfolding fopen open_root open_descriptor add_descriptor
  fopen_run name names after p fd table mounted parts short opens added =
      let parsed = parse-join b'0' (name ∷ names) after digit_zero parts short in
      let test : (not (is_zero (chtoi b'0')) || not files.mounted) ≡ false =
        rw (drive_zero, mounted) refl in
      rw (fopen, parsed, ◌>>=◌, test, mode_of_r, ◌>>=◌, opens, ◌>>=◌, add_descriptor, added) refl

  fseek_run :
      (fd offset : ℕ) (d : Descriptor fs.Private) (p : fs.Private)
      → get_descriptor files.table (pos fd) ≡ some d
      → fs.seek d.private_ offset seek_set ≡ (ok tt, p)
      → fseek fs files (pos fd) offset seek_set ≡ (
        ok tt,
        record files { table = set files.table (d.index - 1) (some (record d { private_ = p })) },
      )
  unfolding fseek
  fseek_run fd offset d p here moved = rw (fseek, here, moved) refl

  pub fread_run :
      (fd size nmemb : ℕ) (d : Descriptor fs.Private)
      → 0 < size
      → 0 < nmemb
      → 0 < fd
      → get_descriptor files.table (pos fd) ≡ some d
      → fread fs files size nmemb (pos fd) ≡ fs.read d.private_ size nmemb
  unfolding fread
  fread_run fd size nmemb d some_bytes some_elements positive here =
      rw
        (
          ==_of_ne size 0 (λ e. omega (arith, e)),
          ==_of_ne nmemb 0 (λ e. omega (arith, e)),
          ==_of_ne fd 0 (λ e. omega (arith, e)),
          here,
        )
        refl

seek_set_run :
    (item : DirectoryItem) (offset : ℕ)
    → offset < filesize item
    → fat16_seek (record { item = file_item item; pos = 0 }) offset seek_set
      ≡ (ok tt, record { item = file_item item; pos = offset })
unfolding fat16_seek seek_switch
seek_set_run item offset below =
    let inside : leb (filesize item) offset ≡ false = ground arith in rw inside refl

pub set-set : {A : Type 0} (xs : List A) (i : ℕ) (u v : A) → set (set xs i u) i v ≡ set xs i v
set-set [] i u v = refl
set-set (x ∷ xs) zero u v = refl
set-set (x ∷ xs) (suc i) u v = ap (λ r. x ∷ r) (set-set xs i u v)

-- A path of at most 128 bytes, "0:/" with the names of directories and of a file, each the sole name
-- that fits, is opened for reading when the disk is mounted and one of the first 511 entries of the
-- table of descriptors is free. A seek to an offset below the file's size then succeeds, and a read of
-- elements gives the bytes of the disk from that offset of the file on, when they are in the file's
-- first cluster, in the first 2 GiB of the kernel's disk, and no element starts inside a sector and
-- goes beyond it.
pub fread-fopen :
    (fuel : ℕ) (disk : Contents) (fat_private : FatPrivate) (files : Files FatFileDescriptor)
    (name : List ℕ) (names : List (List ℕ)) (after : List ℕ) (item : DirectoryItem)
    (k offset size nmemb : ℕ)
    → get_elem? files.table k ≡ some none
    → k + 1 < max_descriptors
    → files.mounted ≡ true
    → All IsPart (name ∷ names)
    → length (join (name ∷ names)) + 3 ≤ max_path
    → Leads fuel disk fat_private fat_private.root_directory
        (map buffer_of (name ∷ names))
        (file_item item)
    → offset < filesize item
    → fat_private.stream.known ≡ true
    → get_first_cluster_for_directory_item item < 2 ^ 31
    → 0 < size
    → 0 < nmemb
    → offset + nmemb * size ≤ size_of_cluster_bytes fat_private
    → file_byte fat_private item offset + nmemb * size < 2 ^ 31
    → ((i : ℕ) → i < nmemb → IsAligned (offset + i * size) size)
    → (fd : ℕ) × (opened : Files FatFileDescriptor) × (moved : Files FatFileDescriptor) × (fopen
          (fat16_fs fuel disk fat_private)
          files
          (b'0' ∷ b':' ∷ b'/' ∷ join (name ∷ names) ++ 0x00 ∷ after)
          r_mode
        ≡ some (fd, opened))
      × (0 < fd)
      × (fseek (fat16_fs fuel disk fat_private) opened (pos fd) offset seek_set ≡ (ok tt, moved))
      × (fread (fat16_fs fuel disk fat_private) moved size nmemb (pos fd)
          ≡ some (done (nmemb, disk_bytes disk (file_byte fat_private item offset) (nmemb * size))))
fread-fopen fuel disk fat_private files name names after item k offset size nmemb free below mounted
      parts short leads inside known small some_bytes some_elements whole near aligned =
    let fs = fat16_fs fuel disk fat_private in
    let start : FatFileDescriptor = record { item = file_item item; pos = 0 } in
    let there : FatFileDescriptor = record { item = file_item item; pos = offset } in
    let (i, low, room, empty, added) = new_descriptor_free files.table start k free below in
    let d : Descriptor FatFileDescriptor = record { index = i + 1; private_ = start } in
    let d' : Descriptor FatFileDescriptor = record { index = i + 1; private_ = there } in
    let table = set files.table i (some d) in
    let table' = set table (i + 1 - 1) (some d') in
    let opens =
      fat16_open-Leads fuel disk fat_private (buffer_of name) (map buffer_of names) (file_item item)
        leads in
    let same : table' ≡ set files.table i (some d') =
      ap (λ j. set table j (some d')) {x = i + 1 - 1} {y = i} (omega arith)
      ∙ set-set files.table i (some d) (some d') in
    let opened : Files FatFileDescriptor = record files { table = table } in
    let moved : Files FatFileDescriptor = record files { table = table' } in
    let here' : get_descriptor table' (pos (i + 1)) ≡ some d' =
      ap (λ t. get_descriptor t (pos (i + 1))) same
      ∙ get_descriptor-set_entry files.table i d' room low in
    (
      i + 1,
      opened,
      moved,
      fopen_run fs files name names after start (i + 1) table mounted parts short opens added,
      omega arith,
      fseek_run fs opened (i + 1) offset d there (get_descriptor-set_entry files.table i d room low)
          (seek_set_run item offset inside),
      fread_run fs moved (i + 1) size nmemb d' some_bytes some_elements (omega arith) here'
          ∙ fat16_read-file_byte disk fat_private item offset size nmemb known small some_bytes
              whole near aligned,
    )
