-- ===== src/Fs/Fat16/System/Whole.antt =====
-- A whole file of the disk, as the loaders read it.
use ra_os.Base.{
  ℕ, zero, suc, ◌+◌, ◌-◌, ◌*◌, ◌^◌, ◌≤◌, ◌<◌, ◌≡◌, refl, ◌∙◌, ap, sym, bit_and, ◌==◌, if◌then◌else◌,
  true, none, some, some_eq, List, [], ◌∷◌, ◌++◌, ◌>>=◌, map, ok, done, length, get_elem?, set,
  arith, inl, All,
}
use ra_os.Base.Int.{pos}
use ra_os.Disk.Streamer.{Contents}
use ra_os.Disk.Streamer.Bytes.{disk_bytes}
use ra_os.Fs.PathParser.{max_path}
use ra_os.Fs.PathParser.Parts.{IsPart, buffer_of, join}
use ra_os.Fs.File.{
  FileSystem, Files, Descriptor, FileStat, max_descriptors, get_descriptor, free_descriptor, fstat,
  fclose,
}
use ra_os.Fs.File.Whole.{Holds}
use ra_os.Fs.Fat16.{FatPrivate, DirectoryItem, filesize, attribute, read_only}
use ra_os.Fs.Fat16.Clusters.{get_first_cluster_for_directory_item, size_of_cluster_bytes}
use ra_os.Fs.Fat16.Clusters.Reading.{IsAligned}
use ra_os.Fs.Fat16.Lookup.{file_item, FatFileDescriptor}
use ra_os.Fs.Fat16.Lookup.Path.{Leads, fat16_open-Leads}
use ra_os.Fs.Fat16.Calls.{fat16_stat}
use ra_os.Fs.Fat16.Calls.Reading.{file_byte, fat16_read-file_byte}
use ra_os.Fs.Fat16.System.{fat16_fs, fat16_close, fat16_fat_item_free}
use ra_os.Fs.Fat16.System.Opening.{
  new_descriptor_free, get_descriptor-set_entry, fopen_run, fread_run, set-set,
}

length-disk_bytes : (n : ℕ) (disk : Contents) (at : ℕ) → length (disk_bytes disk at n) ≡ n
unfolding disk_bytes
length-disk_bytes zero disk at = refl
length-disk_bytes (suc n) disk at = ap suc (length-disk_bytes n disk (at + 1))

set_same : {A : Type 0} (xs : List A) (i : ℕ) (v : A) → get_elem? xs i ≡ some v → set xs i v ≡ xs
set_same [] i v h = refl
set_same (x ∷ xs) zero v h = ap (λ y. y ∷ xs) (sym (some_eq h))
set_same (x ∷ xs) (suc i) v h = ap (λ r. x ∷ r) (set_same xs i v h)

module _ (fs : FileSystem) (files : Files fs.Private) (fd : ℕ) (d : Descriptor fs.Private)
    (here : get_descriptor files.table (pos fd) ≡ some d) where
  fstat_run : (stat : FileStat) → fs.stat d.private_ ≡ ok stat → fstat fs files (pos fd) ≡ ok stat
  unfolding fstat
  fstat_run stat has = rw (fstat, here) has

  fclose_run :
      fs.close d.private_ ≡ some (ok tt)
      → fclose fs files (pos fd)
        ≡ some (ok tt, record files { table = set files.table (d.index - 1) none })
  unfolding fclose free_descriptor
  fclose_run closed = rw (fclose, here, closed, ◌>>=◌, free_descriptor) refl

close_file :
    (item : DirectoryItem) (at : ℕ)
    → fat16_close (record { item = file_item item; pos = at }) ≡ some (ok tt)
unfolding fat16_close fat16_fat_item_free
close_file item at = refl

one_element : (j size : ℕ) → j < 1 → IsAligned (0 + j * size) size
unfolding IsAligned
one_element zero size h = inl (omega arith)
one_element (suc j) size h = absurd (omega arith)

-- A file of the disk can be read as a whole: a path of at most 128 bytes, "0:/" with the names of
-- directories and of the file, each the sole name that fits, names a file with the bytes of the disk
-- from its first cluster on, when the disk is mounted, one of the first 511 entries of the table of
-- descriptors is free, and the file is not empty and fits into its first cluster, in the first 2 GiB of
-- the kernel's disk.
pub fat16-Holds :
    (fuel : ℕ) (disk : Contents) (fat_private : FatPrivate) (files : Files FatFileDescriptor)
    (name : List ℕ) (names : List (List ℕ)) (after : List ℕ) (item : DirectoryItem) (k : ℕ)
    → get_elem? files.table k ≡ some none
    → k + 1 < max_descriptors
    → files.mounted ≡ true
    → All IsPart (name ∷ names)
    → length (join (name ∷ names)) + 3 ≤ max_path
    → Leads fuel disk fat_private fat_private.root_directory
        (map buffer_of (name ∷ names))
        (file_item item)
    → fat_private.stream.known ≡ true
    → get_first_cluster_for_directory_item item < 2 ^ 31
    → 0 < filesize item
    → filesize item ≤ size_of_cluster_bytes fat_private
    → file_byte fat_private item 0 + filesize item < 2 ^ 31
    → Holds
        (fat16_fs fuel disk fat_private)
        files
        (b'0' ∷ b':' ∷ b'/' ∷ join (name ∷ names) ++ 0x00 ∷ after)
        (disk_bytes disk (file_byte fat_private item 0) (filesize item))
unfolding fat16_stat
fat16-Holds fuel disk fat_private files name names after item k free below mounted parts short leads
      known small filled whole near =
    let fs = fat16_fs fuel disk fat_private in
    let start : FatFileDescriptor = record { item = file_item item; pos = 0 } in
    let (i, low, room, empty, added) = new_descriptor_free files.table start k free below in
    let d : Descriptor FatFileDescriptor = record { index = i + 1; private_ = start } in
    let opened : Files FatFileDescriptor = record files { table = set files.table i (some d) } in
    let here = get_descriptor-set_entry files.table i d room low in
    let at = file_byte fat_private item 0 in
    let size = filesize item in
    let stat : FileStat = record {
      flags = (if bit_and (attribute item) read_only == 0 then 0x00 else read_only);
      size = size;
    } in
    let one : 1 * size ≡ size = omega arith in
    let opens =
      fat16_open-Leads fuel disk fat_private (buffer_of name) (map buffer_of names) (file_item item)
        leads in
    let restored : set (set files.table i (some d)) (i + 1 - 1) none ≡ files.table =
      ap (λ j. set (set files.table i (some d)) j none) {x = i + 1 - 1} {y = i} (omega arith)
      ∙ set-set files.table i (some d) none
      ∙ set_same files.table i none empty in
    record {
      fd = i + 1;
      opened = opened;
      stat = stat;
      positive = omega arith;
      opens =
          fopen_run fs files name names after start (i + 1) opened.table mounted parts short opens
            added;
      has_stat = fstat_run fs opened (i + 1) d here stat refl;
      has_size = sym (length-disk_bytes size disk at);
      reads =
          fread_run fs opened (i + 1) size 1 d filled (omega arith) (omega arith) here
          ∙ fat16_read-file_byte disk fat_private item 0 size 1 known small filled (omega arith)
              (omega arith) (λ j h. one_element j size h)
          ∙ ap (λ n. some (done (1, disk_bytes disk at n))) one;
      closes =
          fclose_run fs opened (i + 1) d here (close_file item 0)
          ∙ ap (λ t. some (ok tt, record files { table = t })) restored;
    }
