-- ===== src/Fs/Fat16/Tests.antt =====
-- The theorems on the FAT16 file system at a small volume: one sector in front of the root directory,
-- which is a sector of sixteen items, and clusters of one sector.
use ra_os.Base.{
  done, ℕ, zero, suc, ◌+◌, ◌*◌, ◌<◌, ◌≡◌, ◌≢◌, ◌==◌, refl, if◌then◌else◌, true, none, some, [], ◌∷◌,
  ◌++◌, arith, inr, replicate, get_elem?,
}
use ra_os.Disk.Streamer.{Contents, Stream, sector_size, read, read_block, seek, copy_loop}
use ra_os.Disk.Streamer.Bytes.{disk_bytes}
use ra_os.Fs.Fat16.{read_at, Directory, DirectoryItem, item_size, FatPrivate}
use ra_os.Fs.Fat16.Root.Count.{disk_byte}
use ra_os.Fs.Fat16.Clusters.{
  cluster_sector, get_cluster_for_offset, follow_chain, get_fat_entry, read_items_of_directory,
}
use ra_os.Fs.Fat16.Clusters.Reading.{IsAligned, read_items_of_directory-wraps}
use ra_os.Fs.Fat16.Lookup.{directory_item, new_fat_item_for_directory_item, file_item}
use ra_os.Fs.Fat16.Calls.{fat16_read, fat16_seek}
use ra_os.Fs.File.{seek_set}
use ra_os.Fs.Fat16.Calls.Seeking.{IsInside, fat16_seek-IsInside}
use ra_os.Fs.Fat16.Calls.Reading.{cluster_of, place_of, fat16_read-disk_bytes}

abbrev test_stream : Stream
test_stream = record { position = 0; known = true }

-- A.TXT, whose first cluster is 3 and whose size is 700.
abbrev pub a_txt : DirectoryItem
a_txt =
    (b'A' ∷ replicate 7 0x20)
    ++ (b'T' ∷ b'X' ∷ b'T' ∷ (0x20 ∷ (replicate 14 0 ++ (3 ∷ 0 ∷ 188 ∷ 2 ∷ 0 ∷ 0 ∷ []))))

-- An unused item, A.TXT, and the end of the directory.
abbrev volume_byte : ℕ → ℕ
volume_byte at =
    if at == 13
    then 1
    else if at == 14
    then 1
    else if at == 17
    then 16
    else if at == 38
    then 0x29
    else if at == 512
    then 0xe5
    else elim (get_elem? (replicate 544 0 ++ a_txt) at) [ none ↦ 0 | some b ↦ b ]

abbrev pub volume : Contents
volume sector i = volume_byte (sector * sector_size + i)

abbrev volume_private : FatPrivate
volume_private = record {
  header = record {
    sectors_per_cluster = 1;
    reserved_sectors = 1;
    fat_copies = 0;
    root_dir_entries = 16;
    sectors_per_fat = 0;
    signature = 0x29;
  };
  root_directory = record {
    items = a_txt ∷ [];
    total = done 1;
    sector_pos = 1;
    end_sector_pos = 2;
  };
  stream = test_stream;
}

fat16_seek-IsInside_example :
    IsInside (fat16_seek (record { item = file_item a_txt; pos = 5 }) 600 seek_set).1
unfolding IsInside
fat16_seek-IsInside_example =
    fat16_seek-IsInside (record { item = file_item a_txt; pos = 5 }) 600 seek_set
      (λ e. ground (arith, e)) (omega arith)

fat16_read-disk_bytes_example :
    fat16_read volume volume_private (record { item = file_item a_txt; pos = 8 }) 100 2
    ≡ some (done (2, disk_bytes volume (place_of volume_private (cluster_of a_txt) 8) 200))
unfolding IsAligned cluster_sector
fat16_read-disk_bytes_example =
    fat16_read-disk_bytes volume volume_private a_txt 8 100 2 refl (omega arith) (omega arith)
      (omega arith) (omega arith) (omega arith) (λ i h. inr (omega arith))

pub items_before : (k : ℕ) → k < 2 → disk_byte volume (512 + k * item_size) ≢ 0
items_before zero below e = omega (arith, e)
items_before (suc zero) below e = omega (arith, e)
items_before (suc (suc k)) below e = absurd (omega arith)

-- The entry of cluster 3 is read at byte 3072, and is 1.
abbrev chained_volume : Contents
chained_volume sector i =
    if sector * sector_size + i == 3072 then 1 else volume_byte (sector * sector_size + i)

read_items_of_directory-wraps_example :
    read_items_of_directory 1 chained_volume volume_private 3 520 100
    ≡ read_items_of_directory 1 chained_volume volume_private 3 8 100
unfolding get_cluster_for_offset follow_chain get_fat_entry read read_block seek copy_loop
read_items_of_directory-wraps_example =
    read_items_of_directory-wraps 0 chained_volume volume_private 3 520 100 1 (omega arith)
      (omega arith) (omega arith) refl (omega arith) (omega arith)

-- SUB, a directory whose first cluster is 3.
abbrev pub sub : DirectoryItem
sub =
    (b'S' ∷ b'U' ∷ b'B' ∷ replicate 8 0x20)
    ++ (0x10 ∷ (replicate 14 0 ++ (3 ∷ 0 ∷ 0 ∷ 0 ∷ 0 ∷ 0 ∷ [])))

-- Sector 3 holds A.TXT and the end of the directory.
abbrev pub nested_volume : Contents
nested_volume sector i =
    if sector == 3 then elim (get_elem? a_txt i) [ none ↦ 0 | some b ↦ b ] else 0

abbrev pub sub_directory : Directory
sub_directory = record { items = a_txt ∷ []; total = done 1; sector_pos = 0; end_sector_pos = 0 }

abbrev pub nested_private : FatPrivate
nested_private = record {
  header = volume_private.header;
  root_directory = record { items = sub ∷ []; total = done 1; sector_pos = 1; end_sector_pos = 2 };
  stream = test_stream;
}

pub sub_found :
    new_fat_item_for_directory_item 3 nested_volume nested_private sub
    ≡ some (directory_item (some sub_directory))
unfolding new_fat_item_for_directory_item read read_block seek copy_loop get_cluster_for_offset
    read_at
sub_found = refl

pub a_found :
    new_fat_item_for_directory_item 3 nested_volume nested_private a_txt ≡ some (file_item a_txt)
unfolding new_fat_item_for_directory_item
a_found = refl
