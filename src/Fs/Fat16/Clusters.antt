-- ===== src/Fs/Fat16/Clusters.antt =====
-- The chain of clusters, and reading from it. Numbers that the code keeps in an `int` without
-- testing their sign are 32-bit patterns.
pub mod Reading
use ra_os.Base.{
  Outcome, done, failed, fails, minus, ℕ, zero, suc, ◌+◌, ◌-◌, ◌*◌, ◌/◌, ◌%◌, ◌^◌, ◌==◌,
  if◌then◌else◌, ltb, Bool, true, false, not, ◌||◌, ◌&&◌, Option, none, some, List, [], ◌∷◌, ◌++◌,
  ◌>>=◌, ok, err, eio,
}
use ra_os.Disk.Streamer.{Contents, Stream, sector_size}
use ra_os.Fs.Fat16.{
  fits_int, word, DirectoryItem, high_16_bits_first_cluster, low_16_bits_first_cluster, Directory,
  Header, FatPrivate, read_at,
}

abbrev pub get_first_cluster_for_directory_item : DirectoryItem → ℕ
get_first_cluster_for_directory_item item =
    high_16_bits_first_cluster item * 2 ^ 16 + low_16_bits_first_cluster item

-- RAOS_FAT16_ENTRY_SIZE
abbrev pub fat16_entry_size : ℕ
fat16_entry_size = 2

-- The position is a product, as in the code. An error of the read is an entry to the caller.
unfoldable pub get_fat_entry : Contents → FatPrivate → ℕ → Option ℕ
unfolding read_at
get_fat_entry disk fat_private cluster_pos = do
  let fat_table_position = fat_private.header.reserved_sectors * sector_size
  res ←
      read_at disk fat_private.stream
        ((fat_table_position * ((cluster_pos * fat16_entry_size) % 2 ^ 32)) % 2 ^ 32) 4
  some (elim res [ done bytes ↦ word bytes 0 | failed e ↦ e ])

-- Entries that end the chain with -EIO; 0xFF7 is RAOS_FAT16_BAD_SECTOR.
abbrev pub no_cluster : ℕ → Bool
no_cluster entry =
    (entry == 0xff8 || entry == 0xfff)
    || (entry == 0xff7 || ((entry == 0xff0 || entry == 0xff6) || entry == 0x00))

-- The loop of `fat16_get_cluster_for_offset` that follows `nclusters` entries.
unfoldable pub follow_chain : Contents → FatPrivate → ℕ → ℕ → Option (Outcome ℕ)
follow_chain disk fat_private zero cluster_pos =
    some (if fits_int cluster_pos then done cluster_pos else failed cluster_pos)
follow_chain disk fat_private (suc nclusters) cluster_pos = do
  entry ← get_fat_entry disk fat_private cluster_pos
  elim (no_cluster entry) [
    | true ↦ some (fails eio)
    | false ↦ follow_chain disk fat_private nclusters entry
  ]

abbrev pub size_of_cluster_bytes : FatPrivate → ℕ
size_of_cluster_bytes fat_private = fat_private.header.sectors_per_cluster * sector_size

unfoldable pub get_cluster_for_offset : Contents → FatPrivate → ℕ → ℕ → Option (Outcome ℕ)
unfolding follow_chain
get_cluster_for_offset disk fat_private start_cluster offset =
    elim (size_of_cluster_bytes fat_private == 0) [
      | true ↦ none
      | false ↦
          follow_chain disk fat_private (offset / size_of_cluster_bytes fat_private) start_cluster
    ]

-- The sector where cluster `cluster` starts; clusters count from 2.
unfoldable pub cluster_sector : FatPrivate → ℕ → ℕ
cluster_sector fat_private cluster =
    (fat_private.root_directory.end_sector_pos
      + (cluster + (2 ^ 32 - 2)) * fat_private.header.sectors_per_cluster)
    % 2 ^ 32

-- What is written to `out`, when no error occurs. The cluster of the offset is found and not used:
-- each round starts at `start_cluster`. A round takes a cluster, so that fuel above
-- `total / sector_size` is enough.
unfoldable pub read_items_of_directory :
    ℕ → Contents → FatPrivate → ℕ → ℕ → ℕ → Option (Outcome (List ℕ))
read_items_of_directory zero disk fat_private start_cluster offset total = none
read_items_of_directory (suc fuel) disk fat_private start_cluster offset total =
    let size = size_of_cluster_bytes fat_private in
    let starting_pos =
      (cluster_sector fat_private start_cluster * sector_size) % 2 ^ 32 + offset % size in
    let total_to_read = (if ltb size total then size else total) in
    elim (fits_int offset && fits_int total) [
      | false ↦ none
      | true ↦ do
        cluster_pos ← get_cluster_for_offset disk fat_private start_cluster offset
        elim cluster_pos [
          | failed e ↦ some (failed e)
          | done c ↦ do
            start ← read_at disk fat_private.stream (starting_pos % 2 ^ 32) total_to_read
            elim start [
              | failed e ↦ some (failed e)
              | done bytes ↦ elim (ltb size total) [
                | false ↦ some (done bytes)
                | true ↦ do
                  rest ←
                      read_items_of_directory fuel disk fat_private start_cluster
                        (offset + total_to_read) (total - total_to_read)
                  some (elim rest [ failed e ↦ failed e | done more ↦ done (bytes ++ more) ])
              ]
            ]
        ]
    ]
