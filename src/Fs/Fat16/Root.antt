-- ===== src/Fs/Fat16/Root.antt =====
-- Directories: counting their items, reading the root directory, and recognising the file system.
pub mod Count
pub mod Mounted
use ra_os.Base.{
  Outcome, done, failed, fails, ℕ, zero, suc, ◌+◌, ◌*◌, ◌/◌, ◌%◌, ◌^◌, ◌==◌, if◌then◌else◌, Bool,
  true, false, Option, none, some, List, [], ◌∷◌, ◌>>=◌, take, drop, ok, err, eio, efsnotus,
}
use ra_os.Disk.Streamer.{Contents, Stream, sector_size, seek, read}
use ra_os.Fs.Fat16.{
  fits_int, byte, DirectoryItem, item_size, Directory, Header, header_size, read_header, FatPrivate,
  read_at,
}

-- The loop of `fat16_get_total_items_for_directory`, which has counted `i` items.
unfoldable pub count_loop : ℕ → Contents → Stream → ℕ → Option (Outcome ℕ)
count_loop zero disk stream i = none
count_loop (suc fuel) disk stream i = do
  (res, item, moved) ← read 1 disk stream item_size
  elim res [
    | err e ↦ some (fails eio)
    | ok _ ↦ elim (byte item 0 == 0x00) [
      | true ↦ some (done i)
      | false ↦ count_loop fuel disk moved (if byte item 0 == 0xe5 then i else i + 1)
    ]
  ]

unfoldable pub get_total_items_for_directory : ℕ → Contents → Stream → ℕ → Option (Outcome ℕ)
unfolding count_loop
get_total_items_for_directory fuel disk stream directory_start_sector =
    let directory_start_pos = (directory_start_sector * sector_size) % 2 ^ 32 in
    if fits_int directory_start_pos
    then count_loop fuel disk (seek stream directory_start_pos) 0
    else none

-- The array of items that the bytes hold.
unfoldable pub split_items : ℕ → List ℕ → List DirectoryItem
split_items zero bytes = []
split_items (suc n) bytes = take item_size bytes ∷ split_items n (drop item_size bytes)

-- The count of the items is stored unchecked.
unfoldable pub get_root_directory : ℕ → Contents → Stream → Header → Option (Outcome Directory)
unfolding get_total_items_for_directory split_items read_at
get_root_directory fuel disk stream header = do
  let root_dir_sector_pos = header.fat_copies * header.sectors_per_fat + header.reserved_sectors
  let root_dir_size = header.root_dir_entries * item_size
  total_items ← get_total_items_for_directory fuel disk stream root_dir_sector_pos
  dir ← read_at disk stream (root_dir_sector_pos * sector_size) root_dir_size
  some (elim dir [
    | failed e ↦ fails eio
    | done bytes ↦ done (record {
      items = split_items header.root_dir_entries bytes;
      total = total_items;
      sector_pos = root_dir_sector_pos;
      end_sector_pos = root_dir_sector_pos + root_dir_size / sector_size;
    })
  ])

-- The value is what `disk->fs_private` holds afterwards; it is NULL after a failure.
unfoldable pub resolve : ℕ → Contents → Stream → Option (Outcome FatPrivate)
unfolding get_root_directory read_at
resolve fuel disk stream = do
  start ← read_at disk stream 0 header_size
  elim start [
    | failed e ↦ some (fails eio)
    | done bytes ↦ elim ((read_header bytes).signature == 0x29) [
      | false ↦ some (fails efsnotus)
      | true ↦ do
        root ← get_root_directory fuel disk stream (read_header bytes)
        some (elim root [
          | failed e ↦ fails eio
          | done directory ↦
              done
                (record { header = read_header bytes; root_directory = directory; stream = stream })
        ])
    ]
  ]
