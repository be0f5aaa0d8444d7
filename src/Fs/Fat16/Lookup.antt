-- ===== src/Fs/Fat16/Lookup.antt =====
-- From a path to the item on the disk.
pub mod Find
pub mod Path
use ra_os.Base.{
  Outcome, done, failed, fails, ℕ, zero, suc, ◌+◌, ◌-◌, ◌*◌, ◌/◌, ◌%◌, ◌^◌, ◌==◌, if◌then◌else◌,
  ltb, Bool, true, false, not, Option, none, some, List, [], ◌∷◌, ◌++◌, ◌>>=◌, get_elem?, ok, err,
  eio,
}
use ra_os.Strings.{istrncmp}
use ra_os.Disk.Streamer.{Contents, Stream, sector_size}
use ra_os.Fs.PathParser.{max_path, is_zero}
use ra_os.Fs.File.{FileMode, read_mode}
use ra_os.Fs.Fat16.{DirectoryItem, item_size, is_subdirectory, Directory, FatPrivate}
use ra_os.Fs.Fat16.Names.{get_full_relative_filename}
use ra_os.Fs.Fat16.Root.{get_total_items_for_directory, split_items}
use ra_os.Fs.Fat16.Clusters.{
  get_first_cluster_for_directory_item, cluster_sector, read_items_of_directory,
}

-- `struct fat_item`, its type and its union; `none` is a pointer to a directory that was freed.
pub data FatItem : Type 0 where
  directory_item : Option Directory → FatItem
  file_item : DirectoryItem → FatItem

-- For an item that is a subdirectory. A failure to read the items frees the directory and returns it. A
-- failure to count them asks for memory of a negative size, which wraps to no blocks at all, and clears so
-- many bytes from there on, beyond the heap: `none`.
unfoldable pub load_fat_directory :
    ℕ → Contents → FatPrivate → DirectoryItem → Option (Option Directory)
unfolding read_items_of_directory cluster_sector get_total_items_for_directory split_items
load_fat_directory fuel disk fat_private item = do
  let first_cluster = get_first_cluster_for_directory_item item
  total_items ←
      get_total_items_for_directory fuel disk fat_private.stream
        (cluster_sector fat_private first_cluster)
  elim total_items [
    | failed e ↦ none
    | done total ↦ do
      let directory_size = total * item_size
      res ←
          read_items_of_directory (directory_size / sector_size + 1) disk fat_private first_cluster
            0x00 directory_size
      some (elim res [
        | failed e ↦ none
        | done bytes ↦ some (record {
          items = split_items total bytes;
          total = done total;
          sector_pos = 0;
          end_sector_pos = 0;
        })
      ])
  ]

unfoldable pub new_fat_item_for_directory_item :
    ℕ → Contents → FatPrivate → DirectoryItem → Option FatItem
unfolding load_fat_directory
new_fat_item_for_directory_item fuel disk fat_private item = elim (is_subdirectory item) [
  | true ↦ (load_fat_directory fuel disk fat_private item >>= λ dir. some (directory_item dir))
  | false ↦ some (file_item item)
]

-- The loop of `fat16_find_item_in_directory`: `rounds` items from index `i` on. Each match replaces
-- the item that was found before.
unfoldable pub find_loop :
    ℕ
    → Contents
    → FatPrivate
    → ℕ
    → Directory
    → List ℕ
    → ℕ
    → Option FatItem
    → Option (Option FatItem)
unfolding new_fat_item_for_directory_item get_full_relative_filename
find_loop fuel disk fat_private zero directory name i f_item = some f_item
find_loop fuel disk fat_private (suc rounds) directory name i f_item = do
  item ← get_elem? directory.items i
  tmp_filename ← get_full_relative_filename item
  difference ← istrncmp tmp_filename name max_path
  elim (is_zero difference) [
    | true ↦ do
      found ← new_fat_item_for_directory_item fuel disk fat_private item
      find_loop fuel disk fat_private rounds directory name (i + 1) (some found)
    | false ↦ find_loop fuel disk fat_private rounds directory name (i + 1) f_item
  ]

-- The value is NULL or the item. A negative count of items ends the loop at once.
unfoldable pub find_item_in_directory :
    ℕ → Contents → FatPrivate → Directory → List ℕ → Option (Option FatItem)
unfolding find_loop
find_item_in_directory fuel disk fat_private directory name = elim directory.total [
  | failed e ↦ some none
  | done total ↦ find_loop fuel disk fat_private total directory name 0 none
]

-- The loop of `fat16_get_directory_entry` over the parts behind the first. It goes on to use an item
-- that was not found.
unfoldable pub entry_loop :
    ℕ → Contents → FatPrivate → List (List ℕ) → Option FatItem → Option (Option FatItem)
unfolding find_item_in_directory
entry_loop fuel disk fat_private [] current_item = some current_item
entry_loop fuel disk fat_private (part ∷ parts) none = none
entry_loop fuel disk fat_private (part ∷ parts) (some (file_item item)) = some none
entry_loop fuel disk fat_private (part ∷ parts) (some (directory_item none)) = none
entry_loop fuel disk fat_private (part ∷ parts) (some (directory_item (some directory))) = do
  tmp_item ← find_item_in_directory fuel disk fat_private directory part
  entry_loop fuel disk fat_private parts tmp_item

-- A path without a part is NULL, whose first part is read; when the first part is not found, the
-- value returned is uninitialised.
unfoldable pub get_directory_entry :
    ℕ → Contents → FatPrivate → List (List ℕ) → Option (Option FatItem)
unfolding find_item_in_directory entry_loop
get_directory_entry fuel disk fat_private [] = none
get_directory_entry fuel disk fat_private (part ∷ parts) = do
  root_item ← find_item_in_directory fuel disk fat_private fat_private.root_directory part
  elim root_item [ none ↦ none | some item ↦ entry_loop fuel disk fat_private parts (some item) ]

-- `struct fat_file_descriptor`
pub record FatFileDescriptor : Type 0 where
  pub item : FatItem
  pub pos : ℕ

-- In another mode than for reading an uninitialised pointer is freed.
unfoldable pub fat16_open :
    ℕ → Contents → FatPrivate → List (List ℕ) → FileMode → Option (Outcome FatFileDescriptor)
unfolding get_directory_entry
fat16_open fuel disk fat_private path read_mode = do
  entry ← get_directory_entry fuel disk fat_private path
  some (elim entry [ none ↦ fails eio | some item ↦ done (record { item = item; pos = 0 }) ])
fat16_open fuel disk fat_private path mode = none
