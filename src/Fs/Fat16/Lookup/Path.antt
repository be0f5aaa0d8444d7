-- ===== src/Fs/Fat16/Lookup/Path.antt =====
-- Opening a file along a path of directories.
use ra_os.Base.{done, ℕ, ◌≡◌, ◌>>=◌, refl, some, List, [], ◌∷◌}
use ra_os.Disk.Streamer.{Contents}
use ra_os.Fs.File.{read_mode}
use ra_os.Fs.Fat16.{DirectoryItem, Directory, FatPrivate}
use ra_os.Fs.Fat16.Lookup.{
  FatItem, directory_item, new_fat_item_for_directory_item, find_item_in_directory, entry_loop,
  get_directory_entry, fat16_open,
}
use ra_os.Fs.Fat16.Lookup.Find.{IsSole, find_item-IsSole}

module _ (fuel : ℕ) (disk : Contents) (fat_private : FatPrivate) where
  -- The parts of a path lead from a directory to an item: each names a sole item of the directory
  -- before it, and each but the last is a directory that can be loaded.
  pub data Leads : Directory → List (List ℕ) → FatItem → Type 0 where
    last :
        (directory : Directory) (name : List ℕ) (item : DirectoryItem) (found : FatItem)
        → IsSole directory name item
        → new_fat_item_for_directory_item fuel disk fat_private item ≡ some found
        → Leads directory (name ∷ []) found
    into :
        (directory next : Directory) (name part : List ℕ) (parts : List (List ℕ))
        (item : DirectoryItem) (found : FatItem)
        → IsSole directory name item
        → new_fat_item_for_directory_item fuel disk fat_private item
          ≡ some (directory_item (some next))
        → Leads next (part ∷ parts) found
        → Leads directory (name ∷ part ∷ parts) found

  -- The first part is found, and the loop over the others ends at the item.
  walk :
      (directory : Directory) (name : List ℕ) (parts : List (List ℕ)) (found : FatItem)
      → Leads directory (name ∷ parts) found
      → (first : FatItem) × (find_item_in_directory fuel disk fat_private directory name
          ≡ some (some first))
        × (entry_loop fuel disk fat_private parts (some first) ≡ some (some found))
  unfolding entry_loop
  walk _ _ _ _ (last directory name item found sole new) =
      (found, find_item-IsSole fuel disk fat_private directory name item found sole new, refl)
  walk _ _ _ _ (into directory next name part parts item found sole new rest) =
      let (first, here, on) = walk next part parts found rest in
      (
        directory_item (some next),
        find_item-IsSole fuel disk fat_private directory name item (directory_item (some next)) sole
            new,
        rw (here, ◌>>=◌) on,
      )

-- A path whose parts lead from the root directory to an item, each by the one full name that fits up
-- to the case of letters, is opened for reading at that item, at position 0.
pub fat16_open-Leads :
    (fuel : ℕ) (disk : Contents) (fat_private : FatPrivate) (name : List ℕ) (parts : List (List ℕ))
    (found : FatItem)
    → Leads fuel disk fat_private fat_private.root_directory (name ∷ parts) found
    → fat16_open fuel disk fat_private (name ∷ parts) read_mode
      ≡ some (done (record { item = found; pos = 0 }))
unfolding fat16_open get_directory_entry
fat16_open-Leads fuel disk fat_private name parts found leads =
    let (first, here, on) =
      walk fuel disk fat_private fat_private.root_directory name parts found leads in
    rw (here, ◌>>=◌, on) refl
