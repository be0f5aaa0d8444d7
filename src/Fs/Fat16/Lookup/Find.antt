-- ===== src/Fs/Fat16/Lookup/Find.antt =====
-- Finding a file of the root directory by its name.
use ra_os.Base.{
  done, ℕ, zero, suc, ◌+◌, ◌<◌, ◌≤◌, ◌≡◌, ◌≢◌, ◌>>=◌, refl, ◌∙◌, true, false, Bool, Option, none,
  some, List, arith, tests, get_elem?, Bool-cases, inl, inr, subst, ◌==◌, ne_of_==,
}
use ra_os.Strings.{istrncmp}
use ra_os.Disk.Streamer.{Contents}
use ra_os.Fs.PathParser.{max_path, is_zero}
use ra_os.Fs.Fat16.{DirectoryItem, Directory, FatPrivate}
use ra_os.Fs.Fat16.Names.{get_full_relative_filename}
use ra_os.Fs.Fat16.Lookup.{
  FatItem, new_fat_item_for_directory_item, find_loop, find_item_in_directory,
}

-- Whether an item has a name, up to the case of letters.
unfoldable pub has_name : DirectoryItem → List ℕ → Option Bool
has_name item name = do
  tmp_filename ← get_full_relative_filename item
  difference ← istrncmp tmp_filename name max_path
  some (is_zero difference)

unfoldable pub item_has_name : Directory → List ℕ → ℕ → Option Bool
unfolding has_name
item_has_name directory name i = get_elem? directory.items i >>= λ item. has_name item name

find_loop-next :
    (fuel : ℕ) (disk : Contents) (fat_private : FatPrivate) (rounds : ℕ) (directory : Directory)
    (name : List ℕ) (i : ℕ) (f_item : Option FatItem)
    → item_has_name directory name i ≡ some false
    → find_loop fuel disk fat_private (suc rounds) directory name i f_item
      ≡ find_loop fuel disk fat_private rounds directory name (i + 1) f_item
unfolding find_loop item_has_name has_name
find_loop-next fuel disk fat_private rounds directory name i f_item e = ground (arith, e)

find_loop-hit :
    (fuel : ℕ) (disk : Contents) (fat_private : FatPrivate) (rounds : ℕ) (directory : Directory)
    (name : List ℕ) (i : ℕ) (f_item : Option FatItem) (item : DirectoryItem) (found : FatItem)
    → get_elem? directory.items i ≡ some item
    → has_name item name ≡ some true
    → new_fat_item_for_directory_item fuel disk fat_private item ≡ some found
    → find_loop fuel disk fat_private (suc rounds) directory name i f_item
      ≡ find_loop fuel disk fat_private rounds directory name (i + 1) (some found)
unfolding find_loop has_name
find_loop-hit fuel disk fat_private rounds directory name i f_item item found at named new =
    ground (arith, at, named, new)

find_loop-rest :
    (rounds fuel : ℕ) (disk : Contents) (fat_private : FatPrivate) (directory : Directory)
    (name : List ℕ) (i : ℕ) (f_item : Option FatItem)
    → ((j : ℕ) → i ≤ j → j < i + rounds → item_has_name directory name j ≡ some false)
    → find_loop fuel disk fat_private rounds directory name i f_item ≡ some f_item
unfolding find_loop
find_loop-rest zero fuel disk fat_private directory name i f_item others = refl
find_loop-rest (suc rounds) fuel disk fat_private directory name i f_item others =
    find_loop-next fuel disk fat_private rounds directory name i f_item
      (others i (omega arith) (omega arith))
    ∙ find_loop-rest rounds fuel disk fat_private directory name (i + 1) f_item
        (λ j lo hi. others j (omega arith) (omega arith))

find_loop-only :
    (rounds fuel : ℕ) (disk : Contents) (fat_private : FatPrivate) (directory : Directory)
    (name : List ℕ) (i t : ℕ) (f_item : Option FatItem) (item : DirectoryItem) (found : FatItem)
    → get_elem? directory.items t ≡ some item
    → has_name item name ≡ some true
    → new_fat_item_for_directory_item fuel disk fat_private item ≡ some found
    → i ≤ t
    → t < i + rounds
    → ((j : ℕ) → j < i + rounds → j ≢ t → item_has_name directory name j ≡ some false)
    → find_loop fuel disk fat_private rounds directory name i f_item ≡ some (some found)
find_loop-only zero fuel disk fat_private directory name i t f_item item found at named new lo hi
      others =
    absurd (omega arith)
find_loop-only (suc rounds) fuel disk fat_private directory name i t f_item item found at named new
      lo hi others =
    elim (Bool-cases (i == t)) [
      | inl here ↦
          let same : t ≡ i = omega (tests, here) in
          find_loop-hit fuel disk fat_private rounds directory name i f_item item found
            (subst (λ k. get_elem? directory.items k ≡ some item) same at) named new
          ∙ find_loop-rest rounds fuel disk fat_private directory name (i + 1) (some found)
              (λ j above below. others j (omega arith) (λ e. omega arith))
      | inr there ↦
          let differs : i ≢ t = ne_of_== i t there in
          find_loop-next fuel disk fat_private rounds directory name i f_item
            (others i (omega arith) differs)
          ∙ find_loop-only rounds fuel disk fat_private directory name (i + 1) t f_item item found
              at named new (omega (arith, differs)) (omega arith)
              (λ j below. others j (omega arith))
    ]

-- The item alone has the name among those of the directory that are searched, as many as were
-- counted.
pub record IsSole (directory : Directory) (name : List ℕ) (item : DirectoryItem) : Type 0 where
  pub count : ℕ
  pub index : ℕ
  pub counted : directory.total ≡ done count
  pub below : index < count
  pub at : get_elem? directory.items index ≡ some item
  pub named : has_name item name ≡ some true
  pub others : (j : ℕ) → j < count → j ≢ index → item_has_name directory name j ≡ some false

find_item-total :
    (fuel : ℕ) (disk : Contents) (fat_private : FatPrivate) (directory : Directory) (name : List ℕ)
    (total : ℕ)
    → directory.total ≡ done total
    → find_item_in_directory fuel disk fat_private directory name
      ≡ find_loop fuel disk fat_private total directory name 0 none
unfolding find_item_in_directory
find_item-total fuel disk fat_private directory name total counted =
    simp (find_item_in_directory, counted) refl

-- A sole item is found.
pub find_item-IsSole :
    (fuel : ℕ) (disk : Contents) (fat_private : FatPrivate) (directory : Directory) (name : List ℕ)
    (item : DirectoryItem) (found : FatItem)
    → IsSole directory name item
    → new_fat_item_for_directory_item fuel disk fat_private item ≡ some found
    → find_item_in_directory fuel disk fat_private directory name ≡ some (some found)
find_item-IsSole fuel disk fat_private directory name item found sole new =
    find_item-total fuel disk fat_private directory name sole.count sole.counted
    ∙ find_loop-only sole.count fuel disk fat_private directory name 0 sole.index none item found
        sole.at sole.named new (omega arith) (omega (arith, sole.below))
        (λ j h. sole.others j (omega arith))
