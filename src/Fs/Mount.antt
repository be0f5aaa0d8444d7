-- ===== src/Fs/Mount.antt =====
-- src/fs/file.c: the table of file systems, and how a disk finds its own. A file system is known by
-- its `resolve` function alone here, which answers 0 for a disk that it can read, and may change the
-- disk.
pub mod Resolve
use ra_os.Base.{true, false, ℕ, zero, suc, ◌+◌, Option, none, some, List, [], ◌∷◌, set}
use ra_os.Base.Int.{ℤ}
use ra_os.Fs.PathParser.{is_zero}

-- RAOS_MAX_FILESYSTEMS
abbrev pub max_filesystems : ℕ
max_filesystems = 16

-- The array `filesystems`; `none` is NULL.
abbrev pub Systems : Type 0 → Type 0
Systems F = List (Option F)

module _ {F : Type 0} where
  -- The index of the first free entry, from index `i` on.
  unfoldable pub get_free_filesystem : Systems F → ℕ → Option ℕ
  get_free_filesystem [] i = none
  get_free_filesystem (none ∷ systems) i = some i
  get_free_filesystem (some fs ∷ systems) i = get_free_filesystem systems (i + 1)

  -- `none` is the endless loop after the message.
  unfoldable pub insert_filesystem : Systems F → F → Option (Systems F)
  unfolding get_free_filesystem
  insert_filesystem systems fs = elim (get_free_filesystem systems 0) [
    | none ↦ none
    | some i ↦ some (set systems i (some fs))
  ]

  -- The file system that is bound to the disk, and the disk.
  unfoldable pub resolve : {D : Type 0} → (F → D → ℤ × D) → Systems F → D → Option F × D
  resolve try [] disk = (none, disk)
  resolve try (none ∷ systems) disk = resolve try systems disk
  resolve try (some fs ∷ systems) disk =
      let (res, disk') = try fs disk in
      let rest = resolve try systems disk' in
      elim (is_zero res) [ true ↦ (some fs, disk') | false ↦ rest ]
