-- ===== src/Fs/File.antt =====
-- src/fs/file.c: file descriptors over a file system, which is the record of functions that a
-- `struct filesystem` holds. There is one disk, and it has one file system or none. Allocations
-- succeed: the code uses them unchecked. `none` is an access beyond a string.
pub mod Table
pub mod Calls
pub mod Whole
mod Tests
use ra_os.Base.{
  Outcome, done, failed, fails, ℕ, zero, suc, ◌+◌, ◌-◌, ◌==◌, if◌then◌else◌, ltb, leb, Bool, true,
  false, not, ◌||◌, ◌&&◌, Option, none, some, List, [], ◌∷◌, ◌>>=◌, Result, ok, err, eio, einvarg,
  enomem, set, get_elem?, replicate,
}
use ra_os.Base.Int.{ℤ, pos, negsuc}
use ra_os.Strings.{strncmp}
use ra_os.Fs.PathParser.{PathRoot, is_zero, parse}

-- FILE_MODE
pub data FileMode : Type 0 where
  read_mode write_mode append_mode invalid : FileMode

-- FILE_SEEK_MODE, and the other values of its type.
pub data SeekMode : Type 0 where
  seek_set seek_cur seek_end other : SeekMode

-- `struct file_stat`
pub record FileStat : Type 0 where
  pub flags : ℕ
  pub size : ℕ

-- `struct filesystem`. A call that changes what `private_` points to returns the new value; `none` is a
-- fault inside of the file system.
pub record FileSystem : Type 1 where
  pub Private : Type 0
  pub open_path : List (List ℕ) → FileMode → Option (Outcome Private)
  pub read : Private → ℕ → ℕ → Option (Outcome (ℕ × List ℕ))
  pub seek : Private → ℕ → SeekMode → Result (Unit {0}) × Private
  pub stat : Private → Result FileStat
  pub close : Private → Option (Result (Unit {0}))

-- RAOS_MAX_FILE_DESCRIPTORS
abbrev pub max_descriptors : ℕ
max_descriptors = 512

-- `struct file_descriptor`
pub record Descriptor (P : Type 0) : Type 0 where
  pub index : ℕ
  pub private_ : P

-- The array `filedescriptors`; `none` is NULL.
abbrev pub Table : Type 0 → Type 0
Table P = List (Option (Descriptor P))

pub record Files (P : Type 0) : Type 0 where
  pub table : Table P
  pub mounted : Bool

abbrev pub join : {A : Type 0} → Option (Option A) → Option A
join none = none
join (some o) = o

module _ {P : Type 0} where
  -- The loop of `file_new_descriptor` that looks for a free entry, from index `i` on.
  unfoldable pub free_slot_loop : Table P → ℕ → Option ℕ
  free_slot_loop [] i = none
  free_slot_loop (none ∷ table) i = some i
  free_slot_loop (some d ∷ table) i = free_slot_loop table (i + 1)

  -- The descriptor number, and the new table.
  unfoldable pub new_descriptor : Table P → P → Result (ℕ × Table P)
  new_descriptor table p = elim (free_slot_loop table 0) [
    | none ↦ err enomem
    | some i ↦ ok (i + 1, set table i (some (record { index = i + 1; private_ = p })))
  ]

  unfoldable pub get_descriptor : Table P → ℤ → Option (Descriptor P)
  get_descriptor table (negsuc n) = none
  get_descriptor table (pos fd) =
      if fd == 0 || leb max_descriptors fd then none else join (get_elem? table (fd - 1))

  unfoldable pub free_descriptor : Table P → Descriptor P → Table P
  free_descriptor table fdesc = set table (fdesc.index - 1) none

-- The mode "r".
abbrev pub r_mode : List ℕ
r_mode = b'r' ∷ 0x00 ∷ []

-- The first byte decides.
unfoldable pub get_mode_by_string : List ℕ → Option FileMode
get_mode_by_string str = do
  r ← strncmp str (b'r' ∷ 0x00 ∷ []) 1
  w ← strncmp str (b'w' ∷ 0x00 ∷ []) 1
  a ← strncmp str (b'a' ∷ 0x00 ∷ []) 1
  some (
      if is_zero r
      then read_mode
      else if is_zero w
      then write_mode
      else if is_zero a
      then append_mode
      else invalid)

module _ (fs : FileSystem) where
  open fs use {Private, open_path, read, seek, stat, close}

  -- What `fopen` does with the private data. The result 0 stands for an error.
  unfoldable pub add_descriptor : Files Private → Outcome Private → ℕ × Files Private
  add_descriptor files (failed e) = (0, files)
  add_descriptor files (done p) = elim (new_descriptor files.table p) [
    | err e ↦ (0, files)
    | ok (fd, table) ↦ (fd, record files { table = table })
  ]

  -- What `fopen` does once the path and the mode are known.
  unfoldable pub open_descriptor :
      Files Private → List (List ℕ) → FileMode → Option (ℕ × Files Private)
  unfolding add_descriptor
  open_descriptor files path invalid = some (0, files)
  open_descriptor files path mode =
      open_path path mode >>= λ opened. some (add_descriptor files opened)

  -- `disk_get` knows disk 0 alone.
  unfoldable pub open_root : Files Private → PathRoot → List ℕ → Option (ℕ × Files Private)
  unfolding open_descriptor
  open_root files root mode_str = elim root.parts [
    | [] ↦ some (0, files)
    | part ∷ path ↦
        if not (is_zero root.drive_no) || not files.mounted
        then some (0, files)
        else do mode ← get_mode_by_string mode_str; open_descriptor files (part ∷ path) mode
  ]

  unfoldable pub fopen : Files Private → List ℕ → List ℕ → Option (ℕ × Files Private)
  unfolding open_root
  fopen files filename mode_str = do
    root ← parse filename
    elim root [ none ↦ some (0, files) | some root_path ↦ open_root files root_path mode_str ]

  abbrev pub below_one : ℤ → Bool
  below_one (pos n) = n == 0
  below_one (negsuc n) = true

  unfoldable pub fread : Files Private → ℕ → ℕ → ℤ → Option (Outcome (ℕ × List ℕ))
  fread files size nmemb fd =
      if size == 0 || (nmemb == 0 || below_one fd)
      then some (fails einvarg)
      else elim (get_descriptor files.table fd) [
        | none ↦ some (fails einvarg)
        | some desc ↦ read desc.private_ size nmemb
      ]

  -- The position lies in the private data, which the descriptor keeps.
  unfoldable pub fseek : Files Private → ℤ → ℕ → SeekMode → Result (Unit {0}) × Files Private
  fseek files fd offset whence = elim (get_descriptor files.table fd) [
    | none ↦ (err eio, files)
    | some desc ↦
        let (res, p) = seek desc.private_ offset whence in
        (
          res,
          record files {
            table = set files.table (desc.index - 1) (some (record desc { private_ = p }));
          },
        )
  ]

  unfoldable pub fstat : Files Private → ℤ → Result FileStat
  fstat files fd = elim (get_descriptor files.table fd) [
    | none ↦ err eio
    | some desc ↦ stat desc.private_
  ]

  unfoldable pub fclose : Files Private → ℤ → Option (Result (Unit {0}) × Files Private)
  unfolding free_descriptor
  fclose files fd = elim (get_descriptor files.table fd) [
    | none ↦ some (err eio, files)
    | some desc ↦ do
      res ← close desc.private_
      some (elim res [
        | err e ↦ (err e, files)
        | ok _ ↦ (ok tt, record files { table = free_descriptor files.table desc })
      ])
  ]
