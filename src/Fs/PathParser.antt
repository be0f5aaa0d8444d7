-- ===== src/Fs/PathParser.antt =====
-- src/fs/pparser.c: the parser of paths such as 0:/bin/shell. A `const char**` is the rest of the
-- path, which each function returns. The list of `struct path_part` is the list of its buffers of
-- RAOS_MAX_PATH bytes. Allocations succeed: the code uses them unchecked. `none` is an access beyond
-- the path or beyond a buffer.
pub mod Parts
pub mod Parse
mod Tests
use ra_os.Base.{
  ℕ, zero, suc, ◌+◌, ◌==◌, if◌then◌else◌, ltb, leb, Bool, true, false, ◌||◌, ◌&&◌, Option, none,
  some, List, [], ◌∷◌, ◌>>=◌, store, replicate, length, Result, ok, err, ebadpath,
}
use ra_os.Base.Int.{ℤ, pos, negsuc}
use ra_os.Memory.{memcmp}
use ra_os.Strings.{strlen, strnlen, isdigit, chtoi}

-- RAOS_MAX_PATH
abbrev pub max_path : ℕ
max_path = 128

pub record PathRoot : Type 0 where
  pub drive_no : ℤ
  pub parts : List (List ℕ)

abbrev pub is_zero : ℤ → Bool
is_zero (pos n) = n == 0
is_zero (negsuc n) = false

-- The tests behind a failed one are not made.
unfoldable pub valid_format : List ℕ → Option Bool
valid_format filename = do
  len ← strnlen filename max_path
  elim (leb 3 len) [
    | false ↦ some false
    | true ↦ elim filename [
      | [] ↦ none
      | c ∷ rest ↦ elim (isdigit c) [
        | false ↦ some false
        | true ↦ do order ← memcmp rest (b':' ∷ b'/' ∷ []) 2; some (is_zero order)
      ]
    ]
  ]

abbrev pub skip_three : List ℕ → Option (List ℕ)
skip_three (a ∷ b ∷ c ∷ rest) = some rest
skip_three _ = none

-- The drive number, and the path behind the drive.
unfoldable pub get_drive_by_path : List ℕ → Option (Result (ℤ × List ℕ))
unfolding valid_format
get_drive_by_path path = do
  valid ← valid_format path
  elim valid [
    | false ↦ some (err ebadpath)
    | true ↦ elim path [
      | [] ↦ none
      | c ∷ more ↦ do rest ← skip_three (c ∷ more); some (ok (chtoi c, rest))
    ]
  ]

-- What the loop of `path_get_path_part` has read: the count of bytes, the buffer, and the rest.
pub record Scan : Type 0 where
  pub count : ℕ
  pub buffer : List ℕ
  pub left : List ℕ

unfoldable pub part_loop : List ℕ → ℕ → List ℕ → Option Scan
part_loop [] i buffer = none
part_loop (c ∷ path) i buffer =
    if c == b'/' || c == 0x00
    then some (record { count = i; buffer = buffer; left = c ∷ path })
    else (store buffer i c >>= λ written. part_loop path (i + 1) written)

-- `if (**path == '/') *path += 1;`
unfoldable pub skip_slash : List ℕ → Option (List ℕ)
skip_slash [] = none
skip_slash (c ∷ path) = some (if c == b'/' then path else c ∷ path)

-- The buffer, which is `none` (NULL) when no byte was read, and the rest of the path.
unfoldable pub get_path_part : List ℕ → Option (Option (List ℕ) × List ℕ)
unfolding part_loop skip_slash
get_path_part path = do
  scan ← part_loop path 0 (replicate max_path 0x00)
  rest ← skip_slash scan.left
  some (if scan.count == 0 then none else some scan.buffer, rest)

-- The calls of `path_parse_path_part` until one answers NULL. Each part takes a byte of the path, so
-- that fuel above its length is enough.
unfoldable pub parts_loop : ℕ → List ℕ → Option (List (List ℕ))
parts_loop zero path = none
parts_loop (suc fuel) path = do
  (part, rest) ← get_path_part path
  elim part [
    | none ↦ some []
    | some buffer ↦ do parts ← parts_loop fuel rest; some (buffer ∷ parts)
  ]

-- The inner `none` is NULL.
unfoldable pub parse : List ℕ → Option (Option PathRoot)
unfolding get_drive_by_path parts_loop
parse path = do
  len ← strlen path
  elim (ltb max_path len) [
    | true ↦ some none
    | false ↦ do
      drive ← get_drive_by_path path
      elim drive [
        | err e ↦ some none
        | ok (drive_no, str_path) ↦ do
          parts ← parts_loop (length path + 1) str_path
          some (some (record { drive_no = drive_no; parts = parts }))
      ]
  ]
