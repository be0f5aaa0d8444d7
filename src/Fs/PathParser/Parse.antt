-- ===== src/Fs/PathParser/Parse.antt =====
-- `path_parse` as a whole: what it makes of every string.
use ra_os.Base.{
  ℕ, ◌+◌, ◌≤◌, ◌<◌, ◌≡◌, refl, ◌≢◌, ap, ◌∙◌, ◌==◌, Bool, true, false, ◌&&◌, Option, none, some,
  List, [], ◌∷◌, ◌++◌, map, arith, length, Bool-cases, ◌⊎◌, inl, inr, length-append, All, ok, err,
  ebadpath,
}
use native.Mathlib.Decide.{dec_lt}
use ra_os.Memory.{memcmp}
use ra_os.Strings.{isdigit, chtoi}
use ra_os.Strings.Length.{NonZero, strlen-length, strnlen-min}
use ra_os.Fs.PathParser.{max_path, PathRoot, valid_format, get_drive_by_path, parts_loop, parse}
use ra_os.Fs.PathParser.Parts.{IsName, IsPart, buffer_of, join, parts_loop-join, parts_loop-total}

-- The string begins with a digit, a colon and a slash.
abbrev pub has_drive : List ℕ → Bool
has_drive (a ∷ b ∷ c ∷ s) = isdigit a && (b == b':' && c == b'/')
has_drive _ = false

-- The test of the format looks for exactly that.
valid_format-has_drive :
    (s after : List ℕ) → NonZero s → valid_format (s ++ 0x00 ∷ after) ≡ some (has_drive s)
unfolding valid_format memcmp
valid_format-has_drive [] after h =
    rw (strnlen-min [] after max_path h (omega arith), valid_format) refl
valid_format-has_drive (a ∷ []) after h =
    rw (strnlen-min (a ∷ []) after max_path h (omega arith)) refl
valid_format-has_drive (a ∷ b ∷ []) after h =
    rw (strnlen-min (a ∷ b ∷ []) after max_path h (omega arith)) refl
valid_format-has_drive (a ∷ b ∷ c ∷ s) after h =
    rw (strnlen-min (a ∷ b ∷ c ∷ s) after max_path h (omega arith)) (ground arith)

get_drive_by_path-bad :
    (path : List ℕ) → valid_format path ≡ some false → get_drive_by_path path ≡ some (err ebadpath)
unfolding get_drive_by_path
get_drive_by_path-bad path h = rw (h, get_drive_by_path) refl

-- A path that is longer than 128 bytes, or does not begin with a drive, is parsed to NULL.
pub parse-null :
    (s after : List ℕ)
    → NonZero s
    → (max_path < length s) ⊎ (has_drive s ≡ false)
    → parse (s ++ 0x00 ∷ after) ≡ some none
unfolding parse
parse-null s after h (inl long) = ground (arith, strlen-length s after h)
parse-null s after h (inr no_drive) = ground (
  arith,
  strlen-length s after h,
  get_drive_by_path-bad (s ++ 0x00 ∷ after) (valid_format-has_drive s after h ∙ ap some no_drive),
)

get_drive_by_path-ok :
    (a b c : ℕ) (rest : List ℕ)
    → valid_format (a ∷ b ∷ c ∷ rest) ≡ some true
    → get_drive_by_path (a ∷ b ∷ c ∷ rest) ≡ some (ok (chtoi a, rest))
unfolding get_drive_by_path
get_drive_by_path-ok a b c rest h = rw (h, get_drive_by_path) refl

parse-drive :
    (a b c : ℕ) (s after : List ℕ)
    → NonZero (a ∷ b ∷ c ∷ s)
    → has_drive (a ∷ b ∷ c ∷ s) ≡ true
    → length s + 3 ≤ max_path
    → (parts : List (List ℕ))
    → parts_loop (length (a ∷ b ∷ c ∷ s ++ 0x00 ∷ after) + 1) (s ++ 0x00 ∷ after) ≡ some parts
    → parse (a ∷ b ∷ c ∷ s ++ 0x00 ∷ after)
      ≡ some (some (record { drive_no = chtoi a; parts = parts }))
unfolding parse
parse-drive a b c s after h drive k parts done =
    let valid = valid_format-has_drive (a ∷ b ∷ c ∷ s) after h ∙ ap some drive in
    ground (
      arith,
      strlen-length (a ∷ b ∷ c ∷ s) after h,
      get_drive_by_path-ok a b c (s ++ 0x00 ∷ after) valid,
    )

IsName-NonZero : (name : List ℕ) → IsName name → NonZero name
IsName-NonZero [] h = tt
IsName-NonZero (c ∷ name) h = (h.0.0, IsName-NonZero name h.1)

All-append : (xs ys : List ℕ) → NonZero xs → NonZero ys → NonZero (xs ++ ys)
All-append [] ys h k = k
All-append (x ∷ xs) ys h k = (h.0, All-append xs ys h.1 k)

join-NonZero : (names : List (List ℕ)) → All IsPart names → NonZero (join names)
join-NonZero [] h = tt
join-NonZero (name ∷ []) h = IsName-NonZero name h.0.bytes
join-NonZero (name ∷ next ∷ names) h =
    All-append name (b'/' ∷ join (next ∷ names)) (IsName-NonZero name h.0.bytes)
      ((omega arith), join-NonZero (next ∷ names) h.1)

length-join : (names : List (List ℕ)) → All IsPart names → length names ≤ length (join names)
length-join [] h = omega arith
length-join (name ∷ []) h = omega (arith, h.0.filled)
length-join (name ∷ next ∷ names) h =
    omega (arith, length-join (next ∷ names) h.1, length-append name (b'/' ∷ join (next ∷ names)))

isdigit-ne_zero : (c : ℕ) → isdigit c ≡ true → c ≢ 0
unfolding isdigit
isdigit-ne_zero c h = ground arith

-- A path that is printed from a drive digit and parts is parsed to that drive and those parts, each
-- in its buffer, when it has at most 128 bytes.
pub parse-join :
    (digit : ℕ) (names : List (List ℕ)) (after : List ℕ)
    → isdigit digit ≡ true
    → All IsPart names
    → length (join names) + 3 ≤ max_path
    → parse (digit ∷ b':' ∷ b'/' ∷ join names ++ 0x00 ∷ after)
      ≡ some (some (record { drive_no = chtoi digit; parts = map buffer_of names }))
parse-join digit names after d h k =
    parse-drive digit b':' b'/' (join names) after
      (isdigit-ne_zero digit d, ((omega arith), ((omega arith), join-NonZero names h))) (rw d refl)
      k (map buffer_of names)
      (parts_loop-join names after _ h (omega arith)
        (omega (arith, length-join names h, length-append (join names) (0x00 ∷ after))))

with_drive :
    (s after : List ℕ)
    → NonZero s
    → has_drive s ≡ true
    → length s ≤ max_path
    → (root : Option PathRoot) × (parse (s ++ 0x00 ∷ after) ≡ some root)
with_drive [] after h drive k = cc
with_drive (a ∷ []) after h drive k = cc
with_drive (a ∷ b ∷ []) after h drive k = cc
with_drive (a ∷ b ∷ c ∷ s) after h drive k =
    let (parts, done) =
      parts_loop-total (length (a ∷ b ∷ c ∷ s ++ 0x00 ∷ after) + 1) s after h.1.1.1 (omega arith)
        (omega (arith, length-append s (0x00 ∷ after))) in
    (
      some (record { drive_no = chtoi a; parts = parts }),
      parse-drive a b c s after h drive (omega arith) parts done,
    )

-- On every string that a zero byte ends, `path_parse` ends without an access beyond the path or
-- a buffer.
pub parse-total :
    (s after : List ℕ)
    → NonZero s
    → (root : Option PathRoot) × (parse (s ++ 0x00 ∷ after) ≡ some root)
parse-total s after h = elim (dec_lt max_path (length s)) [
  | yes long ↦ (none, parse-null s after h (inl long))
  | no short ↦ elim (Bool-cases (has_drive s)) [
    | inr no_drive ↦ (none, parse-null s after h (inr no_drive))
    | inl drive ↦ with_drive s after h drive (omega arith)
  ]
]
