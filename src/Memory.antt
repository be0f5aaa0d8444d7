-- ===== src/Memory.antt =====
-- src/memory/memory.c: the byte loops of the kernel. A pointer to an object is the list of the bytes
-- from it to the object's end, and `none` is an access beyond that end.
pub mod Heap
pub mod Paging
pub mod Kheap
pub mod Laws
use ra_os.Base.{
  ℕ, zero, suc, ◌+◌, ◌%◌, ◌==◌, if◌then◌else◌, ltb, Bool, Option, none, some, List, [], ◌∷◌, ◌>>=◌,
}
use ra_os.Base.Int.{ℤ, pos, negsuc}

-- The object after the call; the pointer that the C function returns is its first argument.
unfoldable pub memset : List ℕ → ℕ → ℕ → Option (List ℕ)
memset bytes c zero = some bytes
memset [] c (suc size) = none
memset (b ∷ bytes) c (suc size) = do rest ← memset bytes c size; some (c ∷ rest)

-- `char` is signed here: the bytes 128 to 255 stand for -128 to -1.
unfoldable pub char_lt : ℕ → ℕ → Bool
char_lt a b = ltb ((a + 128) % 256) ((b + 128) % 256)

unfoldable pub memcmp : List ℕ → List ℕ → ℕ → Option ℤ
unfolding char_lt
memcmp s1 s2 zero = some (pos 0)
memcmp [] s2 (suc count) = none
memcmp (a ∷ s1) [] (suc count) = none
memcmp (a ∷ s1) (b ∷ s2) (suc count) =
    if a == b then memcmp s1 s2 count else some (if char_lt a b then negsuc 0 else pos 1)

-- The two objects do not overlap.
unfoldable pub memcpy : List ℕ → List ℕ → ℕ → Option (List ℕ)
memcpy dest src zero = some dest
memcpy [] src (suc len) = none
memcpy (d ∷ dest) [] (suc len) = none
memcpy (d ∷ dest) (s ∷ src) (suc len) = do rest ← memcpy dest src len; some (s ∷ rest)
