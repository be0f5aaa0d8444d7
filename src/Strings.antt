-- ===== src/Strings.antt =====
-- src/string/string.c. A `char*` is the list of the bytes from the pointer to the end of the object
-- that it points into; a string ends at the first zero byte, and `none` is an access beyond the
-- object. Counts are not bounded, since no object of the kernel reaches 2^31 bytes.
pub mod Length
pub mod Copy
pub mod Compare
mod Tests
use ra_os.Base.{
  ℕ, zero, suc, ◌+◌, ◌-◌, ◌==◌, if◌then◌else◌, ltb, leb, Bool, ◌&&◌, ◌||◌, Option, none, some, List,
  [], ◌∷◌, ◌>>=◌,
}
use ra_os.Base.Int.{ℤ, pos, sub_ℕ, negsuc}

-- The bytes before the first zero are counted on top of `cnt`.
unfoldable pub strlen_loop : List ℕ → ℕ → Option ℕ
strlen_loop [] cnt = none
strlen_loop (c ∷ ptr) cnt = if c == 0 then some cnt else strlen_loop ptr (cnt + 1)

unfoldable pub strlen : List ℕ → Option ℕ
unfolding strlen_loop
strlen ptr = strlen_loop ptr 0

unfoldable pub strnlen_loop : List ℕ → ℕ → ℕ → Option ℕ
strnlen_loop [] max_len cnt = none
strnlen_loop (c ∷ ptr) max_len cnt =
    if c == 0
    then some cnt
    else if cnt + 1 == max_len
    then some (cnt + 1)
    else strnlen_loop ptr max_len (cnt + 1)

unfoldable pub strnlen : List ℕ → ℕ → Option ℕ
unfolding strnlen_loop
strnlen ptr max_len = strnlen_loop ptr max_len 0

-- `rounds` is `max - i`.
unfoldable pub terminator_loop : ℕ → List ℕ → ℕ → ℕ → Option ℕ
terminator_loop zero str terminator i = some i
terminator_loop (suc rounds) [] terminator i = none
terminator_loop (suc rounds) (c ∷ str) terminator i =
    if c == 0 || c == terminator then some i else terminator_loop rounds str terminator (i + 1)

unfoldable pub strnlen_terminator : List ℕ → ℕ → ℕ → Option ℕ
unfolding terminator_loop
strnlen_terminator str max terminator = terminator_loop max str terminator 0

-- The copies return the destination object; the C functions return the pointer to it.
unfoldable pub strcpy : List ℕ → List ℕ → Option (List ℕ)
strcpy dest [] = none
strcpy [] (c ∷ src) = none
strcpy (d ∷ dest) (c ∷ src) =
    if c == 0 then some (0x00 ∷ dest) else (strcpy dest src >>= λ copied. some (c ∷ copied))

-- `dest[i] = 0x00`
unfoldable pub terminate : List ℕ → Option (List ℕ)
terminate [] = none
terminate (d ∷ dest) = some (0x00 ∷ dest)

-- `rounds` is `n - 1 - i`.
unfoldable pub strncpy_loop : ℕ → List ℕ → List ℕ → Option (List ℕ)
unfolding terminate
strncpy_loop zero dest src = terminate dest
strncpy_loop (suc rounds) dest [] = none
strncpy_loop (suc rounds) [] (c ∷ src) = none
strncpy_loop (suc rounds) (d ∷ dest) (c ∷ src) =
    if c == 0
    then some (0x00 ∷ dest)
    else (strncpy_loop rounds dest src >>= λ copied. some (c ∷ copied))

unfoldable pub strncpy : List ℕ → List ℕ → ℕ → Option (List ℕ)
unfolding strncpy_loop
strncpy dest src n = strncpy_loop (n - 1) dest src

unfoldable pub strncmp : List ℕ → List ℕ → ℕ → Option ℤ
strncmp str1 str2 zero = some (pos 0)
strncmp [] str2 (suc n) = none
strncmp (ch1 ∷ str1) [] (suc n) = none
strncmp (ch1 ∷ str1) (ch2 ∷ str2) (suc n) =
    if ch1 == ch2
    then (if ch1 == 0 then some (pos 0) else strncmp str1 str2 n)
    else some (sub_ℕ ch1 ch2)

-- The bytes 128 to 255 are negative as `char`, and stay as they are.
unfoldable pub tolower : ℕ → ℕ
tolower ch = if leb 65 ch && leb ch 90 then ch + 32 else ch

unfoldable pub istrncmp : List ℕ → List ℕ → ℕ → Option ℤ
istrncmp str1 str2 zero = some (pos 0)
istrncmp [] str2 (suc n) = none
istrncmp (ch1 ∷ str1) [] (suc n) = none
istrncmp (ch1 ∷ str1) (ch2 ∷ str2) (suc n) =
    if ch1 == ch2 || tolower ch1 == tolower ch2
    then (if ch1 == 0 then some (pos 0) else istrncmp str1 str2 n)
    else some (sub_ℕ ch1 ch2)

unfoldable pub isdigit : ℕ → Bool
isdigit c = leb 48 c && leb c 57

-- `c - '0'` for a signed `char`.
unfoldable pub chtoi : ℕ → ℤ
chtoi c = if ltb c 128 then sub_ℕ c 48 else negsuc (256 - c + 47)
