-- ===== src/Strings/Length.antt =====
-- The length functions of src/string/string.c on a string that ends inside of its object.
use ra_os.Base.{
  ℕ, zero, suc, ◌+◌, ◌<◌, ◌≡◌, refl, ◌≢◌, ap, ◌∙◌, tests, ◌==◌, if◌then◌else◌, some, List, [], ◌∷◌,
  ◌++◌, arith, length, Bool-cases, inl, inr, ==_of_ne, All, min,
}
use ra_os.Strings.{strlen_loop, strlen, strnlen_loop, strnlen, terminator_loop, strnlen_terminator}

-- The bytes of a string: none of them is zero.
abbrev pub NonZero : List ℕ → Type 0
NonZero = All (λ c. c ≢ 0)

strlen_loop-length :
    (s after : List ℕ) (cnt : ℕ)
    → NonZero s
    → strlen_loop (s ++ 0 ∷ after) cnt ≡ some (cnt + length s)
unfolding strlen_loop
strlen_loop-length [] after cnt h = ap some (omega arith)
strlen_loop-length (c ∷ s) after cnt h =
    rw (==_of_ne c 0 h.0) (strlen_loop-length s after (cnt + 1) h.1 ∙ ap some (omega arith))

-- `strlen` counts the bytes before the first zero byte.
pub strlen-length : (s after : List ℕ) → NonZero s → strlen (s ++ 0 ∷ after) ≡ some (length s)
unfolding strlen
strlen-length s after h = strlen_loop-length s after 0 h ∙ ap some (omega arith)

strnlen_loop-min :
    (s after : List ℕ) (max_len cnt : ℕ)
    → NonZero s
    → cnt < max_len
    → strnlen_loop (s ++ 0 ∷ after) max_len cnt ≡ some (min max_len (cnt + length s))
unfolding strnlen_loop
strnlen_loop-min [] after max_len cnt h k = ap some (omega arith)
strnlen_loop-min (c ∷ s) after max_len cnt h k = elim (Bool-cases (cnt + 1 == max_len)) [
  | inl full ↦ rw (==_of_ne c 0 h.0, full) (ap some (omega (tests, full)))
  | inr more ↦
      rw (==_of_ne c 0 h.0, more)
        (strnlen_loop-min s after max_len (cnt + 1) h.1 (omega (tests, more))
          ∙ ap some (omega arith))
]

-- `strnlen` with a limit above 0 is the smaller one of the limit and the length.
pub strnlen-min :
    (s after : List ℕ) (max_len : ℕ)
    → NonZero s
    → 0 < max_len
    → strnlen (s ++ 0 ∷ after) max_len ≡ some (min max_len (length s))
unfolding strnlen
strnlen-min s after max_len h k = strnlen_loop-min s after max_len 0 h k ∙ ap some (omega arith)

strnlen_loop-no_limit : (ptr : List ℕ) (cnt : ℕ) → strnlen_loop ptr 0 cnt ≡ strlen_loop ptr cnt
unfolding strnlen_loop strlen_loop
strnlen_loop-no_limit [] cnt = refl
strnlen_loop-no_limit (c ∷ ptr) cnt = ground (arith, strnlen_loop-no_limit ptr (cnt + 1))

-- With the limit 0 `strnlen` has no limit: it is `strlen`.
pub strnlen-no_limit : (ptr : List ℕ) → strnlen ptr 0 ≡ strlen ptr
unfolding strnlen strlen
strnlen-no_limit ptr = strnlen_loop-no_limit ptr 0

-- The index of the first zero or terminator byte, or the limit.
pub index_of : ℕ → List ℕ → ℕ
index_of t [] = 0
index_of t (c ∷ s) = if c == t then 0 else index_of t s + 1

terminator_loop-index :
    (s after : List ℕ) (rounds t i : ℕ)
    → NonZero s
    → terminator_loop rounds (s ++ 0 ∷ after) t i ≡ some (i + min rounds (index_of t s))
unfolding terminator_loop index_of
terminator_loop-index s after zero t i h = ap some (omega arith)
terminator_loop-index [] after (suc rounds) t i h = ap some (omega arith)
terminator_loop-index (c ∷ s) after (suc rounds) t i h = elim (Bool-cases (c == t)) [
  | inl here ↦ rw (==_of_ne c 0 h.0, here) (ap some (omega arith))
  | inr later ↦
      rw (==_of_ne c 0 h.0, later)
        (terminator_loop-index s after rounds t (i + 1) h.1 ∙ ap some (omega arith))
]

-- `strnlen_terminator` gives the index of the first terminator in the string, its length when there
-- is none, and never more than the limit.
pub strnlen_terminator-index :
    (s after : List ℕ) (max_len t : ℕ)
    → NonZero s
    → strnlen_terminator (s ++ 0 ∷ after) max_len t ≡ some (min max_len (index_of t s))
unfolding strnlen_terminator
strnlen_terminator-index s after max_len t h =
    terminator_loop-index s after max_len t 0 h ∙ ap some (omega arith)
