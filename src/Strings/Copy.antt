-- ===== src/Strings/Copy.antt =====
-- The copies of src/string/string.c: what they write, where they stop, and what they leave alone.
use ra_os.Base.{
  ℕ, zero, suc, ◌+◌, ◌-◌, ◌≤◌, ◌<◌, ◌≡◌, refl, ap, none, some, List, [], ◌∷◌, ◌++◌, arith, length,
  take, drop, ==_of_ne, min,
}
use ra_os.Strings.{strcpy, strncpy_loop, strncpy}
use ra_os.Strings.Length.{NonZero}

-- `strcpy` writes the string and its zero byte, when the destination has room for both, and
-- leaves the bytes behind them as they are.
pub strcpy_lem :
    (s after dest : List ℕ)
    → NonZero s
    → length s < length dest
    → strcpy dest (s ++ 0 ∷ after) ≡ some (s ++ 0 ∷ drop (length s + 1) dest)
unfolding strcpy
strcpy_lem [] after [] h k = absurd (omega arith)
strcpy_lem [] after (d ∷ dest) h k = refl
strcpy_lem (c ∷ s) after [] h k = absurd (omega arith)
strcpy_lem (c ∷ s) after (d ∷ dest) h k =
    rw (==_of_ne c 0 h.0, strcpy_lem s after dest h.1 (omega arith))
      (ap (λ j. some (c ∷ (s ++ 0 ∷ drop j (d ∷ dest)))) {x = suc (length s + 1)} (omega arith))

-- A destination with no room for the string and its zero byte is written beyond its end.
pub strcpy-overrun :
    (s after dest : List ℕ)
    → NonZero s
    → length dest ≤ length s
    → strcpy dest (s ++ 0 ∷ after) ≡ none
unfolding strcpy
strcpy-overrun [] after [] h k = refl
strcpy-overrun [] after (d ∷ dest) h k = absurd (omega arith)
strcpy-overrun (c ∷ s) after [] h k = refl
strcpy-overrun (c ∷ s) after (d ∷ dest) h k =
    rw (==_of_ne c 0 h.0, strcpy-overrun s after dest h.1 (omega arith)) refl

-- What `strncpy` copies.
strncpy_loop-lem :
    (s after dest : List ℕ) (rounds : ℕ)
    → NonZero s
    → min rounds (length s) < length dest
    → strncpy_loop rounds dest (s ++ 0 ∷ after)
      ≡ some (take rounds s ++ 0 ∷ drop (min rounds (length s) + 1) dest)
unfolding strncpy_loop
strncpy_loop-lem s after [] rounds h k = absurd (omega arith)
strncpy_loop-lem s after (d ∷ dest) zero h k =
    ap (λ j. some (0 ∷ drop j (d ∷ dest))) {x = 1} (omega arith)
strncpy_loop-lem [] after (d ∷ dest) (suc rounds) h k =
    ap (λ j. some (0 ∷ drop j (d ∷ dest))) {x = 1} (omega arith)
strncpy_loop-lem (c ∷ s) after (d ∷ dest) (suc rounds) h k =
    rw (==_of_ne c 0 h.0, strncpy_loop-lem s after dest rounds h.1 (omega arith))
      (ap (λ j. some (c ∷ (take rounds s ++ 0 ∷ drop j (d ∷ dest))))
        {x = suc (min rounds (length s) + 1)} (omega arith))

-- `strncpy` copies at most `n - 1` bytes of the string and always ends them by a zero byte, when
-- the destination has room for that, and leaves the bytes behind as they are.
pub strncpy_lem :
    (s after dest : List ℕ) (n : ℕ)
    → NonZero s
    → min (n - 1) (length s) < length dest
    → strncpy dest (s ++ 0 ∷ after) n
      ≡ some (take (n - 1) s ++ 0 ∷ drop (min (n - 1) (length s) + 1) dest)
unfolding strncpy
strncpy_lem s after dest n h k = strncpy_loop-lem s after dest (n - 1) h k
