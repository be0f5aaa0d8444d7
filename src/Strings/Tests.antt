-- ===== src/Strings/Tests.antt =====
-- The theorems on strings at short strings.
use ra_os.Base.{ℕ, ◌≡◌, ◌↔◌, some, List, [], ◌∷◌, ◌++◌, arith, take}
use ra_os.Base.Int.{pos}
use ra_os.Strings.{strncmp}
use ra_os.Strings.Length.{NonZero}
use ra_os.Strings.Compare.{strncmp-zero_iff}

abbrev abc : List ℕ
abc = b'a' ∷ b'b' ∷ b'c' ∷ []

abbrev xs : List ℕ
xs = b'x' ∷ b'x' ∷ b'x' ∷ b'x' ∷ b'x' ∷ []

abc-NonZero : NonZero abc
abc-NonZero = (omega arith, (omega arith, (omega arith, tt)))

xs-NonZero : NonZero xs
xs-NonZero = (omega arith, (omega arith, (omega arith, (omega arith, (omega arith, tt)))))

strncmp-zero_iff_example :
    (strncmp (abc ++ 0 ∷ []) (xs ++ 0 ∷ []) 2 ≡ some (pos 0)) ↔ (take 2 abc ≡ take 2 xs)
strncmp-zero_iff_example = strncmp-zero_iff abc xs [] [] 2 abc-NonZero xs-NonZero
