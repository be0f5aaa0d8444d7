-- ===== src/Strings/Compare.antt =====
-- The comparisons of src/string/string.c.
use ra_os.Base.{
  ℕ, zero, suc, ◌+◌, ◌-◌, ◌<◌, ◌≡◌, refl, ◌↔◌, true, some, List, [], ◌∷◌, ◌++◌, map, arith, take,
}
use ra_os.Base.Int.{pos}
use ra_os.Strings.{strncmp, istrncmp, tolower, isdigit, chtoi}
use ra_os.Strings.Length.{NonZero}

-- `strncmp` answers 0 exactly when the strings agree in their first `n` bytes.
pub strncmp-zero_iff :
    (s t after after' : List ℕ) (n : ℕ)
    → NonZero s
    → NonZero t
    → (strncmp (s ++ 0 ∷ after) (t ++ 0 ∷ after') n ≡ some (pos 0)) ↔ (take n s ≡ take n t)
unfolding strncmp
strncmp-zero_iff s t after after' zero h k = (λ _. refl, λ _. refl)
strncmp-zero_iff [] [] after after' (suc n) h k = (λ _. refl, λ _. refl)
strncmp-zero_iff [] (b ∷ t) after after' (suc n) h k = (ground arith, ground arith)
strncmp-zero_iff (a ∷ s) [] after after' (suc n) h k = (ground arith, ground arith)
strncmp-zero_iff (a ∷ s) (b ∷ t) after after' (suc n) h k =
    let ih = strncmp-zero_iff s t after after' n h.1 k.1 in
    (λ e. ground (arith, ih.0), λ e. ground (arith, ih.1))

-- `istrncmp` answers 0 exactly when the strings agree in their first `n` bytes up to the case of the
-- letters A to Z.
pub istrncmp-zero_iff :
    (s t after after' : List ℕ) (n : ℕ)
    → NonZero s
    → NonZero t
    → (istrncmp (s ++ 0 ∷ after) (t ++ 0 ∷ after') n ≡ some (pos 0))
      ↔ (take n (map tolower s) ≡ take n (map tolower t))
unfolding istrncmp tolower
istrncmp-zero_iff s t after after' zero h k = (λ _. refl, λ _. refl)
istrncmp-zero_iff [] [] after after' (suc n) h k = (λ _. refl, λ _. refl)
istrncmp-zero_iff [] (b ∷ t) after after' (suc n) h k = (ground arith, ground arith)
istrncmp-zero_iff (a ∷ s) [] after after' (suc n) h k = (ground arith, ground arith)
istrncmp-zero_iff (a ∷ s) (b ∷ t) after after' (suc n) h k =
    let ih = istrncmp-zero_iff s t after after' n h.1 k.1 in
    (λ e. ground (arith, ih.0), λ e. ground (arith, ih.1))

-- `chtoi` of a byte that `isdigit` accepts is its decimal value.
pub chtoi-isdigit :
    (c : ℕ) → isdigit c ≡ true → (d : ℕ) × (chtoi c ≡ pos d) × (d < 10) × (c ≡ 48 + d)
unfolding isdigit chtoi
chtoi-isdigit c h = (c - 48, ground arith, ground arith, ground arith)
