-- ===== src/Task/Pages/Copy.antt =====
-- A string of a task, copied into the kernel's memory.
use ra_os.Base.{
  ℕ, zero, suc, ◌+◌, ◌^◌, ◌≤◌, ◌<◌, ◌≡◌, ◌≢◌, refl, ◌∙◌, sym, ap, subst, some, some_eq, List, [],
  ◌∷◌, ◌++◌, length, get_elem?, take, arith, ==_of_ne, ==_of_eq, ◌⊎◌, inl, inr,
}
use mathlib.Core.Path.{ap₂}
use ra_os.Strings.Length.{NonZero}
use ra_os.Memory.Paging.{add32}
use ra_os.Elf.{Bytes}
use ra_os.Task.Pages.{poke, strncpy_at}

-- The bytes of a string with its end.
abbrev pub ended : List ℕ → List ℕ
ended s = s ++ 0x00 ∷ []

-- The bytes at the places that `at` finds from `p` on are those of the list.
abbrev pub Reads : Bytes → (ℕ → ℕ) → ℕ → List ℕ → Type 0
Reads mem at p bytes = (i c : ℕ) → get_elem? bytes i ≡ some c → mem (at (p + i)) ≡ c

-- The memory `mem'` is `mem` with the list at physical addresses from `base` on, and changes at most up
-- to `rounds` behind.
pub record Written (mem mem' : Bytes) (base rounds : ℕ) (bytes : List ℕ) : Type 0 where
  pub bytes_at : (i c : ℕ) → get_elem? bytes i ≡ some c → mem' (base + i) ≡ c
  pub others : (a : ℕ) → (a < base) ⊎ (base + rounds < a) → mem' a ≡ mem a

end_Written :
    (mem : Bytes) (p base rounds : ℕ)
    → p ≡ base
    → Written mem (poke mem p 0x00) base rounds (0x00 ∷ [])
end_Written mem p base rounds e = record {
  bytes_at = λ i c at. first i c at;
  others = λ a outside. rw (==_of_ne a p (apart a outside)) refl;
}
  where
    first : (i c : ℕ) → get_elem? {A = ℕ} (0x00 ∷ []) i ≡ some c → poke mem p 0x00 (base + i) ≡ c
    first zero c at = rw (==_of_eq (base + 0) p (omega (arith, e))) (some_eq at)
    first (suc i) c at = absurd (ground (arith, at))

    apart : (a : ℕ) → (a < base) ⊎ (base + rounds < a) → a ≢ p
    apart a (inl before) same = omega arith
    apart a (inr behind) same = omega arith

cons_Written :
    (mem mem' : Bytes) (p v base rounds : ℕ) (bytes : List ℕ)
    → p ≡ base
    → Written (poke mem p v) mem' (base + 1) rounds bytes
    → Written mem mem' base (suc rounds) (v ∷ bytes)
cons_Written mem mem' p v base rounds bytes e rest = record {
  bytes_at = λ i c at. byte i c at;
  others =
      λ a outside. rest.others a (further a outside) ∙ rw (==_of_ne a p (apart a outside)) refl;
}
  where
    byte : (i c : ℕ) → get_elem? (v ∷ bytes) i ≡ some c → mem' (base + i) ≡ c
    byte zero c at =
        rest.others (base + 0) (inl (omega arith))
        ∙ rw (==_of_eq (base + 0) p (omega (arith, e))) (some_eq at)
    byte (suc i) c at = ap mem' (omega arith) ∙ rest.bytes_at i c at

    further :
        (a : ℕ) → (a < base) ⊎ (base + suc rounds < a) → (a < base + 1) ⊎ (base + 1 + rounds < a)
    further a (inl before) = inl (omega arith)
    further a (inr behind) = inr (omega arith)

    apart : (a : ℕ) → (a < base) ⊎ (base + suc rounds < a) → a ≢ p
    apart a (inl before) same = omega arith
    apart a (inr behind) same = omega arith

pub within : (s : List ℕ) (i c : ℕ) → get_elem? (ended s) i ≡ some c → i ≤ length s
within [] zero c at = omega arith
within [] (suc i) c at = absurd (ground (arith, at))
within (d ∷ s) zero c at = omega arith
within (d ∷ s) (suc i) c at = omega (arith, within s i c at)

-- A copy of at most `rounds` bytes of a string, which ends by a zero byte, through the addresses that
-- `at` finds: the destination lies in one piece from `base` on, and no byte of the string lies in it.
pub strncpy_at-Written :
    (rounds : ℕ) (s : List ℕ) (at : ℕ → ℕ) (mem : Bytes) (dest src base : ℕ)
    → NonZero s
    → Reads mem at src (ended s)
    → ((i : ℕ) → i ≤ rounds → at (dest + i) ≡ base + i)
    → ((i j : ℕ) → i ≤ length s → j ≤ rounds → at (src + i) ≢ base + j)
    → dest + rounds < 2 ^ 32
    → src + length s < 2 ^ 32
    → Written mem (strncpy_at rounds at mem dest src) base rounds (ended (take rounds s))
unfolding strncpy_at
strncpy_at-Written zero s at mem dest src base text reads there apart room room' =
    end_Written mem (at dest) base 0 (ap at (omega arith) ∙ there 0 (omega arith) ∙ omega arith)
strncpy_at-Written (suc rounds) [] at mem dest src base text reads there apart room room' =
    let stop : mem (at src) ≡ 0 =
      ap (λ a. mem (at a)) {x = src} {y = src + 0} (omega arith) ∙ reads 0 0 refl in
    rw (strncpy_at, ==_of_eq (mem (at src)) 0 stop)
      (end_Written mem (at dest) base (suc rounds)
        (ap at (omega arith) ∙ there 0 (omega arith) ∙ omega arith))
strncpy_at-Written (suc rounds) (c ∷ s) at mem dest src base text reads there apart room room' =
    let same : mem (at src) ≡ c =
      ap (λ a. mem (at a)) {x = src} {y = src + 0} (omega arith) ∙ reads 0 c refl in
    let more : mem (at src) ≢ 0 = λ e. text.0 (sym same ∙ e) in
    let here : at dest ≡ base =
      ap at {x = dest} {y = dest + 0} (omega arith) ∙ there 0 (omega arith) ∙ omega arith in
    let mem1 = poke mem (at dest) (mem (at src)) in
    let rest =
      strncpy_at-Written rounds s at mem1 (dest + 1) (src + 1) (base + 1) text.1
        (λ i d h.
          let elsewhere : at (src + 1 + i) ≢ at dest = λ e.
            apart (suc i) 0 (omega (arith, within s i d h)) (omega arith)
              (ap at {x = src + suc i} {y = src + 1 + i} (omega arith) ∙ e ∙ here ∙ omega arith) in
          rw (==_of_ne (at (src + 1 + i)) (at dest) elsewhere) (
            ap (λ a. mem (at a)) {x = src + 1 + i} {y = src + suc i} (omega arith)
            ∙ reads (suc i) d h))
        (λ i h.
          ap at {x = dest + 1 + i} {y = dest + suc i} (omega arith)
          ∙ there (suc i) (omega arith)
          ∙ omega arith)
        (λ i j h k e.
          apart (suc i) (suc j) (omega arith) (omega arith)
            (ap at {x = src + suc i} {y = src + 1 + i} (omega arith) ∙ e ∙ omega arith))
        (omega arith) (omega arith) in
    let onward : strncpy_at rounds at mem1 (dest + 1) (src + 1)
        ≡ strncpy_at rounds at mem1 (add32 dest 1) (add32 src 1) =
      ap₂ (strncpy_at rounds at mem1) (omega arith) (omega arith) in
    let rest' = subst (λ m. Written mem1 m (base + 1) rounds (ended (take rounds s))) onward rest in
    rw (strncpy_at, ==_of_ne (mem (at src)) 0 more)
      (subst
        (λ v.
          Written mem (strncpy_at rounds at mem1 (add32 dest 1) (add32 src 1)) base (suc rounds)
            (v ∷ ended (take rounds s)))
        same
        (cons_Written mem (strncpy_at rounds at mem1 (add32 dest 1) (add32 src 1)) (at dest)
          (mem (at src)) base rounds (ended (take rounds s)) here rest'))
