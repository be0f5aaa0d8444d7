-- ===== src/Elf/Checks.antt =====
-- `elf_validate_loaded`: which images it accepts.
use ra_os.Base.{
  ℕ, zero, suc, ◌≡◌, ◌≢◌, ◌↔◌, refl, sym, ap, ◌∙◌, ◌==◌, Bool, true, false, ◌&&◌, ◌||◌, arith,
  Bool-cases, ==_of_ne, eq_of_==, ◌⊎◌, inl, inr, some, ok, err, einformat,
}
use native.Mathlib.Decide.{ℕ_discrete}
use ra_os.Base.Int.{ℤ, pos, negsuc}
use ra_os.Memory.{memcmp}
use ra_os.Memory.Laws.{memcmp-some, memcmp-zero_iff}
use ra_os.Elf.{
  Bytes, elf_header, read_bytes, elf_signature, valid_signature, valid_class, valid_encoding,
  has_program_header, validate_loaded,
}

-- A 32-bit or unclassified image, little-endian or of no named encoding, with program headers.
pub record IsAccepted (mem : Bytes) (header : ℕ) : Type 0 where
  pub signature : read_bytes mem header 4 ≡ elf_signature
  pub class : ((elf_header mem header).e_class ≡ 0) ⊎ ((elf_header mem header).e_class ≡ 1)
  pub encoding : ((elf_header mem header).e_data ≡ 0) ⊎ ((elf_header mem header).e_data ≡ 1)
  pub program_headers : (elf_header mem header).e_phoff ≢ 0

valid_signature-cases :
    (mem : Bytes) (header : ℕ)
    → ((valid_signature mem header ≡ some true) × (read_bytes mem header 4 ≡ elf_signature))
      ⊎ ((valid_signature mem header ≡ some false) × (read_bytes mem header 4 ≢ elf_signature))
unfolding valid_signature
valid_signature-cases mem header =
    let (r, e) =
      memcmp-some (read_bytes mem header 4) elf_signature 4 (omega arith) (omega arith) in
    let same =
      memcmp-zero_iff (read_bytes mem header 4) elf_signature 4 (omega arith) (omega arith) in
    answer r e same
  where
    answer :
        (r : ℤ)
        → memcmp (read_bytes mem header 4) elf_signature 4 ≡ some r
        → (memcmp (read_bytes mem header 4) elf_signature 4 ≡ some (pos 0))
          ↔ (read_bytes mem header 4 ≡ elf_signature)
        → ((valid_signature mem header ≡ some true) × (read_bytes mem header 4 ≡ elf_signature))
          ⊎ ((valid_signature mem header ≡ some false) × (read_bytes mem header 4 ≢ elf_signature))
    answer (pos zero) e same = inl (rw (valid_signature, e) refl, same.0 e)
    answer (pos (suc n)) e same = inr (
      rw (valid_signature, e) (ap some (==_of_ne (suc n) 0 (omega arith))),
      λ s. let f = sym e ∙ same.1 s in cc,
    )
    answer (negsuc n) e same =
        inr (rw (valid_signature, e) refl, λ s. let f = sym e ∙ same.1 s in cc)

one_of_two : (c : ℕ) → (c == 0 || c == 1) ≡ true → (c ≡ 0) ⊎ (c ≡ 1)
one_of_two c h = elim (ℕ_discrete c 0) [ yes e ↦ inl e | no n ↦ inr (eq_of_== c 1 (ground arith)) ]

valid-IsAccepted :
    (mem : Bytes) (header : ℕ)
    → read_bytes mem header 4 ≡ elf_signature
    → valid_class (elf_header mem header) ≡ true
    → valid_encoding (elf_header mem header) ≡ true
    → has_program_header (elf_header mem header) ≡ true
    → IsAccepted mem header
unfolding valid_class valid_encoding has_program_header
valid-IsAccepted mem header s c e p = record {
  signature = s;
  class = one_of_two _ c;
  encoding = one_of_two _ e;
  program_headers = λ z. ground arith;
}

IsAccepted-valid :
    (mem : Bytes) (header : ℕ)
    → IsAccepted mem header
    → (valid_class (elf_header mem header)
        && (valid_encoding (elf_header mem header) && has_program_header (elf_header mem header)))
      ≡ true
unfolding valid_class valid_encoding has_program_header
IsAccepted-valid mem header a = ground (arith, a.class, a.encoding, a.program_headers)

and_left : (a b : Bool) → (a && b) ≡ true → a ≡ true
and_left true b h = refl
and_left false b h = h

and_right : (a b : Bool) → (a && b) ≡ true → b ≡ true
and_right true b h = h
and_right false b h = cc

-- `elf_validate_loaded` always answers: success for the images that it is meant to accept, and
-- EINFORMAT for all others.
pub validate_loaded-decides :
    (mem : Bytes) (header : ℕ)
    → ((validate_loaded mem header ≡ some (ok tt)) × IsAccepted mem header)
      ⊎ ((validate_loaded mem header ≡ some (err einformat)) × (¬ IsAccepted mem header))
unfolding validate_loaded
validate_loaded-decides mem header = elim (valid_signature-cases mem header) [
  | inr (e, s) ↦ inr (rw (validate_loaded, e) refl, λ a. s a.signature)
  | inl (e, s) ↦
      let h = elf_header mem header in
      elim (Bool-cases (valid_class h && (valid_encoding h && has_program_header h))) [
        | inl t ↦ inl (
          rw (validate_loaded, e, t) refl,
          valid-IsAccepted mem header s (and_left _ _ t)
              (and_left _ _ (and_right (valid_class h) _ t))
              (and_right (valid_encoding h) _ (and_right (valid_class h) _ t)),
        )
        | inr f ↦ inr (
          rw (validate_loaded, e, f) refl,
          λ a. let g = sym f ∙ IsAccepted-valid mem header a in cc,
        )
      ]
]
