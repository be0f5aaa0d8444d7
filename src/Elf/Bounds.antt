-- ===== src/Elf/Bounds.antt =====
-- `elf_process_pheaders`: the bounds of the loadable segments.
use ra_os.Base.{
  ℕ, zero, suc, ◌+◌, ◌≤◌, ◌<◌, ◌≡◌, ◌≢◌, refl, sym, ◌∙◌, subst, ◌==◌, leb, true, false, ◌||◌, arith,
  Bool-cases, ==_of_eq, ==_of_ne, ◌⊎◌, inl, inr,
}
use native.Mathlib.Decide.{ℕ_discrete}
use ra_os.Memory.Paging.{add32}
use ra_os.Elf.{
  Bytes, ElfFile, ProgramHeader, elf_header, program_header, pt_load, process_pheader,
  process_phdr_pt_load, pheaders_loop, process_pheaders,
}

-- The address behind a segment's bytes.
abbrev pub end_of : ProgramHeader → ℕ
end_of phdr = add32 phdr.p_vaddr phdr.p_filesz

-- Among the first `n` items that satisfy `L`, `value` is the extreme of `v` in the order `R`, and
-- `physical` is `q` of an item that has it; without such an item, `value` is 0.
pub record Extreme (R : ℕ → ℕ → Type 0) (L : ℕ → Type 0) (v q : ℕ → ℕ) (n value physical : ℕ)
    : Type 0 where
  pub bound : (i : ℕ) → i < n → L i → R value (v i)
  pub attained :
      ((i : ℕ) × (i < n) × L i × (value ≡ v i) × (physical ≡ q i))
      ⊎ ((value ≡ 0) × ((i : ℕ) → i < n → ¬ L i))

module _ (R : ℕ → ℕ → Type 0) (R_refl : (a : ℕ) → R a a)
    (R_trans : (a b c : ℕ) → R a b → R b c → R a c) (L : ℕ → Type 0) (v q : ℕ → ℕ) where
  -- An item that does not satisfy `L`, or is no more extreme, changes nothing.
  Extreme-keep :
      (n value physical : ℕ)
      → Extreme R L v q n value physical
      → (L n → R value (v n) × (value ≢ 0))
      → Extreme R L v q (n + 1) value physical
  Extreme-keep n value physical x h = record {
    bound = λ i k load. elim (ℕ_discrete n i) [
      | yes e ↦ subst (λ i. L i → R value (v i)) e (λ l. (h l).0) load
      | no ne ↦ x.bound i (omega arith) load
    ];
    attained = elim x.attained [
      | inl (i, k, load, e, f) ↦ inl (i, omega arith, load, e, f)
      | inr (e, no_item) ↦ inr (
        e,
        λ i k load. elim (ℕ_discrete n i) [
          | yes same ↦ subst (λ i. L i → ⊥) same (λ l. (h l).1 e) load
          | no ne ↦ no_item i (omega arith) load
        ],
      )
    ];
  }

  -- A more extreme item, or the first one, becomes the extreme.
  Extreme-take :
      (n value physical : ℕ)
      → Extreme R L v q n value physical
      → ((i : ℕ) → i < n → L i → v i ≢ 0)
      → L n
      → R (v n) value ⊎ (value ≡ 0)
      → Extreme R L v q (n + 1) (v n) (q n)
  Extreme-take n value physical x positive load h = record {
    bound = λ i k load_i. elim (ℕ_discrete n i) [
      | yes e ↦ subst (λ i. R (v n) (v i)) e (R_refl (v n))
      | no ne ↦ earlier i (omega arith) load_i h
    ];
    attained = inl (n, omega arith, load, refl, refl);
  }
    where
      earlier : (i : ℕ) → i < n → L i → R (v n) value ⊎ (value ≡ 0) → R (v n) (v i)
      earlier i k load_i (inl r) = R_trans (v n) value (v i) r (x.bound i k load_i)
      earlier i k load_i (inr zero_value) = elim x.attained [
        | inl (j, l, load_j, e, f) ↦ absurd (positive j l load_j (sym e ∙ zero_value))
        | inr (e, no_item) ↦ absurd (no_item i k load_i)
      ]

-- Where the image holds a segment's first byte, and the byte behind it.
abbrev pub start_of : ℕ → ProgramHeader → ℕ
start_of memory phdr = add32 memory phdr.p_offset

abbrev pub stop_of : ℕ → ProgramHeader → ℕ
stop_of memory phdr = add32 (start_of memory phdr) phdr.p_filesz

abbrev pub IsLoad : (ℕ → ProgramHeader) → ℕ → Type 0
IsLoad phdr i = (phdr i).p_type ≡ pt_load

-- The file's bounds are those of the loadable segments among the first `n`.
pub record IsBounded (phdr : ℕ → ProgramHeader) (n : ℕ) (file : ElfFile) : Type 0 where
  pub lowest :
      Extreme
        (λ a b. a ≤ b)
        (IsLoad phdr)
        (λ i. (phdr i).p_vaddr)
        (λ i. start_of file.elf_memory (phdr i))
        n
        file.virtual_base_address
        file.physical_base_address
  pub highest :
      Extreme
        (λ a b. b ≤ a)
        (IsLoad phdr)
        (λ i. end_of (phdr i))
        (λ i. stop_of file.elf_memory (phdr i))
        n
        file.virtual_end_address
        file.physical_end_address

-- No loadable segment among the first `n` starts or ends at address 0.
abbrev pub IsPositive : (ℕ → ProgramHeader) → ℕ → Type 0
IsPositive phdr n = (i : ℕ) → i < n → IsLoad phdr i → ((phdr i).p_vaddr ≢ 0) × (end_of (phdr i) ≢ 0)

either_lem : (a b c : ℕ) → (leb a b || c == 0) ≡ true → (a ≤ b) ⊎ (c ≡ 0)
either_lem a b c h = elim (ℕ_discrete c 0) [ yes e ↦ inr e | no ne ↦ inl (ground arith) ]

neither_lem : (a b c : ℕ) → (leb a b || c == 0) ≡ false → (b < a) × (c ≢ 0)
neither_lem a b c h = (ground arith, λ e. ground arith)

kept : {a b c : ℕ} → (b < a) × (c ≢ 0) → (b ≤ a) × (c ≢ 0)
kept (h, k) = (omega arith, k)

module _ (phdr : ℕ → ProgramHeader) (n : ℕ) (file : ElfFile) (b : IsBounded phdr n file) where
  skip-IsBounded : ¬ IsLoad phdr n → IsBounded phdr (n + 1) file
  skip-IsBounded h = record {
    lowest =
        Extreme-keep (λ a b. a ≤ b) (λ a. omega arith) (λ a b c r t. omega arith) _ _ _ n _ _
          b.lowest (λ load. absurd (h load));
    highest =
        Extreme-keep (λ a b. b ≤ a) (λ a. omega arith) (λ a b c r t. omega arith) _ _ _ n _ _
          b.highest (λ load. absurd (h load));
  }

  lowest_after :
      IsPositive phdr n
      → IsLoad phdr n
      → let loaded = process_phdr_pt_load file (phdr n) in
        Extreme
          (λ a b. a ≤ b)
          (IsLoad phdr)
          (λ i. (phdr i).p_vaddr)
          (λ i. start_of file.elf_memory (phdr i))
          (n + 1)
          loaded.virtual_base_address
          loaded.physical_base_address
  unfolding process_phdr_pt_load
  lowest_after positive load =
      elim (Bool-cases
        (leb (phdr n).p_vaddr file.virtual_base_address || file.virtual_base_address == 0)) [
          | inl e ↦ rw (e) (
              Extreme-take (λ a b. a ≤ b) (λ a. omega arith) (λ a b c r t. omega arith) _ _ _ n _ _
                b.lowest (λ i k l. (positive i k l).0) load (either_lem _ _ _ e))
          | inr e ↦ rw (e) (
              Extreme-keep (λ a b. a ≤ b) (λ a. omega arith) (λ a b c r t. omega arith) _ _ _ n _ _
                b.lowest
                (λ l. kept (
                  neither_lem (phdr n).p_vaddr file.virtual_base_address file.virtual_base_address
                    e)))
        ]

  highest_after :
      IsPositive phdr n
      → IsLoad phdr n
      → let loaded = process_phdr_pt_load file (phdr n) in
        Extreme
          (λ a b. b ≤ a)
          (IsLoad phdr)
          (λ i. end_of (phdr i))
          (λ i. stop_of file.elf_memory (phdr i))
          (n + 1)
          loaded.virtual_end_address
          loaded.physical_end_address
  unfolding process_phdr_pt_load
  highest_after positive load =
      elim (Bool-cases
        (leb file.virtual_end_address (end_of (phdr n)) || file.virtual_end_address == 0)) [
          | inl e ↦ rw (e) (
              Extreme-take (λ a b. b ≤ a) (λ a. omega arith) (λ a b c r t. omega arith) _ _ _ n _ _
                b.highest (λ i k l. (positive i k l).1) load (either_lem _ _ _ e))
          | inr e ↦ rw (e) (
              Extreme-keep (λ a b. b ≤ a) (λ a. omega arith) (λ a b c r t. omega arith) _ _ _ n _ _
                b.highest
                (λ l. kept (
                  neither_lem file.virtual_end_address (end_of (phdr n)) file.virtual_end_address
                    e)))
        ]

  process_pheader-IsBounded :
      IsPositive phdr n → IsBounded phdr (n + 1) (process_pheader file (phdr n))
  unfolding process_pheader
  process_pheader-IsBounded positive = elim (ℕ_discrete (phdr n).p_type pt_load) [
    | yes load ↦
        rw (==_of_eq (phdr n).p_type pt_load load)
          (record { lowest = lowest_after positive load; highest = highest_after positive load })
    | no other ↦ rw (==_of_ne (phdr n).p_type pt_load other) (skip-IsBounded other)
  ]

pheaders_loop-IsBounded :
    (rounds : ℕ) (phdr : ℕ → ProgramHeader) (n total : ℕ) (file : ElfFile)
    → n + rounds ≡ total
    → IsBounded phdr n file
    → IsPositive phdr total
    → IsBounded phdr total (pheaders_loop rounds phdr n file)
unfolding pheaders_loop
pheaders_loop-IsBounded zero phdr n total file e b positive =
    subst (λ m. IsBounded phdr m file) (omega arith) b
pheaders_loop-IsBounded (suc rounds) phdr n total file e b positive =
    pheaders_loop-IsBounded rounds phdr (n + 1) total (process_pheader file (phdr n)) (omega arith)
      (process_pheader-IsBounded phdr n file b (λ i k l. positive i (omega arith) l)) positive

-- From a fresh file, when no loadable segment starts or ends at address 0, `elf_process_pheaders`
-- gives the least start and the greatest end of the loadable segments, with the places in the image
-- that belong to them, and leaves 0 if there is none.
pub process_pheaders-IsBounded :
    (mem : Bytes) (file : ElfFile)
    → file.virtual_base_address ≡ 0
    → file.virtual_end_address ≡ 0
    → IsPositive (program_header mem file.elf_memory) (elf_header mem file.elf_memory).e_phnum
    → IsBounded
        (program_header mem file.elf_memory)
        (elf_header mem file.elf_memory).e_phnum
        (process_pheaders mem file)
unfolding process_pheaders
process_pheaders-IsBounded mem file no_base no_end positive =
    pheaders_loop-IsBounded (elf_header mem file.elf_memory).e_phnum
      (program_header mem file.elf_memory) 0 (elf_header mem file.elf_memory).e_phnum file
      (omega arith) (record { lowest = fresh no_base; highest = fresh no_end }) positive
  where
    fresh :
        {R : ℕ → ℕ → Type 0} {L : ℕ → Type 0} {v q : ℕ → ℕ} {value physical : ℕ}
        → value ≡ 0
        → Extreme R L v q 0 value physical
    fresh e = record {
      bound = λ i k l. absurd (omega arith);
      attained = inr (e, λ i k l. omega arith);
    }
