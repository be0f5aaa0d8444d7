-- ===== src/Process/Program/Image.antt =====
-- What a process sees of its ELF image.
use ra_os.Base.{
  ℕ, zero, suc, ◌+◌, ◌-◌, ◌*◌, ◌/◌, ◌%◌, ◌^◌, ◌≤◌, ◌<◌, ◌≡◌, refl, ◌∙◌, sym, ap, subst, leb, ltb,
  true, false, ok, arith, ◌&&◌,
}
use ra_os.Memory.Paging.{Ram, page_size, get, add32, align_to_lower_page, get_physical_address}
use ra_os.Memory.Paging.Entries.{IsDirectory}
use ra_os.Memory.Paging.Translate.{entry_of, align_bounds, get_physical_address-get}
use ra_os.Elf.{Bytes, ProgramHeader, ElfFile, elf_header, pheader, read_program_header}
use ra_os.Process.Program.{map_elf_loop, process_map_elf}
use ra_os.Process.Program.Segments.{
  Fits, image_of, pages_of, covers, flags_of, flags_small, segment-Mapped, segment_step,
}

-- Program header `i` of those at `phdrs`.
abbrev pub header_at : Bytes → ℕ → ℕ → ProgramHeader
header_at mem phdrs i = read_program_header mem (phdrs + 32 * i)

header_first : (mem : Bytes) (phdrs : ℕ) → header_at mem phdrs 0 ≡ read_program_header mem phdrs
header_first mem phdrs = ap (read_program_header mem) {x = phdrs + 32 * 0} {y = phdrs} (omega arith)

header_later :
    (mem : Bytes) (phdrs i : ℕ)
    → phdrs + 32 < 2 ^ 32
    → header_at mem phdrs (suc i) ≡ header_at mem (add32 phdrs 32) i
header_later mem phdrs i room = ap (read_program_header mem) (omega arith)

module _ (mem : Bytes) (directory : ℕ) (file : ElfFile) (page : ℕ) (aligned : page % page_size ≡ 0)
    (below : page < 2 ^ 32) where
  -- The pages that no segment covers stay as they are.
  loop_other :
      (rounds : ℕ) (ram : Ram) (phdrs : ℕ)
      → IsDirectory ram directory
      → phdrs + 32 * rounds < 2 ^ 32
      → ((i : ℕ) → i < rounds → Fits file (header_at mem phdrs i))
      → ((i : ℕ) → i < rounds → covers file (header_at mem phdrs i) page ≡ false)
      → (ram' : Ram) × (map_elf_loop rounds mem ram directory file phdrs ≡ (ok tt, ram'))
        × (get ram' directory page ≡ get ram directory page)
  unfolding map_elf_loop
  loop_other zero ram phdrs valid room fits others = (ram, refl, refl)
  loop_other (suc rounds) ram phdrs valid room fits others =
      let phdr = read_program_header mem phdrs in
      let first = header_first mem phdrs in
      let (ram1, done1, mapped) =
        segment-Mapped ram directory file phdr valid
          (subst (Fits file) first (fits 0 (omega arith))) in
      let missed : covers file phdr page ≡ false =
        ap (λ h. covers file h page) (sym first) ∙ others 0 (omega arith) in
      let kept : get ram1 directory page ≡ get ram directory page =
        mapped.pages page aligned below ∙ rw missed refl in
      let (ram', done, same) =
        loop_other rounds ram1 (add32 phdrs 32) mapped.valid (omega arith)
          (λ i h.
            subst (Fits file) (header_later mem phdrs i (omega arith)) (fits (suc i) (omega arith)))
          (λ i h.
            ap (λ p. covers file p page) (sym (header_later mem phdrs i (omega arith)))
            ∙ others (suc i) (omega arith)) in
      (ram', segment_step rounds mem ram ram1 directory file phdrs done1 ∙ done, same ∙ kept)

  -- Where a page of segment `k` leads to.
  abbrev target : ProgramHeader → ℕ
  target phdr =
      entry_of
        (align_to_lower_page (image_of file phdr) + (page - align_to_lower_page phdr.p_vaddr))
        (flags_of phdr)

  loop_covered :
      (k rounds : ℕ) (ram : Ram) (phdrs : ℕ)
      → IsDirectory ram directory
      → k < rounds
      → phdrs + 32 * rounds < 2 ^ 32
      → ((i : ℕ) → i < rounds → Fits file (header_at mem phdrs i))
      → covers file (header_at mem phdrs k) page ≡ true
      → ((i : ℕ) → k < i → i < rounds → covers file (header_at mem phdrs i) page ≡ false)
      → (ram' : Ram) × (map_elf_loop rounds mem ram directory file phdrs ≡ (ok tt, ram'))
        × (get ram' directory page ≡ target (header_at mem phdrs k))
  loop_covered k zero ram phdrs valid inside room fits here later = absurd (omega arith)
  loop_covered zero (suc rounds) ram phdrs valid inside room fits here later =
      let phdr = read_program_header mem phdrs in
      let first = header_first mem phdrs in
      let (ram1, done1, mapped) =
        segment-Mapped ram directory file phdr valid
          (subst (Fits file) first (fits 0 (omega arith))) in
      let hit : covers file phdr page ≡ true = ap (λ h. covers file h page) (sym first) ∙ here in
      let placed : get ram1 directory page ≡ target phdr =
        mapped.pages page aligned below ∙ rw hit refl in
      let (ram', done, same) =
        loop_other rounds ram1 (add32 phdrs 32) mapped.valid (omega arith)
          (λ i h.
            subst (Fits file) (header_later mem phdrs i (omega arith)) (fits (suc i) (omega arith)))
          (λ i h.
            ap (λ p. covers file p page) (sym (header_later mem phdrs i (omega arith)))
            ∙ later (suc i) (omega arith) (omega arith)) in
      (
        ram',
        segment_step rounds mem ram ram1 directory file phdrs done1 ∙ done,
        same ∙ placed ∙ ap target (sym first),
      )
  loop_covered (suc k) (suc rounds) ram phdrs valid inside room fits here later =
      let phdr = read_program_header mem phdrs in
      let (ram1, done1, mapped) =
        segment-Mapped ram directory file phdr valid
          (subst (Fits file) (header_first mem phdrs) (fits 0 (omega arith))) in
      let step = λ (i : ℕ). header_later mem phdrs i (omega arith) in
      let (ram', done, placed) =
        loop_covered k rounds ram1 (add32 phdrs 32) mapped.valid (omega arith) (omega arith)
          (λ i h. subst (Fits file) (step i) (fits (suc i) (omega arith)))
          (ap (λ p. covers file p page) (sym (step k)) ∙ here)
          (λ i h g.
            ap (λ p. covers file p page) (sym (step i))
            ∙ later (suc i) (omega arith) (omega arith)) in
      (
        ram',
        segment_step rounds mem ram ram1 directory file phdrs done1 ∙ done,
        placed ∙ ap target (sym (step k)),
      )

inside_both : (a b page : ℕ) → a ≤ page → page < b → (leb a page && ltb page b) ≡ true
inside_both a b page lo hi = ground arith

-- The page of byte `n` of a segment is one that it is mapped to.
covers_own :
    (file : ElfFile) (phdr : ProgramHeader) (n : ℕ)
    → Fits file phdr
    → phdr.p_vaddr % page_size ≡ image_of file phdr % page_size
    → n < phdr.p_memsz
    → covers file phdr ((phdr.p_vaddr + n) / page_size * page_size) ≡ true
covers_own file phdr n fits same inside =
    let (e1, e2, e3, r1, r2, r3) = align_bounds (image_of file phdr + phdr.p_memsz) fits.image in
    let (s1, s2, s3, i1, i2, i3) = align_bounds (image_of file phdr) (omega (arith, fits.image)) in
    let (t1, t2, t3, v1, v2, v3) = align_bounds phdr.p_vaddr (omega (arith, fits.program)) in
    inside_both (align_to_lower_page phdr.p_vaddr)
      (align_to_lower_page phdr.p_vaddr + pages_of file phdr * page_size)
      ((phdr.p_vaddr + n) / page_size * page_size) (omega (arith, v1, v2, v3)) (omega arith)

-- `process_map_elf` of an image whose segments fit succeeds, and byte `n` of a segment is found at its
-- virtual address, when that has the same offset in its page as the segment has in memory, and no later
-- segment is mapped to the page of the byte. The image has program headers, whose table does not wrap,
-- and the tables of the directory are pages apart.
pub get_physical_address-process_map_elf :
    (mem : Bytes) (ram : Ram) (directory : ℕ) (file : ElfFile) (k n : ℕ)
    → let count = (elf_header mem file.elf_memory).e_phnum in
      let phdrs = pheader mem file.elf_memory in
      let phdr = header_at mem phdrs k in
      IsDirectory ram directory
      → phdrs + 32 * count < 2 ^ 32
      → ((i : ℕ) → i < count → Fits file (header_at mem phdrs i))
      → k < count
      → n < phdr.p_memsz
      → phdr.p_vaddr % page_size ≡ image_of file phdr % page_size
      → ((i : ℕ)
          → k < i
          → i < count
          → covers file (header_at mem phdrs i) ((phdr.p_vaddr + n) / page_size * page_size)
            ≡ false)
      → (ram' : Ram) × (process_map_elf mem ram directory file ≡ (ok tt, ram'))
        × (get_physical_address ram' directory (phdr.p_vaddr + n) ≡ image_of file phdr + n)
unfolding process_map_elf
get_physical_address-process_map_elf mem ram directory file k n valid room fits inside byte same
      later =
    let count = (elf_header mem file.elf_memory).e_phnum in
    let phdrs = pheader mem file.elf_memory in
    let phdr = header_at mem phdrs k in
    let own = fits k inside in
    let virt = phdr.p_vaddr + n in
    let page = virt / page_size * page_size in
    let small : virt < 2 ^ 32 = omega (arith, own.program) in
    let (i1, i2, i3, l1, l2, l3) = align_bounds (image_of file phdr) (omega (arith, own.image)) in
    let (v1, v2, v3, p1, p2, p3) = align_bounds phdr.p_vaddr (omega (arith, own.program)) in
    let flags = flags_small phdr in
    let (ram', done, placed) =
      loop_covered mem directory file page (omega arith) (omega arith) k count ram phdrs valid
        inside room fits (covers_own file phdr n own same byte) later in
    (
      ram',
      done,
      get_physical_address-get ram' directory virt small
            (omega (arith, placed, flags, l1, l2, l3, p1, p2, p3, own.image))
          ∙ omega (arith, placed, flags, l1, l2, l3, p1, p2, p3, own.image),
    )
