-- ===== src/Process/Program/Segments.antt =====
-- Where the segments of an ELF program are mapped.
use ra_os.Base.{
  ℕ, suc, ◌+◌, ◌-◌, ◌*◌, ◌/◌, ◌^◌, ◌≤◌, ◌<◌, ◌≡◌, refl, ◌∙◌, ap, ◌==◌, if◌then◌else◌, Bool, ok,
  arith, bit_and, bit_or, Bool-cases, inl, inr,
}
use ra_os.Memory.Paging.{Ram, page_size, add32, map_to, align_address, align_to_lower_page}
use ra_os.Memory.Paging.Entries.{IsDirectory}
use ra_os.Memory.Paging.Translate.{align_bounds}
use ra_os.Memory.Paging.Range.{in_pages, Mapped, map_to-Mapped}
use ra_os.Elf.{Bytes, ProgramHeader, ElfFile, read_program_header}
use ra_os.Process.Program.{map_elf_loop}

-- The segment in the image, which does not wrap and ends below the last page of the address space, and
-- whose place in the program has two pages behind it.
pub record Fits (file : ElfFile) (phdr : ProgramHeader) : Type 0 where
  pub image : file.elf_memory + phdr.p_offset + phdr.p_memsz ≤ 2 ^ 32 - page_size
  pub program : phdr.p_vaddr + phdr.p_memsz + 2 * page_size ≤ 2 ^ 32

abbrev pub image_of : ElfFile → ProgramHeader → ℕ
image_of file phdr = file.elf_memory + phdr.p_offset

-- The number of pages that are mapped for a segment.
abbrev pub pages_of : ElfFile → ProgramHeader → ℕ
pages_of file phdr =
    (align_address (image_of file phdr + phdr.p_memsz) - align_to_lower_page (image_of file phdr))
    / page_size

-- The page is among those that the segment is mapped to.
abbrev pub covers : ElfFile → ProgramHeader → ℕ → Bool
covers file phdr page = in_pages (align_to_lower_page phdr.p_vaddr) (pages_of file phdr) page

abbrev pub flags_of : ProgramHeader → ℕ
flags_of phdr = if bit_and phdr.p_flags 0x02 == 0 then 0b101 else bit_or 0b101 0b010

pub flags_small : (phdr : ProgramHeader) → flags_of phdr < page_size
flags_small phdr = elim (Bool-cases (bit_and phdr.p_flags 0x02 == 0)) [
  | inl e ↦ rw e (omega arith)
  | inr e ↦ rw e (omega arith)
]

-- One segment.
pub segment-Mapped :
    (ram : Ram) (directory : ℕ) (file : ElfFile) (phdr : ProgramHeader)
    → IsDirectory ram directory
    → Fits file phdr
    → (ram' : Ram) × (map_to ram directory
          (align_to_lower_page phdr.p_vaddr)
          (align_to_lower_page (add32 file.elf_memory phdr.p_offset))
          (align_address (add32 (add32 file.elf_memory phdr.p_offset) phdr.p_memsz))
          (flags_of phdr)
        ≡ (ok tt, ram'))
      × Mapped ram ram' directory
          (align_to_lower_page phdr.p_vaddr)
          (align_to_lower_page (image_of file phdr))
          (pages_of file phdr)
          (flags_of phdr)
segment-Mapped ram directory file phdr valid fits =
    let image = image_of file phdr in
    let whole : add32 file.elf_memory phdr.p_offset ≡ image = omega (arith, fits.image) in
    let end_whole : add32 (add32 file.elf_memory phdr.p_offset) phdr.p_memsz
        ≡ image + phdr.p_memsz =
      omega (arith, fits.image) in
    let (e1, e2, e3, r1, r2, r3) = align_bounds (image + phdr.p_memsz) fits.image in
    let (s1, s2, s3, i1, i2, i3) = align_bounds image (omega (arith, fits.image)) in
    let (t1, t2, t3, v1, v2, v3) = align_bounds phdr.p_vaddr (omega (arith, fits.program)) in
    let (ram', done, mapped) =
      map_to-Mapped ram directory (align_to_lower_page phdr.p_vaddr) (align_to_lower_page image)
        (align_address (image + phdr.p_memsz)) (flags_of phdr) valid v1 i1 e1
        (omega (arith, e2, i2)) (omega (arith, e3, fits.image))
        (omega (arith, e3, i3, v2, fits.program)) (flags_small phdr) in
    (
      ram',
      ap
            (λ a.
              map_to ram directory (align_to_lower_page phdr.p_vaddr) (align_to_lower_page a)
                (align_address (add32 (add32 file.elf_memory phdr.p_offset) phdr.p_memsz))
                (flags_of phdr))
            whole
          ∙ ap
              (λ a.
                map_to ram directory (align_to_lower_page phdr.p_vaddr) (align_to_lower_page image)
                  (align_address a) (flags_of phdr))
              end_whole
          ∙ done,
      mapped,
    )

-- The loop goes on after a segment that is mapped.
pub segment_step :
    (rounds : ℕ) (mem : Bytes) (ram ram' : Ram) (directory : ℕ) (file : ElfFile) (phdrs : ℕ)
    → let phdr = read_program_header mem phdrs in
      map_to ram directory
          (align_to_lower_page phdr.p_vaddr)
          (align_to_lower_page (add32 file.elf_memory phdr.p_offset))
          (align_address (add32 (add32 file.elf_memory phdr.p_offset) phdr.p_memsz))
          (flags_of phdr)
        ≡ (ok tt, ram')
      → map_elf_loop (suc rounds) mem ram directory file phdrs
        ≡ map_elf_loop rounds mem ram' directory file (add32 phdrs 32)
unfolding map_elf_loop
segment_step rounds mem ram ram' directory file phdrs done = rw (map_elf_loop, done, done) refl
