-- ===== src/Elf.antt =====
-- src/loader/elfloader.c: the checks of an ELF image in memory, and the bounds of its loadable
-- segments. Memory is a function from address to byte, and addresses wrap at 2^32. `none` is an
-- access beyond the bytes that a comparison is given.
pub mod Checks
pub mod Bounds
pub mod Load
mod Tests
use ra_os.Base.{
  ℕ, zero, suc, ◌+◌, ◌*◌, ◌%◌, ◌^◌, ◌==◌, if◌then◌else◌, leb, Bool, not, ◌&&◌, ◌||◌, Option, some,
  List, [], ◌∷◌, ◌>>=◌, Result, ok, err, einformat,
}
use ra_os.Memory.{memcmp}
use ra_os.Memory.Paging.{add32}
use ra_os.Fs.PathParser.{is_zero}

abbrev pub Bytes : Type 0
Bytes = ℕ → ℕ

-- Little-endian reads of 16 and of 32 bits.
abbrev pub half : Bytes → ℕ → ℕ
half mem a = mem a + mem (add32 a 1) * 2 ^ 8

abbrev pub word : Bytes → ℕ → ℕ
word mem a = half mem a + half mem (add32 a 2) * 2 ^ 16

abbrev pub read_bytes : Bytes → ℕ → ℕ → List ℕ
read_bytes mem a zero = []
read_bytes mem a (suc n) = mem a ∷ read_bytes mem (add32 a 1) n

-- The fields of `struct elf_header` that the loader reads, at its address. An offset is signed, and
-- is only ever added to an address, where it wraps.
pub record ElfHeader : Type 0 where
  pub e_class : ℕ
  pub e_data : ℕ
  pub e_phoff : ℕ
  pub e_phnum : ℕ

unfoldable pub elf_header : Bytes → ℕ → ElfHeader
elf_header mem header = record {
  e_class = mem (add32 header 4);
  e_data = mem (add32 header 5);
  e_phoff = word mem (add32 header 28);
  e_phnum = half mem (add32 header 44);
}

-- `struct elf32_phdr`
pub record ProgramHeader : Type 0 where
  pub p_type : ℕ
  pub p_offset : ℕ
  pub p_vaddr : ℕ
  pub p_paddr : ℕ
  pub p_filesz : ℕ
  pub p_memsz : ℕ
  pub p_flags : ℕ
  pub p_align : ℕ

abbrev pub read_program_header : Bytes → ℕ → ProgramHeader
read_program_header mem a = record {
  p_type = word mem a;
  p_offset = word mem (add32 a 4);
  p_vaddr = word mem (add32 a 8);
  p_paddr = word mem (add32 a 12);
  p_filesz = word mem (add32 a 16);
  p_memsz = word mem (add32 a 20);
  p_flags = word mem (add32 a 24);
  p_align = word mem (add32 a 28);
}

-- `struct elf_file`
pub record ElfFile : Type 0 where
  pub elf_memory : ℕ
  pub virtual_base_address : ℕ
  pub virtual_end_address : ℕ
  pub physical_base_address : ℕ
  pub physical_end_address : ℕ

abbrev pub elf_signature : List ℕ
elf_signature = 0x7f ∷ b'E' ∷ b'L' ∷ b'F' ∷ []

unfoldable pub valid_signature : Bytes → ℕ → Option Bool
valid_signature mem buffer = do
  r ← memcmp (read_bytes mem buffer 4) elf_signature 4
  some (is_zero r)

-- ELFCLASSNONE and ELFCLASS32
unfoldable pub valid_class : ElfHeader → Bool
valid_class header = header.e_class == 0 || header.e_class == 1

-- ELFDATANONE and ELFDATA2LSB
unfoldable pub valid_encoding : ElfHeader → Bool
valid_encoding header = header.e_data == 0 || header.e_data == 1

unfoldable pub has_program_header : ElfHeader → Bool
has_program_header header = not (header.e_phoff == 0)

unfoldable pub validate_loaded : Bytes → ℕ → Option (Result (Unit {0}))
unfolding valid_signature valid_class valid_encoding has_program_header elf_header
validate_loaded mem header = do
  signed ← valid_signature mem header
  let h = elf_header mem header
  some (
      if signed && (valid_class h && (valid_encoding h && has_program_header h))
      then ok tt
      else err einformat)

-- The address of the first program header.
unfoldable pub pheader : Bytes → ℕ → ℕ
unfolding elf_header
pheader mem header =
    let h = elf_header mem header in if h.e_phoff == 0 then 0 else add32 header h.e_phoff

-- A program header takes 32 bytes.
unfoldable pub program_header : Bytes → ℕ → ℕ → ProgramHeader
unfolding pheader
program_header mem header index = read_program_header mem (add32 (pheader mem header) (32 * index))

-- PT_LOAD
abbrev pub pt_load : ℕ
pt_load = 1

unfoldable pub process_phdr_pt_load : ElfFile → ProgramHeader → ElfFile
process_phdr_pt_load file phdr =
    let lower = leb phdr.p_vaddr file.virtual_base_address || file.virtual_base_address == 0 in
    let end_address = add32 phdr.p_vaddr phdr.p_filesz in
    let higher = leb file.virtual_end_address end_address || file.virtual_end_address == 0 in
    let start = add32 file.elf_memory phdr.p_offset in
    record file {
      virtual_base_address = if lower then phdr.p_vaddr else file.virtual_base_address;
      physical_base_address = if lower then start else file.physical_base_address;
      virtual_end_address = if higher then end_address else file.virtual_end_address;
      physical_end_address =
          if higher then add32 start phdr.p_filesz else file.physical_end_address;
    }

unfoldable pub process_pheader : ElfFile → ProgramHeader → ElfFile
unfolding process_phdr_pt_load
process_pheader file phdr = if phdr.p_type == pt_load then process_phdr_pt_load file phdr else file

-- `rounds` rounds of the loop are left, from program header `i` on. No program header is refused.
unfoldable pub pheaders_loop : ℕ → (ℕ → ProgramHeader) → ℕ → ElfFile → ElfFile
unfolding process_pheader
pheaders_loop zero phdr i file = file
pheaders_loop (suc rounds) phdr i file =
    pheaders_loop rounds phdr (i + 1) (process_pheader file (phdr i))

unfoldable pub process_pheaders : Bytes → ElfFile → ElfFile
unfolding pheaders_loop program_header
process_pheaders mem file =
    let header = file.elf_memory in
    pheaders_loop (elf_header mem header).e_phnum (program_header mem header) 0 file

unfoldable pub process_loaded : Bytes → ElfFile → Option (Result (Unit {0}) × ElfFile)
unfolding validate_loaded process_pheaders
process_loaded mem file = do
  valid ← validate_loaded mem file.elf_memory
  some (elim valid [ err e ↦ (err e, file) | ok _ ↦ (ok tt, process_pheaders mem file) ])
