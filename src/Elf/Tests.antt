-- ===== src/Elf/Tests.antt =====
-- The theorems on ELF images at an image at 0x1000 with one loadable segment.
use ra_os.Base.{zero, suc, refl, arith, ◌==◌, if◌then◌else◌}
use ra_os.Elf.{Bytes, ElfFile, elf_header, program_header, process_pheaders}
use ra_os.Elf.Bounds.{IsPositive, IsBounded, process_pheaders-IsBounded}

-- e_phoff is 52 and e_phnum is 1; the segment has 0x1000 bytes at 0x400000.
abbrev image : Bytes
image a =
    if a == 0x101c
    then 52
    else if a == 0x102c
    then 1
    else if a == 0x1034
    then 1
    else if a == 0x103e
    then 0x40
    else if a == 0x1045
    then 0x10
    else 0

abbrev fresh_file : ElfFile
fresh_file = record {
  elf_memory = 0x1000;
  virtual_base_address = 0;
  virtual_end_address = 0;
  physical_base_address = 0;
  physical_end_address = 0;
}

image-IsPositive : IsPositive (program_header image 0x1000) 1
unfolding program_header
image-IsPositive zero h l = (omega arith, omega arith)
image-IsPositive (suc i) h l = absurd (omega arith)

process_pheaders-IsBounded_example :
    IsBounded (program_header image 0x1000) 1 (process_pheaders image fresh_file)
unfolding elf_header
process_pheaders-IsBounded_example =
    process_pheaders-IsBounded image fresh_file refl refl image-IsPositive
