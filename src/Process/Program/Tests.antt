-- ===== src/Process/Program/Tests.antt =====
-- An image at 0x01001000 with one segment of 300 bytes at offset 0x1000, for the address 0x400000, and a
-- binary of 300 bytes.
use ra_os.Base.{ℕ, zero, suc, ◌+◌, ◌-◌, ◌*◌, ◌/◌, ◌<◌, ◌≡◌, ◌==◌, refl, if◌then◌else◌, ok, arith}
use ra_os.Memory.Paging.{Ram, page_size, get_physical_address}
use ra_os.Memory.Paging.Entries.{IsDirectory}
use ra_os.Elf.{Bytes, ElfFile, elf_header, pheader}
use ra_os.Process.Program.{process_map_elf, binary_data, process_map_memory}
use ra_os.Process.Program.Segments.{Fits}
use ra_os.Process.Program.Whole.{process_map_memory-binary_data}
use ra_os.Process.Program.Image.{header_at, get_physical_address-process_map_elf}

abbrev image_byte : ℕ → ℕ
image_byte i =
    if i == 28
    then 52
    else if i == 44
    then 1
    else if i == 52
    then 1
    else if i == 57
    then 0x10
    else if i == 62
    then 0x40
    else if i == 72
    then 0x2c
    else if i == 73
    then 0x01
    else if i == 76
    then 5
    else 0

abbrev image : Bytes
image a = image_byte (a - 0x01001000)

abbrev image_file : ElfFile
image_file = record {
  elf_memory = 0x01001000;
  virtual_base_address = 0x400000;
  virtual_end_address = 0x40012c;
  physical_base_address = 0x01002000;
  physical_end_address = 0x0100212c;
}

abbrev test_ram : Ram
test_ram address = (address / 4 + 1) * page_size

test_ram-IsDirectory : IsDirectory test_ram 0
test_ram-IsDirectory = record {
  aligned = omega arith;
  words = λ d h. omega arith;
  apart = λ d h. omega arith;
  distinct = λ d e h k n. omega arith;
}

only_segment : (i : ℕ) → i < 1 → Fits image_file (header_at image 0x01001034 i)
only_segment zero h = record { image = omega arith; program = omega arith }
only_segment (suc i) h = absurd (omega arith)

get_physical_address-process_map_elf_example :
    (ram' : Ram) × (process_map_elf image test_ram 0 image_file ≡ (ok tt, ram'))
    × (get_physical_address ram' 0 (0x400000 + 299) ≡ 0x01002000 + 299)
unfolding elf_header pheader
get_physical_address-process_map_elf_example =
    get_physical_address-process_map_elf image test_ram 0 image_file 0 299 test_ram-IsDirectory
      (omega arith) only_segment (omega arith) (omega arith) refl (λ i h g. absurd (omega arith))

process_map_memory-binary_data_example :
    (ram' : Ram) × (process_map_memory image test_ram 0 (binary_data 0x01000000 300) 0x01004000
      ≡ (ok tt, ram'))
    × ((n : ℕ) → n < 300 → get_physical_address ram' 0 (0x400000 + n) ≡ 0x01000000 + n)
    × ((n : ℕ) → n < 16384 → get_physical_address ram' 0 (0x3fb000 + n) ≡ 0x01004000 + n)
process_map_memory-binary_data_example =
    process_map_memory-binary_data image test_ram 0 0x01000000 300 0x01004000 test_ram-IsDirectory
      refl (omega arith) (omega arith) refl (omega arith)
