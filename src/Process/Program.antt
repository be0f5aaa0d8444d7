-- ===== src/Process/Program.antt =====
-- src/task/process.c: the mapping of a program into the pages of its process.
pub mod Mapping
pub mod Segments
pub mod Image
pub mod Whole
mod Tests
use ra_os.Base.{
  ℕ, zero, suc, ◌+◌, ◌-◌, ◌*◌, ◌%◌, ◌^◌, ◌==◌, if◌then◌else◌, leb, Bool, true, false, not, ◌||◌,
  Option, none, some, List, [], ◌∷◌, ◌>>=◌, Result, ok, err, Error, eio, eistkn, enomem, set,
  get_elem?, bit_and, bit_or,
}
use ra_os.Base.Int.{ℤ, pos, negsuc}
use ra_os.Memory.Heap.{HeapState, malloc, free}
use ra_os.Memory.Paging.{Ram, add32, map_to, align_address, align_to_lower_page}
use ra_os.Elf.{Bytes, ProgramHeader, ElfFile, elf_header, pheader, read_program_header}
use ra_os.Process.{all_access}

-- The result of `paging_map_to` is not looked at.
unfoldable pub process_map_binary : Ram → ℕ → ℕ → ℕ → Ram
unfolding map_to align_address
process_map_binary ram directory ptr size =
    (map_to ram directory 0x400000 ptr (align_address (add32 ptr size)) all_access).1

-- The loop of `process_map_elf`: `rounds` program headers from address `phdrs` on.
unfoldable pub map_elf_loop : ℕ → Bytes → Ram → ℕ → ElfFile → ℕ → Result (Unit {0}) × Ram
unfolding map_to align_address align_to_lower_page
map_elf_loop zero mem ram directory elf_file phdrs = (ok tt, ram)
map_elf_loop (suc rounds) mem ram directory elf_file phdrs =
    let phdr = read_program_header mem phdrs in
    let phdr_phys_address = add32 elf_file.elf_memory phdr.p_offset in
    let flags = (if bit_and phdr.p_flags 0x02 == 0 then 0b101 else bit_or 0b101 0b010) in
    let (res, ram') =
      map_to ram directory (align_to_lower_page phdr.p_vaddr)
        (align_to_lower_page phdr_phys_address)
        (align_address (add32 phdr_phys_address phdr.p_memsz)) flags in
    let rest = map_elf_loop rounds mem ram' directory elf_file (add32 phdrs 32) in
    elim res [ err e ↦ (err e, ram') | ok _ ↦ rest ]

unfoldable pub process_map_elf : Bytes → Ram → ℕ → ElfFile → Result (Unit {0}) × Ram
unfolding map_elf_loop
process_map_elf mem ram directory elf_file =
    let header = elf_header mem elf_file.elf_memory in
    map_elf_loop header.e_phnum mem ram directory elf_file (pheader mem elf_file.elf_memory)

-- The program data of a process, with its file type; RAOS_USER_PROGRAM_STACK_SIZE is 16384.
pub data ProgramData : Type 0 where
  elf_data : ElfFile → ProgramData
  binary_data : ℕ → ℕ → ProgramData

-- The result of the mapping of the stack is not looked at.
unfoldable pub map_stack : Ram → ℕ → ℕ → Ram
unfolding map_to align_address
map_stack ram directory stack =
    (map_to ram directory (0x3ff000 - 16384) stack (align_address (add32 stack 16384)) all_access).1

unfoldable pub process_map_memory : Bytes → Ram → ℕ → ProgramData → ℕ → Result (Unit {0}) × Ram
unfolding process_map_binary process_map_elf map_stack
process_map_memory mem ram directory (binary_data ptr size) stack =
    (ok tt, map_stack (process_map_binary ram directory ptr size) directory stack)
process_map_memory mem ram directory (elf_data elf_file) stack =
    let (res, ram') = process_map_elf mem ram directory elf_file in
    elim res [ err e ↦ (err e, ram') | ok _ ↦ (ok tt, map_stack ram' directory stack) ]
