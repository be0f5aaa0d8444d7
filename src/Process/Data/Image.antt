-- ===== src/Process/Data/Image.antt =====
-- From the file of a binary to the bytes that its process sees.
use ra_os.Base.{
  ℕ, zero, suc, ◌+◌, ◌-◌, ◌%◌, ◌^◌, ◌≤◌, ◌<◌, ◌≡◌, ◌≢◌, refl, ◌∙◌, ap, sym, some, List, [], ◌∷◌,
  done, length, get_elem?, arith, inl, inr,
}
use ra_os.Memory.Heap.{HeapState, malloc}
use ra_os.Memory.Paging.{Ram, page_size, get_physical_address}
use ra_os.Memory.Paging.Entries.{IsDirectory}
use ra_os.Fs.File.{FileSystem}
use ra_os.Fs.File.Whole.{Holds}
use ra_os.Elf.{Bytes}
use ra_os.Elf.Checks.{IsAccepted}
use ra_os.Elf.Load.{Kernel, elf_file_size}
use ra_os.Process.Program.{binary_data, process_map_binary}
use ra_os.Process.Program.Mapping.{get_physical_address-process_map_binary}
use ra_os.Process.Data.{process_load_data}
use ra_os.Process.Data.Load.{process_load_data-decides}

-- An accepted image starts with 0x7f.
pub IsAccepted-first : (mem : Bytes) (header : ℕ) → IsAccepted mem header → mem header ≡ 0x7f
IsAccepted-first mem header accepted =
    ap (λ (l : List ℕ). elim l [ [] ↦ 0 | b ∷ rest ↦ b ]) accepted.signature

inside : (bytes : List ℕ) (n b : ℕ) → get_elem? bytes n ≡ some b → n < length bytes
inside [] n b at = absurd (ground (arith, at))
inside (c ∷ bytes) zero b at = omega arith
inside (c ∷ bytes) (suc n) b at = omega (arith, inside bytes n b at)

-- A file whose first byte is not 0x7f is loaded as a binary, and once it is mapped, byte `n` of the file
-- is what the address 0x400000 + n leads to in the page directory of the process. The file can be read;
-- the heap gives memory for the attempt to load it as ELF and for the binary, this at a page; all of it
-- ends below the last page of the address space, also at the place where the program is mapped to.
pub process_map_binary-process_load_data :
    (fs : FileSystem) (kernel : Kernel fs.Private) (filename bytes : List ℕ) (first elf_file : ℕ)
    (elf_memory ptr : ℕ) (heap1 heap2 heap3 : HeapState) (ram : Ram) (directory : ℕ)
    → Holds fs kernel.files filename bytes
    → get_elem? bytes 0 ≡ some first
    → first ≢ 0x7f
    → malloc kernel.heap elf_file_size ≡ some (some elf_file, heap1)
    → malloc heap1 (length bytes) ≡ some (some elf_memory, heap2)
    → malloc heap2 (length bytes) ≡ some (some ptr, heap3)
    → elf_memory + length bytes ≤ 2 ^ 32
    → IsDirectory ram directory
    → ptr % page_size ≡ 0
    → ptr + length bytes ≤ 2 ^ 32 - page_size
    → 0x400000 + length bytes ≤ 2 ^ 32 - page_size
    → (kernel' : Kernel fs.Private) × (process_load_data fs kernel filename
        ≡ some (done (binary_data ptr (length bytes)), kernel'))
      × (kernel'.files ≡ kernel.files)
      × ((n b : ℕ)
          → get_elem? bytes n ≡ some b
          → kernel'.mem (
              get_physical_address
                (process_map_binary ram directory ptr (length bytes))
                directory
                (0x400000 + n))
            ≡ b)
process_map_binary-process_load_data fs kernel filename bytes first elf_file elf_memory ptr heap1
      heap2 heap3 ram directory holds starts other got1 got2 got3 room1 valid aligned room2 room3 =
    let (mem', image, decided) =
      process_load_data-decides fs kernel filename bytes elf_file elf_memory ptr heap1 heap2 heap3
        holds got1 got2 got3 room1 (omega arith) in
    let here : mem' elf_memory ≡ first =
      ap mem' {x = elf_memory} {y = elf_memory + 0} (omega arith) ∙ image 0 first starts in
    elim decided [
      | inl (accepted, loaded) ↦
          absurd (other (sym here ∙ IsAccepted-first mem' elf_memory accepted))
      | inr (refused, (mem'', held, loaded)) ↦ (
        record { heap = heap3; mem = mem''; files = kernel.files },
        loaded,
        refl,
        λ n b at.
            ap mem'' (
              get_physical_address-process_map_binary ram directory ptr (length bytes) n valid
                aligned room2 room3 (inside bytes n b at))
            ∙ held n b at,
      )
    ]
