-- ===== src/Elf/Load.antt =====
-- `elf_load` of src/loader/elfloader.c: an ELF image from a file into the kernel's memory. What a failed
-- read leaves in the new memory is not followed, since nothing uses it.
pub mod Image
use ra_os.Base.{
  ℕ, zero, suc, ◌+◌, ◌==◌, if◌then◌else◌, true, false, Option, none, some, List, [], ◌∷◌, ◌>>=◌, ok,
  err, eio, Outcome, done, failed, fails,
}
use ra_os.Base.Int.{pos}
use ra_os.Memory.Heap.{HeapState, free}
use ra_os.Memory.Paging.{add32}
use ra_os.Memory.Kheap.{kzalloc}
use ra_os.Fs.File.{FileSystem, Files, fopen, fread, fstat, fclose, r_mode}
use ra_os.Elf.{Bytes, ElfFile, process_loaded}

-- The kernel's heap and memory, and its open files.
pub record Kernel (P : Type 0) : Type 0 where
  pub heap : HeapState
  pub mem : Bytes
  pub files : Files P

-- What a read puts into the memory.
unfoldable pub write_bytes : Bytes → ℕ → List ℕ → Bytes
write_bytes mem ptr [] = mem
write_bytes mem ptr (b ∷ bytes) =
    write_bytes (λ a. if a == ptr then b else mem a) (add32 ptr 1) bytes

-- `sizeof(struct elf_file)`
abbrev pub elf_file_size : ℕ
elf_file_size = 152

-- `struct elf_file` from `kzalloc`, with its image.
abbrev pub fresh_file : ℕ → ElfFile
fresh_file elf_memory = record {
  elf_memory = elf_memory;
  virtual_base_address = 0;
  virtual_end_address = 0;
  physical_base_address = 0;
  physical_end_address = 0;
}

module _ (fs : FileSystem) where
  open fs use {Private}

  -- The end of a function: the file is closed, whose result is not looked at.
  unfoldable pub leave :
      {A : Type 0} → Kernel Private → ℕ → Outcome A → Option (Outcome A × Kernel Private)
  unfolding fclose
  leave kernel fd res = do
    (closed, files) ← fclose fs kernel.files (pos fd)
    some (res, record kernel { files = files })

  -- Once the image is in the memory.
  unfoldable pub elf_loaded :
      Kernel Private → ℕ → ℕ → ℕ → Option (Outcome (ℕ × ElfFile) × Kernel Private)
  unfolding leave process_loaded
  elf_loaded kernel fd elf_file elf_memory = do
    (res, file) ← process_loaded kernel.mem (fresh_file elf_memory)
    elim res [ err e ↦ leave kernel fd (fails e) | ok _ ↦ leave kernel fd (done (elf_file, file)) ]

  -- Once the size is known. Neither pointer is tested: `none` is a write through NULL.
  unfoldable pub elf_read :
      Kernel Private → ℕ → Option ℕ → ℕ → Option (Outcome (ℕ × ElfFile) × Kernel Private)
  unfolding kzalloc fread write_bytes leave elf_loaded
  elf_read kernel fd none size = none
  elf_read kernel fd (some elf_file) size = do
    (got, heap, mem) ← kzalloc kernel.heap kernel.mem size
    res ← fread fs kernel.files size 1 (pos fd)
    let kernel' = record kernel { heap = heap; mem = mem }
    elim res [
      | failed e ↦ leave kernel' fd (failed e)
      | done (read, bytes) ↦ elim got [
        | none ↦ none
        | some elf_memory ↦
            elf_loaded (record kernel' { mem = write_bytes mem elf_memory bytes }) fd elf_file
              elf_memory
      ]
    ]

  -- The address of the `struct elf_file` and its value.
  unfoldable pub elf_load :
      Kernel Private → List ℕ → Option (Outcome (ℕ × ElfFile) × Kernel Private)
  unfolding kzalloc fopen fstat leave elf_read
  elf_load kernel filename = do
    (elf_file, heap, mem) ← kzalloc kernel.heap kernel.mem elf_file_size
    (fd, files) ← fopen fs kernel.files filename r_mode
    let kernel' : Kernel Private = record { heap = heap; mem = mem; files = files }
    elim (fd == 0) [
      | true ↦ leave kernel' 0 (fails eio)
      | false ↦ elim (fstat fs files (pos fd)) [
        | err e ↦ leave kernel' fd (fails e)
        | ok stat ↦ elf_read kernel' fd elf_file stat.size
      ]
    ]

-- The pointer is not NULL where it is called.
unfoldable pub elf_close : HeapState → ℕ → ElfFile → Option HeapState
unfolding free
elf_close heap address file = do image_freed ← free heap file.elf_memory; free image_freed address
