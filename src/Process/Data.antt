-- ===== src/Process/Data.antt =====
-- src/task/process.c: the program data of a process, an ELF file or the bytes of a binary.
pub mod Load
pub mod Image
mod Tests
use ra_os.Base.{
  ℕ, ◌==◌, true, false, Option, none, some, List, ◌>>=◌, ok, err, eio, enomem, einformat, Outcome,
  done, failed, fails, minus,
}
use ra_os.Base.Int.{pos}
use ra_os.Memory.Heap.{HeapState, free}
use ra_os.Memory.Kheap.{kzalloc}
use ra_os.Fs.File.{FileSystem, fopen, fread, fstat, r_mode}
use ra_os.Elf.{ElfFile}
use ra_os.Elf.Load.{Kernel, write_bytes, leave, elf_load, elf_close}
use ra_os.Process.Program.{ProgramData, elf_data, binary_data}

module _ (fs : FileSystem) where
  open fs use {Private}

  -- Once the memory for the program is there.
  unfoldable pub binary_read :
      Kernel Private → ℕ → ℕ → ℕ → Option (Outcome ProgramData × Kernel Private)
  unfolding fread write_bytes leave free
  binary_read kernel fd program_data_ptr size = do
    res ← fread fs kernel.files size 1 (pos fd)
    elim res [
      | failed e ↦ do
        heap ← free kernel.heap program_data_ptr
        leave fs (record kernel { heap = heap }) fd (fails eio)
      | done (read, bytes) ↦ elim (read == 1) [
        | false ↦ do
          heap ← free kernel.heap program_data_ptr
          leave fs (record kernel { heap = heap }) fd (fails eio)
        | true ↦
            leave fs (record kernel { mem = write_bytes kernel.mem program_data_ptr bytes }) fd
              (done (binary_data program_data_ptr size))
      ]
    ]

  unfoldable pub process_load_binary :
      Kernel Private → List ℕ → Option (Outcome ProgramData × Kernel Private)
  unfolding kzalloc fopen fstat leave binary_read
  process_load_binary kernel filename = do
    (fd, files) ← fopen fs kernel.files filename r_mode
    let kernel' = record kernel { files = files }
    elim (fd == 0) [
      | true ↦ leave fs kernel' 0 (fails eio)
      | false ↦ elim (fstat fs files (pos fd)) [
        | err e ↦ leave fs kernel' fd (fails e)
        | ok stat ↦ do
          (got, heap, mem) ← kzalloc kernel.heap kernel.mem stat.size
          let kernel'' = record kernel' { heap = heap; mem = mem }
          elim got [
            | none ↦ leave fs kernel'' fd (fails enomem)
            | some program_data_ptr ↦ binary_read kernel'' fd program_data_ptr stat.size
          ]
      ]
    ]

  unfoldable pub process_load_elf :
      Kernel Private → List ℕ → Option (Outcome ProgramData × Kernel Private)
  unfolding elf_load
  process_load_elf kernel filename = do
    (res, kernel') ← elf_load fs kernel filename
    some (elim res [
      | failed e ↦ (failed e, kernel')
      | done (address, file) ↦ (done (elf_data file), kernel')
    ])

  unfoldable pub process_load_data :
      Kernel Private → List ℕ → Option (Outcome ProgramData × Kernel Private)
  unfolding process_load_elf process_load_binary
  process_load_data kernel filename = do
    (res, kernel') ← process_load_elf kernel filename
    elim res [
      | done program ↦ some (done program, kernel')
      | failed e ↦ elim (e == minus einformat) [
        | true ↦ process_load_binary kernel' filename
        | false ↦ some (failed e, kernel')
      ]
    ]
