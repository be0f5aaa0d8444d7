-- ===== src/Process/Data/Load.antt =====
-- What is loaded for a file: an ELF image, or a binary.
use ra_os.Base.{
  ℕ, ◌+◌, ◌^◌, ◌≤◌, ◌≡◌, refl, ◌∙◌, ap, ◌==◌, false, some, List, ◌>>=◌, done, length, get_elem?,
  arith, ==_of_ne, ◌⊎◌, inl, inr,
}
use ra_os.Memory.Heap.{HeapState, malloc}
use ra_os.Memory.Kheap.{kzalloc, clear}
use ra_os.Fs.File.{FileSystem}
use ra_os.Fs.File.Whole.{Holds}
use ra_os.Elf.{Bytes, process_pheaders}
use ra_os.Elf.Checks.{IsAccepted}
use ra_os.Elf.Load.{Kernel, write_bytes, elf_file_size, fresh_file}
use ra_os.Elf.Load.Image.{elf_load-decides, leave_run, write_bytes-at}
use ra_os.Process.Program.{ProgramData, elf_data, binary_data}
use ra_os.Process.Data.{binary_read, process_load_binary, process_load_elf, process_load_data}

module _ (fs : FileSystem) where
  process_load_binary_run :
      (kernel : Kernel fs.Private) (filename bytes : List ℕ) (ptr : ℕ) (heap : HeapState)
      (mem : Bytes) (holds : Holds fs kernel.files filename bytes)
      → kzalloc kernel.heap kernel.mem holds.stat.size ≡ some (some ptr, heap, mem)
      → process_load_binary fs kernel filename
        ≡ some (
          done (binary_data ptr holds.stat.size),
          record { heap = heap; mem = write_bytes mem ptr bytes; files = kernel.files },
        )
  unfolding process_load_binary binary_read
  process_load_binary_run kernel filename bytes ptr heap mem holds got =
      let test : (holds.fd == 0) ≡ false =
        ==_of_ne holds.fd 0 (λ e. omega (arith, e, holds.positive)) in
      let kernel' : Kernel fs.Private = record {
        heap = heap;
        mem = write_bytes mem ptr bytes;
        files = holds.opened;
      } in
      rw
        (
          process_load_binary, holds.opens, ◌>>=◌, test, holds.has_stat, got, ◌>>=◌, binary_read,
          holds.reads, ◌>>=◌,
        )
        (leave_run fs {A = ProgramData} kernel' holds.fd (done (binary_data ptr holds.stat.size))
          kernel.files holds.closes)

  -- `process_load_data` of a file that can be read, when the heap gives memory for the `struct elf_file`,
  -- for the image and for a binary, each of which ends below 4 GiB: an accepted image is loaded as ELF
  -- data with the bounds that its program headers give, and any other file as a binary, whose bytes are
  -- then in the memory at its address. The file is closed in both cases, and for a binary the two blocks
  -- of the attempt to load it as ELF stay taken.
  pub process_load_data-decides :
      (kernel : Kernel fs.Private) (filename bytes : List ℕ) (elf_file elf_memory ptr : ℕ)
      (heap1 heap2 heap3 : HeapState)
      → Holds fs kernel.files filename bytes
      → malloc kernel.heap elf_file_size ≡ some (some elf_file, heap1)
      → malloc heap1 (length bytes) ≡ some (some elf_memory, heap2)
      → malloc heap2 (length bytes) ≡ some (some ptr, heap3)
      → elf_memory + length bytes ≤ 2 ^ 32
      → ptr + length bytes ≤ 2 ^ 32
      → (mem' : Bytes) × ((i b : ℕ) → get_elem? bytes i ≡ some b → mem' (elf_memory + i) ≡ b)
        × ((IsAccepted mem' elf_memory
              × (process_load_data fs kernel filename
                  ≡ some (
                    done (elf_data (process_pheaders mem' (fresh_file elf_memory))),
                    record { heap = heap2; mem = mem'; files = kernel.files },
                  )))
            ⊎ ((¬ IsAccepted mem' elf_memory)
                × ((mem'' : Bytes) × ((i b : ℕ) → get_elem? bytes i ≡ some b → mem'' (ptr + i) ≡ b)
                    × (process_load_data fs kernel filename
                        ≡ some (
                          done (binary_data ptr (length bytes)),
                          record { heap = heap3; mem = mem''; files = kernel.files },
                        )))))
  unfolding process_load_data process_load_elf kzalloc
  process_load_data-decides kernel filename bytes elf_file elf_memory ptr heap1 heap2 heap3 holds
        got1 got2 got3 room room3 =
      let size : holds.stat.size ≡ length bytes = holds.has_size in
      let (mem', image, decided) =
        elf_load-decides fs kernel filename bytes elf_file elf_memory heap1 heap2 holds got1 got2
          room in
      (
        mem',
        image,
        elim decided [
          | inl (accepted, loaded) ↦
              inl (accepted, rw (process_load_data, process_load_elf, loaded, ◌>>=◌) refl)
          | inr (refused, loaded) ↦
              let mem3 = clear holds.stat.size mem' ptr in
              let binary =
                process_load_binary_run (record { heap = heap2; mem = mem'; files = kernel.files })
                  filename bytes ptr heap3 mem3 holds
                  (rw (ap (malloc heap2) size ∙ got3, ◌>>=◌) refl) in
              inr (
                refused,
                (
                  write_bytes mem3 ptr bytes,
                  λ i b at. write_bytes-at bytes mem3 ptr i b room3 at,
                  rw (process_load_data, process_load_elf, loaded, ◌>>=◌) binary
                      ∙ ap
                          (λ n. some (
                            done (binary_data ptr n),
                            record {
                              heap = heap3;
                              mem = write_bytes mem3 ptr bytes;
                              files = kernel.files;
                            },
                          ))
                          size,
                ),
              )
        ],
      )
