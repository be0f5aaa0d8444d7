-- ===== src/Elf/Load/Image.antt =====
-- What `elf_load` makes of a file.
use ra_os.Base.{
  ℕ, zero, suc, ◌+◌, ◌^◌, ◌≤◌, ◌<◌, ◌≡◌, refl, ◌∙◌, ap, ◌==◌, if◌then◌else◌, false, some, List, [],
  ◌∷◌, ◌>>=◌, ok, err, einformat, Outcome, done, fails, length, get_elem?, arith, ==_of_ne,
  ==_of_eq, some_eq, ◌⊎◌, inl, inr,
}
use ra_os.Base.Int.{pos}
use ra_os.Memory.Heap.{HeapState, malloc}
use ra_os.Memory.Paging.{add32}
use ra_os.Memory.Kheap.{kzalloc, clear}
use ra_os.Fs.File.{FileSystem, Files, fclose}
use ra_os.Fs.File.Whole.{Holds}
use ra_os.Elf.{Bytes, ElfFile, validate_loaded, process_pheaders, process_loaded}
use ra_os.Elf.Checks.{IsAccepted, validate_loaded-decides}
use ra_os.Elf.Load.{
  Kernel, write_bytes, elf_file_size, fresh_file, leave, elf_loaded, elf_read, elf_load,
}

write_bytes-before :
    (bytes : List ℕ) (mem : Bytes) (p a : ℕ)
    → p + length bytes ≤ 2 ^ 32
    → a < p
    → write_bytes mem p bytes a ≡ mem a
unfolding write_bytes
write_bytes-before [] mem p a room before = refl
write_bytes-before (b ∷ []) mem p a room before = rw (==_of_ne a p (λ e. omega (arith, e))) refl
write_bytes-before (b ∷ c ∷ bytes) mem p a room before =
    write_bytes-before (c ∷ bytes) (λ x. if x == p then b else mem x) (add32 p 1) a (omega arith)
      (omega arith)
    ∙ rw (==_of_ne a p (λ e. omega (arith, e))) refl

-- The bytes stand one behind the other.
pub write_bytes-at :
    (bytes : List ℕ) (mem : Bytes) (p i b : ℕ)
    → p + length bytes ≤ 2 ^ 32
    → get_elem? bytes i ≡ some b
    → write_bytes mem p bytes (p + i) ≡ b
unfolding write_bytes
write_bytes-at [] mem p i b room at = absurd (ground (arith, at))
write_bytes-at (c ∷ []) mem p zero b room at = rw (==_of_eq (p + 0) p (omega arith)) (some_eq at)
write_bytes-at (c ∷ []) mem p (suc i) b room at = absurd (ground (arith, at))
write_bytes-at (c ∷ d ∷ bytes) mem p zero b room at =
    write_bytes-before (d ∷ bytes) (λ x. if x == p then c else mem x) (add32 p 1) (p + 0)
      (omega arith) (omega arith)
    ∙ rw (==_of_eq (p + 0) p (omega arith)) (some_eq at)
write_bytes-at (c ∷ d ∷ bytes) mem p (suc i) b room at =
    ap (write_bytes (λ x. if x == p then c else mem x) (add32 p 1) (d ∷ bytes)) (omega arith)
    ∙ write_bytes-at (d ∷ bytes) (λ x. if x == p then c else mem x) (add32 p 1) i b (omega arith) at

module _ (fs : FileSystem) where
  pub leave_run :
      {A : Type 0} (kernel : Kernel fs.Private) (fd : ℕ) (res : Outcome A)
      (files : Files fs.Private)
      → fclose fs kernel.files (pos fd) ≡ some (ok tt, files)
      → leave fs kernel fd res ≡ some (res, record kernel { files = files })
  unfolding leave
  leave_run kernel fd res files closes = rw (leave, closes, ◌>>=◌) refl

  -- The steps up to the checks of the image.
  elf_load_run :
      (kernel : Kernel fs.Private) (filename bytes : List ℕ) (elf_file elf_memory : ℕ)
      (heap1 heap2 : HeapState) (mem1 mem2 : Bytes) (holds : Holds fs kernel.files filename bytes)
      → kzalloc kernel.heap kernel.mem elf_file_size ≡ some (some elf_file, heap1, mem1)
      → kzalloc heap1 mem1 holds.stat.size ≡ some (some elf_memory, heap2, mem2)
      → elf_load fs kernel filename
        ≡ elf_loaded fs
            (record { heap = heap2; mem = write_bytes mem2 elf_memory bytes; files = holds.opened })
            holds.fd
            elf_file
            elf_memory
  unfolding elf_load elf_read
  elf_load_run kernel filename bytes elf_file elf_memory heap1 heap2 mem1 mem2 holds got1 got2 =
      let test : (holds.fd == 0) ≡ false =
        ==_of_ne holds.fd 0 (λ e. omega (arith, e, holds.positive)) in
      rw
        (
          elf_load, got1, ◌>>=◌, holds.opens, ◌>>=◌, test, holds.has_stat, elf_read, got2, ◌>>=◌,
          holds.reads, ◌>>=◌,
        )
        refl

  elf_loaded-accepted :
      (kernel : Kernel fs.Private) (fd elf_file elf_memory : ℕ) (files : Files fs.Private)
      → fclose fs kernel.files (pos fd) ≡ some (ok tt, files)
      → validate_loaded kernel.mem elf_memory ≡ some (ok tt)
      → elf_loaded fs kernel fd elf_file elf_memory
        ≡ some (
          done (elf_file, process_pheaders kernel.mem (fresh_file elf_memory)),
          record kernel { files = files },
        )
  unfolding elf_loaded process_loaded
  elf_loaded-accepted kernel fd elf_file elf_memory files closes valid =
      rw (elf_loaded, process_loaded, valid, ◌>>=◌)
        (leave_run kernel fd (done (elf_file, process_pheaders kernel.mem (fresh_file elf_memory)))
          files closes)

  elf_loaded-refused :
      (kernel : Kernel fs.Private) (fd elf_file elf_memory : ℕ) (files : Files fs.Private)
      → fclose fs kernel.files (pos fd) ≡ some (ok tt, files)
      → validate_loaded kernel.mem elf_memory ≡ some (err einformat)
      → elf_loaded fs kernel fd elf_file elf_memory
        ≡ some (fails einformat, record kernel { files = files })
  unfolding elf_loaded process_loaded
  elf_loaded-refused kernel fd elf_file elf_memory files closes valid =
      rw (elf_loaded, process_loaded, valid, ◌>>=◌)
        (leave_run {A = ℕ × ElfFile} kernel fd (fails einformat) files closes)

  -- `elf_load` of a file that can be read, when the heap gives memory for the `struct elf_file` and for the
  -- image, which ends below 4 GiB, puts the bytes of the file into the memory and closes the file. An
  -- image that is accepted is returned with the bounds that its program headers give, and for every
  -- other one the result is EINFORMAT. Both blocks of memory stay taken in either case.
  pub elf_load-decides :
      (kernel : Kernel fs.Private) (filename bytes : List ℕ) (elf_file elf_memory : ℕ)
      (heap1 heap2 : HeapState)
      → Holds fs kernel.files filename bytes
      → malloc kernel.heap elf_file_size ≡ some (some elf_file, heap1)
      → malloc heap1 (length bytes) ≡ some (some elf_memory, heap2)
      → elf_memory + length bytes ≤ 2 ^ 32
      → (mem' : Bytes) × ((i b : ℕ) → get_elem? bytes i ≡ some b → mem' (elf_memory + i) ≡ b)
        × ((IsAccepted mem' elf_memory
              × (elf_load fs kernel filename
                  ≡ some (
                    done (elf_file, process_pheaders mem' (fresh_file elf_memory)),
                    record { heap = heap2; mem = mem'; files = kernel.files },
                  )))
            ⊎ ((¬ IsAccepted mem' elf_memory)
                × (elf_load fs kernel filename
                    ≡ some (
                      fails einformat,
                      record { heap = heap2; mem = mem'; files = kernel.files },
                    ))))
  unfolding kzalloc
  elf_load-decides kernel filename bytes elf_file elf_memory heap1 heap2 holds got1 got2 room =
      let size : holds.stat.size ≡ length bytes = holds.has_size in
      let mem1 = clear elf_file_size kernel.mem elf_file in
      let mem2 = clear holds.stat.size mem1 elf_memory in
      let mem' = write_bytes mem2 elf_memory bytes in
      let kernel' : Kernel fs.Private = record { heap = heap2; mem = mem'; files = holds.opened } in
      let ran =
        elf_load_run kernel filename bytes elf_file elf_memory heap1 heap2 mem1 mem2 holds
          (rw (got1, ◌>>=◌) refl) (rw (ap (malloc heap1) size ∙ got2, ◌>>=◌) refl) in
      (
        mem',
        λ i b at. write_bytes-at bytes mem2 elf_memory i b room at,
        elim (validate_loaded-decides mem' elf_memory) [
          | inl (valid, accepted) ↦ inl (
            accepted,
            ran
                ∙ elf_loaded-accepted kernel' holds.fd elf_file elf_memory kernel.files holds.closes
                    valid,
          )
          | inr (valid, refused) ↦ inr (
            refused,
            ran
                ∙ elf_loaded-refused kernel' holds.fd elf_file elf_memory kernel.files holds.closes
                    valid,
          )
        ],
      )
