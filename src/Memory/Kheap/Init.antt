-- ===== src/Memory/Kheap/Init.antt =====
-- `kheap_init` and `kzalloc`: the kernel's heap at the start, and the memory that it hands out.
use ra_os.Base.{
  ℕ, zero, suc, ◌+◌, ◌^◌, ◌≤◌, ◌<◌, ◌≡◌, refl, ◌∙◌, ap, ◌==◌, if◌then◌else◌, leb, ltb, ◌&&◌, Bool,
  arith, length, replicate, some, ok,
}
use ra_os.Memory.Heap.{HeapState, HeapTable, malloc}
use ra_os.Memory.Heap.Chunks.{free_block, encode}
use ra_os.Memory.Heap.Life.{IsValid, create-IsValid}
use ra_os.Memory.Paging.{add32}
use ra_os.Memory.Kheap.{heap_address, total_table_entries, kheap_init, clear, kzalloc}

-- With the 25600 entries that the kernel's constants ask for, `kheap_init` succeeds and gives a valid
-- heap at 16 MiB all of whose blocks are free, whatever the entries were.
pub kheap_init-IsValid :
    (kernel_heap : HeapState) (entries : HeapTable)
    → length entries ≡ total_table_entries
    → (heap : HeapState) × (kheap_init kernel_heap entries ≡ some (ok tt, heap))
      × IsValid heap
      × (heap.saddr ≡ heap_address)
      × (heap.table ≡ encode (replicate (length entries) free_block))
unfolding kheap_init
kheap_init-IsValid kernel_heap entries h =
    create-IsValid kernel_heap heap_address _ entries (omega arith) (omega arith) (omega arith)
      (omega arith)

-- The address is one of the `size` from `ptr` on.
abbrev pub in_block : ℕ → ℕ → ℕ → Bool
in_block ptr size a = leb ptr a && ltb a (ptr + size)

first_byte : (ptr a x : ℕ) → (if a == ptr then 0 else x) ≡ (if in_block ptr 1 a then 0 else x)
first_byte ptr a x = ground arith

next_byte :
    (size ptr a x : ℕ)
    → (if in_block (ptr + 1) size a then 0 else if a == ptr then 0 else x)
      ≡ (if in_block ptr (suc size) a then 0 else x)
next_byte size ptr a x = ground arith

clear_lem :
    (size : ℕ) (mem : ℕ → ℕ) (ptr a : ℕ)
    → ptr + size ≤ 2 ^ 32
    → a < 2 ^ 32
    → clear size mem ptr a ≡ (if in_block ptr size a then 0 else mem a)
unfolding clear
clear_lem zero mem ptr a h k = ground arith
clear_lem (suc zero) mem ptr a h k = first_byte ptr a (mem a)
clear_lem (suc (suc size)) mem ptr a h k =
    clear_lem (suc size) _ (add32 ptr 1) a (omega arith) k
    ∙ ap (λ q. if in_block q (suc size) a then 0 else if a == ptr then 0 else mem a)
        {x = add32 ptr 1} {y = ptr + 1} (omega arith)
    ∙ next_byte (suc size) ptr a (mem a)

-- When the heap gives a block that ends below 4 GiB, `kzalloc` returns it with the heap that
-- `heap_malloc` leaves, its bytes are 0, and no other byte of the memory changes.
pub kzalloc-clear :
    (kernel_heap heap : HeapState) (mem : ℕ → ℕ) (size p : ℕ)
    → malloc kernel_heap size ≡ some (some p, heap)
    → p + size ≤ 2 ^ 32
    → (mem' : ℕ → ℕ) × (kzalloc kernel_heap mem size ≡ some (some p, heap, mem'))
      × ((a : ℕ) → a < 2 ^ 32 → mem' a ≡ (if in_block p size a then 0 else mem a))
unfolding kzalloc
kzalloc-clear kernel_heap heap mem size p e h =
    (clear size mem p, rw (kzalloc, e) refl, λ a k. clear_lem size mem p a h k)
