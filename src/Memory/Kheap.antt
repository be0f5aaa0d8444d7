-- ===== src/Memory/Kheap.antt =====
-- src/memory/heap/kheap.c: the heap of the kernel. The memory is a function from address to byte;
-- the table of entries lies outside of the heap's blocks, in the heap's state.
pub mod Init
use ra_os.Base.{
  ℕ, zero, suc, ◌/◌, ◌+◌, ◌==◌, if◌then◌else◌, Option, none, some, ◌>>=◌, List, Result,
}
use ra_os.Memory.Heap.{HeapState, HeapTable, block_size, create, malloc}
use ra_os.Memory.Paging.{add32}

-- RAOS_HEAP_ADDRESS and RAOS_HEAP_SIZE_BYTES
abbrev pub heap_address : ℕ
heap_address = 0x01000000

abbrev pub heap_size_bytes : ℕ
heap_size_bytes = 104857600

abbrev pub total_table_entries : ℕ
total_table_entries = heap_size_bytes / block_size

-- The entries are what lies at RAOS_HEAP_TABLE_ADDRESS. An error is printed, and changes nothing.
unfoldable pub kheap_init : HeapState → HeapTable → Option (Result (Unit {0}) × HeapState)
kheap_init kernel_heap entries =
    create kernel_heap heap_address (heap_address + heap_size_bytes) entries

-- `memset` of `size` bytes of the memory to 0.
unfoldable pub clear : ℕ → (ℕ → ℕ) → ℕ → ℕ → ℕ
clear zero mem ptr = mem
clear (suc size) mem ptr = clear size (λ a. if a == ptr then 0x00 else mem a) (add32 ptr 1)

unfoldable pub kzalloc : HeapState → (ℕ → ℕ) → ℕ → Option (Option ℕ × HeapState × (ℕ → ℕ))
unfolding clear
kzalloc kernel_heap mem size = do
  (ptr, heap) ← malloc kernel_heap size
  elim ptr [ none ↦ some (none, heap, mem) | some p ↦ some (some p, heap, clear size mem p) ]
