-- ===== src/Process/Memory/Restored.antt =====
-- `process_malloc` and `process_free` over the heap of src/memory/heap/heap.c.
use ra_os.Base.{
  ℕ, suc, ◌+◌, ◌-◌, ◌*◌, ◌/◌, ◌%◌, ◌^◌, ◌≤◌, ◌<◌, ◌≡◌, ◌∙◌, sym, subst, if◌then◌else◌, false, none,
  some, List, ◌>>=◌, get_elem?, length, All, arith,
}
use ra_os.Memory.Heap.{HeapState, block_size, malloc, malloc_blocks, free}
use ra_os.Memory.Heap.Search.{Fits}
use ra_os.Memory.Heap.Chunks.{Chunk, encode}
use ra_os.Memory.Heap.Alloc.{free-malloc_blocks}
use ra_os.Memory.Heap.Rounding.{malloc-blocks}
use ra_os.Memory.Paging.{get, align_address, page_size}
use ra_os.Memory.Paging.Entries.{IsDirectory}
use ra_os.Memory.Paging.Range.{in_pages}
use ra_os.Process.Memory.{Machine, process_is_process_pointer, process_malloc, process_free}
use ra_os.Process.Memory.Terminate.{IsClean, unused}
use ra_os.Process.Memory.Undo.{free_after_malloc}

-- The blocks that hold so many bytes.
abbrev pub blocks_for : ℕ → ℕ
blocks_for size = (size + 4095) / 4096

-- What `heap_malloc` gave is given back to a heap that is laid out.
free_restores :
    (heap heap1 : HeapState) (chunks : List Chunk) (size s ptr : ℕ)
    → heap.table ≡ encode chunks
    → heap.saddr + length heap.table * block_size ≤ 2 ^ 32
    → length heap.table * block_size ≤ 2 ^ 31
    → 0 < size
    → size ≤ 2 ^ 32 - block_size
    → Fits heap.table s (blocks_for size)
    → malloc heap size ≡ some (some ptr, heap1)
    → free heap1 ptr ≡ some heap
free_restores heap heap1 chunks size s ptr laid low small some_ near fits got =
    let (extra, asked, above, below) = malloc-blocks heap size some_ near in
    let blocks : blocks_for size ≡ suc extra = omega (arith, above, below) in
    let given : malloc_blocks heap (suc extra) ≡ some (some ptr, heap1) = sym asked ∙ got in
    subst (λ o. (o >>= λ (p, heap'). elim p [ none ↦ none | some a ↦ free heap' a ]) ≡ some heap)
      given
      (free-malloc_blocks heap chunks extra s laid (subst (Fits heap.table s) blocks fits) low
        small)

-- Memory that a process asks for and frees again: when the heap is laid out in chunks, below 4 GiB and in
-- at most 2 GiB, with room for the size, and gives a page-aligned address `ptr` that no entry of the
-- process has, with the memory's end below the last page of the address space, and an entry is not in use,
-- both calls succeed. The entries and the heap are as before, and of the pages only those of the memory
-- change, which are mapped to themselves without any flag.
pub process_free-process_malloc :
    (machine : Machine) (chunks : List Chunk) (size s ptr k : ℕ) (heap1 : HeapState)
    → IsDirectory machine.ram machine.directory
    → machine.heap.table ≡ encode chunks
    → machine.heap.saddr + length machine.heap.table * block_size ≤ 2 ^ 32
    → length machine.heap.table * block_size ≤ 2 ^ 31
    → 0 < size
    → Fits machine.heap.table s (blocks_for size)
    → malloc machine.heap size ≡ some (some ptr, heap1)
    → ptr % page_size ≡ 0
    → ptr + size ≤ 2 ^ 32 - page_size
    → All IsClean machine.allocations
    → get_elem? machine.allocations k ≡ some unused
    → process_is_process_pointer machine.allocations ptr ≡ false
    → (machine1 : Machine) × (machine2 : Machine) × (process_malloc machine size
        ≡ some (some ptr, machine1))
      × (process_free machine1 ptr ≡ some machine2)
      × (machine2.allocations ≡ machine.allocations)
      × (machine2.heap ≡ machine.heap)
      × ((other : ℕ)
          → other % page_size ≡ 0
          → other < 2 ^ 32
          → get machine2.ram machine.directory other ≡ (
              if in_pages ptr ((align_address (ptr + size) - ptr) / page_size) other
              then other
              else get machine.ram machine.directory other))
process_free-process_malloc machine chunks size s ptr k heap1 valid laid low small some_ fits got
      aligned below clean entry new =
    free_after_malloc machine size ptr k heap1 machine.heap valid got
      (free_restores machine.heap heap1 chunks size s ptr laid low small some_ (omega arith) fits
        got)
      aligned below clean entry new
