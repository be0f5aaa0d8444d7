-- ===== src/Memory/Heap/Tests.antt =====
-- The heap's theorems at small heaps.
use ra_os.Base.{ℕ, suc, ◌*◌, ◌≤◌, ◌<◌, ◌≡◌, refl, none, some, List, [], ◌∷◌, arith, ◌>>=◌, ok}
use native.Mathlib.Decide.{ℕ_discrete, dec_lt}
use ra_os.Memory.Heap.{HeapState, is_free, block_size, get_start_block, malloc_blocks, malloc, free}
use ra_os.Memory.Heap.Search.{Fits}
use ra_os.Memory.Heap.FirstFit.{get_start_block-first}
use ra_os.Memory.Heap.Chunks.{Chunk, cells, free_block, used}
use ra_os.Memory.Heap.Alloc.{Allocates, malloc_blocks-Allocates, free-malloc_blocks}
use ra_os.Memory.Heap.Rounding.{malloc-blocks}
use ra_os.Memory.Heap.Life.{IsValid, alloc, here, next, Reach-IsValid}

-- An allocation of one block, and two free blocks.
abbrev chunks_before : List Chunk
chunks_before = used 0 ∷ free_block ∷ free_block ∷ []

abbrev heap_before : HeapState
heap_before = record { table = 0x41 ∷ 0x00 ∷ 0x00 ∷ []; saddr = 8192 }

-- The same with the two blocks allocated.
abbrev heap_after : HeapState
heap_after = record { table = 0x41 ∷ 0xc1 ∷ 0x01 ∷ []; saddr = 8192 }

heap_before-IsValid : IsValid heap_before
unfolding cells
heap_before-IsValid = record {
  chunks = chunks_before;
  laid_out = refl;
  below = omega arith;
  small = omega arith;
}

malloc_once : malloc heap_before 5000 ≡ some (some 12288, heap_after)
unfolding malloc is_free ℕ_discrete dec_lt
malloc_once = refl

Reach-IsValid_example : IsValid heap_after
Reach-IsValid_example =
    Reach-IsValid heap_before-IsValid (next here (alloc 5000 (some 12288) malloc_once))

Fits-two : Fits (0x41 ∷ 0x00 ∷ 0x00 ∷ []) 1 2
unfolding is_free ℕ_discrete
Fits-two = refl

malloc_blocks-Allocates_example : Allocates heap_before chunks_before 1
unfolding cells
malloc_blocks-Allocates_example =
    malloc_blocks-Allocates heap_before chunks_before 1 1 refl Fits-two

free-malloc_blocks_example :
    (malloc_blocks heap_before 2 >>= λ (p, heap'). elim p [ none ↦ none | some a ↦ free heap' a ])
    ≡ some heap_before
unfolding cells
free-malloc_blocks_example =
    free-malloc_blocks heap_before chunks_before 1 1 refl Fits-two (omega arith) (omega arith)

get_start_block-first_example :
    (r : ℕ) × (get_start_block (0x41 ∷ 0x00 ∷ 0x00 ∷ []) 2 ≡ ok r)
    × Fits (0x41 ∷ 0x00 ∷ 0x00 ∷ []) r 2
    × ((t : ℕ) → Fits (0x41 ∷ 0x00 ∷ 0x00 ∷ []) t 2 → r ≤ t)
get_start_block-first_example =
    get_start_block-first (0x41 ∷ 0x00 ∷ 0x00 ∷ []) 1 2 (omega arith) Fits-two

malloc-blocks_example :
    (extra : ℕ) × (malloc heap_before 5000 ≡ malloc_blocks heap_before (suc extra))
    × (extra * block_size < 5000)
    × (5000 ≤ suc extra * block_size)
malloc-blocks_example = malloc-blocks heap_before 5000 (omega arith) (omega arith)
