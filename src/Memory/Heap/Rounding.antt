-- ===== src/Memory/Heap/Rounding.antt =====
-- `heap_malloc` in bytes: `heap_round_value_to_upper` and the number of blocks that it asks for.
use ra_os.Base.{
  ℕ, suc, ◌+◌, ◌-◌, ◌*◌, ◌/◌, ◌%◌, ◌^◌, ◌≤◌, ◌<◌, ◌≡◌, refl, ap, ◌∙◌, true, Option, none, some,
  List, [], ◌∷◌, ◌++◌, arith, length, Bool-cases, ok, err, enomem, inl, inr, ==_of_ne,
}
use ra_os.Memory.Heap.{
  HeapTable, HeapState, block_size, is_free, start_block_loop, get_start_block, malloc_blocks,
  malloc, round_value_to_upper,
}
use ra_os.Memory.Heap.Search.{Fits}
use ra_os.Memory.Heap.FirstFit.{get_start_block-short, run-of-Fits}

-- `heap_round_value_to_upper` gives the least multiple of the block size that is at least the value,
-- for values from which such a multiple fits 32 bits.
pub round_value_to_upper_bounds :
    (val : ℕ)
    → val ≤ 2 ^ 32 - block_size
    → (round_value_to_upper val % block_size ≡ 0)
      × (val ≤ round_value_to_upper val)
      × (round_value_to_upper val < val + block_size)
unfolding round_value_to_upper
round_value_to_upper_bounds val h = ground arith

-- `heap_malloc` of a positive size that does not wrap asks for the least number of blocks that holds
-- so many bytes.
pub malloc-blocks :
    (heap : HeapState) (size : ℕ)
    → 0 < size
    → size ≤ 2 ^ 32 - block_size
    → (extra : ℕ) × (malloc heap size ≡ malloc_blocks heap (suc extra))
      × (extra * block_size < size)
      × (size ≤ suc extra * block_size)
unfolding malloc
malloc-blocks heap size h k =
    let rounded = round_value_to_upper_bounds size k in
    let n = round_value_to_upper size / block_size in
    (n - 1, ap (malloc_blocks heap) (omega arith), omega arith, omega arith)

-- A search for no blocks counts on to the end, as one for more blocks than there are.
start_block_loop-zero :
    (es : List ℕ) (i bc n : ℕ) (bs : Option ℕ)
    → bc + length es < n
    → start_block_loop es i bc bs 0 ≡ start_block_loop es i bc bs n
unfolding start_block_loop
start_block_loop-zero [] i bc n bs h = refl
start_block_loop-zero (e ∷ es) i bc n bs h = elim (Bool-cases (is_free e)) [
  | inr taken ↦
      rw (taken, start_block_loop) (start_block_loop-zero es (i + 1) 0 n none (omega arith))
  | inl free ↦
      rw (free, start_block_loop)
        (rw (==_of_ne (bc + 1) 0 (omega arith), ==_of_ne (bc + 1) n (omega arith))
          (start_block_loop-zero es (i + 1) (bc + 1) n _ (omega arith)))
]

get_start_block-zero : (t : HeapTable) → get_start_block t 0 ≡ get_start_block t (length t + 1)
unfolding get_start_block
get_start_block-zero t =
    ap (λ o. elim o [ none ↦ err enomem | some bs ↦ ok bs ])
      (start_block_loop-zero t 0 0 (length t + 1) none (omega arith))

malloc_blocks-zero :
    (heap : HeapState) (r : ℕ)
    → get_start_block heap.table 0 ≡ ok r
    → malloc_blocks heap 0 ≡ some (some (heap.saddr + r * block_size), heap)
unfolding malloc_blocks
malloc_blocks-zero heap r e = rw (e, malloc_blocks) refl

round-wraps :
    (size : ℕ)
    → 2 ^ 32 - block_size < size
    → size < 2 ^ 32
    → round_value_to_upper size / block_size ≡ 0
unfolding round_value_to_upper
round-wraps size h k = ground arith

unfit : (t : HeapTable) (s : ℕ) → ¬ Fits t s (length t + 1)
unfit t s h = let (_, inside, _) = run-of-Fits t s (length t + 1) (omega arith) h in omega arith

-- `heap_malloc` of a size above 2^32 - 4096 and below 2^32, when the last block of the table is
-- free, returns the address of a block of the table and leaves the heap as it is.
pub malloc-wraps :
    (heap : HeapState) (front : HeapTable) (e size : ℕ)
    → heap.table ≡ front ++ e ∷ []
    → is_free e ≡ true
    → 2 ^ 32 - block_size < size
    → size < 2 ^ 32
    → (r : ℕ) × (malloc heap size ≡ some (some (heap.saddr + r * block_size), heap))
      × (r < length heap.table)
unfolding malloc
malloc-wraps heap front e size whole free h k =
    let (r, found, inside, _) =
      get_start_block-short front e (length (front ++ e ∷ []) + 1) (omega arith)
        (unfit (front ++ e ∷ [])) free in
    let found' : get_start_block heap.table 0 ≡ ok r =
      rw whole (get_start_block-zero (front ++ e ∷ []) ∙ found) in
    (
      r,
      ap (malloc_blocks heap) (round-wraps size h k) ∙ malloc_blocks-zero heap r found',
      rw whole inside,
    )
