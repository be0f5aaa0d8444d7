-- ===== src/Memory/Heap/Alloc.antt =====
-- `heap_malloc_blocks` and `heap_free` on a table that is laid out from chunks: one allocation is
-- added or removed, and no other chunk changes.
use ra_os.Base.{
  ℕ, suc, ◌+◌, ◌*◌, ◌^◌, ◌≤◌, ◌<◌, ◌≡◌, refl, sym, ap, ◌∙◌, true, false, none, some, List, [], ◌∷◌,
  ◌++◌, arith, length, replicate, ◌>>=◌, ok, err, enomem, length-append, length-replicate,
}
use mathlib.Core.Path.{subst}
use ra_os.Base.Int.{ℤ, pos}
use ra_os.Memory.Heap.{
  HeapTable, HeapState, block_to_address, block_size, entry_free, is_free, get_start_block,
  mark_blocks_taken, malloc_blocks, address_to_block, mark_block_free, free,
}
use ra_os.Memory.Heap.Search.{Fits}
use ra_os.Memory.Heap.FirstFit.{get_start_block-first, get_start_block-full, get_start_block-short}
use ra_os.Memory.Heap.Chunks.{
  Chunk, free_block, used, cells, encode, encode-append, encode-replicate, Split-Fits,
}
use ra_os.Memory.Heap.Marks.{mark_blocks_taken-cells, mark_block_free-cells, mark_blocks_taken-past}

-- The address of the block behind the chunks `front`.
abbrev pub address_behind : HeapState → List Chunk → ℕ
address_behind heap front = heap.saddr + length (encode front) * block_size

pub encode-free_run :
    (front back : List Chunk) (n : ℕ)
    → encode (front ++ (replicate n free_block ++ back))
      ≡ encode front ++ (replicate n entry_free ++ encode back)
encode-free_run front back n =
    encode-append front _
    ∙ ap (λ t. encode front ++ t)
        (encode-append (replicate n free_block) back
          ∙ ap (λ t. t ++ encode back) (encode-replicate n))

pub encode-used :
    (front back : List Chunk) (extra : ℕ)
    → encode (front ++ used extra ∷ back) ≡ encode front ++ (cells extra ++ encode back)
encode-used front back extra = encode-append front _

-- A search that answers, and marks that succeed, make an allocation.
malloc_blocks-ok :
    (heap : HeapState) (n r : ℕ) (t : HeapTable)
    → get_start_block heap.table n ≡ ok r
    → mark_blocks_taken heap.table r n ≡ some t
    → malloc_blocks heap n ≡ some (some (heap.saddr + r * block_size), record heap { table = t })
unfolding malloc_blocks
malloc_blocks-ok heap n r t found marked = rw (found, malloc_blocks) (rw (marked) refl)

-- What an allocation of `extra + 1` blocks does to a heap laid out as `chunks`: it takes the first
-- free blocks that suffice, and changes no other chunk.
pub record Allocates (heap : HeapState) (chunks : List Chunk) (extra : ℕ) : Type 0 where
  pub front : List Chunk
  pub back : List Chunk
  pub before : chunks ≡ front ++ (replicate (suc extra) free_block ++ back)
  pub after :
      malloc_blocks heap (suc extra)
      ≡ some (
        some (address_behind heap front),
        record heap { table = encode (front ++ used extra ∷ back) },
      )
  pub first : (s : ℕ) → Fits heap.table s (suc extra) → length (encode front) ≤ s

-- When the table is laid out as chunks and has `extra + 1` free blocks in a row somewhere,
-- `heap_malloc_blocks` returns the address of the first such place and turns exactly those
-- blocks into one allocation.
pub malloc_blocks-Allocates :
    (heap : HeapState) (chunks : List Chunk) (extra s : ℕ)
    → heap.table ≡ encode chunks
    → Fits heap.table s (suc extra)
    → Allocates heap chunks extra
malloc_blocks-Allocates heap chunks extra s laid fits =
    let (r, found, fit_r, least) =
      get_start_block-first heap.table s (suc extra) (omega arith) fits in
    let split = Split-Fits chunks r extra (subst (λ t. Fits t r (suc extra)) laid fit_r) in
    let whole : heap.table
        ≡ encode split.front ++ (replicate (suc extra) entry_free ++ encode split.back) =
      laid ∙ ap encode split.parts ∙ encode-free_run split.front split.back (suc extra) in
    let marked : mark_blocks_taken heap.table r (suc extra)
        ≡ some (encode (split.front ++ used extra ∷ split.back)) =
      rw (whole, ← split.place, encode-used)
        (mark_blocks_taken-cells extra (encode split.front) (replicate (suc extra) entry_free)
          (encode split.back) (length-replicate (suc extra) entry_free)) in
    record {
      front = split.front;
      back = split.back;
      before = split.parts;
      after = rw split.place (malloc_blocks-ok heap (suc extra) r _ found marked);
      first = λ t h. rw split.place (least t h);
    }

-- With no room for `n` > 0 blocks and the last block taken, `heap_malloc_blocks` returns NULL and
-- leaves the heap as it is.
pub malloc_blocks-full :
    (heap : HeapState) (front : HeapTable) (e n : ℕ)
    → heap.table ≡ front ++ e ∷ []
    → 0 < n
    → ((s : ℕ) → ¬ Fits heap.table s n)
    → is_free e ≡ false
    → malloc_blocks heap n ≡ some (none, heap)
unfolding malloc_blocks
malloc_blocks-full heap front e n whole h unfit taken =
    let found : get_start_block heap.table n ≡ err enomem =
      rw whole
        (get_start_block-full front e n h (λ s. subst (λ t. ¬ Fits t s n) whole (unfit s)) taken) in
    rw (found, malloc_blocks) refl

-- With no room for `n` > 0 blocks and the last block free, `heap_malloc_blocks` does not return
-- NULL: it writes entries past the end of the table.
pub malloc_blocks-overrun :
    (heap : HeapState) (front : HeapTable) (e n : ℕ)
    → heap.table ≡ front ++ e ∷ []
    → 0 < n
    → ((s : ℕ) → ¬ Fits heap.table s n)
    → is_free e ≡ true
    → malloc_blocks heap n ≡ none
unfolding malloc_blocks
malloc_blocks-overrun heap front e n whole h unfit free =
    let (r, found, inside, past) =
      get_start_block-short front e n h (λ s. subst (λ t. ¬ Fits t s n) whole (unfit s)) free in
    let found' : get_start_block heap.table n ≡ ok r = rw whole found in
    let marked : mark_blocks_taken heap.table r n ≡ none =
      rw whole (mark_blocks_taken-past (front ++ e ∷ []) r n h past) in
    rw (found', malloc_blocks) (rw (marked, ◌>>=◌) refl)

-- `heap_address_to_block` of the address that `heap_block_to_address` gives for a block is that
-- block, when the address is below 2^32 and the block begins within the first 2 GiB of the heap.
pub address_to_block-block_to_address :
    (heap : HeapState) (block : ℕ)
    → heap.saddr + block * block_size < 2 ^ 32
    → block * block_size < 2 ^ 31
    → address_to_block heap (block_to_address heap block) ≡ pos block
unfolding address_to_block block_to_address
address_to_block-block_to_address heap block h k = ground arith

free-ok :
    (heap : HeapState) (ptr : ℕ) (b : ℤ) (t : HeapTable)
    → address_to_block heap ptr ≡ b
    → mark_block_free heap.table b ≡ some t
    → free heap ptr ≡ some (record heap { table = t })
unfolding free
free-ok heap ptr b t e f =
    ap (λ c. mark_block_free heap.table c >>= λ u. some (record heap { table = u })) e
    ∙ ap (λ o. o >>= λ u. some (record heap { table = u })) f

-- Freeing the address of an allocation of a laid-out heap turns exactly its blocks into free ones,
-- if the heap lies below 4 GiB and the allocation begins within its first 2 GiB.
pub free-used :
    (heap : HeapState) (front back : List Chunk) (extra : ℕ)
    → heap.table ≡ encode (front ++ used extra ∷ back)
    → address_behind heap front < 2 ^ 32
    → length (encode front) * block_size < 2 ^ 31
    → free heap (address_behind heap front)
      ≡ some (record heap { table = encode (front ++ (replicate (suc extra) free_block ++ back)) })
unfolding block_to_address
free-used heap front back extra laid h k =
    let block = address_to_block-block_to_address heap (length (encode front)) h k in
    free-ok heap _ (pos (length (encode front))) _ block (
      rw (laid, encode-used, encode-free_run)
        (mark_block_free-cells extra (encode front) (encode back)))

-- When the table is laid out as chunks and has `extra + 1` free blocks in a row somewhere, and
-- the blocks lie below 4 GiB and span at most 2 GiB, allocating `extra + 1` blocks and freeing
-- the address that is returned restores the heap to the entry.
pub free-malloc_blocks :
    (heap : HeapState) (chunks : List Chunk) (extra s : ℕ)
    → heap.table ≡ encode chunks
    → Fits heap.table s (suc extra)
    → heap.saddr + length heap.table * block_size ≤ 2 ^ 32
    → length heap.table * block_size ≤ 2 ^ 31
    → (malloc_blocks heap (suc extra) >>= λ (p, heap'). elim p [
      | none ↦ none
      | some a ↦ free heap' a
    ])
      ≡ some heap
free-malloc_blocks heap chunks extra s laid fits h k =
    let a = malloc_blocks-Allocates heap chunks extra s laid fits in
    let whole = laid ∙ ap encode a.before in
    let size = ap length (whole ∙ encode-free_run a.front a.back (suc extra)) in
    let front_size =
      length-append (encode a.front) (replicate (suc extra) entry_free ++ encode a.back) in
    let run_size = length-append (replicate (suc extra) entry_free) (encode a.back) in
    ap (λ o. o >>= λ (p, heap'). elim p [ none ↦ none | some b ↦ free heap' b ]) a.after
    ∙ free-used (record heap { table = encode (a.front ++ used extra ∷ a.back) }) a.front a.back
        extra refl (omega arith) (omega arith)
    ∙ ap (λ t. some (record heap { table = t })) (sym whole)
