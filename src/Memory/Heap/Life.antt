-- ===== src/Memory/Heap/Life.antt =====
-- The heap over its life: creation, and any sequence of allocations and releases.
use ra_os.Base.{
  ℕ, zero, suc, ◌+◌, ◌-◌, ◌*◌, ◌/◌, ◌%◌, ◌^◌, ◌≤◌, ◌<◌, ◌≡◌, refl, ◌≢◌, sym, ap, ◌∙◌, Option, none,
  some, List, [], ◌∷◌, ◌++◌, arith, length, drop, replicate, Option-cases, ◌>>=◌, ok, err, enomem,
  einvarg, ◌⊎◌, inl, inr, length-append, length-replicate, ==_of_eq,
}
use mathlib.Core.Path.{subst}
use mathlib.Core.List.{append-nil}
use native.Mathlib.Decide.{dec_le}
use ra_os.Memory.{memset}
use ra_os.Memory.Laws.{memset_lem}
use ra_os.Memory.Heap.{
  HeapTable, HeapState, block_size, entry_free, get_start_block, create, mark_blocks_taken,
  malloc_blocks, malloc, free,
}
use ra_os.Memory.Heap.Search.{to_result, free_map, get_start_block-best, best}
use ra_os.Memory.Heap.FirstFit.{best-some, Fits-of-run}
use ra_os.Memory.Heap.Chunks.{
  Chunk, free_block, used, cells, encode, encode-replicate, length-cells,
}
use ra_os.Memory.Heap.Marks.{mark_blocks_taken-past}
use ra_os.Memory.Heap.Alloc.{
  Allocates, address_behind, malloc_blocks-Allocates, free-used, encode-used, encode-free_run,
}

-- The table is laid out from chunks, and the blocks lie below 4 GiB and span at most 2 GiB.
pub record IsValid (heap : HeapState) : Type 0 where
  pub chunks : List Chunk
  pub laid_out : heap.table ≡ encode chunks
  pub below : heap.saddr + length heap.table * block_size ≤ 2 ^ 32
  pub small : length heap.table * block_size ≤ 2 ^ 31

drop-all : (t : List ℕ) → drop (length t) t ≡ []
drop-all [] = refl
drop-all (x ∷ t) = drop-all t

-- `heap_create` on an aligned start, and a table of the size that the bounds ask for, succeeds,
-- when the end is below 2^32 and the blocks span at most 2 GiB; it gives a valid heap all of
-- whose blocks are free, whatever the table held.
pub create-IsValid :
    (heap : HeapState) (ptr end : ℕ) (table : HeapTable)
    → ptr % block_size ≡ 0
    → ptr + length table * block_size ≡ end
    → end < 2 ^ 32
    → length table * block_size ≤ 2 ^ 31
    → (heap' : HeapState) × (create heap ptr end table ≡ some (ok tt, heap'))
      × IsValid heap'
      × (heap'.saddr ≡ ptr)
      × (heap'.table ≡ encode (replicate (length table) free_block))
unfolding create
create-IsValid heap ptr end table a e h k =
    let n = length table in
    let cleared = encode-replicate n in
    let size : length (encode (replicate n free_block)) ≡ n =
      ap length cleared ∙ length-replicate n entry_free in
    let set_all : memset table entry_free n ≡ some (encode (replicate n free_block)) =
      memset_lem table entry_free n (omega arith)
      ∙ ap some
          (ap (λ t. replicate n entry_free ++ t) (drop-all table) ∙ append-nil _ ∙ sym cleared) in
    (
      record { table = encode (replicate n free_block); saddr = ptr },
      rw
          (
            ==_of_eq (ptr % block_size) 0 a,
            ==_of_eq (end % block_size) 0 (omega arith),
            ==_of_eq n ((end + 2 ^ 32 - ptr) % 2 ^ 32 / block_size) (omega arith),
            set_all,
          )
          refl,
      record {
        chunks = replicate n free_block;
        laid_out = refl;
        below = omega arith;
        small = omega arith;
      },
      refl,
      refl,
    )

-- `heap_create` refuses bounds that are not aligned, and leaves the heap as it is.
pub create-unaligned :
    (heap : HeapState) (ptr end : ℕ) (table : HeapTable)
    → (ptr % block_size ≢ 0) ⊎ (end % block_size ≢ 0)
    → create heap ptr end table ≡ some (err einvarg, heap)
unfolding create
create-unaligned heap ptr end table h = ground arith

-- `heap_create` on aligned bounds and a table of another size than they ask for answers EINVARG
-- and leaves the table's entries as they are.
pub create-wrong_size :
    (heap : HeapState) (ptr end : ℕ) (table : HeapTable)
    → ptr % block_size ≡ 0
    → end % block_size ≡ 0
    → length table ≢ (end + 2 ^ 32 - ptr) % 2 ^ 32 / block_size
    → create heap ptr end table ≡ some (err einvarg, record { table = table; saddr = ptr })
unfolding create
create-wrong_size heap ptr end table a b h = ground arith

-- The three ways in which `heap_malloc_blocks` of a valid heap can go.
malloc_blocks-cases :
    (heap : HeapState) (chunks : List Chunk) (extra : ℕ)
    → heap.table ≡ encode chunks
    → Allocates heap chunks extra
      ⊎ (malloc_blocks heap (suc extra) ≡ some (none, heap))
      ⊎ (malloc_blocks heap (suc extra) ≡ none)
unfolding malloc_blocks
malloc_blocks-cases heap chunks extra laid =
    let n = suc extra in
    let answer = get_start_block-best heap.table n (omega arith) in
    elim (Option-cases (best n (free_map heap.table))) [
      | inl nothing ↦
          let full : get_start_block heap.table n ≡ err enomem = answer ∙ ap to_result nothing in
          inr (inl (rw (full, malloc_blocks) refl))
      | inr (r, some_run) ↦
          let (free, _) = best-some n r (free_map heap.table) some_run in
          let found : get_start_block heap.table n ≡ ok r = answer ∙ ap to_result some_run in
          elim (dec_le (r + n) (length heap.table)) [
            | yes inside ↦ inl (
                malloc_blocks-Allocates heap chunks extra r laid
                  (Fits-of-run heap.table r n inside free))
            | no outside ↦
                let past = mark_blocks_taken-past heap.table r n (omega arith) (omega arith) in
                inr (inr (rw (found, malloc_blocks) (rw (past, ◌>>=◌) refl)))
          ]
    ]

malloc_blocks-zero_same :
    (heap heap' : HeapState) (p : Option ℕ) → malloc_blocks heap 0 ≡ some (p, heap') → heap' ≡ heap
unfolding malloc_blocks mark_blocks_taken
malloc_blocks-zero_same heap heap' p h = ground arith

length-after :
    (front back : List Chunk) (extra : ℕ)
    → length (encode (front ++ used extra ∷ back))
      ≡ length (encode (front ++ (replicate (suc extra) free_block ++ back)))
length-after front back extra = omega (
  arith,
  ap length (encode-used front back extra),
  ap length (encode-free_run front back (suc extra)),
  length-append (encode front) (cells extra ++ encode back),
  length-append (encode front) (replicate (suc extra) entry_free ++ encode back),
  length-append (cells extra) (encode back),
  length-append (replicate (suc extra) entry_free) (encode back),
  length-cells extra,
  length-replicate (suc extra) entry_free,
)

heap_of :
    (p q : Option ℕ) (g k : HeapState)
    → ◌≡◌ {A = Option (Option ℕ × HeapState)} (some (p, g)) (some (q, k))
    → g ≡ k
heap_of p q g k e = cc

-- What `malloc_blocks` leaves, when it does not fault, is a valid heap.
malloc_blocks-IsValid :
    (heap heap' : HeapState) (n : ℕ) (p : Option ℕ)
    → IsValid heap
    → malloc_blocks heap n ≡ some (p, heap')
    → IsValid heap'
malloc_blocks-IsValid heap heap' zero p v h =
    subst IsValid (sym (malloc_blocks-zero_same heap heap' p h)) v
malloc_blocks-IsValid heap heap' (suc extra) p v h =
    elim (malloc_blocks-cases heap v.chunks extra v.laid_out) [
      | inl a ↦ subst IsValid (heap_of _ p _ heap' (sym a.after ∙ h)) (record {
        chunks = a.front ++ used extra ∷ a.back;
        laid_out = refl;
        below = omega (arith, v.below, size a);
        small = omega (arith, v.small, size a);
      })
      | inr (inl same) ↦ subst IsValid (heap_of none p heap heap' (sym same ∙ h)) v
      | inr (inr fault) ↦ let clash = sym fault ∙ h in cc
    ]
  where
    size :
        (a : Allocates heap v.chunks extra)
        → length (encode (a.front ++ used extra ∷ a.back)) ≡ length heap.table
    size a = length-after a.front a.back extra ∙ sym (ap length (v.laid_out ∙ ap encode a.before))

-- A call of the allocator: an allocation that does not fault, or the release of an allocation.
pub data Step (heap heap' : HeapState) : Type 0 where
  alloc : (size : ℕ) (p : Option ℕ) → malloc heap size ≡ some (p, heap') → Step heap heap'
  release :
      (front back : List Chunk) (extra : ℕ)
      → heap.table ≡ encode (front ++ used extra ∷ back)
      → free heap (address_behind heap front) ≡ some heap'
      → Step heap heap'

pub data Reach (heap : HeapState) : HeapState → Type 0 where
  here : Reach heap heap
  next : {g k : HeapState} → Reach heap g → Step g k → Reach heap k

release-IsValid :
    (heap heap' : HeapState) (front back : List Chunk) (extra : ℕ)
    → IsValid heap
    → heap.table ≡ encode (front ++ used extra ∷ back)
    → free heap (address_behind heap front) ≡ some heap'
    → IsValid heap'
release-IsValid heap heap' front back extra v laid h =
    let placed = ap length (laid ∙ encode-used front back extra) in
    let size = length-append (encode front) (cells extra ++ encode back) in
    let inner = length-append (cells extra) (encode back) in
    let freed =
      free-used heap front back extra laid (omega (arith, v.below, length-cells extra))
        (omega (arith, v.small, length-cells extra)) in
    let chunks = front ++ (replicate (suc extra) free_block ++ back) in
    let same : record heap { table = encode chunks } ≡ heap' = let e = sym freed ∙ h in cc in
    let kept = ap length laid ∙ length-after front back extra in
    subst IsValid same (record {
      chunks = chunks;
      laid_out = refl;
      below = omega (arith, v.below, kept);
      small = omega (arith, v.small, kept);
    })

Step-IsValid : (heap heap' : HeapState) → IsValid heap → Step heap heap' → IsValid heap'
unfolding malloc
Step-IsValid heap heap' v (alloc size p h) = malloc_blocks-IsValid heap heap' _ p v h
Step-IsValid heap heap' v (release front back extra laid h) =
    release-IsValid heap heap' front back extra v laid h

-- From a valid heap, every sequence of allocations that do not fault and of releases of allocations
-- leads to a valid heap.
pub Reach-IsValid : {heap heap' : HeapState} → IsValid heap → Reach heap heap' → IsValid heap'
Reach-IsValid v here = v
Reach-IsValid v (next {g} {k} r s) = Step-IsValid g k (Reach-IsValid v r) s
