-- ===== src/Memory/Heap/Marks.antt =====
-- `heap_mark_blocks_taken` writes the entries of one allocation, and `heap_mark_block_free` clears
-- them; writes past the end of the table are faults.
use ra_os.Base.{
  ℕ, zero, suc, ◌+◌, ◌-◌, ◌<◌, ◌≡◌, refl, sym, ap, ◌∙◌, ◌==◌, if◌then◌else◌, none, some, List, [],
  ◌∷◌, ◌++◌, arith, length, take, drop, replicate, store, length-append, bit_or,
}
use native.Mathlib.Decide.{dec_lt}
use ra_os.Base.{lt→ltb, store-middle, store-past, store-inside, set, length-set}
use mathlib.Core.List.{append_assoc}
use ra_os.Base.Int.{pos}
use ra_os.Memory.Heap.{
  HeapTable, entry_free, entry_taken, has_next, mark_loop, mark_blocks_taken, free_loop,
  mark_block_free,
}
use ra_os.Memory.Heap.Chunks.{rest, cells}

-- The entry that a round leaves for the next one.
next_entry :
    (k i end : ℕ)
    → end ≡ i + suc k
    → (if i + 1 == end then entry_taken else bit_or entry_taken has_next) ∷ rest k ≡ rest (suc k)
unfolding rest
next_entry zero i end e = ground arith
next_entry (suc k) i end e = ground arith

mark_loop-step :
    (k : ℕ) (t t' : List ℕ) (i end entry : ℕ)
    → store t i entry ≡ some t'
    → mark_loop (suc k) t i end entry
      ≡ mark_loop k t'
          (i + 1)
          end
          (if i + 1 == end then entry_taken else bit_or entry_taken has_next)
unfolding mark_loop
mark_loop-step k t t' i end entry h = rw (h, mark_loop) refl

mark_loop-run :
    (k : ℕ) (pre xs post : List ℕ) (i end entry : ℕ)
    → i ≡ length pre
    → end ≡ i + k
    → length xs ≡ suc k
    → mark_loop (suc k) (pre ++ (xs ++ post)) i end entry ≡ some (pre ++ (entry ∷ (rest k ++ post)))
unfolding mark_loop rest
mark_loop-run k pre [] post i end entry e f h = absurd (omega arith)
mark_loop-run zero pre (x ∷ y ∷ xs) post i end entry e f h = absurd (omega arith)
mark_loop-run zero pre (x ∷ []) post i end entry e f h =
    mark_loop-step 0 _ _ i end entry (store-middle pre x entry post i e)
mark_loop-run (suc k) pre (x ∷ xs) post i end entry e f h =
    let next = (if i + 1 == end then entry_taken else bit_or entry_taken has_next) in
    let after =
      mark_loop-step (suc k) _ _ i end entry (store-middle pre x entry (xs ++ post) i e) in
    let regroup = append_assoc pre (entry ∷ []) (xs ++ post) in
    let later =
      mark_loop-run k (pre ++ entry ∷ []) xs post (i + 1) end next
        (omega (arith, length-append pre (entry ∷ []))) (omega arith) (omega arith) in
    after
    ∙ ap (λ t. mark_loop (suc k) t (i + 1) end next) (sym regroup)
    ∙ later
    ∙ ap some (
        append_assoc pre (entry ∷ []) _
        ∙ ap (λ t. pre ++ (entry ∷ (t ++ post))) (next_entry k i end f))

-- Marking `extra + 1` blocks of the table writes the entries of one allocation over them.
pub mark_blocks_taken-cells :
    (extra : ℕ) (pre xs post : List ℕ)
    → length xs ≡ suc extra
    → mark_blocks_taken (pre ++ (xs ++ post)) (length pre) (suc extra)
      ≡ some (pre ++ (cells extra ++ post))
unfolding mark_blocks_taken cells
mark_blocks_taken-cells zero pre xs post h =
    mark_loop-run 0 pre xs post (length pre) (length pre + 1 - 1) 0x41 refl (omega arith) h
mark_blocks_taken-cells (suc extra) pre xs post h = rw (lt→ltb 1 (suc (suc extra)) (omega arith)) (
    mark_loop-run (suc extra) pre xs post (length pre) (length pre + suc (suc extra) - 1) 0xc1 refl
      (omega arith) h)

-- Freeing clears the entries up to the first one without a successor.
free_loop-rest :
    (extra : ℕ) (post : List ℕ)
    → free_loop (rest (suc extra) ++ post) ≡ replicate (suc extra) entry_free ++ post
unfolding free_loop rest
free_loop-rest zero post = refl
free_loop-rest (suc extra) post = ap (λ t. entry_free ∷ t) (free_loop-rest extra post)

free_loop-cells :
    (extra : ℕ) (post : List ℕ)
    → free_loop (cells extra ++ post) ≡ replicate (suc extra) entry_free ++ post
unfolding free_loop cells
free_loop-cells zero post = refl
free_loop-cells (suc extra) post = ap (λ t. entry_free ∷ t) (free_loop-rest extra post)

take-length : (pre post : List ℕ) → take (length pre) (pre ++ post) ≡ pre
take-length [] post = refl
take-length (x ∷ pre) post = ap (λ t. x ∷ t) (take-length pre post)

drop-length : (pre post : List ℕ) → drop (length pre) (pre ++ post) ≡ post
drop-length [] post = refl
drop-length (x ∷ pre) post = drop-length pre post

pub mark_block_free-cells :
    (extra : ℕ) (pre post : List ℕ)
    → mark_block_free (pre ++ (cells extra ++ post)) (pos (length pre))
      ≡ some (pre ++ (replicate (suc extra) entry_free ++ post))
unfolding mark_block_free
mark_block_free-cells extra pre post =
    rw
      (
        take-length pre (cells extra ++ post),
        drop-length pre (cells extra ++ post),
        free_loop-cells extra post,
      )
      refl

mark_loop-past :
    (k : ℕ) (t : List ℕ) (i end entry : ℕ)
    → length t < i + suc k
    → mark_loop (suc k) t i end entry ≡ none
unfolding mark_loop
mark_loop-past zero t i end entry h = rw (store-past t i entry (omega arith), mark_loop) refl
mark_loop-past (suc k) t i end entry h = elim (dec_lt i (length t)) [
  | yes inside ↦
      let t' = set t i entry in
      mark_loop-step (suc k) t t' i end entry (store-inside t i entry inside)
      ∙ mark_loop-past k t' (i + 1) end _ (omega (arith, length-set t i entry))
  | no outside ↦ rw (store-past t i entry (omega arith), mark_loop) refl
]

-- Marking blocks that reach past the end of the table writes outside of it.
pub mark_blocks_taken-past :
    (t : HeapTable) (start n : ℕ)
    → 0 < n
    → length t < start + n
    → mark_blocks_taken t start n ≡ none
unfolding mark_blocks_taken
mark_blocks_taken-past t start zero h k = absurd (omega arith)
mark_blocks_taken-past t start (suc n) h k = mark_loop-past n t start _ _ k
