-- ===== src/Memory/Heap/FirstFit.antt =====
-- What `heap_get_start_block` finds: the first fit where there is one, and otherwise the free blocks
-- at the end of the table, which are too few.
use ra_os.Base.{
  ℕ, zero, suc, ◌+◌, ◌-◌, ◌≤◌, ◌<◌, ◌≡◌, refl, sym, ap, ◌∙◌, Bool, true, false, some, List, [], ◌∷◌,
  ◌++◌, arith, length, take, drop, replicate, Bool-cases, Option-cases, ok, err, enomem, inl, inr,
  length-append,
}
use mathlib.Core.Path.{subst}
use mathlib.Core.List.{map-append}
use native.Mathlib.Decide.{dec_le}
use ra_os.Memory.Heap.{HeapTable, is_free, get_start_block}
use ra_os.Memory.Heap.Search.{free_map, Fits, run, best, get_start_block-best}

run-take : (n : ℕ) (l : List Bool) → take n l ≡ replicate n true → (run n l ≡ true) × (n ≤ length l)
unfolding run
run-take zero l h = (refl, omega arith)
run-take (suc n) [] h = cc
run-take (suc n) (b ∷ l) h = ground (arith, run-take n l)

take-run : (n : ℕ) (l : List Bool) → run n l ≡ true → n ≤ length l → take n l ≡ replicate n true
unfolding run
take-run zero l h k = refl
take-run (suc n) [] h k = absurd (omega arith)
take-run (suc n) (true ∷ l) h k = ap (λ t. true ∷ t) (take-run n l h (omega arith))
take-run (suc n) (false ∷ l) h k = cc

-- What is found is a run in the list.
pub best-some :
    (n r : ℕ) (l : List Bool) → best n l ≡ some r → (run n (drop r l) ≡ true) × (r < length l)
unfolding best
best-some n r [] h = cc
best-some n r (b ∷ l) h = elim (Bool-cases (run n (b ∷ l))) [
  | inl here ↦ ground arith
  | inr later ↦ elim (Option-cases (best n l)) [
    | inl e ↦ ground arith
    | inr (s, e) ↦ ground (arith, best-some n s l)
  ]
]

-- It is the first one.
best-first :
    (n s : ℕ) (l : List Bool)
    → run n (drop s l) ≡ true
    → s < length l
    → (r : ℕ) × (best n l ≡ some r) × (r ≤ s)
unfolding best
best-first n s [] h k = absurd (omega arith)
best-first n zero (b ∷ l) h k = (0, rw h, omega arith)
best-first n (suc s) (b ∷ l) h k = elim (Bool-cases (run n (b ∷ l))) [
  | inl here ↦ (0, rw here, omega arith)
  | inr later ↦
      let (r, e, le) = best-first n s l h (omega arith) in
      (suc r, rw (later, e) (ap some (omega arith)), omega arith)
]

-- A run that reaches past the end holds the last block.
run-last : (n : ℕ) (l : List Bool) (b : Bool) → length l < n → run n (l ++ b ∷ []) ≡ true → b ≡ true
unfolding run
run-last zero l b k h = absurd (omega arith)
run-last (suc n) [] true k h = refl
run-last (suc n) [] false k h = cc
run-last (suc n) (true ∷ l) b k h = run-last n l b (omega arith) h
run-last (suc n) (false ∷ l) b k h = cc

drop-append : (r : ℕ) (l m : List Bool) → r ≤ length l → drop r (l ++ m) ≡ drop r l ++ m
drop-append zero l m h = refl
drop-append (suc r) [] m h = absurd (omega arith)
drop-append (suc r) (b ∷ l) m h = drop-append r l m (omega arith)

length-map : (t : HeapTable) → length (free_map t) ≡ length t
length-map [] = refl
length-map (e ∷ t) = ap suc (length-map t)

length-drop : (r : ℕ) (l : List Bool) → length (drop r l) ≡ length l - r
length-drop zero l = omega arith
length-drop (suc r) [] = omega arith
length-drop (suc r) (b ∷ l) = omega (arith, length-drop r l)

pub run-of-Fits :
    (table : HeapTable) (s n : ℕ)
    → 0 < n
    → Fits table s n
    → (run n (drop s (free_map table)) ≡ true)
      × (s + n ≤ length table)
      × (s < length (free_map table))
run-of-Fits table s n h fits =
    let (r, le) = run-take n (drop s (free_map table)) fits in
    (
      r,
      omega (arith, length-drop s (free_map table), length-map table),
      omega (arith, length-drop s (free_map table)),
    )

-- When some place in the table has `n` > 0 free blocks in a row, `heap_get_start_block` answers the
-- first such place.
pub get_start_block-first :
    (table : HeapTable) (s n : ℕ)
    → 0 < n
    → Fits table s n
    → (r : ℕ) × (get_start_block table n ≡ ok r)
      × Fits table r n
      × ((t : ℕ) → Fits table t n → r ≤ t)
get_start_block-first table s n h fits =
    let l = free_map table in
    let (free, inside, below) = run-of-Fits table s n h fits in
    let (r, e, le) = best-first n s l free below in
    let (free', _) = best-some n r l e in
    (
      r,
      rw (get_start_block-best table n h, e) refl,
      take-run n (drop r l) free' (omega (arith, length-drop r l, length-map table)),
      λ t other.
          let (free_t, _, below_t) = run-of-Fits table t n h other in
          let (r', e', le') = best-first n t l free_t below_t in
          let same : some r ≡ some r' = sym e ∙ e' in ground arith,
    )

pub Fits-of-run :
    (table : HeapTable) (r n : ℕ)
    → r + n ≤ length table
    → run n (drop r (free_map table)) ≡ true
    → Fits table r n
Fits-of-run table r n h k =
    take-run n (drop r (free_map table)) k
      (omega (arith, length-drop r (free_map table), length-map table))

-- A run that is no fit reaches the end of the table.
run-unfit :
    (table : HeapTable) (r n : ℕ)
    → ((s : ℕ) → ¬ Fits table s n)
    → run n (drop r (free_map table)) ≡ true
    → length table < r + n
run-unfit table r n unfit k = elim (dec_le (r + n) (length table)) [
  | yes inside ↦ absurd (unfit r (Fits-of-run table r n inside k))
  | no outside ↦ omega arith
]

run-end :
    (front : HeapTable) (e r n : ℕ)
    → r ≤ length front
    → length front + 1 < r + n
    → run n (drop r (free_map (front ++ e ∷ []))) ≡ true
    → is_free e ≡ true
run-end front e r n h k free =
    run-last n (drop r (free_map front)) (is_free e)
      (omega (arith, length-drop r (free_map front), length-map front))
      (subst (λ l. run n l ≡ true)
        (ap (drop r) (map-append is_free front (e ∷ []))
          ∙ drop-append r (free_map front) (is_free e ∷ []) (omega (arith, length-map front)))
        free)

-- The last block alone is a run, if it is free.
run-last_free :
    (front : HeapTable) (e n : ℕ)
    → is_free e ≡ true
    → run n (drop (length front) (free_map (front ++ e ∷ []))) ≡ true
unfolding run
run-last_free [] e zero h = refl
run-last_free [] e (suc zero) h = rw h
run-last_free [] e (suc (suc n)) h = rw h
run-last_free (x ∷ front) e n h = run-last_free front e n h

-- With no place for `n` > 0 blocks in a table whose last block is taken, `heap_get_start_block`
-- answers ENOMEM.
pub get_start_block-full :
    (front : HeapTable) (e n : ℕ)
    → 0 < n
    → ((s : ℕ) → ¬ Fits (front ++ e ∷ []) s n)
    → is_free e ≡ false
    → get_start_block (front ++ e ∷ []) n ≡ err enomem
get_start_block-full front e n h unfit taken = elim (Option-cases (best n l)) [
  | inl nothing ↦ rw (get_start_block-best table n h, nothing) refl
  | inr (r, found) ↦
      let (free, below) = best-some n r l found in
      let past = run-unfit table r n unfit free in
      let last : is_free e ≡ true =
        run-end front e r n (omega (arith, length-map table, length-append front (e ∷ [])))
          (omega (arith, length-append front (e ∷ []))) free in
      let clash : true ≡ false = sym last ∙ taken in cc
]
  where
    table : HeapTable
    table = front ++ e ∷ []

    l : List Bool
    l = free_map table

-- With no place for `n` > 0 blocks in a table whose last block is free, `heap_get_start_block` does
-- not fail: it answers a block from which fewer than `n` blocks are left in the table.
pub get_start_block-short :
    (front : HeapTable) (e n : ℕ)
    → 0 < n
    → ((s : ℕ) → ¬ Fits (front ++ e ∷ []) s n)
    → is_free e ≡ true
    → (r : ℕ) × (get_start_block (front ++ e ∷ []) n ≡ ok r)
      × (r < length (front ++ e ∷ []))
      × (length (front ++ e ∷ []) < r + n)
get_start_block-short front e n h unfit free =
    let table = front ++ e ∷ [] in
    let l = free_map table in
    let k = length front in
    let at_end = run-last_free front e n free in
    let (r, found, le) =
      best-first n k l at_end (omega (arith, length-map table, length-append front (e ∷ []))) in
    let (run_r, below) = best-some n r l found in
    (
      r,
      rw (get_start_block-best table n h, found) refl,
      omega (arith, length-map table),
      run-unfit table r n unfit run_r,
    )
