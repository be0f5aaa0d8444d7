-- ===== src/Memory/Heap/Search.antt =====
-- `heap_get_start_block` against a declarative search: the first position from which the wanted
-- number of blocks is free, or from which all blocks up to the end of the table are.
use ra_os.Base.{
  ℕ, zero, suc, ◌+◌, ◌-◌, ◌≤◌, ◌<◌, ◌≡◌, refl, ap, ◌∙◌, tests, ◌==◌, if◌then◌else◌, Bool, true,
  false, ◌&&◌, Option, none, some, List, [], ◌∷◌, ◌++◌, map, arith, take, drop, replicate,
  Bool-cases, Result, ok, err, enomem, inl, inr,
}
use mathlib.Core.Path.{ap₂}
use ra_os.Memory.Heap.{HeapTable, is_free, start_block_loop, get_start_block}

-- Which blocks are free.
abbrev pub free_map : HeapTable → List Bool
free_map = map is_free

-- Blocks `start` to `start + n - 1` lie in the table and are free.
abbrev pub Fits : HeapTable → ℕ → ℕ → Type 0
Fits table start n = take n (drop start (free_map table)) ≡ replicate n true

-- The first `n` blocks are free, or all are, if there are fewer.
unfoldable pub run : ℕ → List Bool → Bool
run zero l = true
run (suc n) [] = true
run (suc n) (b ∷ l) = b && run n l

abbrev pub shift : ℕ → Option ℕ → Option ℕ
shift k none = none
shift k (some s) = some (k + s)

-- The first position of a run.
unfoldable pub best : ℕ → List Bool → Option ℕ
best n [] = none
best n (b ∷ l) = if run n (b ∷ l) then some 0 else shift 1 (best n l)

shift-zero : (o : Option ℕ) → shift 0 o ≡ o
shift-zero none = refl
shift-zero (some s) = ap some (omega arith)

shift-shift : (j k : ℕ) (o : Option ℕ) → shift j (shift k o) ≡ shift (j + k) o
shift-shift j k none = refl
shift-shift j k (some s) = ground arith

run-replicate :
    (n bc : ℕ) (l : List Bool) → bc ≤ n → run n (replicate bc true ++ l) ≡ run (n - bc) l
unfolding run
run-replicate n zero l h = ap (λ k. run k l) (omega arith)
run-replicate zero (suc bc) l h = absurd (omega arith)
run-replicate (suc n) (suc bc) l h =
    run-replicate n bc l (omega arith) ∙ ap (λ k. run k l) (omega arith)

run-false : (k : ℕ) (l : List Bool) → 0 < k → run k (false ∷ l) ≡ false
unfolding run
run-false zero l h = absurd (omega arith)
run-false (suc k) l h = refl

-- A run that a taken block cuts short is passed over.
best-skip :
    (n bc : ℕ) (l : List Bool)
    → bc < n
    → best n (replicate bc true ++ false ∷ l) ≡ shift (bc + 1) (best n l)
unfolding best
best-skip n zero l h = rw (run-false n l h)
best-skip n (suc bc) l h =
    let cut : run n (true ∷ replicate bc true ++ false ∷ l) ≡ false =
      run-replicate n (suc bc) (false ∷ l) (omega arith) ∙ run-false (n - suc bc) l (omega arith) in
    rw (cut, best-skip n bc l (omega arith), shift-shift)
      (ap (λ k. shift k (best n l)) (omega arith))

best-run : (n : ℕ) (b : Bool) (l : List Bool) → run n (b ∷ l) ≡ true → best n (b ∷ l) ≡ some 0
unfolding best
best-run n b l h = rw h

run-nil : (n : ℕ) → run n [] ≡ true
unfolding run
run-nil zero = refl
run-nil (suc n) = refl

run-zero : (n : ℕ) (l : List Bool) → n ≡ 0 → run n l ≡ true
unfolding run
run-zero zero l h = refl
run-zero (suc n) l h = absurd (omega arith)

replicate-snoc :
    (n : ℕ) (l : List Bool) → replicate n true ++ true ∷ l ≡ true ∷ replicate n true ++ l
replicate-snoc zero l = refl
replicate-snoc (suc n) l = ap (λ t. true ∷ t) (replicate-snoc n l)

-- What `bs` is when `bc` blocks have been counted from block `b` on.
abbrev counted : ℕ → ℕ → Option ℕ
counted b zero = none
counted b (suc bc) = some b

-- A round at a free block stops when enough blocks are counted, and goes on otherwise.
loop-stop :
    (x : ℕ) (es : List ℕ) (b bc n i : ℕ)
    → i ≡ b + bc
    → is_free x ≡ true
    → (bc + 1 == n) ≡ true
    → start_block_loop (x ∷ es) i bc (counted b bc) n ≡ some b
unfolding start_block_loop
loop-stop x es b zero n i e free h = rw (free, start_block_loop) (rw h (ap some (omega arith)))
loop-stop x es b (suc bc) n i e free h = rw (free, start_block_loop) (rw h refl)

loop-count :
    (x : ℕ) (es : List ℕ) (b bc n i : ℕ)
    → i ≡ b + bc
    → is_free x ≡ true
    → (bc + 1 == n) ≡ false
    → start_block_loop (x ∷ es) i bc (counted b bc) n
      ≡ start_block_loop es (i + 1) (suc bc) (counted b (suc bc)) n
unfolding start_block_loop
loop-count x es b zero n i e free h =
    rw (free, start_block_loop)
      (rw h (ap₂ (λ k o. start_block_loop es (i + 1) k o n) (omega arith) (ap some (omega arith))))
loop-count x es b (suc bc) n i e free h =
    rw (free, start_block_loop)
      (rw h (ap (λ k. start_block_loop es (i + 1) k (some b) n) (omega arith)))

loop-reset :
    (x : ℕ) (es : List ℕ) (bc n i : ℕ) (bs : Option ℕ)
    → is_free x ≡ false
    → start_block_loop (x ∷ es) i bc bs n ≡ start_block_loop es (i + 1) 0 none n
unfolding start_block_loop
loop-reset x es bc n i bs taken = rw (taken, start_block_loop) refl

start_block_loop-best :
    (es : List ℕ) (b bc n i : ℕ)
    → i ≡ b + bc
    → bc < n
    → start_block_loop es i bc (counted b bc) n
      ≡ shift b (best n (replicate bc true ++ map is_free es))
unfolding start_block_loop best
start_block_loop-best [] b zero n i e h = refl
start_block_loop-best [] b (suc bc) n i e h =
    rw
      (best-run n true (replicate bc true ++ [])
        (run-replicate n (suc bc) [] (omega arith) ∙ run-nil (n - suc bc)))
      (ap some (omega arith))
start_block_loop-best (x ∷ es) b bc n i e h = elim (Bool-cases (is_free x)) [
  | inr taken ↦
      rw
        (
          loop-reset x es bc n i (counted b bc) taken,
          taken,
          best-skip n bc (map is_free es) h,
          shift-shift,
        )
        (start_block_loop-best es (i + 1) 0 n (i + 1) (omega arith) (omega arith)
          ∙ ap (λ k. shift k (best n (map is_free es))) (omega arith))
  | inl free ↦ elim (Bool-cases (bc + 1 == n)) [
    | inl enough ↦
        rw
          (
            loop-stop x es b bc n i e free enough,
            free,
            replicate-snoc bc (map is_free es),
            best-run n true (replicate bc true ++ map is_free es) (
                run-replicate n (suc bc) (map is_free es) (omega (tests, enough))
                ∙ run-zero (n - suc bc) (map is_free es) (omega (tests, enough))),
          )
          (ap some (omega arith))
    | inr short ↦
        rw (loop-count x es b bc n i e free short, free, replicate-snoc bc (map is_free es))
          (start_block_loop-best es b (suc bc) n (i + 1) (omega arith) (omega (tests, short)))
  ]
]

abbrev pub to_result : Option ℕ → Result ℕ
to_result none = err enomem
to_result (some s) = ok s

pub get_start_block-best :
    (table : HeapTable) (n : ℕ)
    → 0 < n
    → get_start_block table n ≡ to_result (best n (free_map table))
unfolding get_start_block
get_start_block-best table n h =
    let found : start_block_loop table 0 0 none n ≡ best n (free_map table) =
      start_block_loop-best table 0 0 n 0 refl h ∙ shift-zero (best n (free_map table)) in
    rw (found, get_start_block) (ground arith)
