-- ===== src/Memory/Heap/Chunks.antt =====
-- The table as a sequence of chunks: free blocks, and allocations of one block and more. This is the
-- abstract view of the allocator, and `encode` lays it out as the entries of the table.
use ra_os.Base.{
  ℕ, zero, suc, ◌-◌, ◌≤◌, ◌≡◌, refl, sym, ap, ◌∙◌, Bool, true, false, List, [], ◌∷◌, ◌++◌, map,
  arith, length, take, drop, replicate, length-append,
}
use mathlib.Core.Path.{subst}
use mathlib.Core.List.{map-append, append_assoc}
use ra_os.Memory.Heap.{HeapTable, entry_free, is_free}
use ra_os.Memory.Heap.Search.{free_map, Fits}

-- `used extra` is an allocation of `extra + 1` blocks.
pub data Chunk : Type 0 where
  free_block : Chunk
  used : ℕ → Chunk

-- The entries of the `extra` blocks that follow the first one.
unfoldable pub rest : ℕ → List ℕ
rest zero = []
rest (suc zero) = 0x01 ∷ []
rest (suc (suc extra)) = 0x81 ∷ rest (suc extra)

unfoldable pub cells : ℕ → List ℕ
unfolding rest
cells zero = 0x41 ∷ []
cells (suc extra) = 0xc1 ∷ rest (suc extra)

abbrev pub encode : List Chunk → HeapTable
encode [] = []
encode (free_block ∷ cs) = entry_free ∷ encode cs
encode (used extra ∷ cs) = cells extra ++ encode cs

pub length-rest : (extra : ℕ) → length (rest extra) ≡ extra
unfolding rest
length-rest zero = refl
length-rest (suc zero) = refl
length-rest (suc (suc extra)) = ap suc (length-rest (suc extra))

pub length-cells : (extra : ℕ) → length (cells extra) ≡ suc extra
unfolding cells
length-cells zero = refl
length-cells (suc extra) = ap suc (length-rest (suc extra))

pub encode-append : (cs ds : List Chunk) → encode (cs ++ ds) ≡ encode cs ++ encode ds
encode-append [] ds = refl
encode-append (free_block ∷ cs) ds = ap (λ t. entry_free ∷ t) (encode-append cs ds)
encode-append (used extra ∷ cs) ds =
    ap (λ t. cells extra ++ t) (encode-append cs ds)
    ∙ sym (append_assoc (cells extra) (encode cs) (encode ds))

pub encode-replicate : (n : ℕ) → encode (replicate n free_block) ≡ replicate n entry_free
encode-replicate zero = refl
encode-replicate (suc n) = ap (λ t. entry_free ∷ t) (encode-replicate n)

-- No block of an allocation is free.
rest-taken : (extra : ℕ) → map is_free (rest extra) ≡ replicate extra false
unfolding rest is_free
rest-taken zero = refl
rest-taken (suc zero) = refl
rest-taken (suc (suc extra)) = ap (λ t. false ∷ t) (rest-taken (suc extra))

pub cells-taken : (extra : ℕ) → map is_free (cells extra) ≡ replicate (suc extra) false
unfolding cells is_free
cells-taken zero = refl
cells-taken (suc extra) = ap (λ t. false ∷ t) (rest-taken (suc extra))

-- Free blocks in a row do not begin inside an allocation.
drop-taken :
    (k r n : ℕ) (l : List Bool)
    → take (suc n) (drop r (replicate k false ++ l)) ≡ replicate (suc n) true
    → (k ≤ r) × (drop r (replicate k false ++ l) ≡ drop (r - k) l)
drop-taken zero r n l h = (omega arith, ap (λ j. drop j l) (omega arith))
drop-taken (suc k) zero n l h = cc
drop-taken (suc k) (suc r) n l h =
    let (le, e) = drop-taken k r n l h in (omega arith, e ∙ ap (λ j. drop j l) (omega arith))

free_map-used :
    (extra : ℕ) (t : HeapTable)
    → free_map (cells extra ++ t) ≡ replicate (suc extra) false ++ free_map t
free_map-used extra t =
    map-append is_free (cells extra) t ∙ ap (λ l. l ++ free_map t) (cells-taken extra)

-- A fit in a table that begins with an allocation is one behind it.
fit_behind_used :
    (extra : ℕ) (t : HeapTable) (r n : ℕ)
    → Fits (cells extra ++ t) r (suc n)
    → (suc extra ≤ r) × Fits t (r - suc extra) (suc n)
fit_behind_used extra t r n h =
    let (le, e) =
      drop-taken (suc extra) r n (free_map t)
        (subst (λ l. take (suc n) (drop r l) ≡ replicate (suc n) true) (free_map-used extra t) h) in
    (le, ap (take (suc n)) (sym (ap (drop r) (free_map-used extra t) ∙ e)) ∙ h)

fit_behind_free : (t : HeapTable) (n : ℕ) → Fits (entry_free ∷ t) 0 (suc n) → Fits t 0 n
unfolding is_free
fit_behind_free t n h = cc

-- The free blocks that a fit at the start of the table covers.
split_front :
    (cs : List Chunk) (n : ℕ)
    → Fits (encode cs) 0 n
    → (back : List Chunk) × (cs ≡ replicate n free_block ++ back)
split_front cs zero h = (cs, refl)
split_front [] (suc n) h = cc
split_front (free_block ∷ cs) (suc n) h =
    let (back, e) = split_front cs n (fit_behind_free (encode cs) n h) in
    (back, ap (λ t. free_block ∷ t) e)
split_front (used extra ∷ cs) (suc n) h =
    absurd (omega (arith, fit_behind_used extra (encode cs) 0 n h))

drop-nil : (r : ℕ) → drop {A = Bool} r [] ≡ []
drop-nil zero = refl
drop-nil (suc r) = refl

-- How a fit of `n` > 0 blocks at block `r` divides the chunks.
pub record Split (cs : List Chunk) (r n : ℕ) : Type 0 where
  pub front : List Chunk
  pub back : List Chunk
  pub parts : cs ≡ front ++ (replicate n free_block ++ back)
  pub place : length (encode front) ≡ r

pub Split-Fits : (cs : List Chunk) (r n : ℕ) → Fits (encode cs) r (suc n) → Split cs r (suc n)
Split-Fits [] r n h = let clash : take (suc n) [] ≡ replicate (suc n) true = rw drop-nil at h in cc
Split-Fits (free_block ∷ cs) zero n h =
    let (back, e) = split_front (free_block ∷ cs) (suc n) h in
    record { front = []; back = back; parts = e; place = refl }
Split-Fits (free_block ∷ cs) (suc r) n h =
    let s = Split-Fits cs r n h in
    record {
      front = free_block ∷ s.front;
      back = s.back;
      parts = ap (λ t. free_block ∷ t) s.parts;
      place = ap suc s.place;
    }
Split-Fits (used extra ∷ cs) r n h =
    let (le, behind) = fit_behind_used extra (encode cs) r n h in
    let s = Split-Fits cs (r - suc extra) n behind in
    record {
      front = used extra ∷ s.front;
      back = s.back;
      parts = ap (λ t. used extra ∷ t) s.parts;
      place =
          omega (arith, length-append (cells extra) (encode s.front), length-cells extra, s.place);
    }
