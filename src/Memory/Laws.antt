-- ===== src/Memory/Laws.antt =====
-- What the byte loops of src/memory/memory.c do to objects that are large enough, and to others.
use ra_os.Base.{
  ℕ, zero, suc, ◌≤◌, ◌≡◌, refl, some, List, [], ◌∷◌, ◌++◌, arith, length, take, drop, replicate,
  ◌↔◌, ◌==◌, if◌then◌else◌, Bool-cases, inl, inr,
}
use ra_os.Base.Int.{ℤ, pos, negsuc}
use ra_os.Memory.{memset, memcmp, memcpy, char_lt}

-- `memset` writes exactly the first `size` bytes of an object that has them.
pub memset_lem :
    (bytes : List ℕ) (c size : ℕ)
    → size ≤ length bytes
    → memset bytes c size ≡ some (replicate size c ++ drop size bytes)
unfolding memset
memset_lem bytes c zero h = refl
memset_lem [] c (suc size) h = absurd (omega arith)
memset_lem (b ∷ bytes) c (suc size) h = ground (arith, memset_lem bytes c size (omega arith))

-- `memcpy` replaces exactly the first `len` bytes of the destination by those of the source, when
-- both have them.
pub memcpy_lem :
    (dest src : List ℕ) (len : ℕ)
    → len ≤ length dest
    → len ≤ length src
    → memcpy dest src len ≡ some (take len src ++ drop len dest)
unfolding memcpy
memcpy_lem dest src zero h k = refl
memcpy_lem [] src (suc len) h k = absurd (omega arith)
memcpy_lem (d ∷ dest) [] (suc len) h k = absurd (omega arith)
memcpy_lem (d ∷ dest) (s ∷ src) (suc len) h k =
    ground (arith, memcpy_lem dest src len (omega arith) (omega arith))

-- `memcmp` over objects of at least `count` bytes returns.
pub memcmp-some :
    (s1 s2 : List ℕ) (count : ℕ)
    → count ≤ length s1
    → count ≤ length s2
    → (r : ℤ) × (memcmp s1 s2 count ≡ some r)
unfolding memcmp
memcmp-some s1 s2 zero h k = (pos 0, refl)
memcmp-some [] s2 (suc count) h k = absurd (omega arith)
memcmp-some (a ∷ s1) [] (suc count) h k = absurd (omega arith)
memcmp-some (a ∷ s1) (b ∷ s2) (suc count) h k = elim (Bool-cases (a == b)) [
  | inl e ↦ rw (e) (memcmp-some s1 s2 count (omega arith) (omega arith))
  | inr e ↦ rw (e) (if char_lt a b then negsuc 0 else pos 1, refl)
]

-- `memcmp` over objects of at least `count` bytes answers 0 exactly when their first `count` bytes
-- agree.
pub memcmp-zero_iff :
    (s1 s2 : List ℕ) (count : ℕ)
    → count ≤ length s1
    → count ≤ length s2
    → (memcmp s1 s2 count ≡ some (pos 0)) ↔ (take count s1 ≡ take count s2)
unfolding memcmp
memcmp-zero_iff s1 s2 zero h k = (λ _. refl, λ _. refl)
memcmp-zero_iff [] s2 (suc count) h k = absurd (omega arith)
memcmp-zero_iff (a ∷ s1) [] (suc count) h k = absurd (omega arith)
memcmp-zero_iff (a ∷ s1) (b ∷ s2) (suc count) h k =
    let ih = memcmp-zero_iff s1 s2 count (omega arith) (omega arith) in
    (λ e. ground (arith, ih.0, char_lt a b), λ e. ground (arith, ih.1))
