-- ===== src/Fs/File/Table.antt =====
-- The descriptor table: which entry a new descriptor takes, and how numbers are looked up.
use ra_os.Base.{
  ◌⊎◌, err, enomem, ℕ, zero, suc, ◌+◌, ◌-◌, ◌<◌, ◌≡◌, ◌≢◌, refl, ap, ◌∙◌, sym, ◌==◌, leb, ◌||◌,
  Option, none, some, [], ◌∷◌, arith, length, ok, set, get_elem?, get_elem?-set_self,
  get_elem?-set_ne, length-set, inl, inr, Option-cases, Bool-cases,
}
use ra_os.Base.Int.{pos}
use native.Mathlib.Decide.{ℕ_discrete}
use ra_os.Fs.File.{
  Descriptor, Table, max_descriptors, free_slot_loop, new_descriptor, get_descriptor, join,
}

module _ {P : Type 0} where
  -- Each descriptor holds its own number.
  pub record IsValid (table : Table P) : Type 0 where
    pub numbered : (i : ℕ) (d : Descriptor P) → get_elem? table i ≡ some (some d) → d.index ≡ i + 1
    pub size : length table ≡ max_descriptors

  -- The entries before `i` are taken, and entry `i` is free.
  pub record IsFirstFree (table : Table P) (i : ℕ) : Type 0 where
    pub free : get_elem? table i ≡ some none
    pub taken : (j : ℕ) → j < i → get_elem? table j ≢ some none
    pub inside : i < length table

  free_slot_loop-first :
      (table : Table P) (i s : ℕ)
      → free_slot_loop table i ≡ some s
      → (k : ℕ) × (s ≡ i + k) × IsFirstFree table k
  unfolding free_slot_loop
  free_slot_loop-first [] i s h = cc
  free_slot_loop-first (none ∷ table) i s h = (
    0,
    ground arith,
    record { free = refl; taken = λ j k. absurd (omega arith); inside = omega arith },
  )
  free_slot_loop-first (some d ∷ table) i s h =
      let (k, e, first) = free_slot_loop-first table (i + 1) s h in
      (
        suc k,
        omega arith,
        record {
          free = first.free;
          taken = later first.taken;
          inside = omega (arith, first.inside);
        },
      )
    where
      later :
          {k : ℕ}
          → ((j : ℕ) → j < k → get_elem? table j ≢ some none)
          → (j : ℕ) → j < suc k
          → get_elem? (some d ∷ table) j ≢ some none
      later taken zero h = cc
      later taken (suc j) h = taken j (omega arith)

  free_slot_loop-full :
      (table : Table P) (i : ℕ)
      → free_slot_loop table i ≡ none
      → (j : ℕ) → get_elem? table j ≢ some none
  unfolding free_slot_loop
  free_slot_loop-full [] i h j e = cc
  free_slot_loop-full (none ∷ table) i h j e = cc
  free_slot_loop-full (some d ∷ table) i h zero e = cc
  free_slot_loop-full (some d ∷ table) i h (suc j) e = free_slot_loop-full table (i + 1) h j e

  -- `file_new_descriptor` takes the first free entry and numbers it from 1, or answers ENOMEM when no
  -- entry is free.
  pub new_descriptor-cases :
      (table : Table P) (p : P)
      → ((i : ℕ) × IsFirstFree table i
          × (new_descriptor table p
              ≡ ok (i + 1, set table i (some (record { index = i + 1; private_ = p })))))
        ⊎ (((i : ℕ) → get_elem? table i ≢ some none) × (new_descriptor table p ≡ err enomem))
  unfolding new_descriptor
  new_descriptor-cases table p = elim (Option-cases (free_slot_loop table 0)) [
    | inl full ↦ inr (free_slot_loop-full table 0 full, rw (new_descriptor, full) refl)
    | inr (s, e) ↦
        let (k, e', first) = free_slot_loop-first table 0 s e in
        let found : free_slot_loop table 0 ≡ some k = e ∙ ap some (omega arith) in
        inl (k, first, rw (new_descriptor, found) refl)
  ]

  pub new_descriptor-ok :
      (table table' : Table P) (p : P) (fd : ℕ)
      → new_descriptor table p ≡ ok (fd, table')
      → (i : ℕ) × IsFirstFree table i
        × (fd ≡ i + 1)
        × (table' ≡ set table i (some (record { index = i + 1; private_ = p })))
  new_descriptor-ok table table' p fd h = elim (new_descriptor-cases table p) [
    | inl (i, first, e) ↦ (i, first, ground (arith, e), ground (arith, e))
    | inr (full, e) ↦ let clash = sym e ∙ h in cc
  ]

  pub get_descriptor-pos :
      (table : Table P) (fd : ℕ)
      → 0 < fd
      → fd < max_descriptors
      → get_descriptor table (pos fd) ≡ join (get_elem? table (fd - 1))
  unfolding get_descriptor
  get_descriptor-pos table fd h k = ground arith

  -- The number 512, which `file_new_descriptor` gives to the last entry, is refused.
  pub get_descriptor-last : (table : Table P) → get_descriptor table (pos max_descriptors) ≡ none
  unfolding get_descriptor
  get_descriptor-last table = refl

  pub get_descriptor-out :
      (table : Table P) (fd : ℕ) (d : Descriptor P)
      → get_descriptor table (pos fd) ≡ some d
      → (0 < fd) × (fd < max_descriptors) × (get_elem? table (fd - 1) ≡ some (some d))
  unfolding get_descriptor
  get_descriptor-out table fd d h = elim (Bool-cases (fd == 0 || leb max_descriptors fd)) [
    | inl e ↦ ground arith
    | inr e ↦ (ground arith, ground arith, join-some (get_elem? table (fd - 1)) (ground arith))
  ]
    where
      join-some : (o : Option (Option (Descriptor P))) → join o ≡ some d → o ≡ some (some d)
      join-some none h = cc
      join-some (some o) h = ap some h

  pub set-IsValid :
      (table : Table P) (i : ℕ) (o : Option (Descriptor P))
      → IsValid table
      → i < max_descriptors
      → ((d : Descriptor P) → o ≡ some d → d.index ≡ i + 1)
      → IsValid (set table i o)
  set-IsValid table i o valid h keep = record {
    numbered = λ j d k. elim (ℕ_discrete i j) [
      | yes same ↦ keep d (here j same d k) ∙ ap (λ n. n + 1) same
      | no other ↦ valid.numbered j d (sym (get_elem?-set_ne table i j o other) ∙ k)
    ];
    size = rw (length-set, valid.size);
  }
    where
      here :
          (j : ℕ)
          → i ≡ j
          → (d : Descriptor P) → get_elem? (set table i o) j ≡ some (some d)
          → o ≡ some d
      here j same d k = let e = get_elem?-set_self table i o (omega (arith, valid.size)) in cc
