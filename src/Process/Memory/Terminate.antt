-- ===== src/Process/Memory/Terminate.antt =====
-- The release of all allocations of a process.
use ra_os.Base.{
  some_eq, ℕ, zero, suc, ◌+◌, ◌^◌, ◌≤◌, ◌<◌, ◌≡◌, ◌⊎◌, refl, ◌∙◌, sym, ap, subst, ◌==◌, none, some,
  List, [], ◌∷◌, ◌>>=◌, Result, ok, err, get_elem?, arith, tests, Bool-cases, Option-cases, inl,
  inr, Error, All, eq_of_==,
}
use mathlib.Core.Path.{ap₂}
use ra_os.Memory.Heap.{HeapState, block_size, free, address_to_block, signed_block, mark_block_free}
use ra_os.Memory.Paging.{Ram, map_to, map_range, align_address, add32}
use ra_os.Process.Memory.{
  Allocation, Machine, max_program_allocations, process_get_allocation_by_addr,
  process_allocation_unjoin, process_free, terminate_loop, process_terminate_allocations,
}

-- NULL lies before the heap.
free-null : (heap : HeapState) → block_size ≤ heap.saddr → heap.saddr ≤ 2 ^ 31 → free heap 0 ≡ none
unfolding free address_to_block signed_block mark_block_free
free-null heap lo hi = ground arith

-- An entry without a pointer has no size.
abbrev pub IsClean : Allocation → Type 0
IsClean a = a.ptr ≡ 0 → a.size ≡ 0

abbrev pub unused : Allocation
unused = record { ptr = 0; size = 0 }

-- The first entry without a pointer is what is found under NULL.
get_allocation-null :
    (allocations : List Allocation) (k : ℕ)
    → All IsClean allocations
    → get_elem? allocations k ≡ some unused
    → process_get_allocation_by_addr allocations 0 ≡ some unused
unfolding process_get_allocation_by_addr
get_allocation-null [] k clean h = absurd (ground (arith, h))
get_allocation-null (a ∷ allocations) zero clean h = ground (arith, h)
get_allocation-null (a ∷ allocations) (suc k) clean h = elim (Bool-cases (a.ptr == 0)) [
  | inr used ↦ rw used (get_allocation-null allocations k clean.1 h)
  | inl null ↦
      let p : a.ptr ≡ 0 = eq_of_== a.ptr 0 null in
      rw null (ap₂ (λ x y. some (record { ptr = x; size = y })) p (clean.0 p))
]

unjoin-IsClean :
    (allocations : List Allocation) (ptr : ℕ)
    → All IsClean allocations
    → All IsClean (process_allocation_unjoin allocations ptr)
unfolding process_allocation_unjoin
unjoin-IsClean [] ptr clean = tt
unjoin-IsClean (a ∷ allocations) ptr clean = elim (Bool-cases (a.ptr == ptr)) [
  | inl e ↦ rw e ((λ z. refl), unjoin-IsClean allocations ptr clean.1)
  | inr e ↦ rw e (clean.0, unjoin-IsClean allocations ptr clean.1)
]

unjoin-unused :
    (allocations : List Allocation) (ptr k : ℕ)
    → get_elem? allocations k ≡ some unused
    → get_elem? (process_allocation_unjoin allocations ptr) k ≡ some unused
unfolding process_allocation_unjoin
unjoin-unused [] ptr k h = absurd (ground (arith, h))
unjoin-unused (a ∷ allocations) ptr zero h = elim (Bool-cases (a.ptr == ptr)) [
  | inl e ↦ rw e refl
  | inr e ↦ rw e h
]
unjoin-unused (a ∷ allocations) ptr (suc k) h = unjoin-unused allocations ptr k h

-- A process whose entry `k` is not in use, with a heap above the first block.
pub record HasUnused (machine : Machine) (k : ℕ) : Type 0 where
  pub above : block_size ≤ machine.heap.saddr
  pub below : machine.heap.saddr ≤ 2 ^ 31
  pub clean : All IsClean machine.allocations
  pub entry : get_elem? machine.allocations k ≡ some unused

process_free-null :
    (machine : Machine) (k : ℕ) → HasUnused machine k → process_free machine 0 ≡ none
unfolding process_free map_to map_range align_address
process_free-null machine k state =
    rw
      (
        process_free,
        get_allocation-null machine.allocations k state.clean state.entry,
        free-null machine.heap state.above state.below,
      )
      refl

free-saddr :
    (heap heap' : HeapState) (ptr : ℕ) → free heap ptr ≡ some heap' → heap'.saddr ≡ heap.saddr
unfolding free
free-saddr heap heap' ptr e = ground (arith, e)

-- The pages of an allocation are unmapped.
abbrev pub unmapped : Machine → Allocation → Result (Unit {0}) × Ram
unmapped machine a =
    map_to machine.ram machine.directory a.ptr a.ptr (align_address (add32 a.ptr a.size)) 0x00

Result-cases : (r : Result (Unit {0})) → ((e : Error) × (r ≡ err e)) ⊎ (r ≡ ok tt)
Result-cases (ok tt) = inr refl
Result-cases (err e) = inl (e, refl)

-- What `process_free` does: nothing, a change of page tables, or the release.
process_free-cases :
    (machine : Machine) (ptr : ℕ)
    → (process_free machine ptr ≡ some machine)
      ⊎ ((ram : Ram) × (process_free machine ptr ≡ some (record machine { ram = ram })))
      ⊎ ((ram : Ram) × (process_free machine ptr ≡ (
            free machine.heap ptr >>= λ heap. some (record machine {
              heap = heap;
              ram = ram;
              allocations = process_allocation_unjoin machine.allocations ptr;
            }))))
unfolding process_free
process_free-cases machine ptr =
    elim (Option-cases (process_get_allocation_by_addr machine.allocations ptr)) [
      | inl e ↦ inl (rw (process_free, e) refl)
      | inr (a, e) ↦ elim (Result-cases (unmapped machine a).0) [
        | inl (code, refused) ↦
            inr (inl ((unmapped machine a).1, rw (process_free, e, refused) refl))
        | inr done ↦ inr (inr ((unmapped machine a).1, rw (process_free, e, done) refl))
      ]
    ]

process_free-HasUnused :
    (machine machine' : Machine) (ptr k : ℕ)
    → HasUnused machine k
    → process_free machine ptr ≡ some machine'
    → HasUnused machine' k
process_free-HasUnused machine machine' ptr k state step = elim (process_free-cases machine ptr) [
  | inl e ↦ subst (λ m. HasUnused m k) (some_eq (sym e ∙ step)) state
  | inr (inl (ram, e)) ↦
      subst (λ m. HasUnused m k) (some_eq (sym e ∙ step))
        (record {
          above = state.above;
          below = state.below;
          clean = state.clean;
          entry = state.entry;
        })
  | inr (inr (ram, e)) ↦ elim (Option-cases (free machine.heap ptr)) [
    | inl lost ↦ absurd (ground (arith, sym e ∙ step, lost))
    | inr (heap, freed) ↦
        let base = free-saddr machine.heap heap ptr freed in
        let after : Machine = record machine {
          heap = heap;
          ram = ram;
          allocations = process_allocation_unjoin machine.allocations ptr;
        } in
        let run : process_free machine ptr ≡ some after = e ∙ rw (freed, ◌>>=◌) refl in
        subst (λ m. HasUnused m k) (some_eq (sym run ∙ step))
          (record {
            above = omega (arith, base, state.above);
            below = omega (arith, base, state.below);
            clean = unjoin-IsClean machine.allocations ptr state.clean;
            entry = unjoin-unused machine.allocations ptr k state.entry;
          })
  ]
]

terminate_loop-null :
    (rounds : ℕ) (machine : Machine) (i k : ℕ)
    → HasUnused machine k
    → i ≤ k
    → k < i + rounds
    → terminate_loop rounds machine i ≡ none
unfolding terminate_loop
terminate_loop-null zero machine i k state lo hi = absurd (omega arith)
terminate_loop-null (suc rounds) machine i k state lo hi = elim (Bool-cases (i == k)) [
  | inl here ↦
      let at : get_elem? machine.allocations i ≡ some unused =
        ap (get_elem? machine.allocations) (eq_of_== i k here) ∙ state.entry in
      rw (at, ◌>>=◌, process_free-null machine k state) refl
  | inr before ↦ elim (Option-cases (get_elem? machine.allocations i)) [
    | inl e ↦ rw e refl
    | inr (a, at) ↦ elim (Option-cases (process_free machine a.ptr)) [
      | inl e ↦ rw (at, ◌>>=◌, e) refl
      | inr (machine', e) ↦
          rw (at, ◌>>=◌, e)
            (terminate_loop-null rounds machine' (i + 1) k
              (process_free-HasUnused machine machine' a.ptr k state e) (omega (tests, before))
              (omega arith))
    ]
  ]
]

-- A process with an entry that is not in use cannot be terminated: freeing its allocations frees NULL
-- for that entry, which writes before the table of the heap. The heap starts above its first 4096
-- bytes and below 2 GiB, and the entries without a pointer have no size.
pub process_terminate_allocations-null :
    (machine : Machine) (k : ℕ)
    → block_size ≤ machine.heap.saddr
    → machine.heap.saddr ≤ 2 ^ 31
    → All IsClean machine.allocations
    → k < max_program_allocations
    → get_elem? machine.allocations k ≡ some unused
    → process_terminate_allocations machine ≡ none
unfolding process_terminate_allocations
process_terminate_allocations-null machine k above below clean inside entry =
    terminate_loop-null max_program_allocations machine 0 k
      (record { above = above; below = below; clean = clean; entry = entry }) (omega arith)
      (omega arith)
