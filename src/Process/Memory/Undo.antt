-- ===== src/Process/Memory/Undo.antt =====
-- `process_free` undoes `process_malloc`.
use ra_os.Base.{
  ℕ, zero, suc, ◌+◌, ◌-◌, ◌/◌, ◌%◌, ◌^◌, ◌≤◌, ◌<◌, ◌≡◌, refl, ◌∙◌, sym, ap, ◌==◌, if◌then◌else◌,
  true, false, none, some, List, [], ◌∷◌, ◌>>=◌, ok, set, get_elem?, All, arith, Bool-cases, inl,
  inr, ==_of_eq, eq_of_==,
}
use mathlib.Core.Path.{ap₂}
use ra_os.Memory.Heap.{HeapState, malloc, free}
use ra_os.Memory.Paging.{Ram, get, map_to, align_address, page_size, add32}
use ra_os.Memory.Paging.Entries.{IsDirectory}
use ra_os.Memory.Paging.Translate.{align_bounds}
use ra_os.Memory.Paging.Range.{in_pages, Mapped, map_to-Mapped}
use ra_os.Process.{all_access}
use ra_os.Process.Memory.{
  Allocation, Machine, find_free_allocation_index, process_is_process_pointer,
  process_allocation_unjoin, process_get_allocation_by_addr, process_malloc, process_free,
}
use ra_os.Process.Memory.Terminate.{IsClean, unused}

free_index :
    (allocations : List Allocation) (j k : ℕ)
    → All IsClean allocations
    → get_elem? allocations k ≡ some unused
    → (n : ℕ) × (find_free_allocation_index allocations j ≡ ok (j + n))
      × (get_elem? allocations n ≡ some unused)
unfolding find_free_allocation_index
free_index [] j k clean h = absurd (ground (arith, h))
free_index (a ∷ allocations) j zero clean h =
    let null : (a.ptr == 0) ≡ true = ground (arith, h) in (0, rw null (ap ok (omega arith)), h)
free_index (a ∷ allocations) j (suc k) clean h = elim (Bool-cases (a.ptr == 0)) [
  | inl null ↦
      let p : a.ptr ≡ 0 = eq_of_== a.ptr 0 null in
      (
        0,
        rw null (ap ok (omega arith)),
        ap₂ (λ x y. some (record { ptr = x; size = y })) p (clean.0 p),
      )
  | inr used ↦
      let (n, found, entry) = free_index allocations (j + 1) k clean.1 h in
      (suc n, rw used (found ∙ ap ok (omega arith)), entry)
]

unjoin-other :
    (allocations : List Allocation) (ptr : ℕ)
    → process_is_process_pointer allocations ptr ≡ false
    → process_allocation_unjoin allocations ptr ≡ allocations
unfolding process_allocation_unjoin process_is_process_pointer
unjoin-other [] ptr h = refl
unjoin-other (a ∷ allocations) ptr h =
    let here : (a.ptr == ptr) ≡ false = ground (arith, h) in
    rw (here, unjoin-other allocations ptr (ground (arith, h))) refl

unjoin-set :
    (allocations : List Allocation) (n ptr size : ℕ)
    → process_is_process_pointer allocations ptr ≡ false
    → get_elem? allocations n ≡ some unused
    → process_allocation_unjoin (set allocations n (record { ptr = ptr; size = size })) ptr
      ≡ allocations
unfolding process_allocation_unjoin process_is_process_pointer
unjoin-set [] n ptr size h at = refl
unjoin-set (a ∷ allocations) zero ptr size h at =
    let same : unused ≡ a = ap (λ o. elim o [ none ↦ unused | some b ↦ b ]) (sym at) in
    rw (==_of_eq ptr ptr refl, unjoin-other allocations ptr (ground (arith, h)))
      (ap (λ b. b ∷ allocations) same)
unjoin-set (a ∷ allocations) (suc n) ptr size h at =
    let here : (a.ptr == ptr) ≡ false = ground (arith, h) in
    rw (here, unjoin-set allocations n ptr size (ground (arith, h)) at) refl

get_allocation-set :
    (allocations : List Allocation) (n ptr size : ℕ)
    → process_is_process_pointer allocations ptr ≡ false
    → get_elem? allocations n ≡ some unused
    → process_get_allocation_by_addr (set allocations n (record { ptr = ptr; size = size })) ptr
      ≡ some (record { ptr = ptr; size = size })
unfolding process_get_allocation_by_addr process_is_process_pointer
get_allocation-set [] n ptr size h at = absurd (ground (arith, at))
get_allocation-set (a ∷ allocations) zero ptr size h at = rw (==_of_eq ptr ptr refl) refl
get_allocation-set (a ∷ allocations) (suc n) ptr size h at =
    let here : (a.ptr == ptr) ≡ false = ground (arith, h) in
    rw here (get_allocation-set allocations n ptr size (ground (arith, h)) at)

pub malloc_run :
    (machine : Machine) (size ptr n : ℕ) (heap : HeapState) (ram : Ram)
    → malloc machine.heap size ≡ some (some ptr, heap)
    → find_free_allocation_index machine.allocations 0 ≡ ok n
    → map_to machine.ram machine.directory ptr ptr (align_address (add32 ptr size)) all_access
      ≡ (ok tt, ram)
    → process_malloc machine size
      ≡ some (
        some ptr,
        record machine {
          heap = heap;
          ram = ram;
          allocations = set machine.allocations n (record { ptr = ptr; size = size });
        },
      )
unfolding process_malloc
malloc_run machine size ptr n heap ram got found mapped =
    rw (process_malloc, got, ◌>>=◌, found, mapped, mapped) refl

free_run :
    (machine : Machine) (size ptr : ℕ) (heap : HeapState) (ram : Ram)
    → process_get_allocation_by_addr machine.allocations ptr
      ≡ some (record { ptr = ptr; size = size })
    → map_to machine.ram machine.directory ptr ptr (align_address (add32 ptr size)) 0x00
      ≡ (ok tt, ram)
    → free machine.heap ptr ≡ some heap
    → process_free machine ptr
      ≡ some (record machine {
        heap = heap;
        ram = ram;
        allocations = process_allocation_unjoin machine.allocations ptr;
      })
unfolding process_free
free_run machine size ptr heap ram found mapped freed =
    rw (process_free, found, mapped, freed, ◌>>=◌, mapped) refl

-- Two runs over the same pages: the second one decides.
second_decides :
    (ram ram1 ram2 : Ram) (directory ptr count : ℕ)
    → Mapped ram ram1 directory ptr ptr count all_access
    → Mapped ram1 ram2 directory ptr ptr count 0x00
    → (other : ℕ) → other % page_size ≡ 0
    → other < 2 ^ 32
    → get ram2 directory other
      ≡ (if in_pages ptr count other then other else get ram directory other)
second_decides ram ram1 ram2 directory ptr count one two other aligned below =
    ground (arith, one.pages other aligned below, two.pages other aligned below)

-- Memory that a process asks for and frees again: when the heap gives a page-aligned address `ptr` that
-- no entry of the process has, with its end below the last page of the address space, takes it back,
-- and an entry is not in use, both calls succeed. The entries are as before, the heap is the one that the
-- release gives, and of the pages only those of the memory change, which are mapped to themselves without
-- any flag.
pub free_after_malloc :
    (machine : Machine) (size ptr k : ℕ) (heap1 heap2 : HeapState)
    → IsDirectory machine.ram machine.directory
    → malloc machine.heap size ≡ some (some ptr, heap1)
    → free heap1 ptr ≡ some heap2
    → ptr % page_size ≡ 0
    → ptr + size ≤ 2 ^ 32 - page_size
    → All IsClean machine.allocations
    → get_elem? machine.allocations k ≡ some unused
    → process_is_process_pointer machine.allocations ptr ≡ false
    → (machine1 : Machine) × (machine2 : Machine) × (process_malloc machine size
        ≡ some (some ptr, machine1))
      × (process_free machine1 ptr ≡ some machine2)
      × (machine2.allocations ≡ machine.allocations)
      × (machine2.heap ≡ heap2)
      × ((other : ℕ)
          → other % page_size ≡ 0
          → other < 2 ^ 32
          → get machine2.ram machine.directory other ≡ (
              if in_pages ptr ((align_address (ptr + size) - ptr) / page_size) other
              then other
              else get machine.ram machine.directory other))
free_after_malloc machine size ptr k heap1 heap2 valid got freed aligned below clean entry new =
    let whole : add32 ptr size ≡ ptr + size = omega arith in
    let (end_aligned, end_above, end_below, r1, r2, r3) = align_bounds (ptr + size) below in
    let last = align_address (ptr + size) in
    let (n, found, at) = free_index machine.allocations 0 k clean entry in
    let (ram1, done1, one) =
      map_to-Mapped machine.ram machine.directory ptr ptr last all_access valid aligned aligned
        end_aligned (omega (arith, end_above)) (omega (arith, end_below)) (omega (arith, end_below))
        (omega arith) in
    let (ram2, done2, two) =
      map_to-Mapped ram1 machine.directory ptr ptr last 0x00 one.valid aligned aligned end_aligned
        (omega (arith, end_above)) (omega (arith, end_below)) (omega (arith, end_below))
        (omega arith) in
    let machine1 : Machine = record machine {
      heap = heap1;
      ram = ram1;
      allocations = set machine.allocations n (record { ptr = ptr; size = size });
    } in
    (
      machine1,
      record machine1 {
        heap = heap2;
        ram = ram2;
        allocations = process_allocation_unjoin machine1.allocations ptr;
      },
      malloc_run machine size ptr n heap1 ram1 got (found ∙ ap ok (omega arith)) (
          ap (λ e. map_to machine.ram machine.directory ptr ptr (align_address e) all_access) whole
          ∙ done1),
      free_run machine1 size ptr heap2 ram2
          (get_allocation-set machine.allocations n ptr size new at)
          (ap (λ e. map_to ram1 machine.directory ptr ptr (align_address e) 0x00) whole ∙ done2)
          freed,
      unjoin-set machine.allocations n ptr size new at,
      refl,
      second_decides machine.ram ram1 ram2 machine.directory ptr ((last - ptr) / page_size) one two,
    )
