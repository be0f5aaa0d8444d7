-- ===== src/Process/Memory.antt =====
-- src/task/process.c: the memory that a process asks for. What the heap hands out is apart from the
-- page tables, so that clearing it does not change them.
pub mod Terminate
pub mod Undo
pub mod Restored
use ra_os.Base.{
  ℕ, zero, suc, ◌+◌, ◌-◌, ◌*◌, ◌%◌, ◌^◌, ◌==◌, if◌then◌else◌, leb, Bool, true, false, not, ◌||◌,
  Option, none, some, List, [], ◌∷◌, ◌>>=◌, Result, ok, err, Error, eio, eistkn, enomem, set,
  get_elem?, bit_and, bit_or,
}
use ra_os.Base.Int.{ℤ, pos, negsuc}
use ra_os.Memory.Heap.{HeapState, malloc, free}
use ra_os.Memory.Paging.{Ram, add32, map_to, align_address, align_to_lower_page}
use ra_os.Elf.{Bytes, ProgramHeader, ElfFile, elf_header, pheader, read_program_header}
use ra_os.Process.{all_access}

-- RAOS_MAX_PROGRAM_ALLOCATIONS
abbrev pub max_program_allocations : ℕ
max_program_allocations = 1024

-- `struct process_allocation`
pub record Allocation : Type 0 where
  pub ptr : ℕ
  pub size : ℕ

-- A process at work: its array `allocations` and its page directory, the heap and the page tables.
pub record Machine : Type 0 where
  pub heap : HeapState
  pub ram : Ram
  pub directory : ℕ
  pub allocations : List Allocation

-- The loop of `process_find_free_allocation_index`, at index `i`.
unfoldable pub find_free_allocation_index : List Allocation → ℕ → Result ℕ
find_free_allocation_index [] i = err enomem
find_free_allocation_index (a ∷ allocations) i =
    let rest = find_free_allocation_index allocations (i + 1) in if a.ptr == 0 then ok i else rest

unfoldable pub process_is_process_pointer : List Allocation → ℕ → Bool
process_is_process_pointer [] ptr = false
process_is_process_pointer (a ∷ allocations) ptr =
    a.ptr == ptr || process_is_process_pointer allocations ptr

unfoldable pub process_allocation_unjoin : List Allocation → ℕ → List Allocation
process_allocation_unjoin [] ptr = []
process_allocation_unjoin (a ∷ allocations) ptr =
    (if a.ptr == ptr then record { ptr = 0x00; size = 0 } else a)
    ∷ process_allocation_unjoin allocations ptr

unfoldable pub process_get_allocation_by_addr : List Allocation → ℕ → Option Allocation
process_get_allocation_by_addr [] addr = none
process_get_allocation_by_addr (a ∷ allocations) addr =
    let rest = process_get_allocation_by_addr allocations addr in
    if a.ptr == addr then some a else rest

-- What `process_malloc` does with memory that it got and cannot use.
abbrev pub give_back : Machine → ℕ → Option (Option ℕ × Machine)
give_back machine ptr =
    free machine.heap ptr >>= λ heap. some (none, record machine { heap = heap })

unfoldable pub process_malloc : Machine → ℕ → Option (Option ℕ × Machine)
unfolding find_free_allocation_index map_to align_address free
process_malloc machine size = do
  (got, heap) ← malloc machine.heap size
  let machine' = record machine { heap = heap }
  elim got [
    | none ↦ some (none, machine')
    | some ptr ↦ elim (find_free_allocation_index machine.allocations 0) [
      | err e ↦ give_back machine' ptr
      | ok index ↦ do
        let (res, ram) =
            map_to machine.ram machine.directory ptr ptr (align_address (add32 ptr size)) all_access
        elim res [
          | err e ↦ give_back (record machine' { ram = ram }) ptr
          | ok _ ↦ some (
            some ptr,
            record machine' {
              ram = ram;
              allocations = set machine.allocations index (record { ptr = ptr; size = size });
            },
          )
        ]
    ]
  ]

unfoldable pub process_free : Machine → ℕ → Option Machine
unfolding process_get_allocation_by_addr process_allocation_unjoin map_to align_address free
process_free machine ptr = elim (process_get_allocation_by_addr machine.allocations ptr) [
  | none ↦ some machine
  | some allocation ↦
      let (res, ram) =
        map_to machine.ram machine.directory allocation.ptr allocation.ptr
          (align_address (add32 allocation.ptr allocation.size)) 0x00 in
      elim res [
        | err e ↦ some (record machine { ram = ram })
        | ok _ ↦ do
          heap ← free machine.heap ptr
          some (record machine {
            heap = heap;
            ram = ram;
            allocations = process_allocation_unjoin machine.allocations ptr;
          })
      ]
]

-- The loop of `process_terminate_allocations`: `rounds` entries from index `i` on.
unfoldable pub terminate_loop : ℕ → Machine → ℕ → Option Machine
unfolding process_free
terminate_loop zero machine i = some machine
terminate_loop (suc rounds) machine i = do
  allocation ← get_elem? machine.allocations i
  machine' ← process_free machine allocation.ptr
  terminate_loop rounds machine' (i + 1)

unfoldable pub process_terminate_allocations : Machine → Option Machine
unfolding terminate_loop
process_terminate_allocations machine = terminate_loop max_program_allocations machine 0
