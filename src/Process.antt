-- ===== src/Process.antt =====
-- src/task/process.c: the array of processes; Memory has the memory that a process is given, Data the
-- loading of its program, Program the mapping of that, Arguments its arguments, Ending its end, Loading
-- all of the loading. A pointer is an address, `none` for NULL where the code tests for it. `none` as a
-- result is an access outside of an object, or the halt after a panic.
pub mod Slots
pub mod Memory
pub mod Program
pub mod Arguments
pub mod Data
pub mod Ending
pub mod Loading
mod Tests
use ra_os.Base.{
  ℕ, zero, suc, ◌+◌, ◌-◌, ◌*◌, ◌%◌, ◌^◌, ◌==◌, if◌then◌else◌, leb, Bool, true, false, not, ◌||◌,
  Option, none, some, List, [], ◌∷◌, ◌>>=◌, Result, ok, err, Error, eio, eistkn, enomem, set,
  get_elem?, bit_and, bit_or,
}
use ra_os.Base.Int.{ℤ, pos, negsuc}
use ra_os.Memory.Heap.{HeapState, malloc, free}
use ra_os.Memory.Paging.{Ram, add32, map_to, align_address, align_to_lower_page}
use ra_os.Elf.{Bytes, ProgramHeader, ElfFile, elf_header, pheader, read_program_header}

-- RAOS_MAX_PROCESSES
abbrev pub max_processes : ℕ
max_processes = 12

-- The array `processes` and `current_process`.
pub record Processes : Type 0 where
  pub processes : List (Option ℕ)
  pub current_process : Option ℕ

abbrev pub join : Option (Option ℕ) → Option ℕ
join none = none
join (some p) = p

unfoldable pub process_get : Processes → ℤ → Option ℕ
process_get table (negsuc n) = none
process_get table (pos process_id) =
    if leb max_processes process_id then none else join (get_elem? table.processes process_id)

-- The loop of `process_get_free_slot`, at index `i`.
unfoldable pub free_slot_loop : List (Option ℕ) → ℕ → Result ℕ
free_slot_loop [] i = err eistkn
free_slot_loop (none ∷ processes) i = ok i
free_slot_loop (some p ∷ processes) i = free_slot_loop processes (i + 1)

unfoldable pub process_get_free_slot : Processes → Result ℕ
unfolding free_slot_loop
process_get_free_slot table = free_slot_loop table.processes 0

unfoldable pub process_switch : Processes → Option ℕ → Processes
process_switch table process = record table { current_process = process }

-- The first process of the array.
unfoldable pub first_process : List (Option ℕ) → Option ℕ
first_process [] = none
first_process (none ∷ processes) = first_process processes
first_process (some p ∷ processes) = some p

unfoldable pub process_switch_to_any : Processes → Option Processes
unfolding first_process process_switch
process_switch_to_any table =
    first_process table.processes >>= λ p. some (process_switch table (some p))

abbrev pub is_current : Option ℕ → ℕ → Bool
is_current none process = false
is_current (some p) process = p == process

-- The process at an address, whose `id` is `id`.
unfoldable pub process_unlink : Processes → ℕ → ℕ → Option Processes
unfolding process_switch_to_any
process_unlink table process id =
    let unlinked = record table { processes = set table.processes id none } in
    elim (is_current table.current_process process) [
      | true ↦ process_switch_to_any unlinked
      | false ↦ some unlinked
    ]

-- PAGING_IS_WRITABLE | PAGING_IS_PRESENT | PAGING_ACCESS_FROM_ALL
abbrev pub all_access : ℕ
all_access = 0b00000111
