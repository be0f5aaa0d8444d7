-- ===== src/Process/Arguments/Tests.antt =====
-- A command with one argument, and a process with room for two allocations.
use ra_os.Base.{
  ℕ, ◌+◌, ◌*◌, ◌/◌, ◌≡◌, ◌==◌, refl, if◌then◌else◌, none, some, List, [], ◌∷◌, arith, ok, get_elem?,
}
use ra_os.Memory.Heap.{HeapState, is_free, malloc}
use ra_os.Memory.Paging.{Ram, page_size, add32, map_to, map_range, align_address}
use ra_os.Process.{all_access}
use ra_os.Process.Memory.{Machine, process_malloc, find_free_allocation_index}
use ra_os.Process.Memory.Terminate.{unused}
use ra_os.Process.Memory.Undo.{malloc_run}
use ra_os.Process.Arguments.{Commands, Injection, argument_size, process_inject_arguments}
use ra_os.Process.Arguments.Count.{finish, link}
use ra_os.Process.Arguments.Inject.{padded, done, grant, process_inject_arguments_lem}

-- The argument "ls" at address 100.
abbrev test_commands : Commands
test_commands a =
    if a == 100 then some (record { argument = b'l' ∷ b's' ∷ 0x00 ∷ []; next = none }) else none

abbrev test_ram : Ram
test_ram address = (address / 4 + 1) * page_size

abbrev heap_with : List ℕ → HeapState
heap_with table = record { table = table; saddr = 0x01000000 }

abbrev test_machine : Machine
test_machine = record {
  heap = heap_with (0x00 ∷ 0x00 ∷ []);
  ram = test_ram;
  directory = 0;
  allocations = unused ∷ unused ∷ [];
}

-- The page tables after `size` bytes at `ptr` are mapped.
abbrev mapped_ram : Ram → ℕ → ℕ → Ram
mapped_ram ram ptr size = (map_to ram 0 ptr ptr (align_address (add32 ptr size)) all_access).1

abbrev machine1 : Machine
machine1 = record {
  heap = heap_with (0x41 ∷ 0x00 ∷ []);
  ram = mapped_ram test_ram 0x01000000 4;
  directory = 0;
  allocations = record { ptr = 0x01000000; size = 4 } ∷ unused ∷ [];
}

abbrev machine2 : Machine
machine2 = record {
  heap = heap_with (0x41 ∷ 0x41 ∷ []);
  ram = mapped_ram machine1.ram 0x01001000 512;
  directory = 0;
  allocations =
      record { ptr = 0x01000000; size = 4 } ∷ record { ptr = 0x01001000; size = 512 } ∷ [];
}

array_given : process_malloc test_machine 4 ≡ some (some 0x01000000, machine1)
unfolding malloc is_free find_free_allocation_index map_to map_range align_address
array_given = malloc_run test_machine 4 0x01000000 0 machine1.heap machine1.ram refl refl refl

string_given : process_malloc machine1 argument_size ≡ some (some 0x01001000, machine2)
unfolding malloc is_free find_free_allocation_index map_to map_range align_address
string_given =
    malloc_run machine1 argument_size 0x01001000 1 machine2.heap machine2.ram refl refl refl

process_inject_arguments_lem_example :
    (injected : Injection) × (process_inject_arguments 1 test_commands test_machine
        (λ a. [])
        (some 100)
        (record { argc = 0; argv = 0 })
      ≡ some (ok tt, injected, record { argc = 1; argv = 0x01000000 }))
    × (injected.machine ≡ machine2)
    × (injected.argv ≡ 0x01001000 ∷ [])
    × ((k p : ℕ) (s : List ℕ)
        → get_elem? (0x01001000 ∷ []) k ≡ some p
        → get_elem? ((b'l' ∷ b's' ∷ []) ∷ []) k ≡ some s
        → injected.strings p ≡ padded s)
process_inject_arguments_lem_example =
    process_inject_arguments_lem 1 test_commands test_machine machine1 machine2 (λ a. []) (some 100)
      (record { argc = 0; argv = 0 }) ((b'l' ∷ b's' ∷ []) ∷ []) 0x01000000 (0x01001000 ∷ [])
      (link 100 none (b'l' ∷ b's' ∷ []) [] [] refl (omega arith) (omega arith) finish) (omega arith)
      (omega arith) array_given
      (grant machine1 machine2 machine2 0x01001000 [] string_given (done machine2)) refl (refl, tt)
