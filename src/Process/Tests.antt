-- ===== src/Process/Tests.antt =====
-- The theorems on processes at small states.
use ra_os.Base.{
  ◌-◌, ◌%◌, ◌<◌, ◌^◌, if◌then◌else◌, ℕ, ◌+◌, ◌*◌, ◌/◌, ◌≡◌, refl, none, some, [], ◌∷◌, arith,
  replicate,
}
use ra_os.Memory.Paging.{Ram, page_size, get, align_address}
use ra_os.Memory.Paging.Entries.{IsDirectory}
use ra_os.Memory.Heap.{HeapState, entry_free, is_free, malloc}
use ra_os.Task.Life.{no_tasks}
use ra_os.Process.Ending.{Running, process_terminate}
use ra_os.Process.Ending.Unused.{process_terminate-null}
use ra_os.Process.{Processes}
use ra_os.Process.Memory.{Machine, process_malloc, process_free, process_is_process_pointer}
use ra_os.Memory.Paging.Range.{in_pages}
use ra_os.Process.Memory.Restored.{blocks_for, process_free-process_malloc}
use ra_os.Memory.Heap.Search.{Fits}
use ra_os.Memory.Heap.Chunks.{free_block}
use ra_os.Process.Program.{binary_data}
use ra_os.Process.Memory.Terminate.{unused}

-- Processes at 100 and 200, the first of which is the current one.
abbrev test_processes : Processes
test_processes = record {
  processes = some 100 ∷ some 200 ∷ replicate 10 none;
  current_process = some 100;
}

-- A process without allocations.
abbrev test_machine : Machine
test_machine = record {
  heap = record { table = replicate 4 entry_free; saddr = 0x01000000 };
  ram = λ a. 0;
  directory = 0;
  allocations = unused ∷ [];
}

abbrev test_ram : Ram
test_ram address = (address / 4 + 1) * page_size

test_ram-IsDirectory : IsDirectory test_ram 0
test_ram-IsDirectory = record {
  aligned = omega arith;
  words = λ d h. omega arith;
  apart = λ d h. omega arith;
  distinct = λ d e h k n. omega arith;
}

-- A heap of one free block, which is given and taken back.
abbrev mapped_machine : Machine
mapped_machine = record {
  heap = record { table = 0x00 ∷ []; saddr = 0x01000000 };
  ram = test_ram;
  directory = 0;
  allocations = unused ∷ [];
}

abbrev taken_heap : HeapState
taken_heap = record { table = 0x41 ∷ []; saddr = 0x01000000 }

one_block : malloc mapped_machine.heap 16 ≡ some (some 0x01000000, taken_heap)
unfolding malloc is_free
one_block = refl

one_free : Fits mapped_machine.heap.table 0 (blocks_for 16)
unfolding is_free
one_free = refl

process_free-process_malloc_example :
    (machine1 : Machine) × (machine2 : Machine) × (process_malloc mapped_machine 16
      ≡ some (some 0x01000000, machine1))
    × (process_free machine1 0x01000000 ≡ some machine2)
    × (machine2.allocations ≡ unused ∷ [])
    × (machine2.heap ≡ mapped_machine.heap)
    × ((other : ℕ)
        → other % page_size ≡ 0
        → other < 2 ^ 32
        → get machine2.ram 0 other ≡ (
            if in_pages 0x01000000
              ((align_address (0x01000000 + 16) - 0x01000000) / page_size)
              other
            then other
            else get test_ram 0 other))
unfolding process_is_process_pointer
process_free-process_malloc_example =
    process_free-process_malloc mapped_machine (free_block ∷ []) 16 0 0x01000000 0 taken_heap
      test_ram-IsDirectory refl (omega arith) (omega arith) (omega arith) one_free one_block refl
      (omega arith) ((λ e. refl), tt) refl refl

abbrev test_running : Running
test_running = record {
  process = 100;
  id = 0;
  machine = test_machine;
  program = some (binary_data 0x01004000 300);
  elf_file = 0;
  stack = 0x01008000;
  task = 0x0100c000;
  chunk = 0x01010000;
  tasks = no_tasks;
  processes = test_processes;
}

process_terminate-null_example : process_terminate test_running ≡ none
process_terminate-null_example =
    process_terminate-null test_running 0 (omega arith) (omega arith) ((λ e. refl), tt)
      (omega arith) refl
