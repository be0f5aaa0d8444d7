-- ===== src/Process/Loading/Slot.antt =====
-- What a process is after its program was loaded.
use ra_os.Base.{
  ℕ, ◌+◌, ◌%◌, ◌^◌, ◌-◌, ◌≤◌, ◌<◌, ◌≡◌, refl, ◌∙◌, true, false, none, some, List, [], ◌∷◌, ◌++◌,
  ◌>>=◌, ok, done, get_elem?, length, set, arith, ==_of_eq, if◌then◌else◌, ◌==◌,
}
use ra_os.Base.Int.{pos}
use ra_os.Memory.Heap.{HeapState, malloc}
use ra_os.Memory.Kheap.{kzalloc, clear}
use ra_os.Memory.Paging.{Ram, page_size, new_4gb, get_physical_address}
use ra_os.Memory.Paging.Identity.{ArePages, new_4gb-identity}
use ra_os.Fs.File.{FileSystem}
use ra_os.Elf.Load.{Kernel}
use ra_os.Task.{Tasks, task_new}
use ra_os.Task.Queue.{IsQueue}
use ra_os.Task.Queue.Change.{task_new-IsQueue}
use ra_os.Task.Queue.New.{TaskAt, task_new-TaskAt}
use ra_os.Task.Links.{has}
use ra_os.Process.{max_processes, process_get}
use ra_os.Process.Slots.{Loaded, free_slot_found, set-Loaded}
use ra_os.Process.Data.{process_load_data}
use ra_os.Process.Program.{ProgramData, binary_data, process_map_memory}
use ra_os.Process.Program.Whole.{process_map_memory-binary_data}
use ra_os.Process.Loading.{
  Process, TaskMemory, System, process_size, stack_size, set_filename, process_start,
  process_load_for_slot, process_load,
}

kzalloc_run :
    (heap heap' : HeapState) (mem : ℕ → ℕ) (size p : ℕ)
    → malloc heap size ≡ some (some p, heap')
    → kzalloc heap mem size ≡ some (some p, heap', clear size mem p)
unfolding kzalloc
kzalloc_run heap heap' mem size p got = rw (kzalloc, got, ◌>>=◌) refl

-- The state after process `p` at an address was added.
abbrev pub loaded_system :
    {P : Type 0} → System P → TaskMemory → ℕ → Process → Tasks → Ram → System P
loaded_system system new process p tasks ram = record system {
  kernel = record system.kernel { heap = new.heap };
  ram = ram;
  tasks = tasks;
  processes = record system.processes {
    processes = set system.processes.processes p.id (some process);
  };
  structs = λ a. if a == process then some p else system.structs a;
}

module _ (fs : FileSystem) (task_memory : HeapState → TaskMemory) (system : System fs.Private) where
  start_run :
      (filename name : List ℕ) (slot process ptr size stack : ℕ) (tasks : Tasks) (ram' : Ram)
      → let new = task_memory system.kernel.heap in
        set_filename filename ≡ some name
        → task_new system.tasks new.task new.directory process none ≡ some tasks
        → process_map_memory system.kernel.mem
            (new_4gb system.ram new.directory new.table 0b101)
            new.directory
            (binary_data ptr size)
            stack
          ≡ (ok tt, ram')
        → process_start fs task_memory system filename slot process (binary_data ptr size) stack
          ≡ some (
            done process,
            loaded_system system new process
                (record {
                  id = slot;
                  filename = name;
                  task = new.task;
                  program = binary_data ptr size;
                  stack = stack;
                })
                tasks
                ram',
          )
  unfolding process_start
  start_run filename name slot process ptr size stack tasks ram' named queued mapped =
      rw (process_start, named, ◌>>=◌, queued, ◌>>=◌, mapped, mapped) refl

  slot_run :
      (filename : List ℕ) (slot process stack : ℕ) (program : ProgramData) (heap1 heap2 : HeapState)
      (loaded : Kernel fs.Private)
      → process_get system.processes (pos slot) ≡ none
      → malloc system.kernel.heap process_size ≡ some (some process, heap1)
      → process_load_data fs
          (record system.kernel {
            heap = heap1;
            mem = clear process_size system.kernel.mem process;
          })
          filename
        ≡ some (done program, loaded)
      → malloc loaded.heap stack_size ≡ some (some stack, heap2)
      → process_load_for_slot fs task_memory system filename slot
        ≡ process_start fs task_memory
            (record system {
              kernel = record loaded { heap = heap2; mem = clear stack_size loaded.mem stack };
            })
            filename
            slot
            process
            program
            stack
  unfolding process_load_for_slot
  slot_run filename slot process stack program heap1 heap2 loaded empty got read room =
      rw
        (
          process_load_for_slot,
          empty,
          kzalloc_run system.kernel.heap heap1 system.kernel.mem process_size process got,
          ◌>>=◌,
          read,
          ◌>>=◌,
          kzalloc_run loaded.heap heap2 loaded.mem stack_size stack room,
          ◌>>=◌,
        )
        refl

-- `process_load` of a binary into an array of 12 slots with a free one succeeds when `process_load_data`
-- reads the binary, the heap gives memory for the process and its stack, copying the name stays inside of
-- it, and the list of tasks is whole and has the new task nowhere. The process is found in the slot of its
-- number, which was free, and no other slot changes. Its structure has the copied name, the program, the
-- stack and its task, which is behind all others in the list and belongs to it. In the directory of the
-- task the program is found from 0x400000 and the stack from 0x3fb000 on. The program and the stack are at
-- pages, they and the place of the program end below the last page of the address space, and the page
-- tables are pages apart.
pub process_load-Loaded :
    (fs : FileSystem) (task_memory : HeapState → TaskMemory) (system : System fs.Private)
    (filename name : List ℕ) (tasks : List ℕ) (k process ptr size stack : ℕ)
    (heap1 heap2 : HeapState) (loaded : Kernel fs.Private)
    → length system.processes.processes ≡ max_processes
    → get_elem? system.processes.processes k ≡ some none
    → malloc system.kernel.heap process_size ≡ some (some process, heap1)
    → process_load_data fs
        (record system.kernel { heap = heap1; mem = clear process_size system.kernel.mem process })
        filename
      ≡ some (done (binary_data ptr size), loaded)
    → malloc loaded.heap stack_size ≡ some (some stack, heap2)
    → set_filename filename ≡ some name
    → IsQueue system.tasks tasks
    → has (task_memory heap2).task tasks ≡ false
    → ArePages (task_memory heap2).directory (task_memory heap2).table
    → ptr % page_size ≡ 0
    → ptr + size ≤ 2 ^ 32 - page_size
    → 0x400000 + size ≤ 2 ^ 32 - page_size
    → stack % page_size ≡ 0
    → stack + 16384 ≤ 2 ^ 32 - page_size
    → let new = task_memory heap2 in
      (n : ℕ) × (system' : System fs.Private) × (process_load fs task_memory system filename
        ≡ some (done process, system'))
      × Loaded system.processes n process system'.processes
      × (system'.structs process
          ≡ some (record {
            id = n;
            filename = name;
            task = new.task;
            program = binary_data ptr size;
            stack = stack;
          }))
      × IsQueue system'.tasks (tasks ++ (new.task ∷ []))
      × TaskAt system'.tasks.store new.task new.directory process
      × ((i : ℕ)
          → i < size
          → get_physical_address system'.ram new.directory (0x400000 + i) ≡ ptr + i)
      × ((i : ℕ)
          → i < 16384
          → get_physical_address system'.ram new.directory (0x3fb000 + i) ≡ stack + i)
unfolding process_load
process_load-Loaded fs task_memory system filename name tasks k process ptr size stack heap1 heap2
      loaded slots free got read room named queue fresh pages aligned below high stack_aligned
      stack_below =
    let (n, found, empty, inside) = free_slot_found system.processes k slots free in
    let new = task_memory heap2 in
    let ready : System fs.Private = record system {
      kernel = record loaded { heap = heap2; mem = clear stack_size loaded.mem stack };
    } in
    let (tasks', queued, queue', current) =
      task_new-IsQueue system.tasks new.task new.directory process none tasks queue fresh in
    let (valid, entry, same) =
      new_4gb-identity system.ram new.directory new.table 0b101 0 pages (omega arith)
        (omega arith) in
    let (ram', mapped, program, own) =
      process_map_memory-binary_data (clear stack_size loaded.mem stack)
        (new_4gb system.ram new.directory new.table 0b101) new.directory ptr size stack valid
        aligned below high stack_aligned stack_below in
    let here : (process == process) ≡ true = ==_of_eq process process refl in
    (
      n,
      loaded_system ready new process
          (record {
            id = n;
            filename = name;
            task = new.task;
            program = binary_data ptr size;
            stack = stack;
          })
          tasks' ram',
      rw (process_load, found)
          (slot_run fs task_memory system filename n process stack (binary_data ptr size) heap1
              heap2 loaded empty got read room
            ∙ start_run fs task_memory ready filename name n process ptr size stack tasks' ram'
                named queued mapped),
      set-Loaded system.processes n process slots inside empty,
      rw here refl,
      queue',
      task_new-TaskAt system.tasks tasks' new.task new.directory process none queued,
      program,
      own,
    )
