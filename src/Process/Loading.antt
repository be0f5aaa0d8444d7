-- ===== src/Process/Loading.antt =====
-- src/task/process.c: a program is loaded into a slot of the array of processes, and gets a task.
pub mod Slot
mod Tests
use ra_os.Base.{
  ℕ, ◌==◌, if◌then◌else◌, Option, none, some, List, [], ◌>>=◌, Result, ok, err, Outcome, done,
  failed, fails, eistkn, enomem, set, replicate,
}
use ra_os.Base.Int.{pos}
use ra_os.Strings.{strncpy}
use ra_os.Memory.Heap.{HeapState}
use ra_os.Memory.Kheap.{kzalloc}
use ra_os.Memory.Paging.{Ram, add32, new_4gb}
use ra_os.Fs.File.{FileSystem}
use ra_os.Elf.{Bytes, ElfFile, word}
use ra_os.Elf.Load.{Kernel}
use ra_os.Task.{Tasks, task_new, task_free}
use ra_os.Process.{Processes, process_get, process_get_free_slot}
use ra_os.Process.Data.{process_load_data}
use ra_os.Process.Ending.{free_task_memory}
use ra_os.Process.Program.{ProgramData, elf_data, binary_data, process_map_memory}

-- `struct process`, as loading fills it.
pub record Process : Type 0 where
  pub id : ℕ
  pub filename : List ℕ
  pub task : ℕ
  pub program : ProgramData
  pub stack : ℕ

-- `sizeof(struct process)`, RAOS_USER_PROGRAM_STACK_SIZE and the size of `filename`, RAOS_MAX_PATH
abbrev pub process_size : ℕ
process_size = 9384

abbrev pub stack_size : ℕ
stack_size = 16384

abbrev pub filename_size : ℕ
filename_size = 128

-- The memory that `task_new` gets from the heap for the task, for its directory with the page tables, by
-- their number, and for the chunk of these; and the heap afterwards. These allocations succeed.
pub record TaskMemory : Type 0 where
  pub task : ℕ
  pub directory : ℕ
  pub table : ℕ → ℕ
  pub chunk : ℕ
  pub heap : HeapState

-- What loading works on. The page tables are apart from the bytes of the memory; `structs` are the
-- processes by address.
pub record System (P : Type 0) : Type 0 where
  pub kernel : Kernel P
  pub ram : Ram
  pub tasks : Tasks
  pub processes : Processes
  pub structs : ℕ → Option Process

-- The word `e_entry` of an ELF file, for `task_init`.
abbrev pub e_entry : Bytes → ProgramData → Option ℕ
e_entry mem (elf_data file) = some (word mem (add32 file.elf_memory 24))
e_entry mem (binary_data ptr size) = none

-- The file name is copied into the cleared field of a process.
unfoldable pub set_filename : List ℕ → Option (List ℕ)
unfolding strncpy
set_filename filename = strncpy (replicate filename_size 0x00) filename filename_size

module _ (fs : FileSystem) (task_memory : HeapState → TaskMemory) where
  open fs use {Private}

  -- Once the program and its stack are there. PAGING_IS_PRESENT | PAGING_ACCESS_FROM_ALL is 5.
  unfoldable pub process_start :
      System Private → List ℕ → ℕ → ℕ → ProgramData → ℕ → Option (Outcome ℕ × System Private)
  process_start system filename process_slot process program stack = do
    name ← set_filename filename
    let new = task_memory system.kernel.heap
    let mem = system.kernel.mem
    let kernel = record system.kernel { heap = new.heap }
    let paged = new_4gb system.ram new.directory new.table 0b101
    tasks ← task_new system.tasks new.task new.directory process (e_entry mem program)
    let (res, ram) = process_map_memory mem paged new.directory program stack
    elim res [
      | err e ↦ do
        heap ←
            free_task_memory new.heap
              (record { heap = new.heap; ram = ram; directory = new.directory; allocations = [] })
              new.chunk new.task
        left ← task_free tasks new.task
        some (
          fails e,
          record system { kernel = record kernel { heap = heap }; ram = ram; tasks = left },
        )
      | ok _ ↦ some (
        done process,
        record system {
          kernel = kernel;
          ram = ram;
          tasks = tasks;
          processes = record system.processes {
            processes = set system.processes.processes process_slot (some process);
          };
          structs = λ a.
              if a == process
              then some (record {
                id = process_slot;
                filename = name;
                task = new.task;
                program = program;
                stack = stack;
              })
              else system.structs a;
        },
      )
    ]

  -- The process that is stored for the caller. For a slot that is taken an uninitialised pointer is read.
  -- An error leaves the process, its program and its stack in the heap.
  unfoldable pub process_load_for_slot :
      System Private → List ℕ → ℕ → Option (Outcome ℕ × System Private)
  process_load_for_slot system filename process_slot =
      elim (process_get system.processes (pos process_slot)) [
        | some p ↦ none
        | none ↦ do
          (got, heap, mem) ← kzalloc system.kernel.heap system.kernel.mem process_size
          let kernel = record system.kernel { heap = heap; mem = mem }
          elim got [
            | none ↦ some (fails enomem, record system { kernel = kernel })
            | some process ↦ do
              (res, loaded) ← process_load_data fs kernel filename
              elim res [
                | failed e ↦ some (failed e, record system { kernel = loaded })
                | done program ↦ do
                  (room, heap', mem') ← kzalloc loaded.heap loaded.mem stack_size
                  let ready = record system { kernel = record loaded { heap = heap'; mem = mem' } }
                  elim room [
                    | none ↦ some (fails enomem, ready)
                    | some stack ↦ process_start ready filename process_slot process program stack
                  ]
              ]
          ]
      ]

  unfoldable pub process_load : System Private → List ℕ → Option (Outcome ℕ × System Private)
  process_load system filename = elim (process_get_free_slot system.processes) [
    | err e ↦ some (fails eistkn, system)
    | ok process_slot ↦ process_load_for_slot system filename process_slot
  ]
