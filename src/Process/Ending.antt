-- ===== src/Process/Ending.antt =====
-- src/task/process.c: the end of a process.
pub mod Unused
use ra_os.Base.{ℕ, Option, none, some, ◌>>=◌, Result, ok, err, einvarg}
use ra_os.Memory.Heap.{HeapState, free}
use ra_os.Memory.Paging.Release.{free_4gb}
use ra_os.Elf.{ElfFile}
use ra_os.Elf.Load.{elf_close}
use ra_os.Task.{Tasks, task_free}
use ra_os.Process.{Processes, process_unlink}
use ra_os.Process.Memory.{Machine, process_terminate_allocations}
use ra_os.Process.Program.{ProgramData, elf_data, binary_data}

-- A process, its task, and what they use. Its program data is `none` for another file type, and
-- `elf_file` is the address of the `struct elf_file`.
pub record Running : Type 0 where
  pub process : ℕ
  pub id : ℕ
  pub machine : Machine
  pub program : Option ProgramData
  pub elf_file : ℕ
  pub stack : ℕ
  pub task : ℕ
  pub chunk : ℕ
  pub tasks : Tasks
  pub processes : Processes

unfoldable pub process_free_program_data :
    HeapState → Option ProgramData → ℕ → Option (Result (Unit {0}) × HeapState)
unfolding free elf_close
process_free_program_data heap none elf_file = some (err einvarg, heap)
process_free_program_data heap (some (binary_data ptr size)) elf_file =
    free heap ptr >>= λ freed. some (ok tt, freed)
process_free_program_data heap (some (elf_data file)) elf_file =
    elf_close heap elf_file file >>= λ freed. some (ok tt, freed)

-- The heap after `task_free`, which frees the pages of the task before and its memory after it leaves the
-- list of tasks.
unfoldable pub free_task_memory : HeapState → Machine → ℕ → ℕ → Option HeapState
unfolding free_4gb free
free_task_memory heap machine chunk task = do
  pages_freed ← free_4gb heap machine.ram machine.directory chunk
  free pages_freed task

unfoldable pub process_terminate : Running → Option (Result (Unit {0}) × Running)
unfolding process_terminate_allocations process_free_program_data free_task_memory task_free
    process_unlink free
process_terminate running = do
  machine ← process_terminate_allocations running.machine
  (res, heap) ← process_free_program_data machine.heap running.program running.elf_file
  elim res [
    | err e ↦ some (err e, record running { machine = record machine { heap = heap } })
    | ok _ ↦ do
      stack_freed ← free heap running.stack
      task_freed ← free_task_memory stack_freed machine running.chunk running.task
      tasks ← task_free running.tasks running.task
      processes ← process_unlink running.processes running.process running.id
      some (
        ok tt,
        record running {
          machine = record machine { heap = task_freed };
          tasks = tasks;
          processes = processes;
        },
      )
  ]
