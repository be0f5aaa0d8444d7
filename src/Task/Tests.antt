-- ===== src/Task/Tests.antt =====
-- The theorems on the tasks at two tasks, at addresses 5 and 7.
use ra_os.Base.{ℕ, ◌≡◌, ◌≤◌, refl, Option, none, some, [], ◌∷◌}
use ra_os.Task.{
  Tasks, Registers, InterruptFrame, set_next, set_prev, task_new, task_free, task_next, task_return,
  task_current_save_stat,
}
use ra_os.Task.Queue.{IsQueue}
use ra_os.Task.Queue.Change.{Removed, task_free-Removed}
use ra_os.Task.Rounds.Fair.{run, Reaches, run-Reaches}
use ra_os.Task.Rounds.Context.{AreOf, task_next-task_current_save_stat}
use ra_os.Task.Life.{no_tasks, Reach, boot, new, Reach-IsQueue}

abbrev or_none : Option Tasks → Tasks
or_none none = no_tasks
or_none (some tasks) = tasks

unfoldable one_task : Tasks
unfolding task_new
one_task = or_none (task_new no_tasks 5 100 200 none)

unfoldable two_tasks : Tasks
unfolding one_task task_new
two_tasks = or_none (task_new one_task 7 101 201 (some 0x500000))

reach_one : Reach one_task (5 ∷ [])
unfolding one_task task_new
reach_one = new no_tasks one_task [] 5 100 200 none boot refl refl

reach_two : Reach two_tasks (5 ∷ 7 ∷ [])
unfolding two_tasks one_task task_new set_next set_prev
reach_two = new one_task two_tasks (5 ∷ []) 7 101 201 (some 0x500000) reach_one refl refl

Reach-IsQueue_example : IsQueue two_tasks (5 ∷ 7 ∷ [])
Reach-IsQueue_example = Reach-IsQueue two_tasks (5 ∷ 7 ∷ []) reach_two

task_free-Removed_example :
    (tasks' : Tasks) × (task_free two_tasks 5 ≡ some tasks')
    × Removed two_tasks 5 [] (7 ∷ []) tasks'
    × (tasks'.store 5 ≡ none)
task_free-Removed_example =
    task_free-Removed two_tasks 5 [] (7 ∷ []) (Reach-IsQueue two_tasks (5 ∷ 7 ∷ []) reach_two)

run-Reaches_example : (n : ℕ) × (n ≤ 2) × Reaches n two_tasks (5 ∷ 7 ∷ []) 7
run-Reaches_example =
    run-Reaches two_tasks (5 ∷ 7 ∷ []) 7 (Reach-IsQueue two_tasks (5 ∷ 7 ∷ []) reach_two) refl

abbrev test_frame : InterruptFrame
test_frame = record {
  edi = 1;
  esi = 2;
  ebp = 3;
  reserved = 4;
  ebx = 5;
  edx = 6;
  ecx = 7;
  eax = 8;
  ip = 9;
  cs = 10;
  flags = 11;
  esp = 12;
  ss = 13;
}

abbrev test_registers : Registers
test_registers = record {
  edi = 1;
  esi = 2;
  ebp = 3;
  ebx = 5;
  edx = 6;
  ecx = 7;
  eax = 8;
  ip = 9;
  cs = 10;
  flags = 11;
  esp = 12;
  ss = 13;
}

-- Task 5 is interrupted, task 7 has its turn, and task 5 is entered again.
unfoldable saved_tasks : Tasks
unfolding two_tasks task_current_save_stat
saved_tasks = or_none (task_current_save_stat two_tasks test_frame)

unfoldable ran_tasks : Tasks
unfolding saved_tasks run
ran_tasks = or_none (run 1 saved_tasks)

unfoldable last_tasks : Tasks
unfolding saved_tasks run
last_tasks = or_none (run 2 saved_tasks)

task_next-task_current_save_stat_example : AreOf (task_return 0x46 test_registers) test_frame 0x46
unfolding last_tasks ran_tasks saved_tasks two_tasks one_task run task_next task_current_save_stat
    task_new
task_next-task_current_save_stat_example =
    task_next-task_current_save_stat 1 two_tasks saved_tasks ran_tasks last_tasks test_frame
      test_registers 5 0x46 refl refl refl refl refl
