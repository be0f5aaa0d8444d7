-- ===== src/Task.antt =====
-- src/task/task.c: the tasks, a doubly linked list in the kernel's memory, and the switch from one to
-- the next. A pointer is the address of a task or `none` for NULL; `none` as a result is an access
-- through NULL or to memory that is not allocated, or the halt after a panic. Of a page directory
-- there is its address.
pub mod Links
pub mod Queue
pub mod Rounds
pub mod Life
pub mod Pages
mod Tests
use ra_os.Base.{
  ℕ, ◌==◌, if◌then◌else◌, Bool, true, false, Option, none, some, List, [], ◌∷◌, ◌>>=◌, bit_or,
}

abbrev pub Pointer : Type 0
Pointer = Option ℕ

-- `struct registers`
pub record Registers : Type 0 where
  pub edi : ℕ
  pub esi : ℕ
  pub ebp : ℕ
  pub ebx : ℕ
  pub edx : ℕ
  pub ecx : ℕ
  pub eax : ℕ
  pub ip : ℕ
  pub cs : ℕ
  pub flags : ℕ
  pub esp : ℕ
  pub ss : ℕ

-- `struct interrupt_frame`
pub record InterruptFrame : Type 0 where
  pub edi : ℕ
  pub esi : ℕ
  pub ebp : ℕ
  pub reserved : ℕ
  pub ebx : ℕ
  pub edx : ℕ
  pub ecx : ℕ
  pub eax : ℕ
  pub ip : ℕ
  pub cs : ℕ
  pub flags : ℕ
  pub esp : ℕ
  pub ss : ℕ

-- `struct task`
pub record Task : Type 0 where
  pub page_directory : ℕ
  pub registers : Registers
  pub next : Pointer
  pub prev : Pointer
  pub process : ℕ

-- The tasks in memory, by address.
abbrev pub Store : Type 0
Store = ℕ → Option Task

abbrev pub write : Store → ℕ → Option Task → Store
write tasks address task a = if a == address then task else tasks a

-- The variables of the module, and the page directory that the processor uses.
pub record Tasks : Type 0 where
  pub store : Store
  pub task_head : Pointer
  pub task_tail : Pointer
  pub current_task : Pointer
  pub loaded_directory : ℕ

-- `p->next = next`
unfoldable pub set_next : Store → ℕ → Pointer → Option Store
set_next store p next =
    store p >>= λ task. some (write store p (some (record task { next = next })))

-- `p->prev = prev`
unfoldable pub set_prev : Store → ℕ → Pointer → Option Store
set_prev store p prev =
    store p >>= λ task. some (write store p (some (record task { prev = prev })))

-- RAOS_PROGRAM_VIRTUAL_ADDRESS
abbrev pub program_virtual_address : ℕ
program_virtual_address = 0x400000

-- RAOS_PROGRAM_VIRTUAL_STACK_ADDRESS_START
abbrev pub program_virtual_stack_address_start : ℕ
program_virtual_stack_address_start = 0x3ff000

abbrev pub user_data_segment : ℕ
user_data_segment = 0x23

abbrev pub user_code_segment : ℕ
user_code_segment = 0x1b

-- The process gives its address, and the entry point of its file when that is an ELF file.
unfoldable pub task_init : ℕ → ℕ → Option ℕ → Task
task_init page_directory process e_entry = record {
  page_directory = page_directory;
  registers = record {
    edi = 0;
    esi = 0;
    ebp = 0;
    ebx = 0;
    edx = 0;
    ecx = 0;
    eax = 0;
    ip = elim e_entry [ none ↦ program_virtual_address | some entry ↦ entry ];
    cs = user_code_segment;
    flags = 0;
    esp = program_virtual_stack_address_start;
    ss = user_data_segment;
  };
  next = none;
  prev = none;
  process = process;
}

-- `task` is the address that `kzalloc` gives, and the allocations succeed.
unfoldable pub task_new : Tasks → ℕ → ℕ → ℕ → Option ℕ → Option Tasks
unfolding task_init set_next set_prev
task_new tasks task page_directory process e_entry =
    let store = write tasks.store task (some (task_init page_directory process e_entry)) in
    elim tasks.task_head [
      | none ↦ some (record tasks {
        store = store;
        task_head = some task;
        task_tail = some task;
        current_task = some task;
      })
      | some head ↦ do
        tail ← tasks.task_tail
        linked ← set_next store tail (some task)
        both ← set_prev linked task tasks.task_tail
        some (record tasks { store = both; task_tail = some task })
    ]

unfoldable pub task_get_next : Tasks → Option Pointer
task_get_next tasks = do
  current ← tasks.current_task
  task ← tasks.store current
  some (elim task.next [ none ↦ tasks.task_head | some next ↦ some next ])

-- `if (p) p->next = next`
unfoldable pub link_next : Store → Pointer → Pointer → Option Store
unfolding set_next
link_next store none next = some store
link_next store (some p) next = set_next store p next

-- `if (p) p->prev = prev`
unfoldable pub link_prev : Store → Pointer → Pointer → Option Store
unfolding set_prev
link_prev store none prev = some store
link_prev store (some p) prev = set_prev store p prev

-- `p == task`, where `task` is not NULL.
abbrev pub points_to : Pointer → ℕ → Bool
points_to none task = false
points_to (some p) task = p == task

unfoldable pub task_list_remove : Tasks → ℕ → Option Tasks
unfolding link_next link_prev task_get_next
task_list_remove tasks task = do
  first ← tasks.store task
  before ← link_next tasks.store first.prev first.next
  second ← before task
  after ← link_prev before second.next second.prev
  third ← after task
  let unlinked = record tasks {
    store = after;
    task_head = (if points_to tasks.task_head task then third.next else tasks.task_head);
    task_tail = (if points_to tasks.task_tail task then third.prev else tasks.task_tail);
  }
  elim (points_to tasks.current_task task) [
    | false ↦ some unlinked
    | true ↦ (task_get_next unlinked >>= λ next. some (record unlinked { current_task = next }))
  ]

-- The page directory is freed before and the task after the list forgets it.
unfoldable pub task_free : Tasks → ℕ → Option Tasks
unfolding task_list_remove
task_free tasks task = do
  removed ← task_list_remove tasks task
  some (record removed { store = write removed.store task none })

unfoldable pub task_switch : Tasks → ℕ → Option Tasks
task_switch tasks task = do
  t ← tasks.store task
  some (record tasks { current_task = some task; loaded_directory = t.page_directory })

-- `task_return` of src/task/task.asm: what the processor's registers are when it enters the user's program.
-- The flags are those of the kernel at that moment, with interrupts on; the saved ones are not used.
unfoldable pub task_return : ℕ → Registers → Registers
task_return flags regs = record regs { flags = bit_or flags 0x200 }

-- The tasks, and the registers that `task_return` is called with.
unfoldable pub task_next : Tasks → Option (Tasks × Registers)
unfolding task_get_next task_switch
task_next tasks = do
  next_task ← task_get_next tasks
  elim next_task [
    | none ↦ none
    | some task ↦ do
      switched ← task_switch tasks task
      t ← switched.store task
      some (switched, t.registers)
  ]

unfoldable pub saved_registers : InterruptFrame → Registers
saved_registers frame = record {
  edi = frame.edi;
  esi = frame.esi;
  ebp = frame.ebp;
  ebx = frame.ebx;
  edx = frame.edx;
  ecx = frame.ecx;
  eax = frame.eax;
  ip = frame.ip;
  cs = frame.cs;
  flags = frame.flags;
  esp = frame.esp;
  ss = frame.ss;
}

unfoldable pub task_save_state : Tasks → ℕ → InterruptFrame → Option Tasks
unfolding saved_registers
task_save_state tasks task frame = do
  t ← tasks.store task
  some (record tasks {
    store = write tasks.store task (some (record t { registers = saved_registers frame }));
  })

unfoldable pub task_current_save_stat : Tasks → InterruptFrame → Option Tasks
unfolding task_save_state
task_current_save_stat tasks frame = tasks.current_task >>= λ task. task_save_state tasks task frame

unfoldable pub task_run_first_ever_task : Tasks → Option (Tasks × Registers)
unfolding task_switch
task_run_first_ever_task tasks = do
  current ← tasks.current_task
  head ← tasks.task_head
  switched ← task_switch tasks head
  t ← switched.store head
  some (switched, t.registers)
