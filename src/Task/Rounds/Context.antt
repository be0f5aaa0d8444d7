-- ===== src/Task/Rounds/Context.antt =====
-- The registers of a task, from an interrupt to its next turn.
use ra_os.Base.{
  some_eq, ℕ, zero, suc, ◌≡◌, refl, ◌∙◌, sym, ap, subst, none, some, ◌>>=◌, arith, Option-cases,
  inl, inr, bit_or,
}
use ra_os.Task.{
  Task, Tasks, Registers, InterruptFrame, write, saved_registers, task_get_next, task_switch,
  task_next, task_return, task_save_state, task_current_save_stat,
}
use ra_os.Task.Links.Relink.{write_self}
use ra_os.Task.Rounds.Fair.{run}

next_nowhere : (tasks : Tasks) → task_get_next tasks ≡ none → task_next tasks ≡ none
unfolding task_next
next_nowhere tasks e = rw (task_next, e) refl

next_null : (tasks : Tasks) → task_get_next tasks ≡ some none → task_next tasks ≡ none
unfolding task_next
next_null tasks e = rw (task_next, e, ◌>>=◌) refl

next_lost :
    (tasks : Tasks) (m : ℕ)
    → task_get_next tasks ≡ some (some m)
    → tasks.store m ≡ none
    → task_next tasks ≡ none
unfolding task_next task_switch
next_lost tasks m e lost = rw (task_next, e, ◌>>=◌, lost) refl

next_held :
    (tasks : Tasks) (m : ℕ) (t : Task)
    → task_get_next tasks ≡ some (some m)
    → tasks.store m ≡ some t
    → task_next tasks
      ≡ some
          (record tasks { current_task = some m; loaded_directory = t.page_directory }, t.registers)
unfolding task_next task_switch
next_held tasks m t e held = rw (task_next, e, ◌>>=◌, held, held) refl

-- A switch that does not fail enters a task of the memory with its registers, and changes none.
pub switch_enters :
    (tasks tasks' : Tasks) (registers : Registers)
    → task_next tasks ≡ some (tasks', registers)
    → (m : ℕ) × (t : Task) × (tasks.store m ≡ some t)
      × (tasks'.store ≡ tasks.store)
      × (tasks'.current_task ≡ some m)
      × (registers ≡ t.registers)
switch_enters tasks tasks' registers step = elim (Option-cases (task_get_next tasks)) [
  | inl e ↦ absurd (ground (arith, sym (next_nowhere tasks e) ∙ step))
  | inr (none, e) ↦ absurd (ground (arith, sym (next_null tasks e) ∙ step))
  | inr (some m, e) ↦ elim (Option-cases (tasks.store m)) [
    | inl lost ↦ absurd (ground (arith, sym (next_lost tasks m e lost) ∙ step))
    | inr (t, held) ↦
        let same = some_eq (sym (next_held tasks m t e held) ∙ step) in
        (
          m,
          t,
          held,
          sym (ap (λ p. p.0.store) same),
          sym (ap (λ p. p.0.current_task) same),
          sym (ap (λ p. p.1) same),
        )
  ]
]

run-store : (n : ℕ) (tasks tasks' : Tasks) → run n tasks ≡ some tasks' → tasks'.store ≡ tasks.store
unfolding run
run-store zero tasks tasks' ran = sym (ap (λ t. t.store) (some_eq ran))
run-store (suc n) tasks tasks' ran = elim (Option-cases (task_next tasks)) [
  | inl stuck ↦ absurd (ground (arith, stuck, ran))
  | inr ((tasks1, registers), step) ↦
      let ran1 : run n tasks1 ≡ some tasks' =
        subst (λ o. (o >>= λ switched. run n switched.0) ≡ some tasks') step ran in
      let (m, t, held, kept, at, entered_) = switch_enters tasks tasks1 registers step in
      run-store n tasks1 tasks' ran1 ∙ kept
]

saved_at :
    (tasks tasks' : Tasks) (frame : InterruptFrame) (c : ℕ)
    → tasks.current_task ≡ some c
    → task_current_save_stat tasks frame ≡ some tasks'
    → (t : Task) × (tasks'.store c ≡ some t) × (t.registers ≡ saved_registers frame)
unfolding task_current_save_stat task_save_state
saved_at tasks tasks' frame c at step = elim (Option-cases (tasks.store c)) [
  | inl lost ↦ absurd (ground (arith, at, lost, step))
  | inr (t, held) ↦
      let t' : Task = record t { registers = saved_registers frame } in
      let saved : Tasks = record tasks { store = write tasks.store c (some t') } in
      let ran : task_current_save_stat tasks frame ≡ some saved =
        rw (task_current_save_stat, at, ◌>>=◌, task_save_state, held) refl in
      let same = some_eq (sym ran ∙ step) in
      (t', sym (ap (λ k. k.store c) same) ∙ write_self tasks.store c (some t'), refl)
]

-- The registers are those of the frame, each from its own field, but for the flags, which are `flags` with
-- interrupts on.
pub record AreOf (registers : Registers) (frame : InterruptFrame) (flags : ℕ) : Type 0 where
  pub edi_same : registers.edi ≡ frame.edi
  pub esi_same : registers.esi ≡ frame.esi
  pub ebp_same : registers.ebp ≡ frame.ebp
  pub ebx_same : registers.ebx ≡ frame.ebx
  pub edx_same : registers.edx ≡ frame.edx
  pub ecx_same : registers.ecx ≡ frame.ecx
  pub eax_same : registers.eax ≡ frame.eax
  pub ip_same : registers.ip ≡ frame.ip
  pub cs_same : registers.cs ≡ frame.cs
  pub flags_same : registers.flags ≡ bit_or flags 0x200
  pub esp_same : registers.esp ≡ frame.esp
  pub ss_same : registers.ss ≡ frame.ss

saved_lem :
    (frame : InterruptFrame) (flags : ℕ)
    → AreOf (task_return flags (saved_registers frame)) frame flags
unfolding saved_registers task_return
saved_lem frame flags = record {
  edi_same = refl;
  esi_same = refl;
  ebp_same = refl;
  ebx_same = refl;
  edx_same = refl;
  ecx_same = refl;
  eax_same = refl;
  ip_same = refl;
  cs_same = refl;
  flags_same = refl;
  esp_same = refl;
  ss_same = refl;
}

-- What an interrupt saves of task `c` is what the task is entered with at its next turn: after any
-- number of switches, a switch to `c` enters it with the registers of the frame, but for the flags, which
-- are those that the kernel has then, with interrupts on.
pub task_next-task_current_save_stat :
    (n : ℕ) (tasks saved ran last : Tasks) (frame : InterruptFrame) (registers : Registers)
    (c flags : ℕ)
    → tasks.current_task ≡ some c
    → task_current_save_stat tasks frame ≡ some saved
    → run n saved ≡ some ran
    → task_next ran ≡ some (last, registers)
    → last.current_task ≡ some c
    → AreOf (task_return flags registers) frame flags
task_next-task_current_save_stat n tasks saved ran last frame registers c flags at step more turn
      back =
    let (t, held, same) = saved_at tasks saved frame c at step in
    let (m, u, held', kept, at', entered) = switch_enters ran last registers turn in
    let here : m ≡ c = some_eq (sym at' ∙ back) in
    let task : u ≡ t =
      some_eq
        (sym held' ∙ ap (λ s. s m) (run-store n saved ran more) ∙ ap saved.store here ∙ held) in
    subst (λ r. AreOf (task_return flags r) frame flags)
      (sym (entered ∙ ap (λ v. v.registers) task ∙ same)) (saved_lem frame flags)
