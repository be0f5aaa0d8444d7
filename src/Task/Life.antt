-- ===== src/Task/Life.antt =====
-- Every order of the operations.
use ra_os.Base.{
  some_eq, ℕ, ◌≡◌, refl, ◌∙◌, sym, ap, subst, true, false, Option, none, some, List, [], ◌∷◌, ◌++◌,
  arith, Option-cases, inl, inr,
}
use ra_os.Task.{
  saved_registers, write, task_get_next, Task, Tasks, Registers, InterruptFrame, task_new,
  task_free, task_next, task_current_save_stat, task_save_state,
}
use ra_os.Task.Links.{has}
use ra_os.Task.Links.Relink.{frame-pointers}
use ra_os.Task.Queue.{IsCurrent, IsQueue}
use ra_os.Task.Queue.Change.{task_new-IsQueue, task_free-Removed}
use ra_os.Task.Rounds.{task_next-Switched}
use ra_os.Task.Rounds.Fair.{split_at}

-- The kernel's start: no task.
abbrev pub no_tasks : Tasks
no_tasks = record {
  store = λ a. none;
  task_head = none;
  task_tail = none;
  current_task = none;
  loaded_directory = 0;
}

-- The tasks that some order of operations leads to, and the list that the same order of operations on
-- lists leads to: new tasks at addresses that are not in use, and tasks of the list that are freed.
pub data Reach : Tasks → List ℕ → Type 0 where
  boot : Reach no_tasks []
  new :
      (tasks tasks' : Tasks) (xs : List ℕ) (x page_directory process : ℕ) (e_entry : Option ℕ)
      → Reach tasks xs
      → has x xs ≡ false
      → task_new tasks x page_directory process e_entry ≡ some tasks'
      → Reach tasks' (xs ++ (x ∷ []))
  free :
      (tasks tasks' : Tasks) (l r : List ℕ) (x : ℕ)
      → Reach tasks (l ++ (x ∷ r))
      → task_free tasks x ≡ some tasks'
      → Reach tasks' (l ++ r)
  next :
      (tasks tasks' : Tasks) (registers : Registers) (xs : List ℕ)
      → Reach tasks xs
      → task_next tasks ≡ some (tasks', registers)
      → Reach tasks' xs
  save :
      (tasks tasks' : Tasks) (frame : InterruptFrame) (xs : List ℕ)
      → Reach tasks xs
      → task_current_save_stat tasks frame ≡ some tasks'
      → Reach tasks' xs

-- Without a current task these fail.
next_nobody : (tasks : Tasks) → tasks.current_task ≡ none → task_next tasks ≡ none
unfolding task_next task_get_next
next_nobody tasks e = rw (task_next, task_get_next, e) refl

save_nobody :
    (tasks : Tasks) (frame : InterruptFrame)
    → tasks.current_task ≡ none
    → task_current_save_stat tasks frame ≡ none
unfolding task_current_save_stat
save_nobody tasks frame e = rw (task_current_save_stat, e) refl

save_current :
    (tasks : Tasks) (frame : InterruptFrame) (c : ℕ)
    → tasks.current_task ≡ some c
    → task_current_save_stat tasks frame ≡ task_save_state tasks c frame
unfolding task_current_save_stat
save_current tasks frame c at = rw (task_current_save_stat, at) refl

switched_kept :
    (tasks tasks' : Tasks) (registers : Registers) (xs : List ℕ) (c : ℕ)
    → IsQueue tasks xs
    → tasks.current_task ≡ some c
    → has c xs ≡ true
    → task_next tasks ≡ some (tasks', registers)
    → IsQueue tasks' xs
switched_kept tasks tasks' registers xs c queue at inside step =
    let (l, r, e) = split_at c xs inside in
    let (m, tasks1, registers1, chosen, step1, (queue1, at1, kept, loaded)) =
      task_next-Switched tasks c l r (subst (λ k. IsQueue tasks k) e queue) at in
    let same = some_eq (sym step1 ∙ step) in
    subst (λ k. IsQueue tasks' k) (sym e)
      (subst (λ t. IsQueue t (l ++ (c ∷ r))) (ap (λ p. p.0) same) queue1)

next_kept :
    (tasks tasks' : Tasks) (registers : Registers) (xs : List ℕ)
    → IsQueue tasks xs
    → task_next tasks ≡ some (tasks', registers)
    → IsQueue tasks' xs
unfolding IsCurrent
next_kept tasks tasks' registers xs (linked, head, tail, current) step =
    elim (Option-cases tasks.current_task) [
      | inl nobody ↦ absurd (ground (arith, sym (next_nobody tasks nobody) ∙ step))
      | inr (c, at) ↦
          switched_kept tasks tasks' registers xs c (linked, head, tail, current) at
            (subst (λ p. IsCurrent p xs) at current) step
    ]

save_kept :
    (tasks tasks' : Tasks) (frame : InterruptFrame) (xs : List ℕ)
    → IsQueue tasks xs
    → task_current_save_stat tasks frame ≡ some tasks'
    → IsQueue tasks' xs
unfolding task_current_save_stat task_save_state
save_kept tasks tasks' frame xs (linked, head, tail, current) step =
    elim (Option-cases tasks.current_task) [
      | inl nobody ↦ absurd (ground (arith, sym (save_nobody tasks frame nobody) ∙ step))
      | inr (c, at) ↦ elim (Option-cases (tasks.store c)) [
        | inl lost ↦ absurd (ground (arith, at, lost, step))
        | inr (t, held) ↦
            let t' : Task = record t { registers = saved_registers frame } in
            let saved : Tasks = record tasks { store = write tasks.store c (some t') } in
            let ran : task_save_state tasks c frame ≡ some saved =
              rw (task_save_state, held) refl in
            let ran' : task_current_save_stat tasks frame ≡ some saved =
              save_current tasks frame c at ∙ ran in
            let same = some_eq (sym ran' ∙ step) in
            subst (λ k. IsQueue k xs) same
              (
                frame-pointers tasks.store c t t' none none xs held refl refl linked,
                head,
                tail,
                current,
              )
      ]
    ]

-- In every order of the operations the variables stand for the list that the same operations on lists
-- lead to, whose tasks are distinct and linked both ways, with the current task among them.
pub Reach-IsQueue : (tasks : Tasks) (xs : List ℕ) → Reach tasks xs → IsQueue tasks xs
unfolding IsCurrent
Reach-IsQueue tasks xs boot = (tt, refl, refl, refl)
Reach-IsQueue _ _ (new tasks tasks' xs x page_directory process e_entry reach unused step) =
    let (tasks1, step1, queue, at) =
      task_new-IsQueue tasks x page_directory process e_entry xs (Reach-IsQueue tasks xs reach)
        unused in
    subst (λ k. IsQueue k (xs ++ (x ∷ []))) (some_eq (sym step1 ∙ step)) queue
Reach-IsQueue _ _ (free tasks tasks' l r x reach step) =
    let (tasks1, step1, (queue, chosen), gone) =
      task_free-Removed tasks x l r (Reach-IsQueue tasks (l ++ (x ∷ r)) reach) in
    subst (λ k. IsQueue k (l ++ r)) (some_eq (sym step1 ∙ step)) queue
Reach-IsQueue _ _ (next tasks tasks' registers xs reach step) =
    next_kept tasks tasks' registers xs (Reach-IsQueue tasks xs reach) step
Reach-IsQueue _ _ (save tasks tasks' frame xs reach step) =
    save_kept tasks tasks' frame xs (Reach-IsQueue tasks xs reach) step
