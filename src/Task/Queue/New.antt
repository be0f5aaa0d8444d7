-- ===== src/Task/Queue/New.antt =====
-- The task that `task_new` makes.
use ra_os.Base.{
  ℕ, ◌≡◌, refl, ◌∙◌, sym, ap, subst, none, some, some_eq, ◌>>=◌, Option, Option-cases, arith, inl,
  inr, ◌==◌, eq_of_==, Bool-cases,
}
use ra_os.Task.{Task, Tasks, Store, Pointer, write, set_next, set_prev, task_init, task_new}
use ra_os.Task.Links.Relink.{write_self, write_other}

-- The task at an address has the directory and belongs to the process.
pub record TaskAt (store : Store) (x page_directory process : ℕ) : Type 0 where
  pub task : Task
  pub here : store x ≡ some task
  pub directory : task.page_directory ≡ page_directory
  pub of_process : task.process ≡ process

-- A write that keeps the directory and the process of the task that was there.
kept_by_write :
    (store : Store) (p x page_directory process : ℕ) (u v : Task)
    → store p ≡ some u
    → v.page_directory ≡ u.page_directory
    → v.process ≡ u.process
    → TaskAt store x page_directory process
    → TaskAt (write store p (some v)) x page_directory process
kept_by_write store p x page_directory process u v at d o held = elim (Bool-cases (x == p)) [
  | inl e ↦
      let same : x ≡ p = eq_of_== x p e in
      let t : held.task ≡ u = some_eq (sym held.here ∙ ap store same ∙ at) in
      record {
        task = v;
        here = ap (write store p (some v)) same ∙ write_self store p (some v);
        directory = d ∙ sym (ap (λ k. k.page_directory) t) ∙ held.directory;
        of_process = o ∙ sym (ap (λ k. k.process) t) ∙ held.of_process;
      }
  | inr e ↦ record {
    task = held.task;
    here = write_other store p (some v) x e ∙ held.here;
    directory = held.directory;
    of_process = held.of_process;
  }
]

next_kept :
    (store store' : Store) (p x page_directory process : ℕ) (next : Pointer)
    → TaskAt store x page_directory process
    → set_next store p next ≡ some store'
    → TaskAt store' x page_directory process
unfolding set_next
next_kept store store' p x page_directory process next held step = elim (Option-cases (store p)) [
  | inl lost ↦ absurd (ground (arith, lost, step))
  | inr (u, at) ↦
      let ran : set_next store p next ≡ some (write store p (some (record u { next = next }))) =
        rw (at, ◌>>=◌) refl in
      subst (λ s. TaskAt s x page_directory process) (some_eq (sym ran ∙ step))
        (kept_by_write store p x page_directory process u (record u { next = next }) at refl refl
          held)
]

prev_kept :
    (store store' : Store) (p x page_directory process : ℕ) (prev : Pointer)
    → TaskAt store x page_directory process
    → set_prev store p prev ≡ some store'
    → TaskAt store' x page_directory process
unfolding set_prev
prev_kept store store' p x page_directory process prev held step = elim (Option-cases (store p)) [
  | inl lost ↦ absurd (ground (arith, lost, step))
  | inr (u, at) ↦
      let ran : set_prev store p prev ≡ some (write store p (some (record u { prev = prev }))) =
        rw (at, ◌>>=◌) refl in
      subst (λ s. TaskAt s x page_directory process) (some_eq (sym ran ∙ step))
        (kept_by_write store p x page_directory process u (record u { prev = prev }) at refl refl
          held)
]

-- Behind the tasks of a list that is not empty.
queued :
    (tasks : Tasks) (x page_directory process : ℕ) (e_entry : Option ℕ) (head tail : ℕ)
    (linked : Store)
    → tasks.task_head ≡ some head
    → tasks.task_tail ≡ some tail
    → set_next (write tasks.store x (some (task_init page_directory process e_entry))) tail (some x)
      ≡ some linked
    → task_new tasks x page_directory process e_entry ≡ (
        set_prev linked x (some tail) >>= λ both.
        some (record tasks { store = both; task_head = some head; task_tail = some x }))
unfolding task_new set_prev
queued tasks x page_directory process e_entry head tail linked used last next =
    rw (task_new, used, last, ◌>>=◌, next)
      (ap
        (λ p. set_prev linked x (some tail) >>= λ both.
          some (record tasks { store = both; task_head = p; task_tail = some x }))
        used)

-- `task_new` makes a task with the directory and the process that it is given.
pub task_new-TaskAt :
    (tasks tasks' : Tasks) (x page_directory process : ℕ) (e_entry : Option ℕ)
    → task_new tasks x page_directory process e_entry ≡ some tasks'
    → TaskAt tasks'.store x page_directory process
unfolding task_new task_init
task_new-TaskAt tasks tasks' x page_directory process e_entry step =
    let t = task_init page_directory process e_entry in
    let store = write tasks.store x (some t) in
    let first : TaskAt store x page_directory process = record {
      task = t;
      here = write_self tasks.store x (some t);
      directory = refl;
      of_process = refl;
    } in
    elim (Option-cases tasks.task_head) [
      | inl empty ↦
          let ran : task_new tasks x page_directory process e_entry
              ≡ some (record tasks {
                store = store;
                task_head = some x;
                task_tail = some x;
                current_task = some x;
              }) =
            rw (task_new, empty) refl in
          subst (λ k. TaskAt k.store x page_directory process) (some_eq (sym ran ∙ step)) first
      | inr (head, used) ↦ elim (Option-cases tasks.task_tail) [
        | inl lost ↦
            let ran : task_new tasks x page_directory process e_entry ≡ none =
              rw (task_new, used, lost, ◌>>=◌) refl in
            absurd (ground (arith, sym ran ∙ step))
        | inr (tail, last) ↦ elim (Option-cases (set_next store tail (some x))) [
          | inl lost ↦
              let ran : task_new tasks x page_directory process e_entry ≡ none =
                rw (task_new, used, last, ◌>>=◌, lost) refl in
              absurd (ground (arith, sym ran ∙ step))
          | inr (linked, next) ↦
              let ends : Option Store → Option Tasks = λ o. o >>= λ both.
              some (record tasks { store = both; task_head = some head; task_tail = some x }) in
              let ran =
                queued tasks x page_directory process e_entry head tail linked used last next in
              elim (Option-cases (set_prev linked x (some tail))) [
                | inl lost ↦ absurd (ground (arith, sym (ran ∙ ap ends lost) ∙ step))
                | inr (both, prev) ↦
                    subst (λ k. TaskAt k.store x page_directory process)
                      (some_eq (sym (ran ∙ ap ends prev) ∙ step))
                      (prev_kept linked both x x page_directory process (some tail)
                        (next_kept store linked tail x page_directory process (some x) first next)
                        prev)
              ]
        ]
      ]
    ]
