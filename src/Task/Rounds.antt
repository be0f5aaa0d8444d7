-- ===== src/Task/Rounds.antt =====
-- The switches from task to task.
pub mod Fair
pub mod Context
use ra_os.Base.{
  ℕ, zero, suc, ◌+◌, ◌≤◌, ◌<◌, ◌⊎◌, ◌≡◌, ◌≢◌, refl, ◌∙◌, sym, ap, subst, ◌==◌, if◌then◌else◌, Bool,
  true, false, ◌||◌, Option, none, some, List, [], ◌∷◌, ◌++◌, ◌>>=◌, arith, tests, ==_of_eq,
  eq_of_==, Bool-cases, inl, inr, length, length-append,
}
use ra_os.Task.{
  Pointer, Task, Store, Tasks, Registers, write, task_get_next, task_switch, task_next,
}
use ra_os.Task.Links.{has, first_of, last_of, Node, Linked, has-append, Linked-back}
use ra_os.Task.Queue.{IsCurrent, IsQueue}
use ra_os.Task.Queue.Change.{next_at}

pick :
    (next head : Pointer) (r : List ℕ) (first : Pointer)
    → next ≡ first_of r none
    → head ≡ first
    → elim next [ none ↦ head | some n ↦ some n ] ≡ first_of r first
pick next head [] first on at = rw (on, at) refl
pick next head (y ∷ r) first on at = rw on refl

-- The task that comes after one between `l` and `r`: the one behind it, or else the first of all.
pub next_between :
    (tasks : Tasks) (c : ℕ) (l r : List ℕ)
    → IsQueue tasks (l ++ (c ∷ r))
    → tasks.current_task ≡ some c
    → task_get_next tasks ≡ some (first_of r (first_of (l ++ (c ∷ r)) none))
next_between tasks c l r (linked, head, tail, current) at =
    let ((t, held, back, on), new, linked_r) = Linked-back tasks.store none none l (c ∷ r) linked in
    next_at tasks c t at held
    ∙ ap some (pick t.next tasks.task_head r (first_of (l ++ (c ∷ r)) none) on head)

node_of :
    (store : Store) (before after : Pointer) (xs : List ℕ) (m : ℕ)
    → Linked store before xs after
    → has m xs ≡ true
    → (t : Task) × (store m ≡ some t)
node_of store before after [] m linked h = absurd (ground (arith, h))
node_of store before after (x ∷ xs) m ((t, at, back, on), new, linked) h =
    elim (Bool-cases (m == x)) [
      | inl e ↦ (t, ap store (eq_of_== m x e) ∙ at)
      | inr e ↦ node_of store (some x) after xs m linked (ground (arith, h, e))
    ]

pub next_in :
    (c : ℕ) (l r : List ℕ)
    → (m : ℕ) × (first_of r (first_of (l ++ (c ∷ r)) none) ≡ some m) × (has m (l ++ (c ∷ r)) ≡ true)
next_in c [] [] = (c, refl, rw (==_of_eq c c refl) refl)
next_in c (z ∷ l) [] = (z, refl, rw (==_of_eq z z refl) refl)
next_in c l (y ∷ r) = (y, refl, has-append y l (c ∷ y ∷ r) ∙ ground (arith, ==_of_eq y y refl))

-- What a switch does: the tasks of the list stay, task `m` is the current one, its page directory is in
-- use and its registers are the ones entered.
abbrev pub Switched : Tasks → List ℕ → ℕ → Tasks → Registers → Type 0
Switched tasks xs m tasks' registers =
    IsQueue tasks' xs
    × (tasks'.current_task ≡ some m)
    × (tasks'.store ≡ tasks.store)
    × ((t : Task) × (tasks.store m ≡ some t)
        × (tasks'.loaded_directory ≡ t.page_directory)
        × (registers ≡ t.registers))

-- With a current task between `l` and `r` the switch does not fail, and goes to the task behind it, or
-- to the first of the list when it is the last.
pub task_next-Switched :
    (tasks : Tasks) (c : ℕ) (l r : List ℕ)
    → IsQueue tasks (l ++ (c ∷ r))
    → tasks.current_task ≡ some c
    → (m : ℕ) × (tasks' : Tasks) × (registers : Registers) × (first_of r
          (first_of (l ++ (c ∷ r)) none)
        ≡ some m)
      × (task_next tasks ≡ some (tasks', registers))
      × Switched tasks (l ++ (c ∷ r)) m tasks' registers
unfolding task_next task_switch IsCurrent
task_next-Switched tasks c l r (linked, head, tail, current) at =
    let (m, chosen, inside) = next_in c l r in
    let (t, held) = node_of tasks.store none none (l ++ (c ∷ r)) m linked inside in
    let next = next_between tasks c l r (linked, head, tail, current) at ∙ ap some chosen in
    let tasks' : Tasks = record tasks {
      current_task = some m;
      loaded_directory = t.page_directory;
    } in
    (
      m,
      tasks',
      t.registers,
      chosen,
      rw (next, ◌>>=◌, held, held) refl,
      ((linked, head, tail, inside), refl, refl, (t, held, refl, refl)),
    )
