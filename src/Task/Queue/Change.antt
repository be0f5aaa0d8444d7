-- ===== src/Task/Queue/Change.antt =====
-- Adding a task and taking one away.
use ra_os.Base.{
  ℕ, ◌≡◌, refl, ◌∙◌, sym, ap, subst, ◌==◌, if◌then◌else◌, true, false, Option, none, some, List, [],
  ◌∷◌, ◌++◌, ◌>>=◌, arith, ==_of_eq, eq_of_==, Bool-cases, inl, inr,
}
use mathlib.Core.Path.{ap₂}
use ra_os.Task.{
  Pointer, Task, Store, Tasks, write, set_next, set_prev, link_next, link_prev, points_to,
  task_init, task_new, task_get_next, task_list_remove, task_free,
}
use ra_os.Task.Links.{
  has, first_of, last_of, Linked, Outside, frame, has-append, first_of-append, last_of-append,
  Linked-append, Linked-front, Linked-back, Linked-apart,
}
use ra_os.Task.Links.Relink.{
  write_self, write_other, frame-write, relink_last, relink_next, relink_prev,
}
use ra_os.Task.Queue.{
  IsCurrent, IsQueue, new_head, new_tail, chosen_next, kept_chosen, not_in_front, removed,
}

pub some_of_points_to : (p : Pointer) (x : ℕ) → points_to p x ≡ true → p ≡ some x
some_of_points_to none x h = ground (arith, h)
some_of_points_to (some q) x h = ap some (eq_of_== q x h)

pub next_at :
    (tasks : Tasks) (x : ℕ) (t : Task)
    → tasks.current_task ≡ some x
    → tasks.store x ≡ some t
    → task_get_next tasks ≡ some (elim t.next [ none ↦ tasks.task_head | some n ↦ some n ])
unfolding task_get_next
next_at tasks x t current at = rw (task_get_next, current, ◌>>=◌, at) refl

next_of :
    (next head : Pointer) (l r : List ℕ)
    → next ≡ first_of r none
    → head ≡ first_of (l ++ r) none
    → elim next [ none ↦ head | some n ↦ some n ] ≡ first_of r (first_of l none)
next_of next head l [] on first = rw (on, first) (sym (first_of-append l [] none))
next_of next head l (y ∷ r) on first = rw on refl

not_before :
    (l : List ℕ) (x : ℕ) (r : List ℕ)
    → ((a : ℕ) → has a l ≡ true → has a (x ∷ r) ≡ false)
    → (a : ℕ) → has a r ≡ true
    → has a l ≡ false
not_before l x r apart a h = elim (Bool-cases (has a l)) [
  | inr out ↦ out
  | inl inside ↦ absurd (ground (arith, apart a inside, h))
]

-- What is left when task `x` was unlinked, and the task that is current then.
abbrev pub Removed : Tasks → ℕ → List ℕ → List ℕ → Tasks → Type 0
Removed tasks x l r tasks' =
    IsQueue tasks' (l ++ r)
    × (tasks'.current_task ≡ (
        if points_to tasks.current_task x
        then first_of r (first_of l none)
        else tasks.current_task))

pub task_list_remove-Removed :
    (tasks : Tasks) (x : ℕ) (l r : List ℕ)
    → IsQueue tasks (l ++ (x ∷ r))
    → (tasks' : Tasks) × (task_list_remove tasks x ≡ some tasks') × Removed tasks x l r tasks'
task_list_remove-Removed tasks x l r (linked, head, tail, current) =
    let out_l = not_in_front tasks.store x l r linked in
    let apart = Linked-apart tasks.store none none l (x ∷ r) linked in
    let ((t, at, back, on), out_r, linked_r) = Linked-back tasks.store none none l (x ∷ r) linked in
    let (st1, step1, front, outside1) =
      relink_next tasks.store (some x) (first_of r none) l
        (Linked-front tasks.store none none l (x ∷ r) linked) in
    let at1 : st1 x ≡ some t = outside1 x out_l ∙ at in
    let behind1 : Linked st1 (some x) r none =
      frame tasks.store st1 (some x) none r (λ a h. outside1 a (not_before l x r apart a h))
        linked_r in
    let (st2, step2, behind, outside2) = relink_prev st1 (some x) (last_of none l) r behind1 in
    let at2 : st2 x ≡ some t = outside2 x out_r ∙ at1 in
    let before : Linked st2 none l (first_of r none) =
      frame st1 st2 none (first_of r none) l (λ a h. outside2 a (ground (arith, apart a h)))
        front in
    let joined : Linked st2 none (l ++ r) none =
      Linked-append st2 none none l r (λ a h. ground (arith, apart a h)) before behind in
    let run =
      removed tasks x t st1 st2 at (ap₂ (λ p n. link_next tasks.store p n) back on ∙ step1) at1
        (ap₂ (λ n p. link_prev st1 n p) on back ∙ step2) at2 in
    let unlinked : Tasks = record tasks {
      store = st2;
      task_head = (if points_to tasks.task_head x then t.next else tasks.task_head);
      task_tail = (if points_to tasks.task_tail x then t.prev else tasks.task_tail);
    } in
    let head' : unlinked.task_head ≡ first_of (l ++ r) none =
      ap₂ (λ p n. if points_to p x then n else p) head on ∙ new_head x l r out_l in
    let tail' : unlinked.task_tail ≡ last_of none (l ++ r) =
      ap₂ (λ p n. if points_to p x then n else p) tail back ∙ new_tail x l r out_r in
    elim (Bool-cases (points_to tasks.current_task x)) [
      | inr other ↦ (
        unlinked,
        run ∙ rw other refl,
        ((joined, head', tail', kept_chosen x l r tasks.current_task other current), rw other refl),
      )
      | inl same ↦
          let next : task_get_next unlinked ≡ some (first_of r (first_of l none)) =
            next_at unlinked x t (some_of_points_to tasks.current_task x same) at2
            ∙ ap some (next_of t.next unlinked.task_head l r on head') in
          (
            record unlinked { current_task = first_of r (first_of l none) },
            run ∙ rw (same, next) refl,
            ((joined, head', tail', chosen_next l r), rw same refl),
          )
    ]

-- Freeing task `x` of the list `l ++ x ∷ r` leaves the list `l ++ r`, without the task in memory. When
-- the task was the current one, the one behind it is, or the first of the list if it was the last;
-- otherwise the current task stays.
pub task_free-Removed :
    (tasks : Tasks) (x : ℕ) (l r : List ℕ)
    → IsQueue tasks (l ++ (x ∷ r))
    → (tasks' : Tasks) × (task_free tasks x ≡ some tasks')
      × Removed tasks x l r tasks'
      × (tasks'.store x ≡ none)
unfolding task_free
task_free-Removed tasks x l r (linked, head, tail, current) =
    let out_l = not_in_front tasks.store x l r linked in
    let (node, out_r, linked_r) = Linked-back tasks.store none none l (x ∷ r) linked in
    let (tasks', step, ((linked', head', tail', current'), chosen)) =
      task_list_remove-Removed tasks x l r (linked, head, tail, current) in
    let out : has x (l ++ r) ≡ false = has-append x l r ∙ ground (arith, out_l, out_r) in
    (
      record tasks' { store = write tasks'.store x none },
      rw (step, ◌>>=◌) refl,
      (
        (frame-write tasks'.store x none none none (l ++ r) out linked', head', tail', current'),
        chosen,
      ),
      write_self tasks'.store x none,
    )

-- The new task, which is not linked yet.
new_node :
    (store : Store) (x : ℕ) (t : Task) (before : Pointer)
    → t.next ≡ none
    → store x ≡ some t
    → (store' : Store) × (set_prev store x before ≡ some store')
      × Linked store' before (x ∷ []) none
      × Outside store store' (x ∷ [])
unfolding set_prev
new_node store x t before end at =
    let t' : Task = record t { prev = before } in
    (
      write store x (some t'),
      rw (at, ◌>>=◌) refl,
      ((t', write_self store x (some t'), refl, end), refl, tt),
      λ a h. write_other store x (some t') a (ground (arith, h)),
    )

last_some : (y : ℕ) (ys : List ℕ) → (z : ℕ) × (last_of (some y) ys ≡ some z)
last_some y [] = (y, refl)
last_some y (z ∷ ys) = last_some z ys

not_same : (x a : ℕ) (xs : List ℕ) → has x xs ≡ false → has a xs ≡ true → has a (x ∷ []) ≡ false
not_same x a xs out inside = elim (Bool-cases (a == x)) [
  | inr e ↦ ground (arith, e)
  | inl e ↦ absurd (ground (arith, subst (λ b. has b xs ≡ true) (eq_of_== a x e) inside, out))
]

kept_grown :
    (x y : ℕ) (ys : List ℕ) (current : Pointer)
    → IsCurrent current (y ∷ ys)
    → IsCurrent current (y ∷ (ys ++ (x ∷ [])))
unfolding IsCurrent
kept_grown x y ys none h = absurd (ground (arith, h))
kept_grown x y ys (some c) h = ground (arith, h, has-append c ys (x ∷ []))

-- `task_new`, when the links between the last task and the new one were set.
appended :
    (tasks : Tasks) (x page_directory process : ℕ) (e_entry : Option ℕ) (h z : ℕ) (st1 st2 : Store)
    → tasks.task_head ≡ some h
    → tasks.task_tail ≡ some z
    → set_next (write tasks.store x (some (task_init page_directory process e_entry))) z (some x)
      ≡ some st1
    → set_prev st1 x tasks.task_tail ≡ some st2
    → task_new tasks x page_directory process e_entry
      ≡ some (record tasks { store = st2; task_tail = some x })
unfolding task_new
appended tasks x page_directory process e_entry h z st1 st2 head tail step1 step2 =
    let step2' : set_prev st1 x (some z) ≡ some st2 =
      subst (λ p. set_prev st1 x p ≡ some st2) tail step2 in
    rw (task_new, head, tail, ◌>>=◌, step1, step2')
      (ap (λ p. some (record tasks { store = st2; task_head = p; task_tail = some x })) head)

-- A new task at an address that no task of the list has is the last of the list, and the current task
-- when the list was empty; otherwise the current task stays.
pub task_new-IsQueue :
    (tasks : Tasks) (x page_directory process : ℕ) (e_entry : Option ℕ) (xs : List ℕ)
    → IsQueue tasks xs
    → has x xs ≡ false
    → (tasks' : Tasks) × (task_new tasks x page_directory process e_entry ≡ some tasks')
      × IsQueue tasks' (xs ++ (x ∷ []))
      × (tasks'.current_task ≡ elim xs [ [] ↦ some x | y ∷ ys ↦ tasks.current_task ])
unfolding task_new task_init link_next IsCurrent
task_new-IsQueue tasks x page_directory process e_entry [] (linked, head, tail, current) new =
    let t = task_init page_directory process e_entry in
    (
      record tasks {
        store = write tasks.store x (some t);
        task_head = some x;
        task_tail = some x;
        current_task = some x;
      },
      rw (task_new, head) refl,
      (
        ((t, write_self tasks.store x (some t), refl, refl), refl, tt),
        refl,
        refl,
        rw (==_of_eq x x refl) refl,
      ),
      refl,
    )
task_new-IsQueue tasks x page_directory process e_entry (y ∷ ys) (linked, head, tail, current) new =
    let t = task_init page_directory process e_entry in
    let store = write tasks.store x (some t) in
    let (z, last) = last_some y ys in
    let (st1, step1, front, outside1) =
      relink_last store none none (some x) y ys
        (frame-write tasks.store x (some t) none none (y ∷ ys) new linked) in
    let (st2, step2, back, outside2) =
      new_node st1 x t tasks.task_tail refl (outside1 x new ∙ write_self tasks.store x (some t)) in
    let apart : (a : ℕ) → has a (y ∷ ys) ≡ true → has a (x ∷ []) ≡ false =
      λ a h. not_same x a (y ∷ ys) new h in
    let before : Linked st2 none (y ∷ ys) (some x) =
      frame st1 st2 none (some x) (y ∷ ys) (λ a h. outside2 a (apart a h)) front in
    let joined : Linked st2 none (y ∷ ys ++ (x ∷ [])) none =
      Linked-append st2 none none (y ∷ ys) (x ∷ []) apart before
        (subst (λ p. Linked st2 p (x ∷ []) none) tail back) in
    (
      record tasks { store = st2; task_tail = some x },
      appended tasks x page_directory process e_entry y z st1 st2 head (tail ∙ last)
          (ap (λ p. link_next store p (some x)) (sym last) ∙ step1) step2,
      (
        joined,
        head,
        sym (last_of-append none (y ∷ ys) (x ∷ [])),
        kept_grown x y ys tasks.current_task current,
      ),
      refl,
    )
