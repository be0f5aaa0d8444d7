-- ===== src/Task/Queue.antt =====
-- The list of tasks refines a list of addresses, with the current task among them.
pub mod Change
pub mod New
use ra_os.Base.{
  ℕ, ◌≡◌, ◌≢◌, refl, ◌∙◌, sym, ap, subst, ◌==◌, if◌then◌else◌, Bool, true, false, ◌||◌, Option,
  none, some, List, [], ◌∷◌, ◌++◌, ◌>>=◌, arith, tests, ==_of_eq, ==_of_ne, eq_of_==, ne_of_==,
  Bool-cases, inl, inr,
}
use mathlib.Core.Path.{ap₂}
use ra_os.Task.{
  Pointer, Task, Store, Tasks, write, set_next, set_prev, link_next, link_prev, points_to,
  task_init, task_new, task_get_next, task_list_remove, task_free,
}
use ra_os.Task.Links.{
  has, first_of, last_of, Node, Linked, Agree, Outside, frame, has-append, first_of-append,
  last_of-append, Linked-append, Linked-front, Linked-back, Linked-apart,
}
use ra_os.Task.Links.Relink.{
  write_self, write_other, frame-write, relink_last, relink_next, relink_prev,
}

unfoldable pub IsCurrent : Pointer → List ℕ → Type 0
IsCurrent none xs = xs ≡ []
IsCurrent (some c) xs = has c xs ≡ true

-- The variables stand for the list `xs`: its tasks are distinct and linked both ways, the head and the
-- tail are its ends, and the current task is one of them, unless there is none.
abbrev pub IsQueue : Tasks → List ℕ → Type 0
IsQueue tasks xs =
    Linked tasks.store none xs none
    × (tasks.task_head ≡ first_of xs none)
    × (tasks.task_tail ≡ last_of none xs)
    × IsCurrent tasks.current_task xs

pub new_head :
    (x : ℕ) (l r : List ℕ)
    → has x l ≡ false
    → (if points_to (first_of (l ++ (x ∷ r)) none) x
        then first_of r none
        else first_of (l ++ (x ∷ r)) none)
      ≡ first_of (l ++ r) none
new_head x [] r out = rw (==_of_eq x x refl) refl
new_head x (y ∷ l) r out = ground (arith, out)

pub last_other :
    (x y : ℕ) (r : List ℕ) → has x (y ∷ r) ≡ false → points_to (last_of (some y) r) x ≡ false
last_other x y [] out = ground (arith, out)
last_other x y (z ∷ r) out = last_other x z r (ground (arith, out))

pub new_tail :
    (x : ℕ) (l r : List ℕ)
    → has x r ≡ false
    → (if points_to (last_of none (l ++ (x ∷ r))) x
        then last_of none l
        else last_of none (l ++ (x ∷ r)))
      ≡ last_of none (l ++ r)
new_tail x l [] out =
    rw (last_of-append none l (x ∷ []), ==_of_eq x x refl) (sym (last_of-append none l []))
new_tail x l (y ∷ r) out =
    rw (last_of-append none l (x ∷ y ∷ r), last_of-append none l (y ∷ r), last_other x y r out) refl

-- The task after a removed one: the next, or the first of those before it.
pub chosen_next : (l r : List ℕ) → IsCurrent (first_of r (first_of l none)) (l ++ r)
unfolding IsCurrent
chosen_next [] [] = refl
chosen_next [] (y ∷ r) = rw (==_of_eq y y refl) refl
chosen_next (z ∷ l) [] = rw (==_of_eq z z refl) refl
chosen_next (z ∷ l) (y ∷ r) =
    let found : has y (y ∷ r) ≡ true = rw (==_of_eq y y refl) refl in
    ground (arith, has-append y l (y ∷ r), found)

pub kept_chosen :
    (x : ℕ) (l r : List ℕ) (current : Pointer)
    → points_to current x ≡ false
    → IsCurrent current (l ++ (x ∷ r))
    → IsCurrent current (l ++ r)
unfolding IsCurrent
kept_chosen x [] r none other h = absurd (ground (arith, h))
kept_chosen x (z ∷ l) r none other h = absurd (ground (arith, h))
kept_chosen x l r (some c) other h =
    ground (arith, other, h, has-append c l (x ∷ r), has-append c l r)

pub not_in_front :
    (store : Store) (x : ℕ) (l r : List ℕ) → Linked store none (l ++ (x ∷ r)) none → has x l ≡ false
not_in_front store x l r linked = elim (Bool-cases (has x l)) [
  | inr out ↦ out
  | inl inside ↦
      let apart = Linked-apart store none none l (x ∷ r) linked x inside in
      absurd (ground (arith, ==_of_eq x x refl, apart))
]

-- `task_list_remove`, when the two links beside the task were set.
pub removed :
    (tasks : Tasks) (x : ℕ) (t : Task) (st1 st2 : Store)
    → tasks.store x ≡ some t
    → link_next tasks.store t.prev t.next ≡ some st1
    → st1 x ≡ some t
    → link_prev st1 t.next t.prev ≡ some st2
    → st2 x ≡ some t
    → let unlinked : Tasks = record tasks {
      store = st2;
      task_head = (if points_to tasks.task_head x then t.next else tasks.task_head);
      task_tail = (if points_to tasks.task_tail x then t.prev else tasks.task_tail);
    } in
      task_list_remove tasks x ≡ elim (points_to tasks.current_task x) [
        | false ↦ some unlinked
        | true ↦ (task_get_next unlinked >>= λ next. some (record unlinked { current_task = next }))
      ]
unfolding task_list_remove
removed tasks x t st1 st2 at step1 at1 step2 at2 =
    rw (task_list_remove, at, ◌>>=◌, step1, at1, step2, at2) refl
