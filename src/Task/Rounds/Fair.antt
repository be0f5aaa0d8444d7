-- ===== src/Task/Rounds/Fair.antt =====
-- Every task has its turn.
use ra_os.Base.{
  ℕ, zero, suc, ◌+◌, ◌≤◌, ◌≡◌, refl, ◌∙◌, sym, ap, subst, ◌==◌, true, Option, none, some, List, [],
  ◌∷◌, ◌++◌, ◌>>=◌, arith, eq_of_==, Bool-cases, Option-cases, inl, inr, length, length-append,
}
use mathlib.Core.List.{append_assoc}
use ra_os.Task.{Tasks, Registers, task_next}
use ra_os.Task.Links.{has, first_of, has-append}
use ra_os.Task.Queue.{IsCurrent, IsQueue}
use ra_os.Task.Rounds.{task_next-Switched}

-- The tasks after `n` switches.
unfoldable pub run : ℕ → Tasks → Option Tasks
run zero tasks = some tasks
run (suc n) tasks = task_next tasks >>= λ switched. run n switched.0

-- After `n` switches task `y` of the list is the current one.
abbrev pub Reaches : ℕ → Tasks → List ℕ → ℕ → Type 0
Reaches n tasks xs y =
    (tasks' : Tasks) × (run n tasks ≡ some tasks')
    × IsQueue tasks' xs
    × (tasks'.current_task ≡ some y)

-- Task `c` is the current one of the list.
abbrev pub Runs : Tasks → List ℕ → ℕ → Type 0
Runs tasks xs c = IsQueue tasks xs × (tasks.current_task ≡ some c)

one_more :
    (n : ℕ) (tasks tasks' : Tasks) (registers : Registers) (xs : List ℕ) (y : ℕ)
    → task_next tasks ≡ some (tasks', registers)
    → Reaches n tasks' xs y
    → Reaches (suc n) tasks xs y
unfolding run
one_more n tasks tasks' registers xs y step (last, ran, queue, at) =
    (last, rw (step, ◌>>=◌) ran, queue, at)

one_round :
    (tasks : Tasks) (c m : ℕ) (l r : List ℕ)
    → Runs tasks (l ++ (c ∷ r)) c
    → first_of r (first_of (l ++ (c ∷ r)) none) ≡ some m
    → (tasks' : Tasks) × (registers : Registers) × (task_next tasks ≡ some (tasks', registers))
      × Runs tasks' (l ++ (c ∷ r)) m
one_round tasks c m l r (queue, at) chosen =
    let (m', tasks', registers, chosen', step, (queue', at', kept, loaded)) =
      task_next-Switched tasks c l r queue at in
    let equal : some m' ≡ some m = sym chosen' ∙ chosen in
    (tasks', registers, step, (queue', at' ∙ equal))

shift : (l : List ℕ) (c : ℕ) (r : List ℕ) → (l ++ (c ∷ [])) ++ r ≡ l ++ (c ∷ r)
shift l c r = append_assoc l (c ∷ []) r

walk :
    (m : List ℕ) (tasks : Tasks) (c y : ℕ) (l r xs : List ℕ)
    → xs ≡ l ++ (c ∷ (m ++ (y ∷ r)))
    → Runs tasks xs c
    → Reaches (suc (length m)) tasks xs y
unfolding run
walk [] tasks c y l r xs e runs =
    let (tasks', registers, step, (queue', at')) =
      one_round tasks c y l (y ∷ r) (subst (λ k. Runs tasks k c) e runs) refl in
    one_more 0 tasks tasks' registers xs y step
      (tasks', refl, subst (λ k. IsQueue tasks' k) (sym e) queue', at')
walk (z ∷ m) tasks c y l r xs e runs =
    let (tasks', registers, step, next) =
      one_round tasks c z l (z ∷ m ++ (y ∷ r)) (subst (λ k. Runs tasks k c) e runs) refl in
    one_more (suc (length m)) tasks tasks' registers xs y step (
      walk m tasks' z y (l ++ (c ∷ [])) r xs (e ∙ sym (shift l c (z ∷ m ++ (y ∷ r))))
        (subst (λ k. Runs tasks' k z) (sym e) next))

to_head :
    (r : List ℕ) (tasks : Tasks) (c h : ℕ) (l xs : List ℕ)
    → xs ≡ l ++ (c ∷ r)
    → first_of xs none ≡ some h
    → Runs tasks xs c
    → Reaches (suc (length r)) tasks xs h
unfolding run
to_head [] tasks c h l xs e first runs =
    let (tasks', registers, step, (queue', at')) =
      one_round tasks c h l [] (subst (λ k. Runs tasks k c) e runs)
        (ap (λ k. first_of k none) (sym e) ∙ first) in
    one_more 0 tasks tasks' registers xs h step
      (tasks', refl, subst (λ k. IsQueue tasks' k) (sym e) queue', at')
to_head (z ∷ r) tasks c h l xs e first runs =
    let (tasks', registers, step, next) =
      one_round tasks c z l (z ∷ r) (subst (λ k. Runs tasks k c) e runs) refl in
    one_more (suc (length r)) tasks tasks' registers xs h step (
      to_head r tasks' z h (l ++ (c ∷ [])) xs (e ∙ sym (shift l c (z ∷ r))) first
        (subst (λ k. Runs tasks' k z) (sym e) next))

then_more :
    (a b n : ℕ) (tasks : Tasks) (xs : List ℕ) (y z : ℕ)
    → n ≡ a + b
    → Reaches a tasks xs y
    → ((tasks' : Tasks) → Runs tasks' xs y → Reaches b tasks' xs z)
    → Reaches n tasks xs z
unfolding run
then_more zero b n tasks xs y z e (last, ran, queue, at) next =
    let same : tasks ≡ last = ap (λ o. elim o [ none ↦ tasks | some t ↦ t ]) ran in
    let n_b : n ≡ b = omega arith in
    subst (λ k. Reaches k tasks xs z) (sym n_b)
      (subst (λ t. Reaches b t xs z) (sym same) (next last (queue, at)))
then_more (suc a) b zero tasks xs y z e (last, ran, queue, at) next = absurd (omega arith)
then_more (suc a) b (suc n) tasks xs y z e (last, ran, queue, at) next =
    elim (Option-cases (task_next tasks)) [
      | inl stuck ↦ absurd (ground (arith, stuck, ran))
      | inr ((tasks1, registers), step) ↦
          let ran1 : run a tasks1 ≡ some last =
            subst (λ o. (o >>= λ switched. run a switched.0) ≡ some last) step ran in
          one_more n tasks tasks1 registers xs z step
            (then_more a b n tasks1 xs y z (omega arith) (last, ran1, queue, at) next)
    ]

pub split_at :
    (y : ℕ) (xs : List ℕ) → has y xs ≡ true → (l : List ℕ) × (r : List ℕ) × (xs ≡ l ++ (y ∷ r))
split_at y [] h = absurd (ground (arith, h))
split_at y (x ∷ xs) h = elim (Bool-cases (y == x)) [
  | inl e ↦ ([], xs, ap (λ z. z ∷ xs) (sym (eq_of_== y x e)))
  | inr e ↦
      let (l, r, split) = split_at y xs (ground (arith, h, e)) in (x ∷ l, r, ap (λ k. x ∷ k) split)
]

before_it :
    (tasks : Tasks) (c y : ℕ) (l r : List ℕ)
    → Runs tasks (l ++ (c ∷ r)) c
    → (l1 : List ℕ) × (l2 : List ℕ) × (l ≡ l1 ++ (y ∷ l2))
    → (n : ℕ) × (n ≤ length (l ++ (c ∷ r))) × Reaches n tasks (l ++ (c ∷ r)) y
before_it tasks c y l r runs ([], l2, e) =
    let size = length-append l (c ∷ r) in
    (
      suc (length r),
      omega (arith, size),
      to_head r tasks c y l (l ++ (c ∷ r)) refl (ap (λ k. first_of (k ++ (c ∷ r)) none) e) runs,
    )
before_it tasks c y l r runs (h ∷ m, l2, e) =
    let size = length-append l (c ∷ r) in
    let parts = ap length e ∙ length-append (h ∷ m) (y ∷ l2) in
    let whole : l ++ (c ∷ r) ≡ h ∷ (m ++ (y ∷ (l2 ++ (c ∷ r)))) =
      ap (λ k. k ++ (c ∷ r)) e ∙ ap (λ k. h ∷ k) (append_assoc m (y ∷ l2) (c ∷ r)) in
    (
      suc (length r) + suc (length m),
      omega (arith, size, parts),
      then_more (suc (length r)) (suc (length m)) (suc (length r) + suc (length m)) tasks
          (l ++ (c ∷ r)) h y refl
          (to_head r tasks c h l (l ++ (c ∷ r)) refl (ap (λ k. first_of k none) whole) runs)
          (λ tasks' runs'. walk m tasks' h y [] (l2 ++ (c ∷ r)) (l ++ (c ∷ r)) whole runs'),
    )

-- From a list with `c` between `l` and `r` as the current task, each task `y` of it is the current one
-- after at most as many switches as there are tasks.
reached :
    (tasks : Tasks) (c y : ℕ) (l r : List ℕ)
    → Runs tasks (l ++ (c ∷ r)) c
    → has y (l ++ (c ∷ r)) ≡ true
    → (n : ℕ) × (n ≤ length (l ++ (c ∷ r))) × Reaches n tasks (l ++ (c ∷ r)) y
unfolding run
reached tasks c y l r runs inside =
    let whole = l ++ (c ∷ r) in
    let size = length-append l (c ∷ r) in
    elim (Bool-cases (has y r)) [
      | inl behind ↦
          let (m, r2, e) = split_at y r behind in
          (
            suc (length m),
            omega (arith, size, ap length e, length-append m (y ∷ r2)),
            walk m tasks c y l r2 whole (ap (λ k. l ++ (c ∷ k)) e) runs,
          )
      | inr not_behind ↦ elim (Bool-cases (has y l)) [
        | inr not_before ↦
            let same : (y == c) ≡ true =
              ground (arith, inside, not_before, not_behind, has-append y l (c ∷ r)) in
            (0, omega arith, (tasks, refl, runs.0, runs.1 ∙ ap some (sym (eq_of_== y c same))))
        | inl before ↦ before_it tasks c y l r runs (split_at y l before)
      ]
    ]

run_from :
    (tasks : Tasks) (xs : List ℕ) (c y : ℕ)
    → Runs tasks xs c
    → has c xs ≡ true
    → has y xs ≡ true
    → (n : ℕ) × (n ≤ length xs) × Reaches n tasks xs y
run_from tasks xs c y runs at inside =
    let (l, r, e) = split_at c xs at in
    subst (λ k. (n : ℕ) × (n ≤ length k) × Reaches n tasks k y) (sym e)
      (reached tasks c y l r (subst (λ k. Runs tasks k c) e runs)
        (subst (λ k. has y k ≡ true) e inside))

-- Of a list of tasks that is not empty, each task `y` is the current one after at most as many switches
-- as there are tasks, none of which fails; the list stays.
pub run-Reaches :
    (tasks : Tasks) (xs : List ℕ) (y : ℕ)
    → IsQueue tasks xs
    → has y xs ≡ true
    → (n : ℕ) × (n ≤ length xs) × Reaches n tasks xs y
unfolding IsCurrent
run-Reaches tasks xs y (linked, head, tail, current) inside =
    elim (Option-cases tasks.current_task) [
      | inl nobody ↦
          let empty : xs ≡ [] = subst (λ p. IsCurrent p xs) nobody current in
          absurd (ground (arith, subst (λ k. has y k ≡ true) empty inside))
      | inr (c, at) ↦
          run_from tasks xs c y ((linked, head, tail, current), at)
            (subst (λ p. IsCurrent p xs) at current) inside
    ]
