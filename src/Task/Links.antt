-- ===== src/Task/Links.antt =====
-- Doubly linked segments of tasks.
pub mod Relink
use ra_os.Base.{
  ℕ, ◌≡◌, ◌≢◌, refl, ◌∙◌, sym, ap, subst, ◌==◌, if◌then◌else◌, Bool, true, false, ◌||◌, Option,
  none, some, List, [], ◌∷◌, ◌++◌, ◌>>=◌, arith, tests, ==_of_eq, ==_of_ne, eq_of_==, ne_of_==,
  Bool-cases, inl, inr,
}
use ra_os.Task.{Pointer, Task, Store, write, set_next, set_prev, link_next, link_prev}

abbrev pub has : ℕ → List ℕ → Bool
has a [] = false
has a (x ∷ xs) = a == x || has a xs

-- The first element or what comes behind the list, and the last or what comes before it.
abbrev pub first_of : List ℕ → Pointer → Pointer
first_of [] after = after
first_of (x ∷ xs) after = some x

abbrev pub last_of : Pointer → List ℕ → Pointer
last_of before [] = before
last_of before (x ∷ xs) = last_of (some x) xs

-- A task at `x` whose pointers are `prev` and `next`.
abbrev pub Node : Store → ℕ → Pointer → Pointer → Type 0
Node store x prev next = (t : Task) × (store x ≡ some t) × (t.prev ≡ prev) × (t.next ≡ next)

-- The distinct tasks `xs` are linked in both directions, between `before` and `after`.
abbrev pub Linked : Store → Pointer → List ℕ → Pointer → Type 0
Linked store before [] after = Unit
Linked store before (x ∷ xs) after =
    Node store x before (first_of xs after) × (has x xs ≡ false) × Linked store (some x) xs after

-- Two stores agree on the tasks `xs`.
abbrev pub Agree : Store → Store → List ℕ → Type 0
Agree store store' xs = (a : ℕ) → has a xs ≡ true → store' a ≡ store a

-- They agree but for the tasks `xs`.
abbrev pub Outside : Store → Store → List ℕ → Type 0
Outside store store' xs = (a : ℕ) → has a xs ≡ false → store' a ≡ store a

pub has-append : (a : ℕ) (xs ys : List ℕ) → has a (xs ++ ys) ≡ (has a xs || has a ys)
has-append a [] ys = refl
has-append a (x ∷ xs) ys = ground (arith, has-append a xs ys)

pub frame :
    (store store' : Store) (before after : Pointer) (xs : List ℕ)
    → Agree store store' xs
    → Linked store before xs after
    → Linked store' before xs after
frame store store' before after [] same linked = tt
frame store store' before after (x ∷ xs) same ((t, at, back, on), new, linked) = (
  (t, same x (ground arith) ∙ at, back, on),
  new,
  frame store store' (some x) after xs (λ a h. same a (ground arith)) linked,
)

pub first_of-append :
    (xs ys : List ℕ) (after : Pointer) → first_of xs (first_of ys after) ≡ first_of (xs ++ ys) after
first_of-append [] ys after = refl
first_of-append (x ∷ xs) ys after = refl

pub last_of-append :
    (before : Pointer) (xs ys : List ℕ) → last_of before (xs ++ ys) ≡ last_of (last_of before xs) ys
last_of-append before [] ys = refl
last_of-append before (x ∷ xs) ys = last_of-append (some x) xs ys

pub Linked-append :
    (store : Store) (before after : Pointer) (xs ys : List ℕ)
    → ((a : ℕ) → has a xs ≡ true → has a ys ≡ false)
    → Linked store before xs (first_of ys after)
    → Linked store (last_of before xs) ys after
    → Linked store before (xs ++ ys) after
Linked-append store before after [] ys apart front back = back
Linked-append store before after (x ∷ xs) ys apart (node, new, front) back = (
  subst (λ p. Node store x before p) (first_of-append xs ys after) node,
  has-append x xs ys ∙ ground (arith, apart x),
  Linked-append store (some x) after xs ys (λ a h. apart a (ground arith)) front back,
)

pub Linked-front :
    (store : Store) (before after : Pointer) (xs ys : List ℕ)
    → Linked store before (xs ++ ys) after
    → Linked store before xs (first_of ys after)
Linked-front store before after [] ys linked = tt
Linked-front store before after (x ∷ xs) ys (node, new, linked) = (
  subst (λ p. Node store x before p) (sym (first_of-append xs ys after)) node,
  ground (arith, new, has-append x xs ys),
  Linked-front store (some x) after xs ys linked,
)

pub Linked-back :
    (store : Store) (before after : Pointer) (xs ys : List ℕ)
    → Linked store before (xs ++ ys) after
    → Linked store (last_of before xs) ys after
Linked-back store before after [] ys linked = linked
Linked-back store before after (x ∷ xs) ys (node, new, linked) =
    Linked-back store (some x) after xs ys linked

pub Linked-apart :
    (store : Store) (before after : Pointer) (xs ys : List ℕ)
    → Linked store before (xs ++ ys) after
    → (a : ℕ) → has a xs ≡ true
    → has a ys ≡ false
Linked-apart store before after [] ys linked a h = ground (arith, h)
Linked-apart store before after (x ∷ xs) ys (node, new, linked) a h =
    let rest = Linked-apart store (some x) after xs ys linked a in
    let split = has-append x xs ys in
    elim (Bool-cases (a == x)) [
      | inl e ↦
          let same : a ≡ x = eq_of_== a x e in
          subst (λ b. has b ys ≡ false) (sym same) (ground (arith, new, split))
      | inr e ↦ rest (ground (arith, h, e))
    ]
