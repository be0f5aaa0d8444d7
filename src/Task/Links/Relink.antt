-- ===== src/Task/Links/Relink.antt =====
-- What the assignments to the pointers of a task do to the segment it is in.
use ra_os.Base.{
  ℕ, ◌≡◌, refl, ◌∙◌, sym, ap, subst, ◌==◌, true, false, Option, none, some, List, [], ◌∷◌, ◌>>=◌,
  arith, ==_of_eq, eq_of_==, Bool-cases, inl, inr,
}
use ra_os.Task.{Pointer, Task, Store, write, set_next, set_prev, link_next, link_prev}
use ra_os.Task.Links.{has, first_of, last_of, Linked, Outside, frame}

pub write_self : (store : Store) (x : ℕ) (t : Option Task) → write store x t x ≡ t
write_self store x t = ground (arith, ==_of_eq x x refl)

pub write_other :
    (store : Store) (x : ℕ) (t : Option Task) (a : ℕ)
    → (a == x) ≡ false
    → write store x t a ≡ store a
write_other store x t a h = rw h refl

-- A write to a task outside of a segment leaves the segment as it was.
pub frame-write :
    (store : Store) (x : ℕ) (t : Option Task) (before after : Pointer) (xs : List ℕ)
    → has x xs ≡ false
    → Linked store before xs after
    → Linked (write store x t) before xs after
frame-write store x t before after xs out linked =
    frame store (write store x t) before after xs
      (λ a h. write_other store x t a (elim (Bool-cases (a == x)) [
        | inl e ↦ absurd (ground (arith, subst (λ b. has b xs ≡ true) (eq_of_== a x e) h, out))
        | inr e ↦ e
      ]))
      linked

-- Assigning the `next` of the last task of a segment changes where the segment leads, and no other
-- task.
pub relink_last :
    (store : Store) (before after b : Pointer) (x : ℕ) (xs : List ℕ)
    → Linked store before (x ∷ xs) after
    → (store' : Store) × (link_next store (last_of (some x) xs) b ≡ some store')
      × Linked store' before (x ∷ xs) b
      × Outside store store' (x ∷ xs)
unfolding link_next set_next
relink_last store before after b x [] ((t, at, back, on), new, linked) =
    let t' : Task = record t { next = b } in
    (
      write store x (some t'),
      rw (at, ◌>>=◌) refl,
      ((t', write_self store x (some t'), back, refl), refl, tt),
      λ a h. write_other store x (some t') a (ground (arith, h)),
    )
relink_last store before after b x (y ∷ xs) ((t, at, back, on), new, linked) =
    let (store', step, linked', outside) = relink_last store (some x) after b y xs linked in
    (
      store',
      step,
      ((t, outside x new ∙ at, back, on), new, linked'),
      λ a h. outside a (ground (arith, h)),
    )

pub relink_next :
    (store : Store) (after b : Pointer) (xs : List ℕ)
    → Linked store none xs after
    → (store' : Store) × (link_next store (last_of none xs) b ≡ some store')
      × Linked store' none xs b
      × Outside store store' xs
unfolding link_next
relink_next store after b [] linked = (store, refl, tt, λ a h. refl)
relink_next store after b (x ∷ xs) linked = relink_last store none after b x xs linked

-- Assigning the `prev` of the first task of a segment changes where it comes from, and no other task.
pub relink_prev :
    (store : Store) (before b : Pointer) (xs : List ℕ)
    → Linked store before xs none
    → (store' : Store) × (link_prev store (first_of xs none) b ≡ some store')
      × Linked store' b xs none
      × Outside store store' xs
unfolding link_prev set_prev
relink_prev store before b [] linked = (store, refl, tt, λ a h. refl)
relink_prev store before b (x ∷ xs) ((t, at, back, on), new, linked) =
    let t' : Task = record t { prev = b } in
    (
      write store x (some t'),
      rw (at, ◌>>=◌) refl,
      (
        (t', write_self store x (some t'), refl, on),
        new,
        frame-write store x (some t') (some x) none xs new linked,
      ),
      λ a h. write_other store x (some t') a (ground (arith, h)),
    )

-- A write that keeps the pointers of a task keeps every segment.
pub frame-pointers :
    (store : Store) (x : ℕ) (t t' : Task) (before after : Pointer) (xs : List ℕ)
    → store x ≡ some t
    → t'.prev ≡ t.prev
    → t'.next ≡ t.next
    → Linked store before xs after
    → Linked (write store x (some t')) before xs after
frame-pointers store x t t' before after [] at prev next linked = tt
frame-pointers store x t t' before after (y ∷ xs) at prev next ((u, held, back, on), new, linked) =
    let rest = frame-pointers store x t t' (some y) after xs at prev next linked in
    elim (Bool-cases (y == x)) [
      | inr other ↦ ((u, write_other store x (some t') y other ∙ held, back, on), new, rest)
      | inl same ↦
          let here : y ≡ x = eq_of_== y x same in
          let task : t ≡ u =
            ap (λ o. elim o [ none ↦ t | some v ↦ v ]) (sym at ∙ ap store (sym here) ∙ held) in
          (
            (
              t',
              ap (λ a. write store x (some t') a) here ∙ write_self store x (some t'),
              prev ∙ ap (λ v. v.prev) task ∙ back,
              next ∙ ap (λ v. v.next) task ∙ on,
            ),
            new,
            rest,
          )
    ]
