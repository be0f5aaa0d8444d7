-- ===== src/Base/Fault.antt =====
-- Steps that may leave the memory they are given: `none` is an access outside of it.
use Prim.Native.Nat.{ℕ, zero, suc, ◌<◌, ◌≤◌}
use native.Mathlib.Omega.{arith}
use ra_os.Base.Lists.{length, set}
use mathlib.Core.Path.{◌≡◌, refl}
use mathlib.Core.Option.{Option, none, some}
use mathlib.Core.List.{List, [], ◌∷◌, ◌++◌}

infixl 5 ◌>>=◌
abbrev pub ◌>>=◌ {ℓ κ} : {A : Type ℓ} {B : Type κ} → Option A → (A → Option B) → Option B
some a >>= f = f a
none >>= f = none

-- `a[i] = v`
abbrev pub store {ℓ} : {A : Type ℓ} → List A → ℕ → A → Option (List A)
store [] i v = none
store (x ∷ xs) zero v = some (v ∷ xs)
store (x ∷ xs) (suc i) v = store xs i v >>= λ ys. some (x ∷ ys)

module _ {ℓ} {A : Type ℓ} where
  -- A store behind the elements `pre` replaces the next element.
  pub store-middle :
      (pre : List A) (x v : A) (ys : List A) (i : ℕ)
      → i ≡ length pre
      → store (pre ++ x ∷ ys) i v ≡ some (pre ++ v ∷ ys)
  store-middle [] x v ys zero e = refl
  store-middle [] x v ys (suc i) e = absurd (omega arith)
  store-middle (p ∷ pre) x v ys zero e = absurd (omega arith)
  store-middle (p ∷ pre) x v ys (suc i) e = rw (store-middle pre x v ys i (omega arith))

  -- A store past the end is a fault, and one inside is none and keeps the length.
  pub store-past : (t : List A) (i : ℕ) (v : A) → length t ≤ i → store t i v ≡ none
  store-past [] i v h = refl
  store-past (x ∷ t) zero v h = absurd (omega arith)
  store-past (x ∷ t) (suc i) v h = rw (store-past t i v (omega arith))

  pub store-inside : (t : List A) (i : ℕ) (v : A) → i < length t → store t i v ≡ some (set t i v)
  store-inside [] i v h = absurd (omega arith)
  store-inside (x ∷ t) zero v h = refl
  store-inside (x ∷ t) (suc i) v h = rw (store-inside t i v (omega arith))
