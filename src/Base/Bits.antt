-- ===== src/Base/Bits.antt =====
-- The masks that the kernel uses, as arithmetic: `x & (2^k - 1)` is a remainder, `x & 0xfffff000`
-- drops the offset in a page, and `|` of a multiple of 2^k with a number below 2^k is a sum.
use Prim.Native.Nat.{
  ℕ, zero, suc, ◌+◌, ◌*◌, ◌/◌, ◌%◌, ◌^◌, ◌≤◌, ◌<◌, min, max, bit_and, bit_or, digits,
  bit_and-bitwise, bit_or-bitwise,
}
use mathlib.Core.Path.{◌≡◌, refl, ap, subst, ◌∙◌}
use native.Mathlib.Omega.{arith}
use native.Mathlib.Nat.{div-div-eq-div-mul, pow-suc, one-le-pow}

-- Two counts of rounds, each enough for the digits of the first number, give one result.
module _ (z : ℕ → ℕ) (f : ℕ → ℕ → ℕ) where
  digits-rounds : (n m a b : ℕ) → a ≤ n → a ≤ m → digits z f n a b ≡ digits z f m a b
  digits-rounds zero zero a b h k = refl
  digits-rounds zero (suc m) zero b h k = refl
  digits-rounds (suc n) zero zero b h k = refl
  digits-rounds (suc n) (suc m) zero b h k = refl
  digits-rounds zero (suc m) (suc a) b h k = absurd (omega arith)
  digits-rounds (suc n) zero (suc a) b h k = absurd (omega arith)
  digits-rounds (suc n) (suc m) (suc a) b h k =
      ap (λ t. t * 2 + f (suc a % 2) (b % 2))
        (digits-rounds n m (suc a / 2) (b / 2) (omega arith) (omega arith))

bit_and-halves : (a b : ℕ) → bit_and a b ≡ bit_and (a / 2) (b / 2) * 2 + min (a % 2) (b % 2)
bit_and-halves zero b = simp bit_and-bitwise (omega arith)
bit_and-halves (suc a) b = simp bit_and-bitwise (
    omega (
      arith,
      digits-rounds (λ y. 0) min a (suc a / 2) (suc a / 2) (b / 2) (omega arith) (omega arith),
    ))

pub bit_or-halves : (a b : ℕ) → bit_or a b ≡ bit_or (a / 2) (b / 2) * 2 + max (a % 2) (b % 2)
bit_or-halves zero b = simp bit_or-bitwise (omega arith)
bit_or-halves (suc a) b = simp bit_or-bitwise (
    omega (
      arith,
      digits-rounds (λ y. y) max a (suc a / 2) (suc a / 2) (b / 2) (omega arith) (omega arith),
    ))

-- `n` bounds the number, which is halved in each round.
bit_and-zero_below : (n a : ℕ) → a ≤ n → bit_and a 0 ≡ 0
bit_and-zero_below n zero h = refl
bit_and-zero_below zero (suc a) h = absurd (omega arith)
bit_and-zero_below (suc n) (suc a) h =
    omega (arith, bit_and-halves (suc a) 0, bit_and-zero_below n (suc a / 2) (omega arith))

bit_or-zero_below : (n a : ℕ) → a ≤ n → bit_or a 0 ≡ a
bit_or-zero_below n zero h = refl
bit_or-zero_below zero (suc a) h = absurd (omega arith)
bit_or-zero_below (suc n) (suc a) h =
    omega (arith, bit_or-halves (suc a) 0, bit_or-zero_below n (suc a / 2) (omega arith))

pub bit_and-zero : (a : ℕ) → bit_and a 0 ≡ 0
bit_and-zero a = bit_and-zero_below a a (omega arith)

pub bit_or-zero : (a : ℕ) → bit_or a 0 ≡ a
bit_or-zero a = bit_or-zero_below a a (omega arith)

-- The number is given as its high and low part, so that the induction is on the width alone.
bit_and-parts : (k q r m : ℕ) → r < 2 ^ k → m + 1 ≡ 2 ^ k → bit_and (q * 2 ^ k + r) m ≡ r
bit_and-parts zero q r m h e =
    let none_left : m ≡ 0 = omega arith in rw (none_left, bit_and-zero) (omega arith)
bit_and-parts (suc k) q r m h e =
    let double : q * 2 ^ suc k ≡ 2 * (q * 2 ^ k) =
      omega (arith, ap (λ (t : ℕ). q * t) (pow-suc 2 k)) in
    let half : (q * 2 ^ suc k + r) / 2 ≡ q * 2 ^ k + r / 2 = omega arith in
    rw (bit_and-halves (q * 2 ^ suc k + r) m, half)
      (omega (
        arith,
        pow-suc 2 k,
        bit_and-parts k q (r / 2) (m / 2) (omega (arith, pow-suc 2 k)) (omega (arith, pow-suc 2 k)),
      ))

-- `a & m`, for m = 2^k - 1.
pub bit_and-mask : (k a m : ℕ) → m + 1 ≡ 2 ^ k → bit_and a m ≡ a % 2 ^ k
bit_and-mask k a m e =
    subst (λ x. bit_and x m ≡ a % 2 ^ k) (omega (arith, one-le-pow k 2))
      (bit_and-parts k (a / 2 ^ k) (a % 2 ^ k) m (omega (arith, one-le-pow k 2)) e)

-- `(q << k) | r`, for r < 2^k.
pub bit_or-parts : (k q r : ℕ) → r < 2 ^ k → bit_or (q * 2 ^ k) r ≡ q * 2 ^ k + r
bit_or-parts zero q r h = let gone : r ≡ 0 = omega arith in rw (gone, bit_or-zero) (omega arith)
bit_or-parts (suc k) q r h =
    let double : q * 2 ^ suc k ≡ 2 * (q * 2 ^ k) =
      omega (arith, ap (λ (t : ℕ). q * t) (pow-suc 2 k)) in
    let half : q * 2 ^ suc k / 2 ≡ q * 2 ^ k = omega arith in
    rw (bit_or-halves (q * 2 ^ suc k) r, half)
      (omega (arith, bit_or-parts k q (r / 2) (omega (arith, pow-suc 2 k))))

-- A mask that ends in a zero bit drops that bit.
bit_and-even : (a m : ℕ) → bit_and a (2 * m) ≡ bit_and (a / 2) m * 2
bit_and-even a m =
    let half : 2 * m / 2 ≡ m = omega arith in rw (bit_and-halves a (2 * m), half) (omega arith)

bit_and-shift : (k a m s : ℕ) → s ≡ m * 2 ^ k → bit_and a s ≡ bit_and (a / 2 ^ k) m * 2 ^ k
bit_and-shift zero a m s e =
    let same : s ≡ m = omega arith in
    rw (same) (omega (arith, ap (λ t. bit_and t m) {x = a / 1} {y = a} (omega arith)))
bit_and-shift (suc k) a m s e =
    let double : s ≡ 2 * (m * 2 ^ k) = omega (arith, ap (λ (t : ℕ). m * t) (pow-suc 2 k)) in
    let quotient : a / 2 / 2 ^ k ≡ a / 2 ^ suc k =
      div-div-eq-div-mul a 2 (2 ^ k) ∙ ap (λ t. a / t) (omega (arith, pow-suc 2 k)) in
    rw (double, bit_and-even a (m * 2 ^ k), bit_and-shift k (a / 2) m (m * 2 ^ k) refl, quotient)
      (omega (arith, ap (λ t. bit_and (a / 2 ^ suc k) m * t) (pow-suc 2 k)))

-- `a & 0xfffff000` for a 32-bit word: the page that it points into.
pub bit_and-page : (a : ℕ) → a < 2 ^ 32 → bit_and a 0xfffff000 ≡ a / 4096 * 4096
bit_and-page a h =
    rw (bit_and-shift 12 a 0xfffff 0xfffff000 refl, bit_and-mask 20 (a / 4096) 0xfffff refl)
      (omega arith)

-- A word whose page part is `q * 4096`, with flags in the low twelve bits.
pub bit_or-flags : (a flags : ℕ) → a % 4096 ≡ 0 → flags < 4096 → bit_or a flags ≡ a + flags
bit_or-flags a flags h k =
    subst (λ x. bit_or x flags ≡ x + flags) {x = a / 4096 * 4096} (omega arith)
      (bit_or-parts 12 (a / 4096) flags k)

-- `a | 2`
pub bit_or-two : (a : ℕ) → bit_or a 2 ≡ a / 4 * 4 + 2 + a % 2
bit_or-two a = omega (arith, bit_or-halves a 2, bit_or-halves (a / 2) 1, bit_or-zero (a / 2 / 2))
