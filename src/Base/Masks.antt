-- ===== src/Base/Masks.antt =====
-- `&` with a mask of one digit, and `|` of numbers that share no digit.
use Prim.Native.Nat.{ℕ, zero, suc, ◌+◌, ◌-◌, ◌*◌, ◌/◌, ◌%◌, ◌^◌, ◌≤◌, ◌<◌, min, max}
use Prim.Native.Nat.{bit_and, bit_or, bit_and-bitwise, bit_or-bitwise}
use mathlib.Core.Path.{◌≡◌, refl, ap, ap₂, ◌∙◌}
use mathlib.Core.Bool.{Bool, true, false, not}
use mathlib.Core.Logic.{◌⊎◌, inl, inr}
use native.Mathlib.Nat.{pow-suc, one-le-pow, div-div-eq-div-mul, mod-add-div'}
use native.Mathlib.Omega.{arith}
use cloudfs.Base.Tests.{◌==◌}
use cloudfs.Base.Digits.{enough_digits}
use cloudfs.Base.Bits.{shift_suc}

zero-or : (b : ℕ) → bit_or 0 b ≡ b
zero-or b = bit_or-bitwise 0 b

zero-and : (b : ℕ) → bit_and 0 b ≡ 0
zero-and b = bit_and-bitwise 0 b

or_step : (a b : ℕ) → bit_or a b ≡ bit_or (a / 2) (b / 2) * 2 + max (a % 2) (b % 2)
or_step zero b = omega (arith, zero-or b, zero-or (b / 2))
or_step (suc a) b = omega (
  arith,
  bit_or-bitwise (suc a) b,
  bit_or-bitwise (suc a / 2) (b / 2),
  enough_digits (λ y. y) max a (suc a / 2) (b / 2) (omega arith),
)

and_step : (a b : ℕ) → bit_and a b ≡ bit_and (a / 2) (b / 2) * 2 + min (a % 2) (b % 2)
and_step zero b = omega (arith, zero-and b, zero-and (b / 2))
and_step (suc a) b = omega (
  arith,
  bit_and-bitwise (suc a) b,
  bit_and-bitwise (suc a / 2) (b / 2),
  enough_digits (λ y. 0) min a (suc a / 2) (b / 2) (omega arith),
)

or_zero_fuel : (n a : ℕ) → a ≤ n → (bit_or a 0 ≡ a) × (bit_and a 0 ≡ 0)
or_zero_fuel n zero h = (refl, refl)
or_zero_fuel zero (suc a) h = absurd (omega arith)
or_zero_fuel (suc n) (suc a) h =
    omega (arith, or_step (suc a) 0, and_step (suc a) 0, or_zero_fuel n (suc a / 2) (omega arith))

pub or-zero : (a : ℕ) → bit_or a 0 ≡ a
or-zero a = (or_zero_fuel a a (omega arith)).0

pub and-zero : (a : ℕ) → bit_and a 0 ≡ 0
and-zero a = (or_zero_fuel a a (omega arith)).1

-- `|` of a number below digit `k` with one that is zero there is their sum.
pub or-add : (k q r : ℕ) → r < 2 ^ k → bit_or r (q * 2 ^ k) ≡ q * 2 ^ k + r
or-add zero q r h = at_zero r (omega arith)
  where
    at_zero : (r : ℕ) → r ≡ 0 → bit_or r (q * 1) ≡ q * 1 + r
    at_zero r e = rw e (omega (arith, zero-or (q * 1)))
or-add (suc k) q r h =
    ground (arith, or_step r (q * 2 ^ suc k), shift_suc q k, pow-suc 2 k, or-add k q (r / 2))

pub or-add' : (k q r : ℕ) → r < 2 ^ k → bit_or (q * 2 ^ k) r ≡ q * 2 ^ k + r
or-add' zero q r h = at_zero r (omega arith)
  where
    at_zero : (r : ℕ) → r ≡ 0 → bit_or (q * 1) r ≡ q * 1 + r
    at_zero r e = rw e (omega (arith, or-zero (q * 1)))
or-add' (suc k) q r h =
    ground (arith, or_step (q * 2 ^ suc k) r, shift_suc q k, pow-suc 2 k, or-add' k q (r / 2))

-- `x & (1 << i)` picks digit `i`.
pub and_pow : (i x : ℕ) → bit_and x (2 ^ i) ≡ x / 2 ^ i % 2 * 2 ^ i
and_pow zero x = omega (arith, and_step x 1, and-zero (x / 2))
and_pow (suc i) x = omega (
  arith,
  and_step x (2 ^ suc i),
  pow-suc 2 i,
  div-div-eq-div-mul x 2 (2 ^ i),
  ap (λ (t : ℕ). x / t) {x = 2 * 2 ^ i} {y = 2 ^ suc i} (omega (arith, pow-suc 2 i)),
  shift_suc (x / 2 / 2 ^ i % 2) i,
  ap (λ (t : ℕ). t % 2 * 2 ^ suc i) {x = x / 2 / 2 ^ i} {y = x / 2 ^ suc i}
      (div-div-eq-div-mul x 2 (2 ^ i)
        ∙ ap (λ (t : ℕ). x / t) {x = 2 * 2 ^ i} {y = 2 ^ suc i} (omega (arith, pow-suc 2 i))),
  ap (bit_and (x / 2)) {x = 2 ^ suc i / 2} {y = 2 ^ i} (omega (arith, pow-suc 2 i)),
  and_pow i (x / 2),
)

-- The test `x & (1 << i)` of C.
abbrev pub has_bit : ℕ → ℕ → Bool
has_bit x i = not (bit_and x (2 ^ i) == 0)

pub has_bit-cases :
    (x i : ℕ)
    → ((has_bit x i ≡ true) × (x / 2 ^ i % 2 ≡ 1)) ⊎ ((has_bit x i ≡ false) × (x / 2 ^ i % 2 ≡ 0))
has_bit-cases x i = go (x / 2 ^ i % 2) refl
  where
    go :
        (q : ℕ)
        → x / 2 ^ i % 2 ≡ q
        → ((has_bit x i ≡ true) × (x / 2 ^ i % 2 ≡ 1))
          ⊎ ((has_bit x i ≡ false) × (x / 2 ^ i % 2 ≡ 0))
    go zero e = inr (ground (arith, and_pow i x, ap (λ (t : ℕ). t * 2 ^ i) e), e)
    go (suc zero) e =
        inl (
          ground (arith, and_pow i x, ap (λ (t : ℕ). t * 2 ^ i) e, one-le-pow i 2 (omega arith)),
          e,
        )
    go (suc (suc q)) e = absurd (omega arith)

and_cong : (x y u v : ℕ) → x ≡ y → u ≡ v → bit_and x u ≡ bit_and y v
and_cong x y u v e f = ap₂ bit_and e f

-- A mask of shifted ones picks the digits that it covers.
pub and_shift : (k x m : ℕ) → bit_and x (m * 2 ^ k) ≡ bit_and (x / 2 ^ k) m * 2 ^ k
and_shift zero x m = and_cong x (x / 1) (m * 1) m (omega arith) (omega arith) ∙ omega arith
and_shift (suc k) x m = omega (
  arith,
  and_step x (m * 2 ^ suc k),
  shift_suc m k,
  shift_suc (bit_and (x / 2 ^ suc k) m) k,
  ap (bit_and (x / 2)) {x = m * 2 ^ suc k / 2} {y = m * 2 ^ k} (omega (arith, shift_suc m k)),
  and_shift k (x / 2) m,
  ap (λ (t : ℕ). bit_and t m * 2 ^ k) {x = x / 2 / 2 ^ k} {y = x / 2 ^ suc k}
      (div-div-eq-div-mul x 2 (2 ^ k)
        ∙ ap (λ (t : ℕ). x / t) {x = 2 * 2 ^ k} {y = 2 ^ suc k} (omega (arith, pow-suc 2 k))),
)

mod_halves : (m x : ℕ) → x / 2 % m * 2 + x % 2 ≡ x % (2 * m)
mod_halves m x = omega (
  arith,
  mod-add-div' x (2 * m),
  mod-add-div' (x / 2) m,
  ap (λ (t : ℕ). t * m) (div-div-eq-div-mul x 2 m),
)

pub and_low : (j x : ℕ) → bit_and x (2 ^ j - 1) ≡ x % 2 ^ j
and_low zero x = and-zero x ∙ omega arith
and_low (suc j) x = omega (
  arith,
  and_step x (2 ^ suc j - 1),
  pow-suc 2 j,
  one-le-pow j 2,
  ap (bit_and (x / 2)) {x = (2 ^ suc j - 1) / 2} {y = 2 ^ j - 1}
      (omega (arith, pow-suc 2 j, one-le-pow j 2 (omega arith))),
  and_low j (x / 2),
  mod_halves (2 ^ j) x,
  ap (λ (t : ℕ). x % t) {x = 2 * 2 ^ j} {y = 2 ^ suc j} (omega (arith, pow-suc 2 j)),
)
