-- ===== src/Gf2/Degree.antt =====
-- The remainder of a polynomial, digit by digit from the highest, and its uniqueness.
use native.Mathlib.Nat.{one-le-pow, div-eq_of_lt, mul-add-div_right}
use native.Mathlib.Decide.{dec_lt}
use cloudfs.Base.{
  ℕ, zero, suc, ◌+◌, ◌-◌, ◌*◌, ◌/◌, ◌%◌, ◌^◌, ◌≤◌, ◌<◌, bit_xor, ◌≡◌, refl, sym, ap, ◌∙◌,
}
use cloudfs.Base.{arith, ◌==◌, if◌then◌else◌}
use cloudfs.Base.Bits.{xor_step, xor_self, zero-xor, xor-zero, xor_interchange, xor_cong, xor_top}
use cloudfs.Base.Bits.{xor_half, xor_div, xor_digit_mul, xor_eq_zero, shift_suc}
use cloudfs.Gf2.{Multiple, none_yet, plus, Congruent, product, term}

-- Reduces a polynomial of degree at most `k` by `d`, whose degree is `k`.
abbrev pub reduce : ℕ → ℕ → ℕ → ℕ
reduce k d y = bit_xor y (y / 2 ^ k % 2 * d)

residue_digits : ℕ → ℕ → ℕ → ℕ → ℕ
residue_digits zero k d a = 0
residue_digits (suc n) k d a =
    let higher = residue_digits n k d (a / 2) in
    if a == 0 then 0 else reduce k d (higher * 2 + a % 2)

-- The remainder of `a` by a polynomial `d` of degree `k`.
unfoldable pub residue : ℕ → ℕ → ℕ → ℕ
unfolding residue_digits
residue k d a = residue_digits a k d a

residue_digits_fuel :
    (n m k d a : ℕ) → a ≤ n → a ≤ m → residue_digits n k d a ≡ residue_digits m k d a
unfolding residue_digits
residue_digits_fuel zero zero k d a h h' = refl
residue_digits_fuel zero (suc m) k d a h h' = ground arith
residue_digits_fuel (suc n) zero k d a h h' = ground arith
residue_digits_fuel (suc n) (suc m) k d a h h' = ground (arith, residue_digits_fuel n m k d (a / 2))

module _ (k d : ℕ) where
  reduce_low : (y : ℕ) → y < 2 ^ k → reduce k d y ≡ y
  reduce_low y h =
      ap (λ (t : ℕ). bit_xor y (t % 2 * d)) (div-eq_of_lt h)
      ∙ ap (bit_xor y) {x = 0 % 2 * d} {y = 0} (omega arith)
      ∙ xor-zero y

  residue_step : (a : ℕ) → residue k d a ≡ reduce k d (residue k d (a / 2) * 2 + a % 2)
  unfolding residue residue_digits
  residue_step zero = sym (reduce_low 0 (one-le-pow k 2 (omega arith)))
  residue_step (suc a) =
      ground (arith, residue_digits_fuel a (suc a / 2) k d (suc a / 2) (omega arith) (omega arith))

  reduce-xor : (a b : ℕ) → reduce k d (bit_xor a b) ≡ bit_xor (reduce k d a) (reduce k d b)
  reduce-xor a b =
      ap (bit_xor (bit_xor a b)) (
        ap (λ (t : ℕ). t * d) {x = bit_xor a b / 2 ^ k % 2}
          {y = (a / 2 ^ k % 2 + b / 2 ^ k % 2) % 2}
          (omega (arith, xor_div k a b, xor_step (a / 2 ^ k) (b / 2 ^ k)))
        ∙ sym (xor_digit_mul (a / 2 ^ k % 2) (b / 2 ^ k % 2) d (omega arith) (omega arith)))
      ∙ xor_interchange a b (a / 2 ^ k % 2 * d) (b / 2 ^ k % 2 * d)

  residue-xor_fuel :
      (n a b : ℕ)
      → a ≤ n
      → b ≤ n
      → residue k d (bit_xor a b) ≡ bit_xor (residue k d a) (residue k d b)
  residue-xor_fuel zero a b h h' = at_zero a b (omega arith) (omega arith)
    where
      at_zero :
          (a b : ℕ)
          → a ≡ 0
          → b ≡ 0
          → residue k d (bit_xor a b) ≡ bit_xor (residue k d a) (residue k d b)
      at_zero a b e e' = rw (e, e') (unfold residue residue_digits in sym (zero-xor 0))
  residue-xor_fuel (suc n) a b h h' =
      residue_step (bit_xor a b)
      ∙ ap (reduce k d) (
          ap (λ (t : ℕ). t * 2 + bit_xor a b % 2)
            (ap (residue k d) (xor_half a b)
              ∙ residue-xor_fuel n (a / 2) (b / 2) (omega arith) (omega arith))
          ∙ join (residue k d (a / 2)) (residue k d (b / 2)))
      ∙ reduce-xor (residue k d (a / 2) * 2 + a % 2) (residue k d (b / 2) * 2 + b % 2)
      ∙ sym (xor_cong _ _ _ _ (residue_step a) (residue_step b))
    where
      join : (p q : ℕ) → bit_xor p q * 2 + bit_xor a b % 2 ≡ bit_xor (p * 2 + a % 2) (q * 2 + b % 2)
      join p q = omega (
        arith,
        xor_step a b,
        xor_step (p * 2 + a % 2) (q * 2 + b % 2),
        xor_cong ((p * 2 + a % 2) / 2) p ((q * 2 + b % 2) / 2) q (omega arith) (omega arith),
      )

  -- Taking the remainder is additive.
  pub residue-xor : (a b : ℕ) → residue k d (bit_xor a b) ≡ bit_xor (residue k d a) (residue k d b)
  residue-xor a b = residue-xor_fuel (a + b) a b (omega arith) (omega arith)

  residue_low_fuel : (n a : ℕ) → a ≤ n → a < 2 ^ k → residue k d a ≡ a
  residue_low_fuel zero a h low = at_zero a (omega arith)
    where
      at_zero : (a : ℕ) → a ≡ 0 → residue k d a ≡ a
      at_zero a e = rw e (unfold residue residue_digits in refl)
  residue_low_fuel (suc n) a h low =
      residue_step a
      ∙ ap (reduce k d) {x = residue k d (a / 2) * 2 + a % 2} {y = a}
          (omega (arith, residue_low_fuel n (a / 2) (omega arith) (omega arith)))
      ∙ reduce_low a low

  pub residue_low : (a : ℕ) → a < 2 ^ k → residue k d a ≡ a
  residue_low a = residue_low_fuel a a (omega arith)

module _ (k d : ℕ) where
  residue_double : (a : ℕ) → residue k d (2 * a) ≡ reduce k d (2 * residue k d a)
  residue_double a =
      residue_step k d (2 * a)
      ∙ ap (reduce k d) {x = residue k d (2 * a / 2) * 2 + 2 * a % 2} {y = 2 * residue k d a}
          (omega (arith, ap (residue k d) {x = 2 * a / 2} {y = a} (omega arith)))

pub quotient_one : (m y : ℕ) → m ≤ y → y < m * 2 → y / m ≡ 1
quotient_one m y low high =
    ap (λ (t : ℕ). t / m) {x = y} {y = 1 * m + (y - m)} (omega arith)
    ∙ mul-add-div_right (omega arith) 1 (y - m)
    ∙ omega (arith, div-eq_of_lt {n = y - m} {m = m} (omega arith))

module _ (k d : ℕ) (top : 2 ^ k ≤ d) (fits : d < 2 ^ k * 2) where
  reduce_high : (y : ℕ) → 2 ^ k ≤ y → y < 2 ^ k * 2 → reduce k d y ≡ bit_xor y d
  reduce_high y low high =
      ap (λ (t : ℕ). bit_xor y (t % 2 * d)) (quotient_one (2 ^ k) y low high)
      ∙ ap (bit_xor y) {x = 1 % 2 * d} {y = d} (omega arith)

  reduce-lt : (y : ℕ) → y < 2 ^ k * 2 → reduce k d y < 2 ^ k
  reduce-lt y h = elim (dec_lt y (2 ^ k)) [
    | yes p ↦ rw (reduce_low k d y p) p
    | no p ↦ omega (
      arith,
      reduce_high y (omega arith) h,
      xor_top k (y - 2 ^ k) (d - 2 ^ k) (omega arith) (omega arith),
      xor_cong (2 ^ k + (y - 2 ^ k)) y (2 ^ k + (d - 2 ^ k)) d (omega arith) (omega arith),
    )
  ]

  -- A remainder has a lower degree than the divisor.
  pub residue-lt : (n a : ℕ) → a ≤ n → residue k d a < 2 ^ k
  residue-lt zero a h = omega (
    arith,
    residue_low k d a (omega (arith, one-le-pow k 2 (omega arith))),
    one-le-pow k 2 (omega arith),
  )
  residue-lt (suc n) a h =
      rw (residue_step k d a) (reduce-lt _ (omega (arith, residue-lt n (a / 2) (omega arith))))

  residue_multiple : (i : ℕ) → residue k d (d * 2 ^ i) ≡ 0
  residue_multiple zero =
      residue_step k d (d * 1)
      ∙ ap (reduce k d) {x = residue k d (d * 1 / 2) * 2 + d * 1 % 2} {y = d}
          (omega (arith, residue_low k d (d * 1 / 2) (omega arith)))
      ∙ reduce_high d top fits
      ∙ xor_self d
  residue_multiple (suc i) =
      residue_step k d (d * 2 ^ suc i)
      ∙ ap (reduce k d) {x = residue k d (d * 2 ^ suc i / 2) * 2 + d * 2 ^ suc i % 2} {y = 0} (
          omega (
            arith,
            shift_suc d i,
            residue_multiple i,
            ap (residue k d) {x = d * 2 ^ suc i / 2} {y = d * 2 ^ i} (omega (arith, shift_suc d i)),
          ))
      ∙ reduce_low k d 0 (one-le-pow k 2 (omega arith))

  -- The remainder of a multiple is zero.
  pub residue-Multiple : {a : ℕ} → Multiple d a → residue k d a ≡ 0
  residue-Multiple none_yet = residue_low k d 0 (one-le-pow k 2 (omega arith))
  residue-Multiple (plus {a = a} i b e m) =
      ap (residue k d) e
      ∙ residue-xor k d (d * 2 ^ i) a
      ∙ xor_cong _ 0 _ 0 (residue_multiple i) (residue-Multiple m)
      ∙ zero-xor 0

  -- Congruent polynomials have one remainder, and a polynomial of lower degree is its own.
  pub residue-Congruent : {a r : ℕ} → Congruent d a r → r < 2 ^ k → residue k d a ≡ r
  residue-Congruent {a} {r} c low =
      xor_eq_zero (residue k d a) (residue k d r)
        (sym (residue-xor k d a r) ∙ residue-Multiple c.difference)
      ∙ residue_low k d r low

  residue-residue : (a : ℕ) → residue k d (residue k d a) ≡ residue k d a
  residue-residue a = residue_low k d (residue k d a) (residue-lt a a (omega arith))

  -- A remainder may be taken before a shift.
  pub residue-shift : (j a : ℕ) → residue k d (residue k d a * 2 ^ j) ≡ residue k d (a * 2 ^ j)
  residue-shift zero a =
      ap (residue k d) {x = residue k d a * 1} {y = residue k d a} (omega arith)
      ∙ residue-residue a
      ∙ ap (residue k d) {x = a} {y = a * 1} (omega arith)
  residue-shift (suc j) a =
      ap (residue k d) (shift_suc (residue k d a) j)
      ∙ residue_double k d (residue k d a * 2 ^ j)
      ∙ ap (λ (t : ℕ). reduce k d (2 * t)) (residue-shift j a)
      ∙ sym (residue_double k d (a * 2 ^ j))
      ∙ ap (residue k d) (sym (shift_suc a j))

  -- It may be taken of a factor before a product.
  pub residue-product :
      (n x z : ℕ) → residue k d (product n x (residue k d z)) ≡ residue k d (product n x z)
  unfolding product
  residue-product zero x z = refl
  residue-product (suc n) x z =
      residue-xor k d (product n x (residue k d z)) (term n x (residue k d z))
      ∙ xor_cong _ _ _ _ (residue-product n x z) (digit (x / 2 ^ n % 2) (omega arith))
      ∙ sym (residue-xor k d (product n x z) (term n x z))
    where
      digit :
          (q : ℕ)
          → q < 2
          → residue k d (q * (residue k d z * 2 ^ n)) ≡ residue k d (q * (z * 2 ^ n))
      digit zero h = ap (residue k d) (omega arith)
      digit (suc zero) h =
          ap (residue k d) {x = 1 * (residue k d z * 2 ^ n)} {y = residue k d z * 2 ^ n}
            (omega arith)
          ∙ residue-shift n z
          ∙ ap (residue k d) {x = z * 2 ^ n} {y = 1 * (z * 2 ^ n)} (omega arith)
      digit (suc (suc q)) h = absurd (omega arith)
