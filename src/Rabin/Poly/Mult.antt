-- ===== src/Rabin/Poly/Mult.antt =====
-- `polymult` takes the product, and `polymmult` its remainder.
use native.Mathlib.Nat.{one-le-pow, div-add-mod', mul-div-mul_right, div-le_self}
use cloudfs.Base.{ℕ, zero, suc, ◌+◌, ◌-◌, ◌*◌, ◌/◌, ◌^◌, ◌≤◌, ◌<◌, bit_xor, ◌≡◌, sym, ap, ◌∙◌}
use cloudfs.Base.{arith, ◌<<<◌, ◌>>>◌, inl, inr}
use cloudfs.Base.Bits.{zero-xor, xor-zero, xor-lt}
use cloudfs.Base.Masks.{has_bit-cases}
use cloudfs.Gf2.{product, term, two_pow_add}
use cloudfs.Gf2.Degree.{residue}
use cloudfs.Rabin.Msb.Laws.{HasDigits}
use cloudfs.Rabin.Poly.{Double, mult_step, mult_loop, polymult, polymmult}
use cloudfs.Rabin.Poly.Mod.{value}
use cloudfs.Rabin.Poly.Remainder.{IsDouble, value-xor, polymod_lem}

module _ (x y : ℕ) (y_lt : y < 2 ^ 64) where
  words_of_shift : (i : ℕ) → i ≤ 64 → (y >>> (64 - i)) * 2 ^ 64 + (y <<< i) ≡ y * 2 ^ i
  words_of_shift i h =
      ap (λ (t : ℕ). t * 2 ^ 64 + (y <<< i))
        (sym (mul-div-mul_right {m = 2 ^ i} y (2 ^ (64 - i)) (one-le-pow i 2 (omega arith)))
          ∙ ap (λ (t : ℕ). y * 2 ^ i / t) whole)
      ∙ div-add-mod' (y * 2 ^ i) (2 ^ 64)
    where
      whole : 2 ^ (64 - i) * 2 ^ i ≡ 2 ^ 64
      whole =
          sym (two_pow_add (64 - i) i)
          ∙ ap (λ (t : ℕ). 2 ^ t) {x = (64 - i) + i} {y = 64} (omega arith)

  -- A round adds the term of digit `i`.
  mult_step_lem :
      (i : ℕ) (p : Double)
      → i ≤ 64
      → IsDouble 64 p
      → IsDouble 64 (mult_step x y i p)
        × (value (mult_step x y i p) ≡ bit_xor (value p) (term i x y))
  unfolding mult_step
  mult_step_lem i p h v = elim (has_bit-cases x i) [
    | inl (bit, digit) ↦
        rw (bit, digit)
          (
            record {
              high_lt =
                  xor-lt 64 p.high (y >>> (64 - i)) v.high_lt
                    (omega (arith, div-le_self y (2 ^ (64 - i))));
              low_lt = xor-lt 64 p.low (y <<< i) v.low_lt (omega arith);
            },
            value-xor p.high p.low (y >>> (64 - i)) (y <<< i) v.low_lt (omega arith)
                ∙ ap (bit_xor (value p)) (words_of_shift i h ∙ omega arith),
          )
    | inr (bit, digit) ↦
        rw (bit, digit)
          (
            v,
            sym (
                ap (bit_xor (value p)) {x = 0 * (y * 2 ^ i)} {y = 0} (omega arith)
                ∙ xor-zero (value p)),
          )
  ]

  mult_loop_lem :
      (left i : ℕ) (p : Double)
      → i + left ≤ 64
      → IsDouble 64 p
      → value p ≡ product i x y
      → let r = mult_loop x y left i p in IsDouble 64 r × (value r ≡ product (i + left) x y)
  unfolding mult_loop product
  mult_loop_lem zero i p h v e =
      (v, e ∙ ap (λ (t : ℕ). product t x y) {x = i} {y = i + 0} (omega arith))
  mult_loop_lem (suc left) i p h v e =
      let step = mult_step_lem i p (omega arith) v in
      let rest = mult_loop_lem left (i + 1) (mult_step x y i p) (omega arith) step.0 (
        step.1
        ∙ ap (λ (t : ℕ). bit_xor t (term i x y)) e
        ∙ ap (λ (t : ℕ). product t x y) {x = suc i} {y = i + 1} (omega arith)) in
      (
        rest.0,
        rest.1 ∙ ap (λ (t : ℕ). product t x y) {x = i + 1 + left} {y = i + suc left} (omega arith),
      )

  -- `polymult` leaves the product of its factors in the two words.
  pub polymult_lem : IsDouble 64 (polymult x y) × (value (polymult x y) ≡ product 64 x y)
  unfolding polymult product
  polymult_lem = elim (has_bit-cases x 0) [
    | inl (bit, digit) ↦ rw bit (
        mult_loop_lem 63 1 (record { high = 0; low = y }) (omega arith) (omega arith)
          (rw digit (omega (arith, zero-xor (1 * (y * 1))))))
    | inr (bit, digit) ↦ rw bit (
        mult_loop_lem 63 1 (record { high = 0; low = 0 }) (omega arith) (omega arith)
          (rw digit (omega (arith, zero-xor (0 * (y * 1))))))
  ]

-- For a word y and a divisor d of k + 1 binary digits, at most 64, `polymmult` of x, y and d is
-- below 2 ^ k and is the remainder by d of the product of y with the lowest 64 coefficients of x.
pub polymmult_lem :
    (k x y d : ℕ)
    → y < 2 ^ 64
    → d < 2 ^ 64
    → HasDigits (suc k) d
    → (polymmult x y d < 2 ^ k) × (polymmult x y d ≡ residue k d (product 64 x y))
unfolding polymmult
polymmult_lem k x y d hy hd digits =
    let p = polymult_lem x y hy in
    let r =
      polymod_lem k (polymult x y).high (polymult x y).low d p.0.high_lt p.0.low_lt hd digits in
    (r.0, r.1 ∙ ap (residue k d) p.1)
