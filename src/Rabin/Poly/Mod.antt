-- ===== src/Rabin/Poly/Mod.antt =====
-- The second loop of `polymod` takes the remainder of one word.
use native.Mathlib.Nat.{pow-suc, one-le-pow, mul-le-mul_right}
use native.Mathlib.Nat.{mul-div_cancel, mul-lt-mul_of_pos_right, div-eq_of_lt, add-zero, add-suc}
use native.Mathlib.Decide.{dec_lt}
use cloudfs.Gf2.Degree.{quotient_one}
use cloudfs.Base.{ℕ, zero, suc, ◌+◌, ◌-◌, ◌*◌, ◌/◌, ◌^◌, ◌≤◌, ◌<◌, bit_xor, ◌≡◌, refl, sym, ap, ◌∙◌}
use cloudfs.Base.{arith, true, false, inl, inr}
use cloudfs.Base.Bits.{xor_top, xor_cong}
use cloudfs.Base.Masks.{has_bit, has_bit-cases}
use cloudfs.Gf2.{
  Congruent, Congruent-refl, Congruent-trans, Congruent-plus, Multiple-shift_self, mul_pow_pow,
  two_pow_add,
}
use cloudfs.Rabin.Poly.{Double, low_step, low_loop}

-- The number that two words stand for.
abbrev pub value : Double → ℕ
value n = n.high * 2 ^ 64 + n.low

-- Clearing the highest digit of a number by a divisor shifted under it.
pub clear_top :
    (i a b : ℕ) → a < 2 ^ suc i → 2 ^ i ≤ a → b < 2 ^ suc i → 2 ^ i ≤ b → bit_xor a b < 2 ^ i
clear_top i a b ha ha' hb hb' = omega (
  arith,
  pow-suc 2 i,
  xor_top i (a - 2 ^ i) (b - 2 ^ i),
  xor_cong (2 ^ i + (a - 2 ^ i)) a (2 ^ i + (b - 2 ^ i)) b (omega arith) (omega arith),
)

-- With the lowest `suc i` digits left, digit `i` tells whether the number reaches `2 ^ i`.
pub digit_of_top : (i a : ℕ) → a < 2 ^ suc i → 2 ^ i ≤ a → has_bit a i ≡ true
digit_of_top i a h h' = elim (has_bit-cases a i) [
  | inl p ↦ p.0
  | inr p ↦ absurd (omega (arith, p.1, quotient_one (2 ^ i) a h' (omega (arith, pow-suc 2 i))))
]

pub digit_of_low : (i a : ℕ) → a < 2 ^ i → has_bit a i ≡ false
digit_of_low i a h = elim (has_bit-cases a i) [
  | inl p ↦ absurd (omega (arith, p.1, div-eq_of_lt h))
  | inr p ↦ p.0
]

module _ (d k : ℕ) (fits : k < 64) (top : 2 ^ k ≤ d) (below : d < 2 ^ suc k) where
  -- The divisor, shifted to the top of the word.
  abbrev pub normal : ℕ
  normal = d * 2 ^ (63 - k)

  -- Shifted back, it stands with its top digit at `i`.
  normal-shift : (i : ℕ) → k ≤ i → i < 64 → normal / 2 ^ (63 - i) ≡ d * 2 ^ (i - k)
  normal-shift i h h' =
      ap (λ (t : ℕ). d * 2 ^ t / 2 ^ (63 - i)) {x = 63 - k} {y = (i - k) + (63 - i)} (omega arith)
      ∙ ap (λ (t : ℕ). t / 2 ^ (63 - i)) (mul_pow_pow d (i - k) (63 - i))
      ∙ mul-div_cancel (d * 2 ^ (i - k)) (one-le-pow (63 - i) 2 (omega arith))

  shift_power : (i : ℕ) → k ≤ i → 2 ^ k * 2 ^ (i - k) ≡ 2 ^ i
  shift_power i h =
      sym (two_pow_add k (i - k)) ∙ ap (λ (t : ℕ). 2 ^ t) {x = k + (i - k)} {y = i} (omega arith)

  pub shift_bounds : (i : ℕ) → k ≤ i → (2 ^ i ≤ d * 2 ^ (i - k)) × (d * 2 ^ (i - k) < 2 ^ suc i)
  shift_bounds i h = (
    omega (arith, shift_power i h, mul-le-mul_right (2 ^ (i - k)) top),
    omega (
      arith,
      shift_power i h,
      pow-suc 2 i,
      pow-suc 2 k,
      ap (λ (t : ℕ). t * 2 ^ (i - k)) (pow-suc 2 k),
      mul-lt-mul_of_pos_right below (one-le-pow (i - k) 2 (omega arith)),
    ),
  )

  low_step-lt : (i nl : ℕ) → k ≤ i → i < 64 → nl < 2 ^ suc i → low_step normal i nl < 2 ^ i
  unfolding low_step
  low_step-lt i nl h h' small = elim (dec_lt nl (2 ^ i)) [
    | yes p ↦ rw (digit_of_low i nl p) p
    | no p ↦
        rw (digit_of_top i nl small (omega arith), normal-shift i h h')
          (clear_top i nl (d * 2 ^ (i - k)) small (omega arith) (shift_bounds i h).1
            (shift_bounds i h).0)
  ]

  low_step-Congruent : (i nl : ℕ) → k ≤ i → i < 64 → Congruent d (low_step normal i nl) nl
  unfolding low_step
  low_step-Congruent i nl h h' = elim (has_bit-cases nl i) [
    | inl p ↦ rw (p.0, normal-shift i h h') (Congruent-plus nl (Multiple-shift_self (i - k)))
    | inr p ↦ rw p.0 (Congruent-refl refl)
  ]

  pub low_loop_lem :
      (left nl : ℕ)
      → k + left ≤ 64
      → nl < 2 ^ (k + left)
      → (low_loop normal k left nl < 2 ^ k) × Congruent d (low_loop normal k left nl) nl
  unfolding low_loop
  low_loop_lem zero nl h small = (rw add-zero at small, Congruent-refl refl)
  low_loop_lem (suc left) nl h small =
      let next = low_step normal (k + left) nl in
      let rest =
        low_loop_lem left next (omega arith)
          (low_step-lt (k + left) nl (omega arith) (omega arith) (rw add-suc at small)) in
      (
        rest.0,
        Congruent-trans rest.1 (low_step-Congruent (k + left) nl (omega arith) (omega arith)),
      )
