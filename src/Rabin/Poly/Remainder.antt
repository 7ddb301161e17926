-- ===== src/Rabin/Poly/Remainder.antt =====
-- `polymod` takes the remainder of two words.
use native.Mathlib.Nat.{
  pow-suc, one-le-pow, div-add-mod', mul-div-mul_right, div-lt_iff_lt-mul, le-div_iff_mul-le,
  mod-eq_of_lt, pow-le-pow_right,
}
use native.Mathlib.Decide.{dec_lt}
use cloudfs.Base.{
  ℕ, zero, suc, ◌+◌, ◌-◌, ◌*◌, ◌/◌, ◌%◌, ◌^◌, ◌≤◌, ◌<◌, bit_xor, ◌≡◌, refl, sym, ap, ◌∙◌,
}
use cloudfs.Base.{arith, ◌<<<◌, ◌>>>◌, ◌==◌, ==_iff, Bool-cases, if◌then◌else◌, inl, inr}
use cloudfs.Base.Bits.{xor_fields, xor-zero, xor-lt}
use cloudfs.Base.Masks.{has_bit}
use cloudfs.Gf2.{
  Multiple, Congruent, Congruent-refl, Congruent-trans, Congruent-sym, Congruent-plus,
  Multiple-shift_self, Multiple-shift, two_pow_add,
}
use cloudfs.Gf2.Degree.{residue, residue-Congruent}
use cloudfs.Rabin.Msb.{fls64}
use cloudfs.Rabin.Msb.Laws.{HasDigits, fls64_lem, HasDigits-unique}
use cloudfs.Rabin.Poly.{Double, msb64, high_step, high_loop, clear_high, low_loop, polymod}
use cloudfs.Rabin.Poly.Mod.{
  value, clear_top, digit_of_top, digit_of_low, shift_bounds, low_loop_lem,
}

-- Both words have 64 digits, the high one at most `n`.
pub record IsDouble (n : ℕ) (x : Double) : Type 0 where
  pub high_lt : x.high < 2 ^ n
  pub low_lt : x.low < 2 ^ 64

-- Exclusive or, word by word, is that of the numbers.
pub value-xor :
    (h l h' l' : ℕ)
    → l < 2 ^ 64
    → l' < 2 ^ 64
    → value (record { high = bit_xor h h'; low = bit_xor l l' })
      ≡ bit_xor (h * 2 ^ 64 + l) (h' * 2 ^ 64 + l')
value-xor h l h' l' p q = sym (xor_fields 64 h l h' l' p q).0

module _ (s : ℕ) (full : 2 ^ 63 ≤ s) (fits : s < 2 ^ 64) where
  -- The two words of the divisor shifted up by `i + 1`.
  words_of_shift : (i : ℕ) → i < 64 → (s >>> (63 - i)) * 2 ^ 64 + (s <<< (i + 1)) ≡ s * 2 ^ (i + 1)
  words_of_shift i h =
      ap (λ (t : ℕ). t * 2 ^ 64 + (s <<< (i + 1)))
        (sym (
            mul-div-mul_right {m = 2 ^ (i + 1)} s (2 ^ (63 - i))
              (one-le-pow (i + 1) 2 (omega arith)))
          ∙ ap (λ (t : ℕ). s * 2 ^ (i + 1) / t) whole)
      ∙ div-add-mod' (s * 2 ^ (i + 1)) (2 ^ 64)
    where
      whole : 2 ^ (63 - i) * 2 ^ (i + 1) ≡ 2 ^ 64
      whole =
          sym (two_pow_add (63 - i) (i + 1))
          ∙ ap (λ (t : ℕ). 2 ^ t) {x = (63 - i) + (i + 1)} {y = 64} (omega arith)

  shift_lt : (i : ℕ) → i < 64 → (s >>> (63 - i) < 2 ^ suc i) × (2 ^ i ≤ s >>> (63 - i))
  shift_lt i h = (
    (div-lt_iff_lt-mul {x = s} {y = 2 ^ suc i} (one-le-pow (63 - i) 2 (omega arith))).1
        (rw above fits),
    (le-div_iff_mul-le {x = 2 ^ i} {y = s} (one-le-pow (63 - i) 2 (omega arith))).1 (rw under full),
  )
    where
      above : 2 ^ suc i * 2 ^ (63 - i) ≡ 2 ^ 64
      above =
          sym (two_pow_add (suc i) (63 - i))
          ∙ ap (λ (t : ℕ). 2 ^ t) {x = suc i + (63 - i)} {y = 64} (omega arith)

      under : 2 ^ i * 2 ^ (63 - i) ≡ 2 ^ 63
      under =
          sym (two_pow_add i (63 - i))
          ∙ ap (λ (t : ℕ). 2 ^ t) {x = i + (63 - i)} {y = 63} (omega arith)

  module _ (d : ℕ) (multiple : Multiple d s) where
    added : (i : ℕ) → Double → Double
    added i x = record {
      high = bit_xor x.high (s >>> (63 - i));
      low = bit_xor x.low (s <<< (i + 1));
    }

    added-Congruent :
        (i : ℕ) (x : Double) → i < 64 → x.low < 2 ^ 64 → Congruent d (value (added i x)) (value x)
    unfolding added
    added-Congruent i x h small =
        Congruent-trans
          (Congruent-refl (
            value-xor x.high x.low (s >>> (63 - i)) (s <<< (i + 1)) small (omega arith)
            ∙ ap (bit_xor (value x)) (words_of_shift i h)))
          (Congruent-plus (value x) (Multiple-shift (i + 1) multiple))

    high_step_lem :
        (i : ℕ) (x : Double)
        → i < 64
        → IsDouble (suc i) x
        → IsDouble i (high_step s i x) × Congruent d (value (high_step s i x)) (value x)
    unfolding high_step added
    high_step_lem i x h v = elim (dec_lt x.high (2 ^ i)) [
      | yes p ↦
          rw (digit_of_low i x.high p)
            (record { high_lt = p; low_lt = v.low_lt }, Congruent-refl refl)
      | no p ↦ rw (digit_of_top i x.high v.high_lt (omega arith)) (
        record {
          high_lt =
              clear_top i x.high (s >>> (63 - i)) v.high_lt (omega arith) (shift_lt i h).0
                (shift_lt i h).1;
          low_lt = xor-lt 64 x.low (s <<< (i + 1)) v.low_lt (omega arith);
        },
        added-Congruent i x h v.low_lt,
      )
    ]

    high_loop_lem :
        (i : ℕ) (x : Double)
        → i < 64
        → IsDouble i x
        → IsDouble 0 (high_loop s i x) × Congruent d (value (high_loop s i x)) (value x)
    unfolding high_loop
    high_loop_lem zero x h v = (v, Congruent-refl refl)
    high_loop_lem (suc i) x h v =
        let step = high_step_lem i x (omega arith) v in
        let rest = high_loop_lem i (high_step s i x) (omega arith) step.0 in
        (rest.0, Congruent-trans rest.1 step.1)

    -- The first test of `polymod` is the round of its loop for digit 63.
    first_step :
        (x : Double)
        → x.low < 2 ^ 64
        → high_step s 63 x
          ≡ (if has_bit x.high msb64 then record x { high = bit_xor x.high s } else x)
    unfolding high_step
    first_step x small = elim (Bool-cases (has_bit x.high 63)) [
      | inl e ↦ rw e (λ i. record { high = bit_xor x.high (same i); low = kept i })
      | inr e ↦ rw e refl
    ]
      where
        same : s / 1 ≡ s
        same = omega arith

        kept : bit_xor x.low (s * 2 ^ 64 % 2 ^ 64) ≡ x.low
        kept = ap (bit_xor x.low) {x = s * 2 ^ 64 % 2 ^ 64} {y = 0} (omega arith) ∙ xor-zero x.low

    clear_high_lem :
        (x : Double)
        → IsDouble 64 x
        → ((clear_high s x).low < 2 ^ 64) × Congruent d (clear_high s x).low (value x)
    unfolding clear_high
    clear_high_lem x v = elim (Bool-cases (x.high == 0)) [
      | inl e ↦ rw e (v.low_lt, Congruent-refl (omega (arith, (==_iff x.high 0).0 e)))
      | inr e ↦
          rw (e, ← first_step x v.low_lt)
            (let step = high_step_lem 63 x (omega arith) v in
              let rest = high_loop_lem 63 (high_step s 63 x) (omega arith) step.0 in
              let out = high_loop s 63 (high_step s 63 x) in
              let none_high : out.high ≡ 0 = omega (arith, rest.0.high_lt) in
              (
                rest.0.low_lt,
                Congruent-trans (Congruent-refl (omega (arith, none_high)))
                    (Congruent-trans rest.1 step.1),
              ))
    ]

module _ (k d : ℕ) (k_lt : k < 64) (top : 2 ^ k ≤ d) (below : d < 2 ^ suc k) where
  normal_bounds : (2 ^ 63 ≤ d * 2 ^ (63 - k)) × (d * 2 ^ (63 - k) < 2 ^ 64)
  normal_bounds = shift_bounds d k k_lt top below 63 (omega arith)

  -- Both loops, with the divisor shifted up.
  loops_lem :
      (x : Double)
      → IsDouble 64 x
      → let r = low_loop (d * 2 ^ (63 - k)) k (64 - k) (clear_high (d * 2 ^ (63 - k)) x).low in
        (r < 2 ^ k) × Congruent d r (value x)
  loops_lem x v =
      let high =
        clear_high_lem (d * 2 ^ (63 - k)) normal_bounds.0 normal_bounds.1 d
          (Multiple-shift_self (63 - k)) x v in
      let low =
        low_loop_lem d k k_lt top below (64 - k) (clear_high (d * 2 ^ (63 - k)) x).low (omega arith)
          (rw (ap (λ (t : ℕ). 2 ^ t) {x = k + (64 - k)} {y = 64} (omega arith)) high.0) in
      (low.0, Congruent-trans low.1 high.1)

degree_lt : (k d : ℕ) → d < 2 ^ 64 → 2 ^ k ≤ d → k < 64
degree_lt k d h top = elim (dec_lt k 64) [
  | yes p ↦ p
  | no p ↦
      absurd (omega (arith, pow-le-pow_right {n = 2} (omega arith) {i = 64} {j = k} (omega arith)))
]

-- For words nh and nl and a divisor d of k + 1 binary digits, at most 64, `polymod` of them is
-- below 2 ^ k and is the remainder by d of the polynomial of the two words.
pub polymod_lem :
    (k nh nl d : ℕ)
    → nh < 2 ^ 64
    → nl < 2 ^ 64
    → d < 2 ^ 64
    → HasDigits (suc k) d
    → (polymod nh nl d < 2 ^ k) × (polymod nh nl d ≡ residue k d (nh * 2 ^ 64 + nl))
unfolding polymod
polymod_lem k nh nl d hh hl hd digits =
    rw (degree, shifted)
      (let r = loops_lem k d k_lt top digits.below start (record { high_lt = hh; low_lt = hl }) in
        (
          r.0,
          sym (
              residue-Congruent k d top (rw (pow-suc 2 k) at digits.below) (Congruent-sym r.1) r.0),
        ))
  where
    top : 2 ^ k ≤ d
    top = omega (arith, digits.least, pow-suc 2 k)

    k_lt : k < 64
    k_lt = degree_lt k d hd top

    degree : fls64 d - 1 ≡ k
    degree = omega (arith, HasDigits-unique (fls64 d) (suc k) d (fls64_lem d hd) digits)

    shifted : d <<< (63 - k) ≡ d * 2 ^ (63 - k)
    shifted = mod-eq_of_lt (normal_bounds k d k_lt top digits.below).1

    start : Double
    start = record { high = nh; low = nl }
