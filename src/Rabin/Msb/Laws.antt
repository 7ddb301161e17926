-- ===== src/Rabin/Msb/Laws.antt =====
-- `fls32` and `fls64` give the number of digits of a word.
use native.Mathlib.Nat.{
  pow-suc, one-le-pow, mod-lt, div-add-mod', mul-le-mul_right, pow-le-pow_right,
}
use native.Mathlib.Decide.{dec_lt}
use cloudfs.Base.{ℕ, zero, suc, ◌+◌, ◌-◌, ◌*◌, ◌/◌, ◌%◌, ◌^◌, ◌≤◌, ◌<◌, bit_and, ◌≡◌, refl, ap, ◌∙◌}
use cloudfs.Base.{arith, Bool, true, ◌&&◌, leb, ltb}
use cloudfs.Base.Masks.{and_shift, and_low}
use cloudfs.Gf2.{two_pow_add}
use cloudfs.Rabin.Msb.{byte_msb, fls32, fls64}

-- `n` is the number of binary digits of `v`: 2 ^ (n - 1) ≤ v < 2 ^ n, or both are zero.
pub record HasDigits (n v : ℕ) : Type 0 where
  pub below : v < 2 ^ n
  pub least : 2 ^ n ≤ v * 2 + 1

has_digits : ℕ → ℕ → Bool
has_digits n v = ltb v (2 ^ n) && leb (2 ^ n) (v * 2 + 1)

has_digits_sound : (n v : ℕ) → has_digits n v ≡ true → HasDigits n v
unfolding has_digits
has_digits_sound n v h = ground arith

-- The bytes from 0 to n - 1 that fail a test are none.
unfoldable pub table_holds : (ℕ → Bool) → ℕ → Bool
table_holds test zero = true
table_holds test (suc n) = table_holds test n && test n

pub at_entry : (test : ℕ → Bool) (n b : ℕ) → b < n → table_holds test n ≡ true → test b ≡ true
unfolding table_holds
at_entry test zero b lt holds = absurd (omega arith)
at_entry test (suc n) b lt holds = ground (arith, at_entry test n b)

msb_table : table_holds (λ v. has_digits (byte_msb v) v) 256 ≡ true
unfolding table_holds has_digits byte_msb
msb_table = refl

byte_msb_lem : (v : ℕ) → v < 256 → HasDigits (byte_msb v) v
byte_msb_lem v h =
    has_digits_sound (byte_msb v) v (at_entry (λ b. has_digits (byte_msb b) b) 256 v h msb_table)

-- The digits of a number are those above a shift and those shifted out.
HasDigits-shift : (k n v : ℕ) → 0 < v / 2 ^ k → HasDigits n (v / 2 ^ k) → HasDigits (k + n) v
HasDigits-shift k zero v pos h = absurd (omega (arith, h.below))
HasDigits-shift k (suc n) v pos h =
    let q : ℕ = v / 2 ^ k in
    let twice : 2 ^ suc n ≤ q * 2 = omega (arith, h.least, pow-suc 2 n) in
    let split : q * 2 ^ k + v % 2 ^ k ≡ v = div-add-mod' v (2 ^ k) in
    let rest : v % 2 ^ k < 2 ^ k = mod-lt v (one-le-pow k 2 (omega arith)) in
    let low : (q + 1) * 2 ^ k ≤ 2 ^ suc n * 2 ^ k =
      mul-le-mul_right (2 ^ k) (omega (arith, h.below)) in
    let high : 2 ^ suc n * 2 ^ k ≤ q * 2 * 2 ^ k = mul-le-mul_right (2 ^ k) twice in
    let power = two_pow_add k (suc n) in
    record { below = grind (arith, power); least = grind (arith, power) }

pub mask_field : (k j v : ℕ) → bit_and v ((2 ^ j - 1) * 2 ^ k) ≡ v / 2 ^ k % 2 ^ j * 2 ^ k
mask_field k j v = and_shift k v (2 ^ j - 1) ∙ ap (λ (t : ℕ). t * 2 ^ k) (and_low j (v / 2 ^ k))

-- `fls32` counts the digits of a 32-bit word.
pub fls32_lem : (v : ℕ) → v < 2 ^ 32 → HasDigits (fls32 v) v
unfolding fls32
fls32_lem v h = ground (
  arith,
  mask_field 16 16 v,
  mask_field 24 8 v,
  mask_field 8 8 v,
  HasDigits-shift 24 (byte_msb (v / 2 ^ 24)) v,
  HasDigits-shift 16 (byte_msb (v / 2 ^ 16)) v,
  HasDigits-shift 8 (byte_msb (v / 2 ^ 8)) v,
  byte_msb_lem (v / 2 ^ 24),
  byte_msb_lem (v / 2 ^ 16),
  byte_msb_lem (v / 2 ^ 8),
  byte_msb_lem v,
)

-- `fls64` of a 64-bit word is the number of its binary digits, 0 for the word 0.
pub fls64_lem : (v : ℕ) → v < 2 ^ 64 → HasDigits (fls64 v) v
unfolding fls64
fls64_lem v h = ground (
  arith,
  fls32_lem (v / 2 ^ 32),
  fls32_lem v,
  HasDigits-shift 32 (fls32 (v / 2 ^ 32)) v,
  ap fls32 {x = v / 2 ^ 32 % 2 ^ 32} {y = v / 2 ^ 32} (omega arith),
)

-- No number has two counts of digits.
HasDigits-le : (n m v : ℕ) → HasDigits n v → HasDigits m v → m ≤ n
HasDigits-le n m v h h' = elim (dec_lt n m) [
  | yes p ↦ absurd (
      omega (
        arith,
        h.below,
        h'.least,
        pow-suc 2 n,
        pow-le-pow_right {n = 2} (omega arith) {i = suc n} {j = m} p,
      ))
  | no p ↦ omega arith
]

pub HasDigits-unique : (n m v : ℕ) → HasDigits n v → HasDigits m v → n ≡ m
HasDigits-unique n m v h h' = omega (arith, HasDigits-le n m v h h', HasDigits-le m n v h' h)
