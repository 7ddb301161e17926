-- ===== src/Gf2.antt =====
-- Polynomials over the field of two elements, as the natural numbers whose binary digits are
-- their coefficients. Addition is exclusive or, and multiplication by x is a shift. This is the
-- description against which dedup-lib/rabinpoly.c is read; none of it is taken from the code.
pub mod Degree
use native.Mathlib.Nat.{
  mul_assoc, pow-suc, add-zero, one-le-pow, mod-lt, mod-add-div', div-div-eq-div-mul,
}
use cloudfs.Base.{
  ℕ, zero, suc, ◌+◌, ◌*◌, ◌/◌, ◌%◌, ◌^◌, ◌<◌, bit_xor, ◌≡◌, refl, sym, ap, ◌∙◌, arith,
}
use cloudfs.Base.Bits.{zero-xor, xor-zero, xor_comm, xor_assoc, xor_self, xor_cancel}
use cloudfs.Base.Bits.{xor_interchange, xor_mul_pow, xor_cong, xor-add}

-- The sums of shifts of `d`, which are its multiples.
pub data Multiple (d : ℕ) : ℕ → Type 0 where
  none_yet : Multiple d 0
  plus : {a : ℕ} (i b : ℕ) → b ≡ bit_xor (d * 2 ^ i) a → Multiple d a → Multiple d b

-- Two polynomials with the same remainder by `d`.
pub record Congruent (d a b : ℕ) : Type 0 where
  pub difference : Multiple d (bit_xor a b)

-- The product of `y` with the lowest `n` coefficients of `x`.
abbrev pub term : ℕ → ℕ → ℕ → ℕ
term n x y = x / 2 ^ n % 2 * (y * 2 ^ n)

unfoldable pub product : ℕ → ℕ → ℕ → ℕ
product zero x y = 0
product (suc n) x y = bit_xor (product n x y) (term n x y)

pub two_pow_add : (i k : ℕ) → 2 ^ (i + k) ≡ 2 ^ i * 2 ^ k
two_pow_add i zero = rw add-zero (omega arith)
two_pow_add i (suc k) =
    ap (λ (t : ℕ). 2 ^ t) {x = i + suc k} {y = suc (i + k)} (omega arith)
    ∙ pow-suc 2 (i + k)
    ∙ ap (λ (t : ℕ). t * 2) (two_pow_add i k)
    ∙ mul_assoc (2 ^ i) (2 ^ k) 2
    ∙ ap (λ (t : ℕ). 2 ^ i * t) (sym (pow-suc 2 k))

pub mul_pow_pow : (a i k : ℕ) → a * 2 ^ (i + k) ≡ a * 2 ^ i * 2 ^ k
mul_pow_pow a i k = ap (λ (t : ℕ). a * t) (two_pow_add i k) ∙ sym (mul_assoc a (2 ^ i) (2 ^ k))

module _ {d : ℕ} where
  pub Multiple-eq : {a b : ℕ} → a ≡ b → Multiple d a → Multiple d b
  Multiple-eq e m = rw e at m

  pub Multiple-shift_self : (i : ℕ) → Multiple d (d * 2 ^ i)
  Multiple-shift_self i = plus i (d * 2 ^ i) (sym (xor-zero _)) none_yet

  pub Multiple-xor : {a b : ℕ} → Multiple d a → Multiple d b → Multiple d (bit_xor a b)
  Multiple-xor {b} none_yet m = Multiple-eq (sym (zero-xor b)) m
  Multiple-xor {b = c} (plus {a = a} i b e m) k =
      plus i (bit_xor b c) (ap (λ x. bit_xor x c) e ∙ xor_assoc _ a c) (Multiple-xor m k)

  pub Multiple-shift : {a : ℕ} (k : ℕ) → Multiple d a → Multiple d (a * 2 ^ k)
  Multiple-shift k none_yet = Multiple-eq (omega arith) none_yet
  Multiple-shift k (plus {a = a} i b e m) = plus (i + k) (b * 2 ^ k) shifted (Multiple-shift k m)
    where
      shifted : b * 2 ^ k ≡ bit_xor (d * 2 ^ (i + k)) (a * 2 ^ k)
      shifted =
          ap (λ (t : ℕ). t * 2 ^ k) e
          ∙ sym (xor_mul_pow k (d * 2 ^ i) a)
          ∙ ap (λ (t : ℕ). bit_xor t (a * 2 ^ k)) (sym (mul_pow_pow d i k))

  pub Congruent-refl : {a b : ℕ} → a ≡ b → Congruent d a b
  Congruent-refl {a} {b} e = record {
    difference = Multiple-eq (sym (xor_self a) ∙ ap (bit_xor a) e) none_yet;
  }

  pub Congruent-sym : {a b : ℕ} → Congruent d a b → Congruent d b a
  Congruent-sym {a} {b} m = record { difference = Multiple-eq (xor_comm a b) m.difference }

  pub Congruent-trans : {a b c : ℕ} → Congruent d a b → Congruent d b c → Congruent d a c
  Congruent-trans {a} {b} {c} m k = record {
    difference =
        Multiple-eq (xor_assoc a b (bit_xor b c) ∙ ap (bit_xor a) (xor_cancel b c))
          (Multiple-xor m.difference k.difference);
  }

  pub Congruent-xor :
      {a b a' b' : ℕ}
      → Congruent d a b
      → Congruent d a' b'
      → Congruent d (bit_xor a a') (bit_xor b b')
  Congruent-xor {a} {b} {a'} {b'} m k = record {
    difference = Multiple-eq (xor_interchange a b a' b') (Multiple-xor m.difference k.difference);
  }

  pub Congruent-shift : {a b : ℕ} (k : ℕ) → Congruent d a b → Congruent d (a * 2 ^ k) (b * 2 ^ k)
  Congruent-shift {a} {b} k m = record {
    difference = Multiple-eq (sym (xor_mul_pow k a b)) (Multiple-shift k m.difference);
  }

  -- Adding a multiple changes no remainder.
  pub Congruent-plus : (a : ℕ) {m : ℕ} → Multiple d m → Congruent d (bit_xor a m) a
  Congruent-plus a {m} h = record {
    difference =
        Multiple-eq
          (sym (
            ap (λ x. bit_xor x a) (xor_comm a m)
            ∙ xor_assoc m a a
            ∙ ap (bit_xor m) (xor_self a)
            ∙ xor-zero m))
          h;
  }

  -- A product may be taken with any polynomial that is congruent to the second factor.
  pub Congruent-product :
      (n x : ℕ) {y z : ℕ} → Congruent d y z → Congruent d (product n x y) (product n x z)
  unfolding product
  Congruent-product zero x h = Congruent-refl refl
  Congruent-product (suc n) x {y} {z} h =
      Congruent-xor (Congruent-product n x h) (digit (x / 2 ^ n % 2) (omega arith))
    where
      digit : (q : ℕ) → q < 2 → Congruent d (q * (y * 2 ^ n)) (q * (z * 2 ^ n))
      digit zero h' = Congruent-refl (omega arith)
      digit (suc zero) h' =
          Congruent-trans (Congruent-refl (omega arith))
            (Congruent-trans (Congruent-shift n h) (Congruent-refl (omega arith)))
      digit (suc (suc q)) h' = absurd (omega arith)

mod_double : (m x : ℕ) → x % (m * 2) ≡ x / m % 2 * m + x % m
mod_double m x = omega (
  arith,
  mod-add-div' x (m * 2),
  mod-add-div' x m,
  ap (λ (t : ℕ). t * (m * 2)) (div-div-eq-div-mul x m 2),
  ap (λ (t : ℕ). t * m) {x = x / m} {y = x / m / 2 * 2 + x / m % 2} (omega arith),
)

pub mod_pow_suc : (n x : ℕ) → x % 2 ^ suc n ≡ x / 2 ^ n % 2 * 2 ^ n + x % 2 ^ n
mod_pow_suc n x = ap (λ (t : ℕ). x % t) (pow-suc 2 n) ∙ mod_double (2 ^ n) x

-- A factor that fits `n` digits is a sum of powers, so that a product by a power is a shift.
pub product_pow : (n x j : ℕ) → product n x (2 ^ j) ≡ x % 2 ^ n * 2 ^ j
unfolding product
product_pow zero x j = omega (arith, ap (λ (t : ℕ). t * 2 ^ j) {x = x % 1} {y = 0} (omega arith))
product_pow (suc n) x j =
    xor_cong (product n x (2 ^ j)) (x % 2 ^ n * 2 ^ j) (term n x (2 ^ j))
      (x / 2 ^ n % 2 * 2 ^ n * 2 ^ j) (product_pow n x j) (grind arith)
    ∙ xor_mul_pow j (x % 2 ^ n) (x / 2 ^ n % 2 * 2 ^ n)
    ∙ ap (λ (t : ℕ). t * 2 ^ j)
        (xor_comm (x % 2 ^ n) (x / 2 ^ n % 2 * 2 ^ n)
          ∙ xor-add n (x / 2 ^ n % 2) (x % 2 ^ n) (mod-lt x (one-le-pow n 2 (omega arith)))
          ∙ sym (mod_pow_suc n x))
