-- ===== src/Base/Bits.antt =====
-- The laws of exclusive or on natural numbers as digit strings, at every width. The native
-- operation has none at variables but its definition on binary digits.
use Prim.Native.Nat.{ℕ, zero, suc, ◌+◌, ◌*◌, ◌/◌, ◌%◌, ◌^◌, ◌≤◌, ◌<◌}
use Prim.Native.Nat.{bit_xor, differ, bit_xor-bitwise}
use mathlib.Core.Path.{◌≡◌, refl, ap, ap₂, ◌∙◌, sym}
use native.Mathlib.Nat.{pow-suc, one-le-pow, mod-lt, div-add-mod', mul-add-div_right, div-eq_of_lt}
use native.Mathlib.Omega.{arith}
use cloudfs.Base.Digits.{enough_digits}

differ_digit : (a b : ℕ) → a < 2 → b < 2 → differ a b ≡ (a + b) % 2
differ_digit zero b p q = omega arith
differ_digit (suc zero) zero p q = omega arith
differ_digit (suc zero) (suc zero) p q = omega arith
differ_digit (suc zero) (suc (suc b)) p q = absurd (omega arith)
differ_digit (suc (suc a)) b p q = absurd (omega arith)

pub zero-xor : (b : ℕ) → bit_xor 0 b ≡ b
zero-xor b = bit_xor-bitwise 0 b

-- The lowest digit of an exclusive or, and the digits above it.
pub xor_step : (a b : ℕ) → bit_xor a b ≡ bit_xor (a / 2) (b / 2) * 2 + (a + b) % 2
xor_step zero b = omega (arith, zero-xor b, zero-xor (b / 2))
xor_step (suc a) b = omega (
  arith,
  bit_xor-bitwise (suc a) b,
  bit_xor-bitwise (suc a / 2) (b / 2),
  differ_digit (suc a % 2) (b % 2) (omega arith) (omega arith),
  enough_digits (λ y. y) differ a (suc a / 2) (b / 2) (omega arith),
)

-- Each law goes from the halves to the numbers; `n` bounds the first.
xor_comm_fuel : (n a b : ℕ) → a ≤ n → b ≤ n → bit_xor a b ≡ bit_xor b a
xor_comm_fuel zero a b h k = at_zero a b (omega arith) (omega arith)
  where
    at_zero : (a b : ℕ) → a ≡ 0 → b ≡ 0 → bit_xor a b ≡ bit_xor b a
    at_zero a b e f = rw (e, f)
xor_comm_fuel (suc n) a b h k =
    omega (
      arith,
      xor_step a b,
      xor_step b a,
      xor_comm_fuel n (a / 2) (b / 2) (omega arith) (omega arith),
    )

pub xor_comm : (a b : ℕ) → bit_xor a b ≡ bit_xor b a
xor_comm a b = xor_comm_fuel (a + b) a b (omega arith) (omega arith)

pub xor-zero : (a : ℕ) → bit_xor a 0 ≡ a
xor-zero a = xor_comm a 0 ∙ zero-xor a

xor_self_fuel : (n a : ℕ) → a ≤ n → bit_xor a a ≡ 0
xor_self_fuel n zero h = refl
xor_self_fuel zero (suc a) h = absurd (omega arith)
xor_self_fuel (suc n) (suc a) h =
    omega (arith, xor_step (suc a) (suc a), xor_self_fuel n (suc a / 2) (omega arith))

pub xor_self : (a : ℕ) → bit_xor a a ≡ 0
xor_self a = xor_self_fuel a a (omega arith)

pub xor_half : (a b : ℕ) → bit_xor a b / 2 ≡ bit_xor (a / 2) (b / 2)
xor_half a b = omega (arith, xor_step a b)

xor_assoc_fuel : (n a b c : ℕ) → a ≤ n → b ≤ n → bit_xor (bit_xor a b) c ≡ bit_xor a (bit_xor b c)
xor_assoc_fuel zero a b c h k = at_zero a b (omega arith) (omega arith)
  where
    at_zero : (a b : ℕ) → a ≡ 0 → b ≡ 0 → bit_xor (bit_xor a b) c ≡ bit_xor a (bit_xor b c)
    at_zero a b e f = rw (e, f) (ap (λ x. bit_xor x c) (zero-xor 0) ∙ sym (zero-xor (bit_xor 0 c)))
xor_assoc_fuel (suc n) a b c h k = omega (
  arith,
  xor_step (bit_xor a b) c,
  xor_step a (bit_xor b c),
  ap (λ x. bit_xor x (c / 2)) (xor_half a b),
  ap (bit_xor (a / 2)) (xor_half b c),
  xor_step a b,
  xor_step b c,
  xor_assoc_fuel n (a / 2) (b / 2) (c / 2) (omega arith) (omega arith),
)

pub xor_assoc : (a b c : ℕ) → bit_xor (bit_xor a b) c ≡ bit_xor a (bit_xor b c)
xor_assoc a b c = xor_assoc_fuel (a + b) a b c (omega arith) (omega arith)

-- Terms cancel, and regroup, as in an abelian group of exponent two.
pub xor_cancel : (a b : ℕ) → bit_xor a (bit_xor a b) ≡ b
xor_cancel a b = sym (xor_assoc a a b) ∙ ap (λ x. bit_xor x b) (xor_self a) ∙ zero-xor b

pub xor_left_comm : (a b c : ℕ) → bit_xor a (bit_xor b c) ≡ bit_xor b (bit_xor a c)
xor_left_comm a b c = sym (xor_assoc a b c) ∙ ap (λ x. bit_xor x c) (xor_comm a b) ∙ xor_assoc b a c

pub xor_interchange :
    (a b c d : ℕ) → bit_xor (bit_xor a b) (bit_xor c d) ≡ bit_xor (bit_xor a c) (bit_xor b d)
xor_interchange a b c d =
    xor_assoc a b (bit_xor c d)
    ∙ ap (bit_xor a) (xor_left_comm b c d)
    ∙ sym (xor_assoc a c (bit_xor b d))

pub shift_suc : (q k : ℕ) → q * 2 ^ suc k ≡ 2 * (q * 2 ^ k)
shift_suc q k = ap (λ (t : ℕ). q * t) (pow-suc 2 k) ∙ omega arith

pub xor_cong : (x y u v : ℕ) → x ≡ y → u ≡ v → bit_xor x u ≡ bit_xor y v
xor_cong x y u v e f = ap₂ bit_xor e f

-- Fields above and below digit `k` do not meet.
pub xor_fields :
    (k q r q' r' : ℕ)
    → r < 2 ^ k
    → r' < 2 ^ k
    → (bit_xor (q * 2 ^ k + r) (q' * 2 ^ k + r') ≡ bit_xor q q' * 2 ^ k + bit_xor r r')
      × (bit_xor r r' < 2 ^ k)
xor_fields zero q r q' r' h h' = at_zero r r' (omega arith) (omega arith)
  where
    at_zero :
        (r r' : ℕ)
        → r ≡ 0
        → r' ≡ 0
        → (bit_xor (q * 1 + r) (q' * 1 + r') ≡ bit_xor q q' * 1 + bit_xor r r') × (bit_xor r r' < 1)
    at_zero r r' e e' = (
      xor_cong (q * 1 + r) (q) (q' * 1 + r') (q') (omega arith) (omega arith)
          ∙ omega (arith, xor_cong r 0 r' 0 e e', zero-xor 0),
      omega (arith, xor_cong r 0 r' 0 e e', zero-xor 0),
    )
xor_fields (suc k) q r q' r' h h' = ground (
  arith,
  xor_step (q * 2 ^ suc k + r) (q' * 2 ^ suc k + r'),
  xor_step r r',
  shift_suc q k,
  shift_suc q' k,
  shift_suc (bit_xor q q') k,
  pow-suc 2 k,
  xor_fields k q (r / 2) q' (r' / 2),
)

pub xor-lt : (k a b : ℕ) → a < 2 ^ k → b < 2 ^ k → bit_xor a b < 2 ^ k
xor-lt k a b h h' = (xor_fields k 0 a 0 b h h').1

-- Shifts, and the parts above and below a digit, distribute over exclusive or.
pub xor_mul_pow : (k a b : ℕ) → bit_xor (a * 2 ^ k) (b * 2 ^ k) ≡ bit_xor a b * 2 ^ k
xor_mul_pow k a b =
    xor_cong (a * 2 ^ k) (a * 2 ^ k + 0) (b * 2 ^ k) (b * 2 ^ k + 0) (omega arith) (omega arith)
    ∙ (xor_fields k a 0 b 0 (one-le-pow k 2 (omega arith)) (one-le-pow k 2 (omega arith))).0
    ∙ omega (arith, zero-xor 0)

pub xor-add : (k q r : ℕ) → r < 2 ^ k → bit_xor (q * 2 ^ k) r ≡ q * 2 ^ k + r
xor-add k q r h =
    xor_cong (q * 2 ^ k) (q * 2 ^ k + 0) (r) (0 * 2 ^ k + r) (omega arith) (omega arith)
    ∙ (xor_fields k q 0 0 r (one-le-pow k 2 (omega arith)) h).0
    ∙ omega (arith, zero-xor r, ap (λ (t : ℕ). t * 2 ^ k) (xor-zero q))

-- Two numbers with the same top digit cancel below it.
pub xor_top : (k a b : ℕ) → a < 2 ^ k → b < 2 ^ k → bit_xor (2 ^ k + a) (2 ^ k + b) < 2 ^ k
xor_top k a b h h' =
    let f = xor_fields k 1 a 1 b h h' in
    omega (
      arith,
      f.0,
      f.1,
      xor_cong (2 ^ k + a) (1 * 2 ^ k + a) (2 ^ k + b) (1 * 2 ^ k + b) (omega arith) (omega arith),
      ap (λ (t : ℕ). t * 2 ^ k) (xor_self 1),
    )

-- The parts of an exclusive or above digit `k`.
pub xor_div : (k a b : ℕ) → bit_xor a b / 2 ^ k ≡ bit_xor (a / 2 ^ k) (b / 2 ^ k)
xor_div k a b =
    let pos : 0 < 2 ^ k = one-le-pow k 2 (omega arith) in
    let f =
      xor_fields k (a / 2 ^ k) (a % 2 ^ k) (b / 2 ^ k) (b % 2 ^ k) (mod-lt a pos) (mod-lt b pos) in
    ap (λ (t : ℕ). t / 2 ^ k)
      (xor_cong a (a / 2 ^ k * 2 ^ k + a % 2 ^ k) b (b / 2 ^ k * 2 ^ k + b % 2 ^ k)
          (sym (div-add-mod' a (2 ^ k))) (sym (div-add-mod' b (2 ^ k)))
        ∙ f.0)
    ∙ mul-add-div_right pos (bit_xor (a / 2 ^ k) (b / 2 ^ k)) _
    ∙ omega (arith, div-eq_of_lt f.1)

pub xor_eq_zero : (a b : ℕ) → bit_xor a b ≡ 0 → a ≡ b
xor_eq_zero a b e = sym (xor-zero a) ∙ ap (bit_xor a) (sym e) ∙ xor_cancel a b

pub xor_digit_mul : (q r d : ℕ) → q < 2 → r < 2 → bit_xor (q * d) (r * d) ≡ (q + r) % 2 * d
xor_digit_mul zero r d h h' =
    xor_cong (0 * d) 0 (r * d) (r % 2 * d) (omega arith) (grind arith)
    ∙ zero-xor (r % 2 * d)
    ∙ ap (λ (t : ℕ). t * d) (omega arith)
xor_digit_mul (suc zero) zero d h h' =
    xor_cong (1 * d) d (0 * d) 0 (omega arith) (omega arith) ∙ xor-zero d ∙ omega arith
xor_digit_mul (suc zero) (suc zero) d h h' = xor_self (1 * d) ∙ omega arith
xor_digit_mul (suc zero) (suc (suc r)) d h h' = absurd (omega arith)
xor_digit_mul (suc (suc q)) r d h h' = absurd (omega arith)
