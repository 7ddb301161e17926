-- ===== src/Rabin/Msb/Least/Laws.antt =====
-- `ffs32` gives the lowest set digit of a word, and `log2c64` the logarithm, rounded up.
use mathlib.Core.Path.{subst}
use native.Mathlib.Nat.{
  pow-suc, add-mul-mod_self_right, mod-eq_of_lt, one-le-pow, add-mul, mul_assoc, mul_comm,
}
use native.Mathlib.Nat.{div-add-mod'}
use cloudfs.Base.{ℕ, zero, suc, ◌+◌, ◌-◌, ◌*◌, ◌/◌, ◌%◌, ◌^◌, ◌≤◌, ◌<◌, ◌≡◌, refl, ap, ◌∙◌}
use cloudfs.Base.{arith, Bool, true, ◌&&◌, ◌||◌, ◌==◌, ltb, some}
use cloudfs.Base.Masks.{and_low}
use cloudfs.Gf2.{two_pow_add}
use cloudfs.Rabin.Msb.{fls64}
use cloudfs.Rabin.Msb.Laws.{mask_field, fls64_lem, at_entry, table_holds}
use cloudfs.Rabin.Msb.Least.{byte_lsb, ffs32, log2c64}

-- The digit `n` of `v`, counted from 1, is set, and none below it is.
pub record IsLowest (n v : ℕ) : Type 0 where
  pub counted : 0 < n
  pub lowest : v % 2 ^ n ≡ 2 ^ (n - 1)

is_lowest : ℕ → ℕ → Bool
is_lowest n v = v == 0 || (ltb 0 n && (ltb n 9 && (v % 2 ^ n == 2 ^ (n - 1))))

lsb_table : table_holds (λ v. is_lowest (byte_lsb v) v) 256 ≡ true
unfolding table_holds is_lowest byte_lsb
lsb_table = refl

is_lowest_sound : (n v : ℕ) → 0 < v → is_lowest n v ≡ true → (n < 9) × IsLowest n v
unfolding is_lowest
is_lowest_sound n v pos h = ground arith

byte_lsb_lem : (b : ℕ) → b < 256 → 0 < b → (byte_lsb b < 9) × IsLowest (byte_lsb b) b
byte_lsb_lem b h pos =
    is_lowest_sound (byte_lsb b) b pos (at_entry (λ v. is_lowest (byte_lsb v) v) 256 b h lsb_table)

-- The lowest digit of the lowest byte of a number is its own.
above : (n v : ℕ) → n < 9 → (v % 256) % 2 ^ n ≡ 2 ^ (n - 1) → 0 < n → v % 2 ^ n ≡ 2 ^ (n - 1)
above zero v h e pos = absurd (omega arith)
above (suc zero) v h e pos = omega arith
above (suc (suc zero)) v h e pos = omega arith
above (suc (suc (suc zero))) v h e pos = omega arith
above (suc (suc (suc (suc zero)))) v h e pos = omega arith
above (suc (suc (suc (suc (suc zero))))) v h e pos = omega arith
above (suc (suc (suc (suc (suc (suc zero)))))) v h e pos = omega arith
above (suc (suc (suc (suc (suc (suc (suc zero))))))) v h e pos = omega arith
above (suc (suc (suc (suc (suc (suc (suc (suc zero)))))))) v h e pos = omega arith
above (suc (suc (suc (suc (suc (suc (suc (suc (suc n))))))))) v h e pos = absurd (omega arith)

-- A shift moves the lowest digit along.
IsLowest-shift : (k n v : ℕ) → IsLowest n v → IsLowest (k + n) (v * 2 ^ k)
IsLowest-shift k zero v h = absurd (omega (arith, h.counted))
IsLowest-shift k (suc n) v h = record { counted = omega arith; lowest = moved }
  where
    moved : v * 2 ^ k % 2 ^ (k + suc n) ≡ 2 ^ (k + suc n - 1)
    moved =
        let q = v / 2 ^ suc n in
        let whole : 2 ^ (k + suc n) ≡ 2 ^ k * 2 ^ suc n = two_pow_add k (suc n) in
        let less : 2 ^ (k + n) ≡ 2 ^ k * 2 ^ n = two_pow_add k n in
        let top : 2 ^ (k + suc n) ≡ 2 ^ (k + n) * 2 =
          ap (λ (t : ℕ). 2 ^ t) {x = k + suc n} {y = suc (k + n)} (omega arith)
          ∙ pow-suc 2 (k + n) in
        let split : q * 2 ^ suc n + 2 ^ n ≡ v = omega (
          arith,
          div-add-mod' v (2 ^ suc n),
          h.lowest,
          ap (λ (t : ℕ). 2 ^ t) {x = suc n - 1} {y = n} (omega arith),
        ) in
        let parts : v * 2 ^ k ≡ 2 ^ (k + n) + q * 2 ^ (k + suc n) = omega (
          arith,
          less,
          ap (λ (t : ℕ). t * 2 ^ k) split,
          add-mul (q * 2 ^ suc n) (2 ^ n) (2 ^ k),
          mul_assoc q (2 ^ suc n) (2 ^ k),
          ap (λ (t : ℕ). q * t) (mul_comm (2 ^ suc n) (2 ^ k)),
          ap (λ (t : ℕ). q * t) whole,
          mul_comm (2 ^ n) (2 ^ k),
        ) in
        ap (λ (t : ℕ). t % 2 ^ (k + suc n)) parts
        ∙ add-mul-mod_self_right (2 ^ (k + n)) q (2 ^ (k + suc n))
        ∙ mod-eq_of_lt (omega (arith, top, one-le-pow (k + n) 2 (omega arith)))
        ∙ ap (λ (t : ℕ). 2 ^ t) {x = k + n} {y = k + suc n - 1} (omega arith)

byte_at :
    (k v : ℕ) → v % 2 ^ k ≡ 0 → 0 < v / 2 ^ k % 256 → IsLowest (k + byte_lsb (v / 2 ^ k % 256)) v
byte_at k v zeros pos =
    let b = v / 2 ^ k % 256 in
    let (small, low) = byte_lsb_lem b (omega arith) pos in
    let whole : v / 2 ^ k * 2 ^ k ≡ v = omega (arith, div-add-mod' v (2 ^ k)) in
    let high : IsLowest (byte_lsb b) (v / 2 ^ k) = record {
      counted = low.counted;
      lowest = above (byte_lsb b) (v / 2 ^ k) small low.lowest low.counted;
    } in
    subst (IsLowest (k + byte_lsb b)) whole (IsLowest-shift k (byte_lsb b) (v / 2 ^ k) high)

byte_low : (v : ℕ) → 0 < v % 256 → IsLowest (byte_lsb (v % 256)) v
byte_low v pos =
    let (small, low) = byte_lsb_lem (v % 256) (omega arith) pos in
    record {
      counted = low.counted;
      lowest = above (byte_lsb (v % 256)) v small low.lowest low.counted;
    }

-- `ffs32` of a 32-bit word but 0 is the place, counted from 1, of its lowest digit that is set.
pub ffs32_lem : (v : ℕ) → v < 2 ^ 32 → 0 < v → IsLowest (ffs32 v) v
unfolding ffs32
ffs32_lem v h pos = ground (
  arith,
  and_low 16 v,
  and_low 8 v,
  and_low 8 (v / 2 ^ 8),
  and_low 8 (v / 2 ^ 24),
  mask_field 16 8 v,
  byte_low v,
  byte_at 8 v,
  byte_at 16 v,
  byte_at 24 v,
)

-- `log2c64` of a 64-bit word v but 0 is a number n with v ≤ 2 ^ n and 2 ^ n < 2 * v: the logarithm
-- to base 2, rounded up.
pub log2c64_lem :
    (v : ℕ) → v < 2 ^ 64 → 0 < v → (n : ℕ) × (log2c64 v ≡ some n) × (v ≤ 2 ^ n) × (2 ^ n < 2 * v)
unfolding log2c64
log2c64_lem v h pos =
    let digits = fls64_lem (v - 1) (omega arith) in
    (fls64 (v - 1), ground arith, omega (arith, digits.below), omega (arith, digits.least))
