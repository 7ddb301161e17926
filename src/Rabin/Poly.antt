-- ===== src/Rabin/Poly.antt =====
-- dedup-lib/rabinpoly.c: the arithmetic of polynomials in 64-bit words.
pub mod Mod
pub mod Remainder
pub mod Mult
use cloudfs.Base.{ℕ, zero, suc, ◌+◌, ◌-◌, ◌%◌, bit_and, bit_xor, ◌<<<◌, ◌>>>◌}
use cloudfs.Base.{not, ◌==◌, if◌then◌else◌}
use cloudfs.Base.Masks.{has_bit}
use cloudfs.Rabin.Msb.{fls64}

-- `MSB64` is digit 63.
abbrev pub msb64 : ℕ
msb64 = 63

-- A number of up to 128 digits in two words, as `(nh, nl)` and `(ph, pl)` of the code.
pub record Double : Type 0 where
  pub high : ℕ
  pub low : ℕ

-- The body of `for (i = 62; i >= 0; i--)` in `polymod`; `d` is shifted so that digit 63 is set.
unfoldable pub high_step : ℕ → ℕ → Double → Double
high_step d i n =
    if has_bit n.high i
    then record { high = bit_xor n.high (d >>> (63 - i)); low = bit_xor n.low (d <<< (i + 1)) }
    else n

-- The loop from `i` - 1 down to 0.
unfoldable pub high_loop : ℕ → ℕ → Double → Double
high_loop d zero n = n
high_loop d (suc i) n = high_loop d i (high_step d i n)

-- The body of `for (i = 63; i >= k; i--)`.
unfoldable pub low_step : ℕ → ℕ → ℕ → ℕ
low_step d i nl = if has_bit nl i then bit_xor nl (d >>> (63 - i)) else nl

-- The last `left` rounds of it, for i = k + left - 1 down to k.
unfoldable pub low_loop : ℕ → ℕ → ℕ → ℕ → ℕ
low_loop d k zero nl = nl
low_loop d k (suc left) nl = low_loop d k left (low_step d (k + left) nl)

-- The part of `polymod` under `if (nh)`.
unfoldable pub clear_high : ℕ → Double → Double
clear_high d n =
    if not (n.high == 0)
    then high_loop d 63 (if has_bit n.high msb64 then record n { high = bit_xor n.high d } else n)
    else n

-- `polymod`. A zero divisor, which the code never passes, would be shifted by 64 there.
unfoldable pub polymod : ℕ → ℕ → ℕ → ℕ
polymod nh nl d =
    let k = fls64 d - 1 in
    let d' = d <<< (63 - k) in
    low_loop d' k (64 - k) (clear_high d' (record { high = nh; low = nl })).low

-- The body of `for (i = 1; i < 64; i++)` in `polymult`.
unfoldable pub mult_step : ℕ → ℕ → ℕ → Double → Double
mult_step x y i p =
    if has_bit x i
    then record { high = bit_xor p.high (y >>> (64 - i)); low = bit_xor p.low (y <<< i) }
    else p

-- `left` rounds from `i` on.
unfoldable pub mult_loop : ℕ → ℕ → ℕ → ℕ → Double → Double
mult_loop x y zero i p = p
mult_loop x y (suc left) i p = mult_loop x y left (i + 1) (mult_step x y i p)

-- `polymult`. Both result pointers are given at its one call.
unfoldable pub polymult : ℕ → ℕ → Double
polymult x y =
    mult_loop x y 63 1 (record { high = 0; low = if not (bit_and x 1 == 0) then y else 0 })

unfoldable pub polymmult : ℕ → ℕ → ℕ → ℕ
polymmult x y d = let p = polymult x y in polymod p.high p.low d
