-- ===== src/Rabin/Msb/Least.antt =====
-- dedup-lib/msb.h and the second table of dedup-lib/msb.c: the lowest set digit of a word, and the
-- logarithm to base 2, rounded up.
pub mod Laws
use cloudfs.Base.{ℕ, ◌+◌, ◌-◌, ◌/◌, ◌^◌, bit_and, not, Option, none, some, List, [], ◌∷◌, get_or}
use cloudfs.Base.{◌==◌, if◌then◌else◌}
use cloudfs.Rabin.Msb.{fls32, fls64}

-- `bytelsb`: the lowest set digit of a byte, counted from 1.
unfoldable pub bytelsb : List ℕ
bytelsb =
    0 ∷ 1 ∷ 2 ∷ 1 ∷ 3 ∷ 1 ∷ 2 ∷ 1 ∷ 4 ∷ 1 ∷ 2 ∷ 1 ∷ 3 ∷ 1 ∷ 2 ∷ 1 ∷ 5 ∷ 1 ∷ 2 ∷ 1 ∷ 3 ∷ 1 ∷ 2 ∷ 1
    ∷ 4 ∷ 1 ∷ 2 ∷ 1 ∷ 3 ∷ 1 ∷ 2 ∷ 1 ∷ 6 ∷ 1 ∷ 2 ∷ 1 ∷ 3 ∷ 1 ∷ 2 ∷ 1 ∷ 4 ∷ 1 ∷ 2 ∷ 1 ∷ 3 ∷ 1 ∷ 2 ∷ 1
    ∷ 5 ∷ 1 ∷ 2 ∷ 1 ∷ 3 ∷ 1 ∷ 2 ∷ 1 ∷ 4 ∷ 1 ∷ 2 ∷ 1 ∷ 3 ∷ 1 ∷ 2 ∷ 1 ∷ 7 ∷ 1 ∷ 2 ∷ 1 ∷ 3 ∷ 1 ∷ 2 ∷ 1
    ∷ 4 ∷ 1 ∷ 2 ∷ 1 ∷ 3 ∷ 1 ∷ 2 ∷ 1 ∷ 5 ∷ 1 ∷ 2 ∷ 1 ∷ 3 ∷ 1 ∷ 2 ∷ 1 ∷ 4 ∷ 1 ∷ 2 ∷ 1 ∷ 3 ∷ 1 ∷ 2 ∷ 1
    ∷ 6 ∷ 1 ∷ 2 ∷ 1 ∷ 3 ∷ 1 ∷ 2 ∷ 1 ∷ 4 ∷ 1 ∷ 2 ∷ 1 ∷ 3 ∷ 1 ∷ 2 ∷ 1 ∷ 5 ∷ 1 ∷ 2 ∷ 1 ∷ 3 ∷ 1 ∷ 2 ∷ 1
    ∷ 4 ∷ 1 ∷ 2 ∷ 1 ∷ 3 ∷ 1 ∷ 2 ∷ 1 ∷ 8 ∷ 1 ∷ 2 ∷ 1 ∷ 3 ∷ 1 ∷ 2 ∷ 1 ∷ 4 ∷ 1 ∷ 2 ∷ 1 ∷ 3 ∷ 1 ∷ 2 ∷ 1
    ∷ 5 ∷ 1 ∷ 2 ∷ 1 ∷ 3 ∷ 1 ∷ 2 ∷ 1 ∷ 4 ∷ 1 ∷ 2 ∷ 1 ∷ 3 ∷ 1 ∷ 2 ∷ 1 ∷ 6 ∷ 1 ∷ 2 ∷ 1 ∷ 3 ∷ 1 ∷ 2 ∷ 1
    ∷ 4 ∷ 1 ∷ 2 ∷ 1 ∷ 3 ∷ 1 ∷ 2 ∷ 1 ∷ 5 ∷ 1 ∷ 2 ∷ 1 ∷ 3 ∷ 1 ∷ 2 ∷ 1 ∷ 4 ∷ 1 ∷ 2 ∷ 1 ∷ 3 ∷ 1 ∷ 2 ∷ 1
    ∷ 7 ∷ 1 ∷ 2 ∷ 1 ∷ 3 ∷ 1 ∷ 2 ∷ 1 ∷ 4 ∷ 1 ∷ 2 ∷ 1 ∷ 3 ∷ 1 ∷ 2 ∷ 1 ∷ 5 ∷ 1 ∷ 2 ∷ 1 ∷ 3 ∷ 1 ∷ 2 ∷ 1
    ∷ 4 ∷ 1 ∷ 2 ∷ 1 ∷ 3 ∷ 1 ∷ 2 ∷ 1 ∷ 6 ∷ 1 ∷ 2 ∷ 1 ∷ 3 ∷ 1 ∷ 2 ∷ 1 ∷ 4 ∷ 1 ∷ 2 ∷ 1 ∷ 3 ∷ 1 ∷ 2 ∷ 1
    ∷ 5 ∷ 1 ∷ 2 ∷ 1 ∷ 3 ∷ 1 ∷ 2 ∷ 1 ∷ 4 ∷ 1 ∷ 2 ∷ 1 ∷ 3 ∷ 1 ∷ 2 ∷ 1 ∷ []

-- The array read `bytelsb[i]`.
unfoldable pub byte_lsb : ℕ → ℕ
unfolding bytelsb
byte_lsb i = get_or bytelsb i 0

-- `ffs32`
unfoldable pub ffs32 : ℕ → ℕ
ffs32 v =
    if not (bit_and v 0xffff == 0)
    then (let vv = bit_and v 0xff in
        if not (vv == 0) then byte_lsb vv else 8 + byte_lsb (bit_and (v / 2 ^ 8) 0xff))
    else (let vv = bit_and v 0xff0000 in
        if not (vv == 0)
        then 16 + byte_lsb (vv / 2 ^ 16)
        else if not (v == 0)
        then 24 + byte_lsb (bit_and (v / 2 ^ 24) 0xff)
        else 0)

-- `ffs64`, with the calls of `fls32` that it makes.
unfoldable pub ffs64 : ℕ → ℕ
ffs64 v =
    let low = bit_and v 0xffffffff in
    let high = v / 2 ^ 32 in
    if not (low == 0) then fls32 low else if not (high == 0) then 32 + fls32 high else 0

-- `log2c64`; `none` is its -1.
unfoldable pub log2c64 : ℕ → Option ℕ
log2c64 v = if not (v == 0) then some (fls64 (v - 1)) else none
