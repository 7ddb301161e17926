-- ===== src/Rabin/Window/Tables.antt =====
-- The tables of `calcT` hold the remainders that `append8` and `slide8` need.
use cloudfs.Base.{ℕ, zero, suc, ◌+◌, ◌-◌, ◌*◌, ◌/◌, ◌%◌, ◌^◌, ◌≤◌, ◌<◌, bit_or, bit_xor}
use cloudfs.Base.{
  ◌≡◌, sym, ap, ap₂, ◌∙◌, arith, ◌<<<◌, ◌>>>◌, length, get_or, get_or-tabulate, length-tabulate,
}
use cloudfs.Base.Bits.{xor_fields, xor-add, xor_self, xor_comm}
use cloudfs.Base.Masks.{or-add, or-add'}
use cloudfs.Gf2.{product_pow, two_pow_add}
use cloudfs.Gf2.Degree.{
  residue, residue-xor, residue_low, residue-lt, residue-product, residue-shift,
}
use cloudfs.Rabin.Msb.{fls64}
use cloudfs.Rabin.Msb.Laws.{HasDigits, fls64_lem, HasDigits-unique}
use cloudfs.Rabin.Poly.{polymod, polymmult}
use cloudfs.Rabin.Poly.Mult.{polymmult_lem}
use cloudfs.Rabin.Poly.Remainder.{polymod_lem}
use cloudfs.Rabin.Window.{Rabin, append8, size_shift, t_table, calc_t_table, calc_t}

-- The remainder by a polynomial of degree 63.
abbrev pub rem : ℕ → ℕ → ℕ
rem = residue 63

-- A polynomial of degree 63.
pub record IsPoly (d : ℕ) : Type 0 where
  pub top : 2 ^ 63 ≤ d
  pub fits : d < 2 ^ 64

-- What `T` is for: the table clears the digits that a shift by a byte pushes past digit 62.
pub record HasTable (rp : Rabin) : Type 0 where
  pub is_poly : IsPoly rp.poly
  pub size : length rp.t ≡ 256
  pub by_55 : rp.shift ≡ 55
  pub entry : (i : ℕ) → i < 256 → get_or rp.t i 0 ≡ rem rp.poly (i * 2 ^ 63) + i % 2 * 2 ^ 63

IsPoly-HasDigits : {d : ℕ} → IsPoly d → HasDigits 64 d
IsPoly-HasDigits p = record { below = p.fits; least = omega (arith, p.top) }

pub degree_63 : {d : ℕ} → IsPoly d → fls64 d - 1 ≡ 63
degree_63 {d} p =
    omega (arith, HasDigits-unique (fls64 d) 64 d (fls64_lem d p.fits) (IsPoly-HasDigits p))

module _ (d : ℕ) (p : IsPoly d) where
  pub rem-lt : (a : ℕ) → rem d a < 2 ^ 63
  rem-lt a = residue-lt 63 d p.top (omega (arith, p.fits)) a a (omega arith)

  -- `polymmult (i, polymod (0, x, d), d)` is the remainder of i times x, for a power x.
  polymmult-rem : (i j : ℕ) → i < 256 → polymmult i (rem d (2 ^ j)) d ≡ rem d (i * 2 ^ j)
  polymmult-rem i j h =
      (polymmult_lem 63 i (rem d (2 ^ j)) d (omega (arith, rem-lt (2 ^ j))) p.fits
        (IsPoly-HasDigits p)).1
      ∙ residue-product 63 d p.top (omega (arith, p.fits)) 64 i (2 ^ j)
      ∙ ap (rem d) (product_pow 64 i j)
      ∙ ap (λ (t : ℕ). rem d (t * 2 ^ j)) {x = i % 2 ^ 64} {y = i} (omega arith)

  t1-rem : polymod 0 (1 <<< 63) d ≡ rem d (2 ^ 63)
  t1-rem = (polymod_lem 63 0 (1 <<< 63) d (omega arith) (omega arith) p.fits (IsPoly-HasDigits p)).1

  pub t_entry :
      (i : ℕ)
      → i < 256
      → bit_or (polymmult i (polymod 0 (1 <<< 63) d) d) (i <<< 63)
        ≡ rem d (i * 2 ^ 63) + i % 2 * 2 ^ 63
  t_entry i h =
      ap (λ (t : ℕ). bit_or (polymmult i t d) (i <<< 63)) t1-rem
      ∙ ap (λ (t : ℕ). bit_or t (i <<< 63)) (polymmult-rem i 63 h)
      ∙ ap (bit_or (rem d (i * 2 ^ 63))) {x = i <<< 63} {y = i % 2 * 2 ^ 63} (omega arith)
      ∙ or-add 63 (i % 2) (rem d (i * 2 ^ 63)) (rem-lt (i * 2 ^ 63))
      ∙ omega arith

pub calc_t_table-HasTable : (rp : Rabin) → IsPoly rp.poly → HasTable (calc_t_table rp)
unfolding calc_t_table t_table
calc_t_table-HasTable rp p = record {
  is_poly = p;
  size = length-tabulate 256 (λ x.
      bit_or (polymmult x (polymod 0 (1 <<< (fls64 rp.poly - 1)) rp.poly) rp.poly)
        (x <<< (fls64 rp.poly - 1)));
  by_55 = omega (arith, degree_63 p);
  entry = λ i h.
      ap (λ (x : ℕ). get_or (t_table rp.poly x) i 0) (degree_63 p)
      ∙ get_or-tabulate 256
          (λ x. bit_or (polymmult x (polymod 0 (1 <<< 63) rp.poly) rp.poly) (x <<< 63)) i 0 h
      ∙ t_entry rp.poly p i h;
}

module _ (rp : Rabin) (h : HasTable rp) where
  open h use {is_poly}

  -- `append8` takes the remainder after a byte is put behind the polynomial.
  pub append8-rem : (p m : ℕ) → p < 2 ^ 63 → m < 256 → append8 rp p m ≡ rem rp.poly (p * 2 ^ 8 + m)
  unfolding append8
  append8-rem p m hp hm =
      ap₂ bit_xor shifted cleared
      ∙ (xor_fields 63 (i % 2) low (i % 2) top (omega arith) (rem-lt rp.poly is_poly _)).0
      ∙ omega (arith, ap (λ (t : ℕ). t * 2 ^ 63) (xor_self (i % 2)), xor_comm low top)
      ∙ sym (
          ap (rem rp.poly) {x = p * 2 ^ 8 + m} {y = i * 2 ^ 63 + low} (omega arith)
          ∙ ap (rem rp.poly) (sym (xor-add 63 i low (omega arith)))
          ∙ residue-xor 63 rp.poly (i * 2 ^ 63) low
          ∙ ap (bit_xor top) (residue_low 63 rp.poly low (omega arith)))
    where
      i : ℕ
      i = p / 2 ^ 55

      low : ℕ
      low = p % 2 ^ 55 * 2 ^ 8 + m

      top : ℕ
      top = rem rp.poly (i * 2 ^ 63)

      shifted : bit_or (p <<< 8) m ≡ i % 2 * 2 ^ 63 + low
      shifted =
          ap (λ (t : ℕ). bit_or t m) {x = p <<< 8} {y = p % 2 ^ 56 * 2 ^ 8} (omega arith)
          ∙ or-add' 8 (p % 2 ^ 56) m hm
          ∙ omega arith

      cleared : get_or rp.t (p >>> rp.shift) 0 ≡ i % 2 * 2 ^ 63 + top
      cleared =
          ap (λ (k : ℕ). get_or rp.t (p >>> k) 0) h.by_55 ∙ h.entry i (omega arith) ∙ omega arith

  pub size_shift-rem :
      (left n : ℕ)
      → size_shift rp left (rem rp.poly (2 ^ (8 * n))) ≡ rem rp.poly (2 ^ (8 * (n + left)))
  unfolding size_shift
  size_shift-rem zero n =
      ap (λ (t : ℕ). rem rp.poly (2 ^ (8 * t))) {x = n} {y = n + 0} (omega arith)
  size_shift-rem (suc left) n =
      ap (size_shift rp left) (append8-rem _ 0 (rem-lt rp.poly is_poly _) (omega arith) ∙ step)
      ∙ size_shift-rem left (suc n)
      ∙ ap (λ (t : ℕ). rem rp.poly (2 ^ (8 * t))) {x = suc n + left} {y = n + suc left}
          (omega arith)
    where
      step : rem rp.poly (rem rp.poly (2 ^ (8 * n)) * 2 ^ 8 + 0) ≡ rem rp.poly (2 ^ (8 * suc n))
      step =
          ap (rem rp.poly) {x = rem rp.poly (2 ^ (8 * n)) * 2 ^ 8 + 0}
            {y = rem rp.poly (2 ^ (8 * n)) * 2 ^ 8} (omega arith)
          ∙ residue-shift 63 rp.poly is_poly.top (omega (arith, is_poly.fits)) 8 (2 ^ (8 * n))
          ∙ ap (rem rp.poly) (
              sym (two_pow_add (8 * n) 8)
              ∙ ap (λ (t : ℕ). 2 ^ t) {x = 8 * n + 8} {y = 8 * suc n} (omega arith))

-- `U` is for the byte that leaves the window, at its place in front of the others.
pub record HasWindowTable (rp : Rabin) : Type 0 where
  pub table : HasTable rp
  pub size : length rp.u ≡ 256
  pub leaving :
      (b : ℕ) → b < 256 → get_or rp.u b 0 ≡ rem rp.poly (b * 2 ^ (8 * (rp.window_size - 1)))

-- `calcT` fills both tables.
pub calc_t-HasWindowTable : (rp : Rabin) → IsPoly rp.poly → HasWindowTable (calc_t rp)
unfolding calc_t calc_t_table
calc_t-HasWindowTable rp p = record {
  table = record { is_poly = p; size = filled.size; by_55 = filled.by_55; entry = filled.entry };
  size =
      length-tabulate 256
        (λ x. polymmult x (size_shift (calc_t_table rp) (rp.window_size - 1) 1) rp.poly);
  leaving = λ b h.
      get_or-tabulate 256
        (λ x. polymmult x (size_shift (calc_t_table rp) (rp.window_size - 1) 1) rp.poly) b 0 h
      ∙ ap (λ (s : ℕ). polymmult b s rp.poly) power
      ∙ polymmult-rem rp.poly p b (8 * (rp.window_size - 1)) h;
}
  where
    filled : HasTable (calc_t_table rp)
    filled = calc_t_table-HasTable rp p

    power :
        size_shift (calc_t_table rp) (rp.window_size - 1) 1
        ≡ rem rp.poly (2 ^ (8 * (rp.window_size - 1)))
    power =
        ap (size_shift (calc_t_table rp) (rp.window_size - 1))
          (sym (residue_low 63 rp.poly 1 (omega arith)))
        ∙ size_shift-rem (calc_t_table rp) filled (rp.window_size - 1) 0
        ∙ ap (λ (n : ℕ). rem rp.poly (2 ^ (8 * n))) {x = 0 + (rp.window_size - 1)}
            {y = rp.window_size - 1} (omega arith)
