-- ===== src/Rabin/Window.antt =====
-- dedup-lib/rabinpoly.c and rabinpoly.h: the state of the algorithm, its tables and its window.
pub mod Tables
pub mod Slide
pub mod Rolling
use cloudfs.Base.{ℕ, zero, suc, ◌+◌, ◌-◌, ◌%◌, ◌^◌, bit_or, bit_xor, u32, ◌<<<◌, ◌>>>◌}
use cloudfs.Base.{Bool, Option, none, some, not, ◌||◌, ◌==◌, ltb, leb, if◌then◌else◌}
use cloudfs.Base.{List, [], ◌∷◌, get_or, set, replicate, tabulate}
use cloudfs.Rabin.Msb.{fls32, fls64}
use cloudfs.Rabin.Poly.{polymod, polymmult}

-- `struct rabinpoly`; `t` and `u` are the tables `T` and `U`.
pub record Rabin : Type 0 where
  pub poly : ℕ
  pub window_size : ℕ
  pub avg_segment_size : ℕ
  pub min_segment_size : ℕ
  pub max_segment_size : ℕ
  pub fingerprint : ℕ
  pub fingerprint_mask : ℕ
  pub buf : List ℕ
  pub bufpos : ℕ
  pub cur_seg_size : ℕ
  pub shift : ℕ
  pub t : List ℕ
  pub u : List ℕ

abbrev pub default_window_size : ℕ
default_window_size = 32

abbrev pub fingerprint_pt : ℕ
fingerprint_pt = 0xbfe6b8a5bf378d83

-- `append8`; the byte `m` is below 256.
unfoldable pub append8 : Rabin → ℕ → ℕ → ℕ
append8 rp p m = bit_xor (bit_or (p <<< 8) m) (get_or rp.t (p >>> rp.shift) 0)

-- The loop of `calcT` for `sizeshift`, with `left` rounds to go.
unfoldable pub size_shift : Rabin → ℕ → ℕ → ℕ
size_shift rp zero s = s
size_shift rp (suc left) s = size_shift rp left (append8 rp s 0)

-- The loop of `calcT` that fills `T`.
unfoldable pub t_table : ℕ → ℕ → List ℕ
t_table poly xshift =
    let t1 = polymod 0 (1 <<< xshift) poly in
    tabulate 256 (λ i. bit_or (polymmult i t1 poly) (i <<< xshift))

-- The first half of `calcT`: `shift` and the table `T`.
unfoldable pub calc_t_table : Rabin → Rabin
calc_t_table rp =
    let xshift = fls64 rp.poly - 1 in record rp { shift = xshift - 8; t = t_table rp.poly xshift }

-- `calcT`
unfoldable pub calc_t : Rabin → Rabin
calc_t rp =
    let rp' = calc_t_table rp in
    let sizeshift = size_shift rp' (rp.window_size - 1) 1 in
    record rp' { u = tabulate 256 (λ i. polymmult i sizeshift rp.poly) }

-- Where the next byte goes: `bufpos` after its increment at the start of `slide8`.
abbrev pub next_pos : Rabin → ℕ
next_pos rp = let p = u32 (rp.bufpos + 1) in if leb rp.window_size p then 0 else p

-- `slide8`. Its result is the new fingerprint.
unfoldable pub slide8 : Rabin → ℕ → Rabin
slide8 rp m =
    let pos = next_pos rp in
    let om = get_or rp.buf pos 0 in
    record rp {
      bufpos = pos;
      buf = set rp.buf pos m;
      fingerprint = append8 rp (bit_xor rp.fingerprint (get_or rp.u om 0)) m;
    }

-- The test at the start of `rabin_init`, on `unsigned int` arguments.
unfoldable pub bad_sizes : ℕ → ℕ → ℕ → ℕ → Bool
bad_sizes window_size avg min max =
    min == 0
    || avg == 0
    || max == 0
    || ltb avg min
    || ltb max avg
    || ltb window_size default_window_size

-- `1 << (fls32(avg) - 1)` less 1. The shift is one of `int`, so the model is that of `avg`
-- below 2 ^ 31.
unfoldable pub mask_of : ℕ → ℕ
mask_of avg = 2 ^ (fls32 avg - 1) - 1

-- The state before `calcT`; `malloc` leaves the tables and `shift` undetermined until then.
unfoldable pub blank : ℕ → ℕ → ℕ → ℕ → Rabin
blank window_size avg min max = record {
  poly = fingerprint_pt;
  window_size = window_size;
  avg_segment_size = avg;
  min_segment_size = min;
  max_segment_size = max;
  fingerprint = 0;
  fingerprint_mask = mask_of avg;
  buf = replicate window_size 0;
  bufpos = 2 ^ 32 - 1;
  cur_seg_size = 0;
  shift = 0;
  t = [];
  u = [];
}

-- `rabin_init`. The two flags say whether `malloc` gave the structure and the buffer.
unfoldable pub rabin_init : Bool → Bool → ℕ → ℕ → ℕ → ℕ → Option Rabin
rabin_init has_struct has_buf window_size avg min max =
    if bad_sizes window_size avg min max
    then none
    else if not has_struct
    then none
    else if not has_buf
    then none
    else some (calc_t (blank window_size avg min max))

-- `rabin_reset`
unfoldable pub rabin_reset : Rabin → Rabin
rabin_reset rp = record rp {
  fingerprint = 0;
  bufpos = 2 ^ 32 - 1;
  cur_seg_size = 0;
  buf = replicate rp.window_size 0;
}

-- A run of `slide8` over the bytes of a list.
unfoldable pub feed : Rabin → List ℕ → Rabin
feed rp [] = rp
feed rp (m ∷ ms) = feed (slide8 rp m) ms
