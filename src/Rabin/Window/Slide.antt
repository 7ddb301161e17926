-- ===== src/Rabin/Window/Slide.antt =====
-- `slide8` keeps the fingerprint the remainder of the bytes in the window.
use mathlib.Core.List.{append_assoc, append-nil}
use native.Mathlib.Nat.{mul-le-mul_right}
use native.Mathlib.Decide.{dec_lt}
use cloudfs.Base.{ℕ, suc, ◌+◌, ◌-◌, ◌*◌, ◌^◌, ◌≤◌, ◌<◌, bit_xor, ◌≡◌, sym, ap, ap₂, ◌∙◌}
use cloudfs.Base.{
  arith, u32, leb, List, [], ◌∷◌, ◌++◌, length, get_or, set, take, drop, All, if◌then◌else◌,
}
use cloudfs.Base.{
  length-append, length-set, length-drop, length-take, drop-get_or, drop-set, take-set, drop-all,
  take-all, All-set, All-get_or, All-drop, All-take, All-append,
}
use cloudfs.Base.Bits.{xor-add, xor_comm, xor_cancel}
use cloudfs.Gf2.{two_pow_add}
use cloudfs.Gf2.Degree.{residue-xor, residue-shift}
use cloudfs.Rabin.Window.{Rabin, next_pos, slide8}
use cloudfs.Rabin.Window.Tables.{rem, rem-lt, IsPoly, HasWindowTable, append8-rem}

abbrev pub IsByte : ℕ → Type 0
IsByte x = x < 256

-- The polynomial whose coefficients are the digits of the bytes, the first byte highest.
unfoldable pub number : List ℕ → ℕ
number [] = 0
number (x ∷ xs) = x * 2 ^ (8 * length xs) + number xs

-- The bytes of the ring, oldest first.
abbrev pub window : Rabin → List ℕ
window rp = drop (next_pos rp) rp.buf ++ take (next_pos rp) rp.buf

byte_power : (n : ℕ) → 2 ^ (8 * suc n) ≡ 2 ^ (8 * n) * 256
byte_power n =
    ap (λ (t : ℕ). 2 ^ t) {x = 8 * suc n} {y = 8 * n + 8} (omega arith) ∙ two_pow_add (8 * n) 8

pub number-lt : (xs : List ℕ) → All IsByte xs → number xs < 2 ^ (8 * length xs)
unfolding number
number-lt [] h = omega arith
number-lt (x ∷ xs) h =
    let room : (x + 1) * 2 ^ (8 * length xs) ≤ 256 * 2 ^ (8 * length xs) =
      mul-le-mul_right (2 ^ (8 * length xs)) (omega (arith, h.0)) in
    omega (arith, number-lt xs h.1, byte_power (length xs), room)

pub number-append : (xs : List ℕ) (m : ℕ) → number (xs ++ (m ∷ [])) ≡ number xs * 2 ^ 8 + m
unfolding number
number-append [] m = omega arith
number-append (x ∷ xs) m = omega (
  arith,
  number-append xs m,
  byte_power (length xs),
  ap (λ (t : ℕ). x * t) (byte_power (length xs)),
  ap (λ (t : ℕ). x * 2 ^ (8 * t)) {x = length (xs ++ (m ∷ []))} {y = suc (length xs)}
      (omega (arith, length-append xs (m ∷ []))),
)

-- The state between two calls: the tables are those of `calcT`, the ring has the size of the
-- window, and the fingerprint is the remainder of what the ring holds.
pub record IsHash (rp : Rabin) : Type 0 where
  pub tables : HasWindowTable rp
  pub ring : length rp.buf ≡ rp.window_size
  pub some_room : 0 < rp.window_size
  pub small : rp.window_size < 2 ^ 32
  pub bytes : All IsByte rp.buf
  pub hash : rp.fingerprint ≡ rem rp.poly (number (window rp))

pub next_pos-lt : (rp : Rabin) → 0 < rp.window_size → next_pos rp < rp.window_size
next_pos-lt rp h = ground arith

-- Writing over the oldest element of a ring and turning it on by one.
ring_turn :
    (w n : ℕ) (xs : List ℕ) (m : ℕ)
    → n < w
    → w < 2 ^ 32
    → length xs ≡ w
    → let q = if leb w (u32 (n + 1)) then 0 else u32 (n + 1) in
      drop q (set xs n m) ++ take q (set xs n m) ≡ drop (suc n) xs ++ (take n xs ++ (m ∷ []))
ring_turn w n xs m n_lt w_lt e = elim (dec_lt (suc n) w) [
  | yes p ↦
      let on : (if leb w (u32 (n + 1)) then 0 else u32 (n + 1)) ≡ suc n = ground arith in
      rw on (ap₂ ◌++◌ (drop-set xs n m) (take-set xs n m (omega arith)))
  | no p ↦
      let round : (if leb w (u32 (n + 1)) then 0 else u32 (n + 1)) ≡ 0 = ground arith in
      rw round (
        append-nil (set xs n m)
        ∙ sym (take-all (suc n) (set xs n m) (omega (arith, length-set xs n m)))
        ∙ take-set xs n m (omega arith)
        ∙ ap (λ (ys : List ℕ). ys ++ (take n xs ++ (m ∷ [])))
            (sym (drop-all (suc n) xs (omega arith))))
]

module _ (rp : Rabin) (m : ℕ) (h : IsHash rp) (m_lt : m < 256) where
  -- The byte that leaves, and those that stay.
  abbrev pub leaving : ℕ
  leaving = get_or rp.buf (next_pos rp) 0

  abbrev pub staying : List ℕ
  staying = drop (suc (next_pos rp)) rp.buf ++ take (next_pos rp) rp.buf

  pub pos_lt : next_pos rp < length rp.buf
  pos_lt = omega (arith, h.ring, next_pos-lt rp h.some_room)

  pub window_before : window rp ≡ leaving ∷ staying
  window_before =
      ap (λ (xs : List ℕ). xs ++ take (next_pos rp) rp.buf)
        (drop-get_or rp.buf (next_pos rp) 0 pos_lt)

  pub window_after : window (slide8 rp m) ≡ staying ++ (m ∷ [])
  unfolding slide8
  window_after =
      ring_turn rp.window_size (next_pos rp) rp.buf m (next_pos-lt rp h.some_room) h.small h.ring
      ∙ sym (append_assoc (drop (suc (next_pos rp)) rp.buf) (take (next_pos rp) rp.buf) (m ∷ []))

  staying_bytes : All IsByte staying
  staying_bytes =
      All-append IsByte (drop (suc (next_pos rp)) rp.buf) (take (next_pos rp) rp.buf)
        (All-drop IsByte (suc (next_pos rp)) rp.buf h.bytes)
        (All-take IsByte (next_pos rp) rp.buf h.bytes)

  length-staying : length staying ≡ rp.window_size - 1
  length-staying = omega (
    arith,
    length-append (drop (suc (next_pos rp)) rp.buf) (take (next_pos rp) rp.buf),
    length-drop (suc (next_pos rp)) rp.buf,
    length-take (next_pos rp) rp.buf,
    pos_lt,
    h.ring,
  )

  is_poly : IsPoly rp.poly
  is_poly = h.tables.table.is_poly

  -- Taking the leaving byte out of the remainder.
  pub rem-staying : bit_xor rp.fingerprint (get_or rp.u leaving 0) ≡ rem rp.poly (number staying)
  unfolding number
  rem-staying =
      ap₂ bit_xor {x = rp.fingerprint} {y = bit_xor out (rem rp.poly (number staying))} whole gone
      ∙ xor_comm (bit_xor out (rem rp.poly (number staying))) out
      ∙ xor_cancel out (rem rp.poly (number staying))
    where
      place : ℕ
      place = 8 * (rp.window_size - 1)

      out : ℕ
      out = rem rp.poly (leaving * 2 ^ place)

      gone : get_or rp.u leaving 0 ≡ out
      gone = h.tables.leaving leaving (All-get_or IsByte rp.buf (next_pos rp) 0 pos_lt h.bytes)

      whole : rp.fingerprint ≡ bit_xor out (rem rp.poly (number staying))
      whole =
          h.hash
          ∙ ap (λ (xs : List ℕ). rem rp.poly (number xs)) window_before
          ∙ ap (λ (n : ℕ). rem rp.poly (leaving * 2 ^ (8 * n) + number staying)) length-staying
          ∙ ap (rem rp.poly) (
              sym (
                xor-add place leaving (number staying) (
                  rw (ap (λ (n : ℕ). 2 ^ (8 * n)) length-staying) at
                    (number-lt staying staying_bytes))))
          ∙ residue-xor 63 rp.poly (leaving * 2 ^ place) (number staying)

  rem-behind :
      rem rp.poly (rem rp.poly (number staying) * 2 ^ 8 + m)
      ≡ rem rp.poly (number (staying ++ (m ∷ [])))
  rem-behind =
      ap (rem rp.poly) (sym (xor-add 8 (rem rp.poly (number staying)) m m_lt))
      ∙ residue-xor 63 rp.poly (rem rp.poly (number staying) * 2 ^ 8) m
      ∙ ap (λ (t : ℕ). bit_xor t (rem rp.poly m))
          (residue-shift 63 rp.poly is_poly.top (omega (arith, is_poly.fits)) 8 (number staying))
      ∙ sym (residue-xor 63 rp.poly (number staying * 2 ^ 8) m)
      ∙ ap (rem rp.poly) (xor-add 8 (number staying) m m_lt ∙ sym (number-append staying m))

  -- `slide8` keeps the state sound, and turns the window on by one byte.
  pub slide8-IsHash : IsHash (slide8 rp m)
  unfolding slide8
  slide8-IsHash = record {
    tables = record {
      table = record {
        is_poly = is_poly;
        by_55 = h.tables.table.by_55;
        entry = h.tables.table.entry;
        size = h.tables.table.size;
      };
      leaving = h.tables.leaving;
      size = h.tables.size;
    };
    ring = length-set rp.buf (next_pos rp) m ∙ h.ring;
    some_room = h.some_room;
    small = h.small;
    bytes = All-set IsByte rp.buf (next_pos rp) m m_lt h.bytes;
    hash =
        append8-rem rp h.tables.table _ m (rw rem-staying (rem-lt rp.poly is_poly _)) m_lt
        ∙ ap (λ (t : ℕ). rem rp.poly (t * 2 ^ 8 + m)) rem-staying
        ∙ rem-behind
        ∙ ap (λ (xs : List ℕ). rem rp.poly (number xs)) (sym window_after);
  }
