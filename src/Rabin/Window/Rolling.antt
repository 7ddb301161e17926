-- ===== src/Rabin/Window/Rolling.antt =====
-- What `rabin_init` and runs of `slide8` make of the state.
use mathlib.Core.List.{append-nil, append_assoc}
use cloudfs.Base.{ℕ, zero, suc, ◌^◌, ◌≤◌, ◌<◌, bit_xor, ◌≡◌, refl, sym, ap, ap₂, ◌∙◌}
use mathlib.Core.Path.{subst}
use cloudfs.Base.{arith, Bool, some, inl, inr, Bool-cases, leb, ◌>>>◌}
use cloudfs.Base.{List, [], ◌∷◌, ◌++◌, length, get_or, replicate, drop, All}
use cloudfs.Base.{length-replicate, All-replicate, All-get_or}
use cloudfs.Gf2.Degree.{residue, residue_low}
use cloudfs.Rabin.Window.{
  Rabin, next_pos, slide8, feed, bad_sizes, blank, calc_t_table, calc_t, rabin_init, fingerprint_pt,
  default_window_size,
}
use cloudfs.Rabin.Window.Tables.{rem, rem-lt, IsPoly, calc_t-HasWindowTable, HasWindowTable}
use cloudfs.Rabin.Window.Slide.{
  IsByte, number, window, IsHash, window_before, window_after, slide8-IsHash, rem-staying, staying,
  pos_lt,
}

fingerprint_pt-IsPoly : IsPoly fingerprint_pt
fingerprint_pt-IsPoly = omega arith

number-replicate : (n : ℕ) → number (replicate n 0) ≡ 0
unfolding number
number-replicate zero = refl
number-replicate (suc n) = omega (arith, number-replicate n)

module _ (w avg min max : ℕ) (w_pos : 0 < w) (w_lt : w < 2 ^ 32) where
  abbrev fresh : Rabin
  fresh = calc_t (blank w avg min max)

  window-fresh : window fresh ≡ replicate w 0
  unfolding calc_t calc_t_table blank
  window-fresh = elim (Bool-cases (leb w 0)) [
    | inl e ↦ rw e (append-nil (replicate w 0))
    | inr e ↦ rw e (append-nil (replicate w 0))
  ]

  fresh-tables : HasWindowTable fresh
  unfolding blank
  fresh-tables = calc_t-HasWindowTable (blank w avg min max) fingerprint_pt-IsPoly

  fresh-poly : fresh.poly ≡ fingerprint_pt
  unfolding calc_t calc_t_table blank
  fresh-poly = refl

  fresh-hash : fresh.fingerprint ≡ rem fresh.poly 0
  unfolding calc_t calc_t_table blank
  fresh-hash = sym (residue_low 63 fresh.poly 0 (omega arith))

  fresh-IsHash : IsHash fresh
  unfolding calc_t calc_t_table blank
  fresh-IsHash = record {
    tables = fresh-tables;
    ring = length-replicate w 0;
    some_room = w_pos;
    small = w_lt;
    bytes = All-replicate IsByte w 0 (omega arith);
    hash = fresh-hash ∙ ap (rem fresh.poly) (sym (ap number window-fresh ∙ number-replicate w));
  }

pub rabin_init_inv :
    (a b : Bool) (w avg min max : ℕ) {rp : Rabin}
    → rabin_init a b w avg min max ≡ some rp
    → (default_window_size ≤ w) × (calc_t (blank w avg min max) ≡ rp)
unfolding rabin_init bad_sizes
rabin_init_inv a b w avg min max e = ground arith

-- What `rabin_init` returns holds a window of zeros, of which the remainder is zero.
pub rabin_init_lem :
    (a b : Bool) (w avg min max : ℕ) {rp : Rabin}
    → w < 2 ^ 32
    → rabin_init a b w avg min max ≡ some rp
    → IsHash rp × (window rp ≡ replicate w 0) × (rp.poly ≡ fingerprint_pt)
rabin_init_lem a b w avg min max {rp} h e =
    let i = rabin_init_inv a b w avg min max e in
    subst (λ (r : Rabin). IsHash r × (window r ≡ replicate w 0) × (r.poly ≡ fingerprint_pt)) i.1
      (
        fresh-IsHash w avg min max (omega (arith, i.0)) h,
        window-fresh w avg min max (omega (arith, i.0)) h,
        fresh-poly w avg min max (omega (arith, i.0)) h,
      )

-- Each byte fed moves the window on by one.
pub feed-IsHash :
    (ms : List ℕ) {rp : Rabin}
    → IsHash rp
    → All IsByte ms
    → IsHash (feed rp ms)
      × (window (feed rp ms) ≡ drop (length ms) (window rp ++ ms))
      × ((feed rp ms).poly ≡ rp.poly)
unfolding feed slide8
feed-IsHash [] {rp} h b = (h, sym (append-nil (window rp)), refl)
feed-IsHash (m ∷ ms) {rp} h b =
    let rest = feed-IsHash ms (slide8-IsHash rp m h b.0) b.1 in
    (
      rest.0,
      rest.1
          ∙ ap (λ (xs : List ℕ). drop (length ms) (xs ++ ms)) (window_after rp m h b.0)
          ∙ ap (drop (length ms)) (append_assoc (staying rp m h b.0) (m ∷ []) ms)
          ∙ ap (λ (xs : List ℕ). drop (suc (length ms)) (xs ++ (m ∷ ms)))
              (sym (window_before rp m h b.0)),
      rest.2,
    )

-- After `rabin_init` for a window of w bytes (w below 2 ^ 32) and a run of `slide8` over any
-- bytes, the fingerprint is the remainder, by the polynomial FINGERPRINT_PT over the field of two
-- elements, of the last w bytes read, with zeros for bytes not read yet; so it depends on no other
-- bytes.
pub fingerprint-feed :
    (a b : Bool) (w avg min max : ℕ) (ms : List ℕ) {rp : Rabin}
    → w < 2 ^ 32
    → rabin_init a b w avg min max ≡ some rp
    → All IsByte ms
    → (feed rp ms).fingerprint
      ≡ residue 63 fingerprint_pt (number (drop (length ms) (replicate w 0 ++ ms)))
fingerprint-feed a b w avg min max ms {rp} h e bytes =
    let i = rabin_init_lem a b w avg min max h e in
    let f = feed-IsHash ms i.0 bytes in
    f.0.hash
    ∙ ap₂ rem (f.2 ∙ i.2) (ap number (f.1 ∙ ap (λ (xs : List ℕ). drop (length ms) (xs ++ ms)) i.1))

-- In a state whose tables are those of `calcT` and whose fingerprint is the remainder of its
-- window, `slide8` of a byte indexes the ring, the table U and the table T inside their bounds,
-- and leaves a fingerprint below 2 ^ 63.
pub slide8_in_bounds :
    (rp : Rabin) (m : ℕ)
    → IsHash rp
    → m < 256
    → let om = get_or rp.buf (next_pos rp) 0 in
      (next_pos rp < length rp.buf)
      × (om < length rp.u)
      × (bit_xor rp.fingerprint (get_or rp.u om 0) >>> rp.shift < length rp.t)
      × ((slide8 rp m).fingerprint < 2 ^ 63)
slide8_in_bounds rp m h b =
    let small = rem-lt rp.poly h.tables.table.is_poly (number (staying rp m h b)) in
    let next = slide8-IsHash rp m h b in
    (
      pos_lt rp m h b,
      rw h.tables.size (All-get_or IsByte rp.buf (next_pos rp) 0 (pos_lt rp m h b) h.bytes),
      rw (h.tables.table.size, h.tables.table.by_55, rem-staying rp m h b) (omega arith),
      rw (next.hash)
          (rem-lt (slide8 rp m).poly next.tables.table.is_poly (number (window (slide8 rp m)))),
    )
