-- ===== src/Tests/Rabin.antt =====
-- The theorems on dedup-lib at concrete inputs, and runs of its functions.
use cloudfs.Base.{
  ◌+◌, ◌*◌, ◌^◌, ◌<◌, ◌≡◌, refl, arith, true, some, List, ℕ, [], ◌∷◌, ◌++◌, bit_xor, none,
}
use cloudfs.Base.{length, get_or, drop, replicate, All, ◌>>>◌}
use cloudfs.Gf2.{product}
use cloudfs.Gf2.Degree.{residue}
use cloudfs.Rabin.Example.{main}
use cloudfs.Rabin.Example.Ending.{Ends, main_lem}
use cloudfs.Rabin.Msb.{fls32, fls64, byte_msb, bytemsb}
use cloudfs.Rabin.Msb.Laws.{HasDigits, fls64_lem}
use cloudfs.Rabin.Poly.{polymod, polymmult, clear_high, high_loop, high_step, low_loop, low_step}
use cloudfs.Rabin.Poly.Remainder.{polymod_lem}
use cloudfs.Rabin.Poly.Mult.{polymmult_lem}
use cloudfs.Rabin.Window.{Rabin, next_pos, slide8, feed, blank, calc_t, calc_t_table, rabin_init}
use cloudfs.Rabin.Window.{bad_sizes, rabin_reset, fingerprint_pt}
use cloudfs.Rabin.Window.Slide.{number, IsHash}
use cloudfs.Rabin.Window.Rolling.{rabin_init_lem, fingerprint-feed, slide8_in_bounds}
use cloudfs.Rabin.Segment.Reset.{call_each, rabin_reset-rabin_init}
use cloudfs.Rabin.Segment.{Found, rabin_segment_next}
use cloudfs.Rabin.Segment.Bounds.{IsOpen, IsFound, rabin_segment_next_lem}
use cloudfs.Rabin.Divide.{Line, divide}
use cloudfs.Rabin.Divide.Segments.{IsSegment, bytes_of, flat, divide_lem}

fls64_of_pt : fls64 0xbfe6b8a5bf378d83 ≡ 64
unfolding fls64 fls32 byte_msb bytemsb
fls64_of_pt = refl

polymod_run : polymod 1 0 0xb ≡ 2
unfolding polymod clear_high high_loop high_step low_loop low_step fls64 fls32 byte_msb bytemsb
polymod_run = refl

fls64_lem_example : HasDigits (fls64 1000) 1000
fls64_lem_example = fls64_lem 1000 (omega arith)

polymod_lem_example : (polymod 1 0 0xb < 2 ^ 3) × (polymod 1 0 0xb ≡ residue 3 0xb (1 * 2 ^ 64 + 0))
polymod_lem_example = polymod_lem 3 1 0 0xb (omega arith) (omega arith) (omega arith) (omega arith)

polymmult_lem_example :
    (polymmult 7 6 0xb < 2 ^ 3) × (polymmult 7 6 0xb ≡ residue 3 0xb (product 64 7 6))
polymmult_lem_example = polymmult_lem 3 7 6 0xb (omega arith) (omega arith) (omega arith)

-- The sizes of rabin-example.c.
abbrev example_rp : Rabin
example_rp = calc_t (blank 48 4096 2048 8192)

rabin_init_run : rabin_init true true 48 4096 2048 8192 ≡ some example_rp
unfolding rabin_init bad_sizes
rabin_init_run = refl

abbrev three_bytes : List ℕ
three_bytes = 7 ∷ 255 ∷ 0 ∷ []

example_rp-IsHash : IsHash example_rp
example_rp-IsHash =
    (rabin_init_lem true true 48 4096 2048 8192 {rp = example_rp} (omega arith) rabin_init_run).0

fingerprint-feed_example :
    (feed example_rp three_bytes).fingerprint
    ≡ residue 63 fingerprint_pt (number (drop 3 (replicate 48 0 ++ three_bytes)))
fingerprint-feed_example =
    fingerprint-feed true true 48 4096 2048 8192 three_bytes {rp = example_rp} (omega arith)
      rabin_init_run (omega arith)

slide8_in_bounds_example :
    let om = get_or example_rp.buf (next_pos example_rp) 0 in
    (next_pos example_rp < length example_rp.buf)
    × (om < length example_rp.u)
    × (bit_xor example_rp.fingerprint (get_or example_rp.u om 0) >>> example_rp.shift
        < length example_rp.t)
    × ((slide8 example_rp 200).fingerprint < 2 ^ 63)
slide8_in_bounds_example = slide8_in_bounds example_rp 200 example_rp-IsHash (omega arith)

-- All three bytes, and then two of them.
abbrev two_calls : List (List ℕ × ℕ)
two_calls = (three_bytes, 3) ∷ (three_bytes, 2) ∷ []

rabin_reset-rabin_init_example : rabin_reset (call_each example_rp two_calls) ≡ example_rp
rabin_reset-rabin_init_example =
    rabin_reset-rabin_init true true 48 4096 2048 8192 two_calls {rp = example_rp} rabin_init_run

example_rp-IsOpen : IsOpen example_rp
unfolding calc_t calc_t_table blank
example_rp-IsOpen = omega arith

example_rp-cur : example_rp.cur_seg_size ≡ 0
unfolding calc_t calc_t_table blank
example_rp-cur = refl

rabin_segment_next_lem_example :
    (f : Found) × (rabin_segment_next (some example_rp) (some three_bytes) 3 true ≡ some f)
    × IsFound example_rp three_bytes 0 f
    × IsOpen f.state
rabin_segment_next_lem_example = rabin_segment_next_lem example_rp three_bytes 3 example_rp-IsOpen

divide_lem_example :
    (ls : List Line) × (last : Line) × (divide example_rp (three_bytes ∷ three_bytes ∷ [])
      ≡ some (ls ++ (last ∷ [])))
    × (bytes_of (ls ++ (last ∷ [])) ≡ flat (three_bytes ∷ three_bytes ∷ []))
    × All (IsSegment example_rp.min_segment_size example_rp.max_segment_size) ls
    × (last.segment_len ≡ length last.hashed)
    × (last.segment_len < example_rp.max_segment_size)
divide_lem_example =
    divide_lem example_rp (three_bytes ∷ three_bytes ∷ []) example_rp-IsOpen example_rp-cur

-- The option -a, on an `atoi` that reads every text as 4096.
main_lem_example :
    Ends
      (λ text. 4096)
      (λ text. omega arith)
      (λ name. none)
      (three_bytes ∷ [])
      true
      true
      ((b'a', b'4' ∷ []) ∷ [])
      (main (λ text. 4096) (λ name. none) (three_bytes ∷ []) true true ((b'a', b'4' ∷ []) ∷ []))
main_lem_example =
    main_lem (λ text. 4096) (λ text. omega arith) (λ name. none) (three_bytes ∷ []) true true
      ((b'a', b'4' ∷ []) ∷ [])
