-- ===== src/Rabin/Segment/Bounds.antt =====
-- Where `rabin_segment_next` stops: the lengths of segments, and what it reads.
use cloudfs.Base.{ℕ, ◌+◌, ◌^◌, ◌≤◌, ◌<◌, ◌≡◌, refl, arith, true, false, some, inl, inr}
use cloudfs.Base.{Bool-cases, List, [], ◌∷◌, length, take}
use cloudfs.Rabin.Window.{Rabin, slide8}
use cloudfs.Rabin.Segment.{count_byte, goes_on, Found, segment_loop, rabin_segment_next}

-- The sizes that `rabin_init` accepts, and a segment under way that is not complete.
pub record IsOpen (rp : Rabin) : Type 0 where
  pub some_min : 0 < rp.min_segment_size
  pub ordered : rp.min_segment_size ≤ rp.max_segment_size
  pub small : rp.max_segment_size < 2 ^ 32
  pub unfinished : rp.cur_seg_size < rp.max_segment_size

-- What a state keeps of an earlier one.
pub record Keeps (rp rp' : Rabin) : Type 0 where
  pub same_min : rp'.min_segment_size ≡ rp.min_segment_size
  pub same_max : rp'.max_segment_size ≡ rp.max_segment_size

count_byte-Keeps : (rp : Rabin) (m : ℕ) → Keeps rp (count_byte rp m)
unfolding count_byte slide8
count_byte-Keeps rp m = record { same_min = refl; same_max = refl }

cur-count_byte :
    (rp : Rabin) (m : ℕ) → IsOpen rp → (count_byte rp m).cur_seg_size ≡ rp.cur_seg_size + 1
unfolding count_byte slide8
cur-count_byte rp m o = omega arith

-- The loop goes on only below the largest size, and stops only from the smallest on.
goes_on_below :
    (rp : Rabin)
    → rp.cur_seg_size ≤ rp.max_segment_size
    → rp.min_segment_size ≤ rp.max_segment_size
    → goes_on rp ≡ true
    → rp.cur_seg_size < rp.max_segment_size
unfolding goes_on
goes_on_below rp h k e = ground arith

stops_above : (rp : Rabin) → goes_on rp ≡ false → rp.min_segment_size ≤ rp.cur_seg_size
unfolding goes_on
stops_above rp e = ground arith

-- The outcome of the loop at index `i` over the bytes `ms`.
pub record IsFound (rp : Rabin) (ms : List ℕ) (i : ℕ) (f : Found) : Type 0 where
  pub keeps : Keeps rp f.state
  pub at_end :
      f.is_new_segment ≡ false
      → (f.count ≡ i + length ms)
        × (f.state.cur_seg_size ≡ rp.cur_seg_size + length ms)
        × (f.state.cur_seg_size < rp.max_segment_size)
  pub at_boundary :
      f.is_new_segment ≡ true
      → (i < f.count)
        × (f.count ≤ i + length ms)
        × (f.state.cur_seg_size ≡ 0)
        × (rp.min_segment_size + i ≤ rp.cur_seg_size + f.count)
        × (rp.cur_seg_size + f.count ≤ rp.max_segment_size + i)

pub segment_loop-IsFound :
    (ms : List ℕ) (rp : Rabin) (i : ℕ) → IsOpen rp → IsFound rp ms i (segment_loop rp ms i)
unfolding segment_loop
segment_loop-IsFound [] rp i o = record {
  keeps = record { same_min = refl; same_max = refl };
  at_end = λ e. omega arith;
  at_boundary = λ e. ground arith;
}
segment_loop-IsFound (m ∷ ms) rp i o =
    let next = count_byte rp m in
    let kept = count_byte-Keeps rp m in
    let cur = cur-count_byte rp m o in
    elim (Bool-cases (goes_on next)) [
      | inl e ↦ rw e (
          let under = goes_on_below next (omega arith) (omega arith) e in
          let rest = segment_loop-IsFound ms next (i + 1) (omega arith) in
          record {
            keeps = omega (arith, rest.keeps);
            at_end = λ q. omega (arith, rest.at_end q);
            at_boundary = λ q. omega (arith, rest.at_boundary q);
          })
      | inr e ↦ rw e (record {
        keeps = omega arith;
        at_end = λ q. ground arith;
        at_boundary = λ q. omega (arith, stops_above next e);
      })
    ]

-- A call leaves a segment under way.
pub IsFound-IsOpen :
    (rp : Rabin) (ms : List ℕ) (i : ℕ) (f : Found) → IsOpen rp → IsFound rp ms i f → IsOpen f.state
IsFound-IsOpen rp ms i f o h = elim (Bool-cases f.is_new_segment) [
  | inl e ↦ omega (arith, h.keeps, h.at_boundary e)
  | inr e ↦ omega (arith, h.keeps, h.at_end e)
]

-- With sizes as `rabin_init` accepts them (below 2 ^ 32) and a segment under way that is shorter
-- than the largest size, `rabin_segment_next` returns a count. If it reports a new segment, the
-- count is positive and within the bytes given, the segment ended has between the smallest and the
-- largest size, and the next one starts at 0; if it reports none, it has read all the bytes given
-- and the segment is still shorter than the largest size. The sizes stay, and the state left meets
-- the same conditions.
pub rabin_segment_next_lem :
    (rp : Rabin) (buf : List ℕ) (bytes : ℕ)
    → IsOpen rp
    → (f : Found) × (rabin_segment_next (some rp) (some buf) bytes true ≡ some f)
      × IsFound rp (take bytes buf) 0 f
      × IsOpen f.state
unfolding rabin_segment_next
rabin_segment_next_lem rp buf bytes o =
    let f = segment_loop rp (take bytes buf) 0 in
    let h = segment_loop-IsFound (take bytes buf) rp 0 o in
    (f, refl, h, IsFound-IsOpen rp (take bytes buf) 0 f o h)
