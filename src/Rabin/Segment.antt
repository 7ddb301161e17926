-- ===== src/Rabin/Segment.antt =====
-- dedup-lib/rabinpoly.c: `rabin_segment_next`, which looks for the end of a segment.
pub mod Bounds
pub mod Reset
use cloudfs.Base.{ℕ, suc, ◌+◌, bit_and, u32, Bool, true, false, ◌||◌, ◌==◌, ltb, if◌then◌else◌}
use cloudfs.Base.{Option, none, some, List, [], ◌∷◌, take}
use cloudfs.Rabin.Window.{Rabin, slide8}

-- A byte of the loop: `slide8`, and the count of the segment's bytes.
unfoldable pub count_byte : Rabin → ℕ → Rabin
count_byte rp m = let rp' = slide8 rp m in record rp' { cur_seg_size = u32 (rp'.cur_seg_size + 1) }

-- Whether the loop goes on after a byte.
unfoldable pub goes_on : Rabin → Bool
goes_on rp =
    if ltb rp.cur_seg_size rp.min_segment_size
    then true
    else if bit_and rp.fingerprint rp.fingerprint_mask == 0
        || rp.cur_seg_size == rp.max_segment_size
    then false
    else true

-- What a call leaves: the state, the number of bytes read and `*is_new_segment`.
pub record Found : Type 0 where
  pub state : Rabin
  pub count : ℕ
  pub is_new_segment : Bool

-- The loop at index `i`, over the bytes from there on.
unfoldable pub segment_loop : Rabin → List ℕ → ℕ → Found
segment_loop rp [] i = record { state = rp; count = i; is_new_segment = false }
segment_loop rp (m ∷ ms) i =
    let rp' = count_byte rp m in
    let rest = segment_loop rp' ms (i + 1) in
    if goes_on rp'
    then rest
    else record { state = record rp' { cur_seg_size = 0 }; count = i + 1; is_new_segment = true }

-- `rabin_segment_next`. A null pointer is `none`, or `false` for `is_new_segment`, and makes the
-- call return -1, which is `none`. The file that `log_dedupe_compute_cost` writes is left out.
unfoldable pub rabin_segment_next : Option Rabin → Option (List ℕ) → ℕ → Bool → Option Found
rabin_segment_next none buf bytes has_flag = none
rabin_segment_next (some rp) none bytes has_flag = none
rabin_segment_next (some rp) (some buf) bytes false = none
rabin_segment_next (some rp) (some buf) bytes true = some (segment_loop rp (take bytes buf) 0)
