-- ===== src/Rabin/Segment/Reset.antt =====
-- dedup-lib/rabinpoly.c: `rabin_reset` after calls of `rabin_segment_next`.
use mathlib.Core.Path.{subst}
use cloudfs.Base.{
  ℕ, ◌+◌, ◌≡◌, refl, ◌∙◌, Bool, Bool-cases, true, none, some, inl, inr, List, [], ◌∷◌, take,
}
use cloudfs.Rabin.Window.{Rabin, slide8, rabin_init, rabin_reset, calc_t, calc_t_table, blank}
use cloudfs.Rabin.Window.Rolling.{rabin_init_inv}
use cloudfs.Rabin.Segment.{count_byte, goes_on, segment_loop, rabin_segment_next}

-- The state after calls of `rabin_segment_next`, each with a buffer and the number of its bytes
-- to read.
unfoldable pub call_each : Rabin → List (List ℕ × ℕ) → Rabin
call_each rp [] = rp
call_each rp ((buf, bytes) ∷ calls) = elim (rabin_segment_next (some rp) (some buf) bytes true) [
  | none ↦ rp
  | some found ↦ call_each found.state calls
]

rabin_reset-count_byte : (rp : Rabin) (m : ℕ) → rabin_reset (count_byte rp m) ≡ rabin_reset rp
unfolding rabin_reset count_byte slide8
rabin_reset-count_byte rp m = refl

rabin_reset-segment_loop :
    (ms : List ℕ) (rp : Rabin) (i : ℕ) → rabin_reset (segment_loop rp ms i).state ≡ rabin_reset rp
unfolding segment_loop
rabin_reset-segment_loop [] rp i = refl
rabin_reset-segment_loop (m ∷ ms) rp i = elim (Bool-cases (goes_on (count_byte rp m))) [
  | inl e ↦
      rw e (rabin_reset-segment_loop ms (count_byte rp m) (i + 1) ∙ rabin_reset-count_byte rp m)
  | inr e ↦ rw e (unfold rabin_reset count_byte slide8 in refl)
]

rabin_reset-call_each :
    (calls : List (List ℕ × ℕ)) (rp : Rabin) → rabin_reset (call_each rp calls) ≡ rabin_reset rp
unfolding call_each rabin_segment_next
rabin_reset-call_each [] rp = refl
rabin_reset-call_each ((buf, bytes) ∷ calls) rp =
    rabin_reset-call_each calls (segment_loop rp (take bytes buf) 0).state
    ∙ rabin_reset-segment_loop (take bytes buf) rp 0

-- After any calls of `rabin_segment_next` on the state that `rabin_init` had returned, whatever
-- buffers and numbers of bytes they get, `rabin_reset` gives back exactly this state.
pub rabin_reset-rabin_init :
    (a b : Bool) (w avg min max : ℕ) (calls : List (List ℕ × ℕ)) {rp : Rabin}
    → rabin_init a b w avg min max ≡ some rp
    → rabin_reset (call_each rp calls) ≡ rp
rabin_reset-rabin_init a b w avg min max calls {rp} e =
    rabin_reset-call_each calls rp
    ∙ subst (λ (r : Rabin). rabin_reset r ≡ r) (rabin_init_inv a b w avg min max e).1
        (unfold rabin_reset calc_t calc_t_table blank in refl)
