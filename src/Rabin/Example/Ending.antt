-- ===== src/Rabin/Example/Ending.antt =====
-- How `main` of dedup-lib/rabin-example.c ends, for any options and input.
use mathlib.Core.Path.{subst}
use cloudfs.Base.{ℕ, ◌≡◌, ◌<◌, ◌≤◌, ◌^◌, ◌⊎◌, inl, inr, refl, sym, arith, Bool, true, false, not}
use cloudfs.Base.{
  Option, none, some, List, [], ◌∷◌, ◌++◌, length, All, Bool-cases, Option-cases, ◌||◌, ◌&&◌, leb,
}
use cloudfs.Rabin.Window.{Rabin, rabin_init, bad_sizes, blank, calc_t, calc_t_table}
use cloudfs.Rabin.Segment.Bounds.{IsOpen}
use cloudfs.Rabin.Divide.{Line, divide}
use cloudfs.Rabin.Divide.Segments.{flat, bytes_of, IsSegment, divide_lem}
use cloudfs.Rabin.Example.Options.{
  all_known, settings_of, settings_of_small, take_options_known, take_options_unknown,
}
use cloudfs.Rabin.Example.{
  Settings, Outcome, exited, divided, input, divide_input, open_input, main,
}

-- The lines printed are segments of the bytes read, with the sizes of the settings.
pub record Divides (st : Settings) (chunks : List (List ℕ)) (e : Outcome) : Type 0 where
  pub segments : List Line
  pub last : Line
  pub ended : e ≡ divided (segments ++ (last ∷ []))
  pub whole : bytes_of (segments ++ (last ∷ [])) ≡ flat chunks
  pub bounded : All (IsSegment st.min_seg_size st.max_seg_size) segments
  pub counted : last.segment_len ≡ length last.hashed
  pub at_most : last.segment_len < st.max_seg_size

-- What `rabin_init` refuses, or has no memory for: it takes sizes that are positive and in order,
-- and a window of 32 bytes or more.
abbrev pub refused : (has_struct has_buf : Bool) → Settings → Bool
refused has_struct has_buf st =
    not (
      leb 1 st.min_seg_size
      && leb st.min_seg_size st.avg_seg_size
      && leb st.avg_seg_size st.max_seg_size
      && leb 32 st.window_size)
    || not has_struct
    || not has_buf

module _ (has_struct has_buf : Bool) (st : Settings) where
  no_hash :
      refused has_struct has_buf st ≡ true
      → rabin_init has_struct has_buf st.window_size st.avg_seg_size st.min_seg_size st.max_seg_size
        ≡ none
  unfolding rabin_init bad_sizes
  no_hash e = ground arith

  a_hash :
      refused has_struct has_buf st ≡ false
      → rabin_init has_struct has_buf st.window_size st.avg_seg_size st.min_seg_size st.max_seg_size
        ≡ some (calc_t (blank st.window_size st.avg_seg_size st.min_seg_size st.max_seg_size))
  unfolding rabin_init bad_sizes
  a_hash e = ground arith

  good_sizes :
      refused has_struct has_buf st ≡ false
      → (0 < st.min_seg_size) × (st.min_seg_size ≤ st.max_seg_size)
  good_sizes e = ground arith

blank-IsOpen : (w a i x : ℕ) → 0 < i → i ≤ x → x < 2 ^ 32 → IsOpen (calc_t (blank w a i x))
unfolding calc_t calc_t_table blank
blank-IsOpen w a i x pos le small = record {
  some_min = pos;
  ordered = le;
  small = small;
  unfinished = omega arith;
}

module _ (w a i x : ℕ) where
  fresh : (calc_t (blank w a i x)).cur_seg_size ≡ 0
  unfolding calc_t calc_t_table blank
  fresh = refl

  same_min : (calc_t (blank w a i x)).min_segment_size ≡ i
  unfolding calc_t calc_t_table blank
  same_min = refl

  same_max : (calc_t (blank w a i x)).max_segment_size ≡ x
  unfolding calc_t calc_t_table blank
  same_max = refl

module _ (atoi : List ℕ → ℕ) (nonnegative : (text : List ℕ) → atoi text < 2 ^ 31) where
  module _ (open_file : List ℕ → Option (List (List ℕ))) (stdin : List (List ℕ))
      (has_struct has_buf : Bool) where
    -- What comes of the settings and the input.
    abbrev pub EndsOn : Settings → List (List ℕ) → Outcome → Type 0
    EndsOn st chunks e =
        ((refused has_struct has_buf st ≡ true) × (e ≡ exited 1))
        ⊎ ((refused has_struct has_buf st ≡ false) × Divides st chunks e)

    -- The standard input if there is no name, or else the file of this name.
    abbrev pub IsInput : List ℕ → List (List ℕ) → Type 0
    IsInput [] chunks = chunks ≡ stdin
    IsInput (b ∷ bs) chunks = open_file (b ∷ bs) ≡ some chunks

    abbrev pub DoesNotOpen : List ℕ → Type 0
    DoesNotOpen [] = ⊥
    DoesNotOpen (b ∷ bs) = open_file (b ∷ bs) ≡ none

    input_cases :
        (name : List ℕ)
        → ((input atoi open_file stdin name ≡ none) × DoesNotOpen name)
          ⊎ ((chunks : List (List ℕ)) × (input atoi open_file stdin name ≡ some chunks)
              × IsInput name chunks)
    input_cases [] = inr (stdin, refl, refl)
    input_cases (b ∷ bs) = elim (Option-cases (open_file (b ∷ bs))) [
      | inl e ↦ inl (e, e)
      | inr (chunks, e) ↦ inr (chunks, e, e)
    ]

    abbrev pub EndsWith : Settings → Outcome → Type 0
    EndsWith st e =
        (DoesNotOpen st.fname × (e ≡ exited 2))
        ⊎ ((chunks : List (List ℕ)) × IsInput st.fname chunks × EndsOn st chunks e)

    abbrev pub Ends : List (ℕ × List ℕ) → Outcome → Type 0
    Ends options e =
        ((all_known options ≡ false) × (e ≡ exited 1))
        ⊎ ((all_known options ≡ true) × EndsWith (settings_of atoi options) e)

    dividing :
        (st : Settings) (chunks : List (List ℕ)) (rp : Rabin) (lines : List Line)
        → rabin_init has_struct has_buf st.window_size st.avg_seg_size st.min_seg_size
            st.max_seg_size
          ≡ some rp
        → divide rp chunks ≡ some lines
        → divide_input atoi open_file stdin has_struct has_buf st chunks ≡ divided lines
    unfolding divide_input
    dividing st chunks rp lines e k = rw (e, k) refl

    stopping :
        (st : Settings) (chunks : List (List ℕ))
        → refused has_struct has_buf st ≡ true
        → divide_input atoi open_file stdin has_struct has_buf st chunks ≡ exited 1
    unfolding divide_input
    stopping st chunks e = rw (no_hash has_struct has_buf st e) refl

    divide_input_lem :
        (st : Settings) (chunks : List (List ℕ))
        → st.max_seg_size < 2 ^ 31
        → EndsOn st chunks (divide_input atoi open_file stdin has_struct has_buf st chunks)
    divide_input_lem st chunks small = elim (Bool-cases (refused has_struct has_buf st)) [
      | inl e ↦ inl (e, stopping st chunks e)
      | inr e ↦
          let (pos, le) = good_sizes has_struct has_buf st e in
          let w = st.window_size in
          let a = st.avg_seg_size in
          let i = st.min_seg_size in
          let x = st.max_seg_size in
          let (ls, last, ran, whole, bounded, counted, below) =
            divide_lem (calc_t (blank w a i x)) chunks (blank-IsOpen w a i x pos le (omega arith))
              (fresh w a i x) in
          inr (
            e,
            record {
              segments = ls;
              last = last;
              ended = dividing st chunks _ _ (a_hash has_struct has_buf st e) ran;
              whole = whole;
              bounded =
                  subst (λ m. All (IsSegment m x) ls) (same_min w a i x)
                    (subst (λ m. All (IsSegment (calc_t (blank w a i x)).min_segment_size m) ls)
                      (same_max w a i x) bounded);
              counted = counted;
              at_most = subst (λ m. last.segment_len < m) (same_max w a i x) below;
            },
          )
    ]

    open_input_lem :
        (st : Settings)
        → st.max_seg_size < 2 ^ 31
        → EndsWith st (open_input atoi open_file stdin has_struct has_buf st)
    unfolding open_input
    open_input_lem st small = elim (input_cases st.fname) [
      | inl (e, i) ↦ inl (i, rw e refl)
      | inr (chunks, e, i) ↦
          inr (
            chunks,
            i,
            subst (EndsOn st chunks) (sym (rw e refl)) (divide_input_lem st chunks small),
          )
    ]

    -- With an `atoi` that gives no negative number, and whatever options and input are given,
    -- `main` of rabin-example.c ends in one of four ways: if an option is none of -f, -w, -a, -i
    -- and -x it exits with 1; if not, and the file of the last -f does not open, with 2; if not,
    -- and the numbers of the last -i, -a and -x (or 2048, 4096 and 8192) are not positive and in
    -- order, or that of the last -w (or 48) is below 32, or there is no memory, with 1; and else
    -- it prints lines whose segments put together are the input (the standard input if there is no
    -- name), each but the last with a size between the numbers of -i and -x, the last below that
    -- of -x, and every length that of its segment.
    pub main_lem :
        (options : List (ℕ × List ℕ))
        → Ends options (main atoi open_file stdin has_struct has_buf options)
    unfolding main
    main_lem options = elim (Bool-cases (all_known options)) [
      | inl e ↦ inr (
        e,
        subst (EndsWith (settings_of atoi options))
            (sym (rw (take_options_known atoi options e) refl))
            (open_input_lem (settings_of atoi options)
              (settings_of_small atoi options nonnegative)),
      )
      | inr e ↦ inl (e, rw (take_options_unknown atoi options e) refl)
    ]
