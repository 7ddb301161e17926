-- ===== src/Rabin/Example.antt =====
-- dedup-lib/rabin-example.c: `main` around the loops of Rabin/Divide. The options are those that
-- `getopt` delivers, with their arguments; `atoi` is the C library's, and an `int` is a 32-bit
-- pattern. What `open` and then `read` give is a list of chunks, and so is the standard input.
pub mod Ending
pub mod Options
use cloudfs.Base.{on_given}
use cloudfs.Base.{ℕ, true, Bool, Option, none, some, List, [], ◌∷◌, ◌==◌, if◌then◌else◌, take}
use cloudfs.Rabin.Window.{rabin_init}
use cloudfs.Rabin.Divide.{Line, divide}

-- The variables that the options set. `fname` is an array of PATH_MAX bytes.
pub record Settings : Type 0 where
  pub fname : List ℕ
  pub window_size : ℕ
  pub avg_seg_size : ℕ
  pub min_seg_size : ℕ
  pub max_seg_size : ℕ

abbrev pub default_settings : Settings
default_settings = record {
  fname = [];
  window_size = 48;
  avg_seg_size = 4096;
  min_seg_size = 2048;
  max_seg_size = 8192;
}

-- How the program ends: `exit` with a code, or the return of 0 after the lines that it prints.
pub data Outcome : Type 0 where
  exited : ℕ → Outcome
  divided : List Line → Outcome

module _ (atoi : List ℕ → ℕ) where
  -- One turn of the loop over the options; `none` is the exit after the usage text.
  unfoldable pub take_option : ℕ → List ℕ → Settings → Option Settings
  take_option c optarg st =
      if c == b'f'
      then some (record st { fname = take 4096 optarg })
      else if c == b'w'
      then some (record st { window_size = atoi optarg })
      else if c == b'a'
      then some (record st { avg_seg_size = atoi optarg })
      else if c == b'i'
      then some (record st { min_seg_size = atoi optarg })
      else if c == b'x'
      then some (record st { max_seg_size = atoi optarg })
      else none

  unfoldable pub take_options : List (ℕ × List ℕ) → Settings → Option Settings
  take_options [] st = some st
  take_options ((c, optarg) ∷ options) st =
      on_given (take_option c optarg st) none (take_options options)

  module _ (open_file : List ℕ → Option (List (List ℕ))) (stdin : List (List ℕ)) where
    -- The file of the option -f, or the standard input if there is none.
    abbrev pub input : List ℕ → Option (List (List ℕ))
    input [] = some stdin
    input (b ∷ bs) = open_file (b ∷ bs)

    -- From the initialised hash on, or the exit if `rabin_init` gives none.
    unfoldable pub divide_input : (has_struct has_buf : Bool) → Settings → List (List ℕ) → Outcome
    divide_input has_struct has_buf st chunks =
        on_given
          (rabin_init has_struct has_buf st.window_size st.avg_seg_size st.min_seg_size
            st.max_seg_size)
          (exited 1) (λ rp. on_given (divide rp chunks) (exited 2) divided)

    unfoldable pub open_input : (has_struct has_buf : Bool) → Settings → Outcome
    open_input has_struct has_buf st =
        on_given (input st.fname) (exited 2) (divide_input has_struct has_buf st)

    -- `main`. The flags say whether the two `malloc` of `rabin_init` succeed.
    unfoldable pub main : (has_struct has_buf : Bool) → List (ℕ × List ℕ) → Outcome
    main has_struct has_buf options =
        on_given (take_options options default_settings) (exited 1) (open_input has_struct has_buf)
