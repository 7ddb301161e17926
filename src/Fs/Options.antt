-- ===== src/Fs/Options.antt =====
-- cloudfs/main.c: the state that the command line sets up. The options are those that
-- `getopt_long` delivers, with their arguments, and `atoi` is the C library's; an `int` is a 32-bit
-- pattern. A `strcpy` past the end of its array is undefined, and the model stops there.
pub mod Folded
pub mod Metadata
use cloudfs.Base.{Option, none, some, ◌^◌, ℕ, ◌*◌, Bool, true, false, List, [], ◌∷◌, ◌++◌, u32}
use cloudfs.Base.{ltb, length}
use cloudfs.Base.{◌==◌, if◌then◌else◌}
use cloudfs.Fs.Names.{FilePath, Config}

abbrev pub max_path_len : ℕ
max_path_len = 4096

abbrev pub max_hostname_len : ℕ
max_hostname_len = 1024

-- `struct cloudfs_state`. The paths are arrays of MAX_PATH_LEN bytes, the name of the host one of
-- MAX_HOSTNAME_LEN.
pub record CloudfsState : Type 0 where
  pub ssd_path : FilePath
  pub fuse_path : FilePath
  pub metadata_path : FilePath
  pub hostname : List ℕ
  pub ssd_size : ℕ
  pub threshold : ℕ
  pub avg_seg_size : ℕ
  pub rabin_window_size : ℕ
  pub no_dedup : Bool

abbrev default_ssd : FilePath
default_ssd =
    b'/' ∷ b'h' ∷ b'o' ∷ b'm' ∷ b'e' ∷ b'/' ∷ b's' ∷ b't' ∷ b'u' ∷ b'd' ∷ b'e' ∷ b'n' ∷ b't' ∷ b'/'
    ∷ b'm' ∷ b'n' ∷ b't' ∷ b'/' ∷ b's' ∷ b's' ∷ b'd' ∷ []

-- The values that `parse_arguments` begins with.
abbrev pub default_state : CloudfsState
default_state = record {
  ssd_path = default_ssd;
  fuse_path =
      b'/' ∷ b'h' ∷ b'o' ∷ b'm' ∷ b'e' ∷ b'/' ∷ b's' ∷ b't' ∷ b'u' ∷ b'd' ∷ b'e' ∷ b'n' ∷ b't'
      ∷ b'/' ∷ b'm' ∷ b'n' ∷ b't' ∷ b'/' ∷ b'f' ∷ b'u' ∷ b's' ∷ b'e' ∷ [];
  metadata_path =
      default_ssd ++ (b'/' ∷ b'.' ∷ b'm' ∷ b'e' ∷ b't' ∷ b'a' ∷ b'd' ∷ b'a' ∷ b't' ∷ b'a' ∷ []);
  hostname =
      b'l' ∷ b'o' ∷ b'c' ∷ b'a' ∷ b'l' ∷ b'h' ∷ b'o' ∷ b's' ∷ b't' ∷ b':' ∷ b'8' ∷ b'8' ∷ b'8'
      ∷ b'8' ∷ [];
  ssd_size = u32 (1024 * 1024 * 1024);
  threshold = 0;
  avg_seg_size = 4096;
  rabin_window_size = 48;
  no_dedup = false;
}

-- What the operations read of it. A negative threshold, which is a pattern from 2 ^ 31 on, is not
-- modelled.
abbrev pub config_of : CloudfsState → Option Config
config_of st =
    if ltb st.threshold (2 ^ 31)
    then some (record {
      ssd_path = st.ssd_path;
      metadata_path = st.metadata_path;
      threshold = st.threshold;
    })
    else none

-- How the loop over the options goes on: the exit on an unknown option; a `strcpy` that overruns its
-- array, after which nothing is known; or the state so far.
pub data Parsed : Type 0 where
  unknown_option : Parsed
  overrun : Parsed
  parsed : CloudfsState → Parsed

abbrev pub on_parsed : {A : Type 0} → Parsed → A → A → (CloudfsState → A) → A
on_parsed unknown_option a b f = a
on_parsed overrun a b f = b
on_parsed (parsed st) a b f = f st

-- `strcpy` of a text, and of the zero byte after it, into an array of that size.
unfoldable pub copied : ℕ → List ℕ → CloudfsState → Parsed
copied size text st = if ltb (length text) size then parsed st else overrun

module _ (atoi : List ℕ → ℕ) where
  -- One turn of the loop.
  unfoldable pub apply_option : ℕ → List ℕ → CloudfsState → Parsed
  apply_option c optarg st =
      if c == b's'
      then copied max_path_len optarg (record st { ssd_path = optarg })
      else if c == b'f'
      then copied max_path_len optarg (record st { fuse_path = optarg })
      else if c == b'h'
      then copied max_hostname_len optarg (record st { hostname = optarg })
      else if c == b'a'
      then parsed (record st { ssd_size = u32 (atoi optarg * 1024) })
      else if c == b't'
      then parsed (record st { threshold = u32 (atoi optarg * 1024) })
      else if c == b'd'
      then parsed (record st { no_dedup = true })
      else if c == b'S'
      then parsed (record st { avg_seg_size = u32 (atoi optarg * 1024) })
      else if c == b'w'
      then parsed (record st { rabin_window_size = u32 (atoi optarg) })
      else unknown_option

  unfoldable pub apply_options : List (ℕ × List ℕ) → CloudfsState → Parsed
  apply_options [] st = parsed st
  apply_options ((c, optarg) ∷ options) st =
      on_parsed (apply_option c optarg st) unknown_option overrun (apply_options options)

  -- `parse_arguments`
  unfoldable pub parse_arguments : List (ℕ × List ℕ) → Parsed
  parse_arguments options = apply_options options default_state
