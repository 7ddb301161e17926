-- ===== src/Tests/Fs.antt =====
-- The theorems on cloudfs/ at concrete inputs, on the system in memory.
use cloudfs.Base.{◌≡◌, refl, arith, ℕ, true, false, Option, none, some, List, [], ◌∷◌, replicate}
use cloudfs.Fs.Names.{FilePath, Config, same_name, get_key, get_metadata_path, get_absolute_path}
use cloudfs.Fs.Names.Laws.{get_metadata_path-injective}
use cloudfs.Fs.Options.{
  CloudfsState, overrun, parsed, copied, default_state, apply_option, apply_options,
  parse_arguments,
}
use cloudfs.Fs.Options.Metadata.{parse_arguments-metadata_path}
use cloudfs.Fs.Os.{status_ok}
use cloudfs.Fs.State.{Globals, ok}
use cloudfs.Fs.Disk.{Node, regular, put_node, stat_of}
use cloudfs.Fs.Memory.{Machine, disk_of, memory}
use cloudfs.Fs.Memory.Reliable.{memory_reliable}
use cloudfs.Fs.Files.{Fh, cloudfs_open, cloudfs_release}
use cloudfs.Fs.Files.Open.{cloudfs_open_lem}
use cloudfs.Fs.Files.Session.{cloudfs_open-cloudfs_release}
use cloudfs.Fs.Attrs.{cloudfs_getattr}
use cloudfs.Fs.Attrs.Released.{cloudfs_getattr-cloudfs_release}

-- "/s", "/m", and "/a"
abbrev pub config : Config
config = record { ssd_path = b'/' ∷ b's' ∷ []; metadata_path = b'/' ∷ b'm' ∷ []; threshold = 2 }

abbrev pub file_a : FilePath
file_a = b'/' ∷ b'a' ∷ []

get_metadata_path-injective_example : file_a ≡ b'/' ∷ b'a' ∷ []
get_metadata_path-injective_example =
    get_metadata_path-injective config file_a file_a (ground arith) (ground arith)
      (λ i. get_metadata_path config file_a)

-- A local file of three bytes, which is above the threshold.
abbrev pub three : List ℕ
three = 7 ∷ 8 ∷ 9 ∷ []

abbrev pub local_a : FilePath
local_a = b'/' ∷ b's' ∷ b'/' ∷ b'a' ∷ []

abbrev files : FilePath → Option Node
files p = elim (same_name local_a p) [ true ↦ some (regular three 33188) | false ↦ none ]

abbrev pub machine : Machine
machine = record {
  stored = record { room = λ p. true; node = files; object = λ k. none };
  opened = [];
  flags = 0;
  record_at = none;
  input = [];
  entries = [];
  filled = [];
}

abbrev pub start : Globals Machine
start = record { world = machine; version = 5; skip = false; status_g = status_ok }

abbrev handle : Fh
handle = record { fd = 3; proxy = false; dirty = false }

local_a_there : files (get_absolute_path config file_a) ≡ some (regular three 33188)
unfolding get_absolute_path
local_a_there = refl

no_metadata : files (get_metadata_path config file_a) ≡ none
unfolding get_metadata_path get_key
no_metadata = refl

pub apart : same_name (get_metadata_path config file_a) (get_absolute_path config file_a) ≡ false
unfolding get_metadata_path get_absolute_path get_key
apart = refl

cloudfs_open_lem_example :
    (fd o : ℕ) × (s' : Globals Machine) × (cloudfs_open memory config file_a 2 start
      ≡ ((ok 0, some (record { fd = fd; proxy = false; dirty = false })), s'))
    × (disk_of s'.world
        ≡ put_node (get_absolute_path config file_a) (some (regular [] o)) (disk_of machine))
    × (s'.world.opened ≡ get_absolute_path config file_a)
    × (s'.world.flags ≡ 2)
cloudfs_open_lem_example =
    cloudfs_open_lem memory memory_reliable config file_a start 2 none refl refl refl

cloudfs_open-cloudfs_release_example :
    (s1 s2 : Globals Machine) × (fd o' : ℕ) × (cloudfs_release memory config file_a handle start
      ≡ (ok 0, s1))
    × (cloudfs_open memory config file_a 0 s1
        ≡ ((ok 0, some (record { fd = fd; proxy = true; dirty = false })), s2))
    × ((disk_of s2.world).node (get_absolute_path config file_a) ≡ some (regular three o'))
cloudfs_open-cloudfs_release_example =
    cloudfs_open-cloudfs_release memory memory_reliable config file_a start handle 0 three 33188
      local_a_there (refl, rw no_metadata tt) apart refl (omega arith) refl

cloudfs_getattr-cloudfs_release_example :
    (s1 s2 : Globals Machine) × (cloudfs_release memory config file_a handle start ≡ (ok 0, s1))
    × (cloudfs_getattr memory config file_a s1 ≡ ((ok 0, stat_of three 33188), s2))
    × (disk_of s2.world ≡ (disk_of s1.world))
cloudfs_getattr-cloudfs_release_example =
    cloudfs_getattr-cloudfs_release memory memory_reliable config file_a start handle three 33188
      local_a_there (refl, rw no_metadata tt) apart refl (omega arith)

-- The option -s with "/x".
abbrev given : List (ℕ × List ℕ)
given = (b's', b'/' ∷ b'x' ∷ []) ∷ []

parse_arguments-metadata_path_example :
    (st : CloudfsState) × (parse_arguments (λ text. 0) given ≡ parsed st)
    × (st.ssd_path ≡ b'/' ∷ b'x' ∷ [])
    × (st.metadata_path ≡ default_state.metadata_path)
parse_arguments-metadata_path_example = parse_arguments-metadata_path (λ text. 0) given (refl, tt)

-- An argument of 4096 bytes overruns `ssd_path`.
parse_arguments_overrun : parse_arguments (λ text. 0) ((b's', replicate 4096 b'x') ∷ []) ≡ overrun
unfolding parse_arguments apply_options apply_option copied
parse_arguments_overrun = refl
