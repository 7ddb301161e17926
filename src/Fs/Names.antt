-- ===== src/Fs/Names.antt =====
-- The names that cloudfs/cloudfs.c and cloudfs/s3_cloudfs.c make of a path. A C string is the
-- list of its bytes.
pub mod Laws
pub mod Separate
use cloudfs.Base.{ℕ, Bool, true, false, ◌&&◌, List, [], ◌∷◌, ◌++◌, ◌==◌, if◌then◌else◌}

abbrev pub FilePath : Type 0
FilePath = List ℕ

abbrev pub Key : Type 0
Key = List ℕ

-- `struct cloudfs_state`, as far as the operations read it.
pub record Config : Type 0 where
  pub ssd_path : FilePath
  pub metadata_path : FilePath
  pub threshold : ℕ

-- `strcmp (a, b) == 0`
abbrev pub same_name : List ℕ → List ℕ → Bool
same_name [] [] = true
same_name [] (d ∷ ds) = false
same_name (c ∷ cs) [] = false
same_name (c ∷ cs) (d ∷ ds) = c == d && same_name cs ds

abbrev pub slash : ℕ
slash = b'/'

abbrev pub plus : ℕ
plus = b'+'

-- `get_key`
unfoldable pub get_key : FilePath → Key
get_key [] = []
get_key (c ∷ cs) = (if c == slash then plus else c) ∷ get_key cs

-- `get_metadata_path`
unfoldable pub get_metadata_path : Config → FilePath → FilePath
get_metadata_path cfg path = cfg.metadata_path ++ (slash ∷ get_key path)

-- `get_absolute_path`
unfoldable pub get_absolute_path : Config → FilePath → FilePath
get_absolute_path cfg path = cfg.ssd_path ++ path
