-- ===== src/Fs/Disk.antt =====
-- What is stored, for the statements about cloudfs/cloudfs.c: the nodes of the local file system
-- and the objects of the cloud. Both are maps from names, so that nothing depends on the order.
pub mod Updates
use cloudfs.Base.{ℕ, ◌≡◌, Option, List, Bool, true, false, if◌then◌else◌, length}
use cloudfs.Fs.Names.{FilePath, Key, Config, same_name, get_absolute_path, get_metadata_path}
use cloudfs.Fs.Os.{Stat}

-- A file of bytes, with the fields of its `struct stat` but type and size; a file that holds one
-- written `struct stat`; a symbolic link.
pub data Node : Type 0 where
  regular : List ℕ → ℕ → Node
  saved : Stat → Node
  link : FilePath → Node

-- `room` are the names in normal form (not too long, no component empty, . or ..) in directories
-- that exist, which are no directories themselves; no other name holds anything.
pub record Disk : Type 0 where
  pub room : FilePath → Bool
  pub node : FilePath → Option Node
  pub object : Key → Option (List ℕ)

-- The map with another value at one name.
unfoldable pub at : {A : Type 0} → List ℕ → Option A → (List ℕ → Option A) → List ℕ → Option A
at k v f k' = if same_name k k' then v else f k'

abbrev pub put_node : FilePath → Option Node → Disk → Disk
put_node p n d = record d { node = at p n d.node }

abbrev pub put_object : Key → Option (List ℕ) → Disk → Disk
put_object k o d = record d { object = at k o d.object }

-- What `lstat` tells of a file of bytes.
abbrev pub stat_of : List ℕ → ℕ → Stat
stat_of bytes others = record { is_link = false; st_size = length bytes; others = others }

-- The directories of a path's two files exist, and neither file is a directory.
abbrev pub HasRoom : Config → FilePath → Disk → Type 0
HasRoom cfg path d =
    (d.room (get_absolute_path cfg path) ≡ true) × (d.room (get_metadata_path cfg path) ≡ true)
