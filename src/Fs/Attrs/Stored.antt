-- ===== src/Fs/Attrs/Stored.antt =====
-- `cloudfs_getattr` of cloudfs/cloudfs.c shows the size of a stored file, wherever its bytes are.
use cloudfs.Base.{ℕ, ◌≡◌, refl, Bool, true, false, some, List, length}
use cloudfs.Fs.Names.{FilePath, Config, get_absolute_path, get_metadata_path}
use cloudfs.Fs.Os.{Os, Stat}
use cloudfs.Fs.State.{Globals, ok}
use cloudfs.Fs.Disk.{stat_of}
use cloudfs.Fs.Laws.{IsReliable}
use cloudfs.Fs.Files.Stored.{IsStored, Stored}
use cloudfs.Fs.Attrs.{cloudfs_getattr}
use cloudfs.Fs.Attrs.Released.{cloudfs_getattr-link}

module _ (os : Os) (cfg : Config) (path : FilePath) (s : Globals os.World) where
  on_file :
      (bytes : List ℕ) (o : ℕ) (w1 : os.World)
      → os.lstat (get_absolute_path cfg path) s.world ≡ (some (stat_of bytes o), w1)
      → cloudfs_getattr os cfg path s ≡ ((ok 0, stat_of bytes o), record s { world = w1 })
  unfolding cloudfs_getattr
  on_file bytes o w1 e = rw e refl

module _ (os : Os) (rel : IsReliable os) (cfg : Config) (path : FilePath)
    (s : Globals os.World) where
  -- The attributes come back with this size, and nothing stored changes.
  abbrev pub HasSize : ℕ → Type 0
  HasSize n =
      (st : Stat) × (s' : Globals os.World) × (cloudfs_getattr os cfg path s ≡ ((ok 0, st), s'))
      × (st.st_size ≡ n)
      × (rel.disk s'.world ≡ rel.disk s.world)

  size_by :
      (large : Bool) (bytes : List ℕ)
      → IsStored cfg path large bytes (rel.disk s.world)
      → HasSize (length bytes)
  size_by true bytes (there, (st, held, size), _) =
      let (s', e, d) =
        cloudfs_getattr-link os rel cfg path s (get_metadata_path cfg path) st there held in
      (st, s', e, size, d)
  size_by false bytes ((o, there), _, _) =
      let (w1, e1, d1, u1) = rel.lstat_regular s.world (get_absolute_path cfg path) bytes o there in
      (stat_of bytes o, record s { world = w1 }, on_file os cfg path s bytes o w1 e1, refl, d1)

  -- On a system whose calls have their documented effects (IsReliable), `cloudfs_getattr` of a
  -- stored file, above the threshold or not, returns 0 with the number of its bytes as the size,
  -- and changes nothing on the disk and in the cloud.
  pub cloudfs_getattr-Stored :
      (bytes : List ℕ) → Stored cfg path bytes (rel.disk s.world) → HasSize (length bytes)
  cloudfs_getattr-Stored bytes h = size_by _ bytes h
