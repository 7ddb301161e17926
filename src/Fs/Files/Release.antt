-- ===== src/Fs/Files/Release.antt =====
-- `cloudfs_release` of cloudfs/cloudfs.c on every branch, and what a path holds before and after.
use mathlib.Core.Path.{subst}
use cloudfs.Base.{ℕ, ◌≡◌, refl, sym, ap, ◌∙◌, arith, Bool, true, false, not, leb, ltb}
use cloudfs.Base.{none, some, List, length}
use cloudfs.Fs.Names.{FilePath, Config, same_name, get_key, get_absolute_path, get_metadata_path}
use cloudfs.Fs.Os.{Os, Stat}
use cloudfs.Fs.State.{Globals, ok}
use cloudfs.Fs.Disk.{Disk, regular, saved, link, put_node, put_object, stat_of}
use cloudfs.Fs.Laws.{IsReliable, IsFree, IsNoLink}
use cloudfs.Fs.Lock.Keeps.{release_lock_wrapper-keeps}
use cloudfs.Fs.Cloud.{s3_delete, cloud_delete_object}
use cloudfs.Fs.Files.{Fh, replace_by_link, move_to_cloud, release_file, cloudfs_release}
use cloudfs.Fs.Files.Archive.{archived, finishing, replace_by_link_lem, move_to_cloud_lem}

-- The metadata path of a file from the cloud holds its record; that of any other file is free.
-- A record at this name for a file from the cloud, and a free name for any other.
abbrev pub HasMetadata : Bool → FilePath → Disk → Type 0
HasMetadata true p d = (st : Stat) × (d.node p ≡ some (saved st))
HasMetadata false p d = IsFree p d

module _ (cfg : Config) (path : FilePath) where
  -- The disk without the object and the record of a file, which is local from now on.
  abbrev pub forgotten : Disk → Disk
  forgotten d = put_node (get_metadata_path cfg path) none (put_object (get_key path) none d)

  -- What a release makes of the disk.
  abbrev pub released : (proxy dirty large : Bool) → List ℕ → ℕ → Disk → Disk
  released true false large bytes o =
      put_node (get_absolute_path cfg path) (some (link (get_metadata_path cfg path)))
  released true true true bytes o = archived cfg path bytes (stat_of bytes o)
  released true true false bytes o = forgotten
  released false dirty true bytes o = archived cfg path bytes (stat_of bytes o)
  released false dirty false bytes o = λ d. d

module _ (os : Os) (cfg : Config) (path : FilePath) (s : Globals os.World) where
  abbrev seen : os.World → Globals os.World
  seen w = record s { world = w }

  module _ (fd : ℕ) (st : Stat) (w1 : os.World)
      (e : os.lstat (get_absolute_path cfg path) s.world ≡ (some st, w1)) where
    pub on_clean :
        release_file os cfg path (record { fd = fd; proxy = true; dirty = false }) s
        ≡ replace_by_link os cfg path (seen w1)
    unfolding release_file
    on_clean = rw e refl

    on_dirty :
        leb st.st_size cfg.threshold ≡ false
        → release_file os cfg path (record { fd = fd; proxy = true; dirty = true }) s
          ≡ move_to_cloud os cfg path st (seen w1)
    unfolding release_file
    on_dirty h = rw (e, h) refl

    on_small :
        (s2 : Globals os.World) (w3 : os.World)
        → leb st.st_size cfg.threshold ≡ true
        → s3_delete os cfg path (seen w1) ≡ (tt, s2)
        → os.unlink (get_metadata_path cfg path) s2.world ≡ (some tt, w3)
        → release_file os cfg path (record { fd = fd; proxy = true; dirty = true }) s
          ≡ (ok 0, record s2 { world = w3 })
    unfolding release_file
    on_small s2 w3 h e2 e3 = rw (e, h, e2, e3) refl

    on_new :
        (dirty : Bool)
        → ltb cfg.threshold st.st_size ≡ true
        → release_file os cfg path (record { fd = fd; proxy = false; dirty = dirty }) s
          ≡ move_to_cloud os cfg path st (seen w1)
    unfolding release_file
    on_new dirty h = rw (e, h) refl

    on_local :
        (dirty : Bool)
        → ltb cfg.threshold st.st_size ≡ false
        → release_file os cfg path (record { fd = fd; proxy = false; dirty = dirty }) s
          ≡ (ok 0, seen w1)
    unfolding release_file
    on_local dirty h = rw (e, h) refl

not_large : (n t : ℕ) (large : Bool) → ltb t n ≡ large → leb n t ≡ not large
not_large n t large h = ground arith

module _ (os : Os) (rel : IsReliable os) (cfg : Config) (path : FilePath)
    (s : Globals os.World) where
  pub s3_delete_lem :
      (s' : Globals os.World) × (s3_delete os cfg path s ≡ (tt, s'))
      × (rel.disk s'.world ≡ put_object (get_key path) none (rel.disk s.world))
  unfolding s3_delete cloud_delete_object
  s3_delete_lem =
      let (code, w1, e, d) = rel.delete_any s.world (get_key path) in
      (record s { world = w1; status_g = code }, rw e refl, d)

module _ (os : Os) (rel : IsReliable os) (cfg : Config) (path : FilePath) (s : Globals os.World)
    (bytes : List ℕ) (o : ℕ)
    (h : (rel.disk s.world).node (get_absolute_path cfg path) ≡ some (regular bytes o))
    (apart : same_name (get_metadata_path cfg path) (get_absolute_path cfg path) ≡ false) where
  -- `release_file` from the `lstat` on, for each of the things it does.
  abbrev Releases : (proxy dirty large : Bool) → ℕ → Type 0
  Releases proxy dirty large fd =
      (s' : Globals os.World) × (release_file os cfg path
          (record { fd = fd; proxy = proxy; dirty = dirty }) s
        ≡ (ok 0, s'))
      × (rel.disk s'.world ≡ released cfg path proxy dirty large bytes o (rel.disk s.world))

  moved :
      (w1 : os.World)
      → rel.disk w1 ≡ rel.disk s.world
      → IsFree (get_metadata_path cfg path) (rel.disk s.world)
      → (s' : Globals os.World) × (move_to_cloud os cfg path
            (stat_of bytes o)
            (record s { world = w1 })
          ≡ (ok 0, s'))
        × (rel.disk s'.world ≡ archived cfg path bytes (stat_of bytes o) (rel.disk s.world))
  moved w1 d1 free =
      let (s2, e2, d2) =
        move_to_cloud_lem os rel cfg path (record s { world = w1 }) bytes o (stat_of bytes o)
          (ap (λ e. e.node (get_absolute_path cfg path)) d1 ∙ h)
          (subst (IsFree (get_metadata_path cfg path)) (sym d1) free) apart in
      (s2, e2, d2 ∙ ap (archived cfg path bytes (stat_of bytes o)) d1)

  release_file_lem :
      (proxy dirty large : Bool) (fd : ℕ)
      → HasMetadata proxy (get_metadata_path cfg path) (rel.disk s.world)
      → ltb cfg.threshold (length bytes) ≡ large
      → Releases proxy dirty large fd
  release_file_lem true false large fd m k =
      let (w1, e1, d1, u1) = rel.lstat_regular s.world (get_absolute_path cfg path) bytes o h in
      let (s2, e2, d2) =
        replace_by_link_lem os rel cfg path (record s { world = w1 }) (regular bytes o)
          (ap (λ e. e.node (get_absolute_path cfg path)) d1 ∙ h) in
      (s2, on_clean os cfg path s fd (stat_of bytes o) w1 e1 ∙ e2, d2 ∙ ap (put_node _ _) d1)
  release_file_lem true true true fd (st, m) k =
      let room = rel.held_room s.world (get_metadata_path cfg path) (saved st) m in
      let (w1, e1, d1, u1) = rel.lstat_regular s.world (get_absolute_path cfg path) bytes o h in
      let (s2, e2, d2) = moved w1 d1 (room, subst IsNoLink (sym m) tt) in
      let small = not_large (length bytes) cfg.threshold true k in
      (s2, on_dirty os cfg path s fd (stat_of bytes o) w1 e1 small ∙ e2, d2)
  release_file_lem true true false fd (st, m) k =
      let meta = get_metadata_path cfg path in
      let (w1, e1, d1, u1) = rel.lstat_regular s.world (get_absolute_path cfg path) bytes o h in
      let (s2, e2, d2) = s3_delete_lem os rel cfg path (record s { world = w1 }) in
      let gone = d2 ∙ ap (put_object (get_key path) none) d1 in
      let (w3, e3, d3) =
        rel.unlink_file s2.world meta (saved st) (ap (λ e. e.node meta) gone ∙ m) in
      let small = not_large (length bytes) cfg.threshold false k in
      (
        record s2 { world = w3 },
        on_small os cfg path s fd (stat_of bytes o) w1 e1 s2 w3 small e2 e3,
        d3 ∙ ap (put_node meta none) gone,
      )
  release_file_lem false dirty true fd m k =
      let (w1, e1, d1, u1) = rel.lstat_regular s.world (get_absolute_path cfg path) bytes o h in
      let (s2, e2, d2) = moved w1 d1 m in
      (s2, on_new os cfg path s fd (stat_of bytes o) w1 e1 dirty k ∙ e2, d2)
  release_file_lem false dirty false fd m k =
      let (w1, e1, d1, u1) = rel.lstat_regular s.world (get_absolute_path cfg path) bytes o h in
      (record s { world = w1 }, on_local os cfg path s fd (stat_of bytes o) w1 e1 dirty k, d1)

  -- On a system whose calls have their documented effects (IsReliable), with a path whose metadata
  -- path is not its local path: let the local file be a regular file, and the metadata path hold a
  -- record if the handle is of a file from the cloud and be free, in a directory that exists, if
  -- not. Then `cloudfs_release` returns 0 and makes of the disk and the cloud what `released`
  -- says: a clean file from the cloud becomes a link again, a file above the threshold is
  -- archived, a dirty file from the cloud that is not above it loses its object and its record,
  -- and any other stays as it is.
  pub cloudfs_release_lem :
      (fh : Fh)
      → HasMetadata fh.proxy (get_metadata_path cfg path) (rel.disk s.world)
      → (s' : Globals os.World) × (cloudfs_release os cfg path fh s ≡ (ok 0, s'))
        × (rel.disk s'.world
            ≡ released cfg path fh.proxy fh.dirty
                (ltb cfg.threshold (length bytes))
                bytes
                o
                (rel.disk s.world))
  cloudfs_release_lem fh m =
      let (s2, e2, d2) = release_file_lem fh.proxy fh.dirty _ fh.fd m refl in
      (
        _,
        finishing os cfg path s fh s2 e2,
        rel.close_keeps _ fh.fd ∙ release_lock_wrapper-keeps os rel path s2 ∙ d2,
      )
