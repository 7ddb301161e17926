-- ===== src/Fs/Attrs/Dangling.antt =====
-- A file of cloudfs/cloudfs.c that another machine put into the cloud, after it was opened here: its
-- local name is a link to a metadata file that this machine does not have.
use cloudfs.Base.{ℕ, ◌≡◌, refl, ap, ◌∙◌, bit_and, true, false, none, some, List}
use cloudfs.Fs.Names.{FilePath, Config, same_name, get_key, get_absolute_path, get_metadata_path}
use cloudfs.Fs.Os.{Os, Stat}
use cloudfs.Fs.State.{Globals, ok, fail}
use cloudfs.Fs.Disk.{HasRoom, regular, link, put_node, stat_of}
use cloudfs.Fs.Disk.Updates.{at-same, at-other, same_name_sym}
use cloudfs.Fs.Laws.{IsReliable, o_trunc}
use cloudfs.Fs.Lock.Keeps.{release_lock_wrapper-keeps}
use cloudfs.Fs.Files.{Fh, cloudfs_open, cloudfs_release}
use cloudfs.Fs.Files.Archive.{replace_by_link_lem, finishing}
use cloudfs.Fs.Files.Open.{cloudfs_open_lem}
use cloudfs.Fs.Files.Release.{on_clean}
use cloudfs.Fs.Attrs.{cloudfs_getattr}

module _ (os : Os) (cfg : Config) (path : FilePath) (s : Globals os.World) where
  unopened :
      (st : Stat) (w1 w2 : os.World)
      → os.lstat (get_absolute_path cfg path) s.world ≡ (some st, w1)
      → st.is_link ≡ true
      → os.open_file (get_absolute_path cfg path) 0 w1 ≡ (none, w2)
      → cloudfs_getattr os cfg path s ≡ ((fail (os.errno w2), st), record s { world = w2 })
  unfolding cloudfs_getattr
  unopened st w1 w2 e1 h e2 = rw (e1, h, e2) refl

module _ (os : Os) (rel : IsReliable os) (cfg : Config) (path : FilePath) where
  -- Whether there is a metadata file or not.
  closed_clean :
      (s : Globals os.World) (fd o : ℕ) (bytes : List ℕ)
      → (rel.disk s.world).node (get_absolute_path cfg path) ≡ some (regular bytes o)
      → (s' : Globals os.World) × (cloudfs_release os cfg path
            (record { fd = fd; proxy = true; dirty = false })
            s
          ≡ (ok 0, s'))
        × (rel.disk s'.world
            ≡ put_node
                (get_absolute_path cfg path)
                (some (link (get_metadata_path cfg path)))
                (rel.disk s.world))
  closed_clean s fd o bytes there =
      let local = get_absolute_path cfg path in
      let (w1, e1, d1, u1) = rel.lstat_regular s.world local bytes o there in
      let (s2, e2, d2) =
        replace_by_link_lem os rel cfg path (record s { world = w1 }) (regular bytes o)
          (ap (λ e. e.node local) d1 ∙ there) in
      (
        _,
        finishing os cfg path s (record { fd = fd; proxy = true; dirty = false }) s2
            (on_clean os cfg path s fd (stat_of bytes o) w1 e1 ∙ e2),
        rel.close_keeps _ fd
            ∙ release_lock_wrapper-keeps os rel path s2
            ∙ d2
            ∙ ap (put_node local _) d1,
      )

module _ (os : Os) (rel : IsReliable os) (cfg : Config) (path : FilePath)
    (apart : same_name (get_metadata_path cfg path) (get_absolute_path cfg path) ≡ false)
    (s : Globals os.World) where
  -- On a system whose calls have their documented effects (IsReliable), with a path whose metadata
  -- path is not its local path: if the directories of its two files exist (HasRoom), and it has an
  -- object and nothing at its metadata path, an open without O_TRUNC and a release of its handle
  -- return 0, and then `cloudfs_getattr` fails.
  pub cloudfs_getattr-cloudfs_open :
      (flags : ℕ) (bytes : List ℕ)
      → HasRoom cfg path (rel.disk s.world)
      → (rel.disk s.world).object (get_key path) ≡ some bytes
      → (rel.disk s.world).node (get_metadata_path cfg path) ≡ none
      → bit_and flags o_trunc ≡ 0
      → (fh : Fh) × (s1 s2 s3 : Globals os.World) × (n : ℕ) × (st : Stat) × (cloudfs_open os cfg
            path flags s
          ≡ ((ok 0, some fh), s1))
        × (cloudfs_release os cfg path fh s1 ≡ (ok 0, s2))
        × (cloudfs_getattr os cfg path s2 ≡ ((fail n, st), s3))
  cloudfs_getattr-cloudfs_open flags bytes (room, room_beside) there missing t =
      let local = get_absolute_path cfg path in
      let meta = get_metadata_path cfg path in
      let d = rel.disk s.world in
      let away : same_name local meta ≡ false = same_name_sym meta local ∙ apart in
      let (fd, o, s1, e1, d1, f1, m1) =
        cloudfs_open_lem os rel cfg path s flags (some bytes) room there t in
      let n1 = ap (λ e. e.node local) d1 ∙ at-same local _ d.node in
      let fh : Fh = record { fd = fd; proxy = true; dirty = false } in
      let (s2, e2, d2) = closed_clean os rel cfg path s1 fd o bytes n1 in
      let (st, w3, e3, l3, d3) =
        rel.lstat_link s2.world local meta
          (ap (λ e. e.node local) d2 ∙ at-same local _ (rel.disk s1.world).node) in
      let (w4, e4, d4) =
        rel.open_dangling w3 local meta
          (ap (λ e. e.node local) (d3 ∙ d2) ∙ at-same local _ (rel.disk s1.world).node)
          (ap (λ e. e.room meta) (d3 ∙ d2 ∙ ap (put_node local _) d1) ∙ room_beside)
          (ap (λ e. e.node meta) (d3 ∙ d2)
            ∙ at-other local _ (rel.disk s1.world).node meta away
            ∙ ap (λ e. e.node meta) d1
            ∙ at-other local _ d.node meta away
            ∙ missing) in
      (
        fh,
        s1,
        s2,
        record s2 { world = w4 },
        os.errno w4,
        st,
        e1,
        e2,
        unopened os cfg path s2 st w3 w4 e3 l3 e4,
      )
