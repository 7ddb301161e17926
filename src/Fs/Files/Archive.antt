-- ===== src/Fs/Files/Archive.antt =====
-- What `cloudfs_release` of cloudfs/cloudfs.c does with a file that is larger than the threshold.
use mathlib.Core.Path.{subst}
use cloudfs.Base.{ℕ, ◌<◌, ◌≡◌, refl, sym, ap, ◌∙◌, arith, Bool, true, false, not, ◌&&◌, leb, ltb}
use cloudfs.Base.{if◌then◌else◌, none, some, List, length}
use cloudfs.Fs.Names.{FilePath, Config, same_name, get_key, get_absolute_path, get_metadata_path}
use cloudfs.Fs.Os.{Os, Stat, status_ok}
use cloudfs.Fs.State.{Globals, ok}
use cloudfs.Fs.Disk.{Node, Disk, regular, saved, link, put_node, put_object, stat_of}
use cloudfs.Fs.Disk.Updates.{at-same, at-other, put_node-put_node}
use cloudfs.Fs.Laws.{IsReliable, IsFree}
use cloudfs.Fs.Lock.{release_lock_wrapper}
use cloudfs.Fs.Lock.Keeps.{release_lock_wrapper-keeps}
use cloudfs.Fs.Cloud.{s3_cloudfs_put}
use cloudfs.Fs.Cloud.Put.{s3_cloudfs_put_lem}
use cloudfs.Fs.Files.{
  Fh, write_metadata, replace_by_link, move_to_cloud, release_file, cloudfs_release,
}

moves :
    {S A : Type 0} (proxy dirty small large : Bool) (forget move keep stay : S → A) (s : S)
    → (proxy && not dirty) ≡ false
    → small ≡ false
    → large ≡ true
    → (if proxy
          then (if dirty then (if small then forget else move) else keep)
          else (if large then move else stay))
        s
      ≡ move s
moves true true small large forget move keep stay s h e f = rw e refl
moves true false small large forget move keep stay s h e f = absurd (cc)
moves false dirty small large forget move keep stay s h e f = rw f refl

module _ (os : Os) (cfg : Config) (path : FilePath) (s : Globals os.World) where
  writing :
      (st : Stat) (fd n : ℕ) (w1 w2 : os.World)
      → os.create_file (get_metadata_path cfg path) s.world ≡ (some fd, w1)
      → os.write_stat fd st w1 ≡ (some n, w2)
      → write_metadata os cfg path st s ≡ (none, record s { world = (os.close fd w2).1 })
  unfolding write_metadata
  writing st fd n w1 w2 e1 e2 = rw (e1, e2) refl

  linking :
      (w1 w2 : os.World)
      → os.unlink (get_absolute_path cfg path) s.world ≡ (some tt, w1)
      → os.symlink (get_metadata_path cfg path) (get_absolute_path cfg path) w1 ≡ (some tt, w2)
      → replace_by_link os cfg path s ≡ (ok 0, record s { world = w2 })
  unfolding replace_by_link
  linking w1 w2 e1 e2 = rw (e1, e2) refl

  pub moving :
      (st : Stat) (s1 s2 s3 : Globals os.World)
      → s3_cloudfs_put os cfg path s ≡ (true, s1)
      → write_metadata os cfg path st s1 ≡ (none, s2)
      → replace_by_link os cfg path s2 ≡ (ok 0, s3)
      → move_to_cloud os cfg path st s ≡ (ok 0, s3)
  unfolding move_to_cloud
  moving st s1 s2 s3 e1 e2 e3 = rw (e1, e2, e3) refl

  pub releasing :
      (fh : Fh) (st : Stat) (w1 : os.World) (s2 : Globals os.World)
      → os.lstat (get_absolute_path cfg path) s.world ≡ (some st, w1)
      → (fh.proxy && not fh.dirty) ≡ false
      → cfg.threshold < st.st_size
      → move_to_cloud os cfg path st (record s { world = w1 }) ≡ (ok 0, s2)
      → release_file os cfg path fh s ≡ (ok 0, s2)
  unfolding release_file
  releasing fh st w1 s2 e1 h large e2 = rw (e1) (
      moves fh.proxy fh.dirty (leb st.st_size cfg.threshold) (ltb cfg.threshold st.st_size) _ _ _ _
        (record s { world = w1 }) h (ground arith) (ground arith)
      ∙ e2)

  pub finishing :
      (fh : Fh) (s2 : Globals os.World)
      → release_file os cfg path fh s ≡ (ok 0, s2)
      → cloudfs_release os cfg path fh s ≡ (
        ok 0,
        record (release_lock_wrapper os path s2).1 {
          world = (os.close fh.fd (release_lock_wrapper os path s2).1.world).1;
        },
      )
  unfolding cloudfs_release
  finishing fh s2 e = rw e refl

module _ (os : Os) (rel : IsReliable os) (cfg : Config) (path : FilePath)
    (s : Globals os.World) where
  abbrev local : FilePath
  local = get_absolute_path cfg path

  abbrev metadata : FilePath
  metadata = get_metadata_path cfg path

  pub write_metadata_lem :
      (st : Stat)
      → IsFree metadata (rel.disk s.world)
      → (s' : Globals os.World) × (write_metadata os cfg path st s ≡ (none, s'))
        × (rel.disk s'.world ≡ put_node metadata (some (saved st)) (rel.disk s.world))
  write_metadata_lem st free =
      let d = rel.disk s.world in
      let (fd, o, w1, e1, d1, q1) = rel.create_empty s.world metadata free in
      let (n, w2, e2, d2) =
        rel.write_stat_new w1 fd o st
          (ap (rel.disk w1).node q1 ∙ ap (λ e. e.node metadata) d1 ∙ at-same metadata _ d.node) in
      (
        _,
        writing os cfg path s st fd n w1 w2 e1 e2,
        rel.close_keeps w2 fd
            ∙ d2
            ∙ ap (λ p. put_node p (some (saved st)) (rel.disk w1)) q1
            ∙ ap (put_node metadata _) d1
            ∙ put_node-put_node metadata _ d _,
      )

  pub replace_by_link_lem :
      (n : Node)
      → (rel.disk s.world).node local ≡ some n
      → (s' : Globals os.World) × (replace_by_link os cfg path s ≡ (ok 0, s'))
        × (rel.disk s'.world ≡ put_node local (some (link metadata)) (rel.disk s.world))
  replace_by_link_lem n h =
      let d = rel.disk s.world in
      let (w1, e1, d1) = rel.unlink_file s.world local n h in
      let (w2, e2, d2) =
        rel.symlink_new w1 metadata local
          (ap (λ e. e.room local) d1 ∙ rel.held_room s.world local n h)
          (ap (λ e. e.node local) d1 ∙ at-same local none d.node) in
      (
        _,
        linking os cfg path s w1 w2 e1 e2,
        d2 ∙ ap (put_node local _) d1 ∙ put_node-put_node local _ d none,
      )

module _ (cfg : Config) (path : FilePath) where
  -- The disk with a file in the cloud: the object, its `struct stat`, and a link to that.
  abbrev pub archived : List ℕ → Stat → Disk → Disk
  archived bytes st d =
      let local = get_absolute_path cfg path in
      let metadata = get_metadata_path cfg path in
      put_node local (some (link metadata))
        (put_node metadata (some (saved st)) (put_object (get_key path) (some bytes) d))

module _ (os : Os) (rel : IsReliable os) (cfg : Config) (path : FilePath)
    (s : Globals os.World) where
  pub move_to_cloud_lem :
      (bytes : List ℕ) (o : ℕ) (st : Stat)
      → (rel.disk s.world).node (get_absolute_path cfg path) ≡ some (regular bytes o)
      → IsFree (get_metadata_path cfg path) (rel.disk s.world)
      → same_name (get_metadata_path cfg path) (get_absolute_path cfg path) ≡ false
      → (s' : Globals os.World) × (move_to_cloud os cfg path st s ≡ (ok 0, s'))
        × (rel.disk s'.world ≡ archived cfg path bytes st (rel.disk s.world))
  move_to_cloud_lem bytes o st h free apart =
      let d = rel.disk s.world in
      let local = get_absolute_path cfg path in
      let metadata = get_metadata_path cfg path in
      let (w1, e1, d1) = s3_cloudfs_put_lem os rel cfg path bytes o s h in
      let s1 : Globals os.World = record s { world = w1; status_g = status_ok } in
      let (s2, e2, d2) =
        write_metadata_lem os rel cfg path s1 st (subst (IsFree metadata) (sym d1) free) in
      let d2' = d2 ∙ ap (put_node metadata (some (saved st))) d1 in
      let (s3, e3, d3) =
        replace_by_link_lem os rel cfg path s2 (regular bytes o)
          (ap (λ e. e.node local) d2' ∙ at-other metadata _ d.node local apart ∙ h) in
      (s3, moving os cfg path s st s1 s2 s3 e1 e2 e3, d3 ∙ ap (put_node local _) d2')

module _ (os : Os) (rel : IsReliable os) (cfg : Config) (path : FilePath)
    (s : Globals os.World) where
  -- On a system whose calls have their documented effects (IsReliable): let the local file of a
  -- path be a regular file larger than the threshold, its metadata path be another path that is
  -- free or holds a regular file or a record, and the handle be of a file that is not from the
  -- cloud or is dirty. Then `cloudfs_release` returns 0 and changes exactly this of the disk and
  -- the cloud: the object of the path has the bytes of the file, the metadata file holds its
  -- `struct stat`, and the local path is a link to the metadata file.
  pub cloudfs_release-archived :
      (fh : Fh) (bytes : List ℕ) (o : ℕ)
      → (rel.disk s.world).node (get_absolute_path cfg path) ≡ some (regular bytes o)
      → IsFree (get_metadata_path cfg path) (rel.disk s.world)
      → same_name (get_metadata_path cfg path) (get_absolute_path cfg path) ≡ false
      → (fh.proxy && not fh.dirty) ≡ false
      → cfg.threshold < length bytes
      → (s' : Globals os.World) × (cloudfs_release os cfg path fh s ≡ (ok 0, s'))
        × (rel.disk s'.world ≡ archived cfg path bytes (stat_of bytes o) (rel.disk s.world))
  cloudfs_release-archived fh bytes o h free apart sends large =
      let local = get_absolute_path cfg path in
      let metadata = get_metadata_path cfg path in
      let st = stat_of bytes o in
      let (w1, e1, d1, u1) = rel.lstat_regular s.world local bytes o h in
      let (s2, e2, d2) =
        move_to_cloud_lem os rel cfg path (record s { world = w1 }) bytes o st
          (ap (λ e. e.node local) d1 ∙ h) (subst (IsFree metadata) (sym d1) free) apart in
      (
        _,
        finishing os cfg path s fh s2 (releasing os cfg path s fh st w1 s2 e1 sends large e2),
        rel.close_keeps _ fh.fd
            ∙ release_lock_wrapper-keeps os rel path s2
            ∙ d2
            ∙ ap (archived cfg path bytes st) d1,
      )
