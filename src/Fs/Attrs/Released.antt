-- ===== src/Fs/Attrs/Released.antt =====
-- `cloudfs_getattr` of cloudfs/cloudfs.c on a file that is in the cloud.
use cloudfs.Base.{ℕ, ◌<◌, ◌≡◌, refl, ap, ◌∙◌, true, false, not, ◌&&◌, some, List, length}
use cloudfs.Fs.Names.{FilePath, Config, same_name, get_key, get_absolute_path, get_metadata_path}
use cloudfs.Fs.Os.{Os, Stat}
use cloudfs.Fs.State.{Globals, ok}
use cloudfs.Fs.Disk.{regular, saved, link, put_node, put_object, stat_of}
use cloudfs.Fs.Disk.Updates.{at-same, at-other, same_name_sym}
use cloudfs.Fs.Laws.{IsReliable, IsFree}
use cloudfs.Fs.Files.{Fh, cloudfs_release}
use cloudfs.Fs.Files.Archive.{cloudfs_release-archived}
use cloudfs.Fs.Attrs.{cloudfs_getattr}

module _ (os : Os) (cfg : Config) (path : FilePath) (s : Globals os.World) where
  following :
      (st st' : Stat) (fd : ℕ) (w1 w2 w3 : os.World)
      → os.lstat (get_absolute_path cfg path) s.world ≡ (some st, w1)
      → st.is_link ≡ true
      → os.open_file (get_absolute_path cfg path) 0 w1 ≡ (some fd, w2)
      → os.read_stat fd w2 ≡ (some st', w3)
      → cloudfs_getattr os cfg path s ≡ ((ok 0, st'), record s { world = (os.close fd w3).1 })
  unfolding cloudfs_getattr
  following st st' fd w1 w2 w3 e1 l e2 e3 = rw (e1, l, e2, e3) refl

module _ (os : Os) (rel : IsReliable os) (cfg : Config) (path : FilePath)
    (s : Globals os.World) where
  pub cloudfs_getattr-link :
      (target : FilePath) (st : Stat)
      → (rel.disk s.world).node (get_absolute_path cfg path) ≡ some (link target)
      → (rel.disk s.world).node target ≡ some (saved st)
      → (s' : Globals os.World) × (cloudfs_getattr os cfg path s ≡ ((ok 0, st), s'))
        × (rel.disk s'.world ≡ rel.disk s.world)
  cloudfs_getattr-link target st h k =
      let local = get_absolute_path cfg path in
      let (lst, w1, e1, l, d1) = rel.lstat_link s.world local target h in
      let (fd, w2, e2, d2, q) =
        rel.open_saved w1 local target st (ap (λ e. e.node local) d1 ∙ h)
          (ap (λ e. e.node target) d1 ∙ k) in
      let (w3, e3, d3) = rel.read_saved w2 fd st q in
      (
        _,
        following os cfg path s lst st fd w1 w2 w3 e1 l e2 e3,
        rel.close_keeps w3 fd ∙ d3 ∙ d2 ∙ d1,
      )

module _ (os : Os) (rel : IsReliable os) (cfg : Config) (path : FilePath)
    (s : Globals os.World) where
  -- On a system whose calls have their documented effects (IsReliable): let the local file of a
  -- path be a regular file larger than the threshold, its metadata path be another path, in a
  -- directory that exists, that is free or holds a regular file or a record, and the handle be of
  -- a file that is not from the cloud or is dirty. Then `cloudfs_getattr` after `cloudfs_release`
  -- returns 0 with the `struct stat` that the local file had, its size included, and leaves the
  -- disk and the cloud as they were.
  pub cloudfs_getattr-cloudfs_release :
      (fh : Fh) (bytes : List ℕ) (o : ℕ)
      → (rel.disk s.world).node (get_absolute_path cfg path) ≡ some (regular bytes o)
      → IsFree (get_metadata_path cfg path) (rel.disk s.world)
      → same_name (get_metadata_path cfg path) (get_absolute_path cfg path) ≡ false
      → (fh.proxy && not fh.dirty) ≡ false
      → cfg.threshold < length bytes
      → (s1 s2 : Globals os.World) × (cloudfs_release os cfg path fh s ≡ (ok 0, s1))
        × (cloudfs_getattr os cfg path s1 ≡ ((ok 0, stat_of bytes o), s2))
        × (rel.disk s2.world ≡ rel.disk s1.world)
  cloudfs_getattr-cloudfs_release fh bytes o h free apart sends large =
      let local = get_absolute_path cfg path in
      let metadata = get_metadata_path cfg path in
      let d = put_object (get_key path) (some bytes) (rel.disk s.world) in
      let st = stat_of bytes o in
      let d' = put_node metadata (some (saved st)) d in
      let (s1, e1, d1) =
        cloudfs_release-archived os rel cfg path s fh bytes o h free apart sends large in
      let (s2, e2, d2) =
        cloudfs_getattr-link os rel cfg path s1 metadata st
          (ap (λ e. e.node local) d1 ∙ at-same local _ d'.node)
          (ap (λ e. e.node metadata) d1
            ∙ at-other local _ d'.node metadata (same_name_sym metadata local ∙ apart)
            ∙ at-same metadata _ d.node) in
      (s1, s2, e1, e2, d2)
