-- ===== src/Fs/Files/Session.antt =====
-- A file of cloudfs/cloudfs.c that one session ends with and the next one begins with.
use cloudfs.Base.{ℕ, ◌<◌, ◌≡◌, ap, ◌∙◌, bit_and, true, false, not, ◌&&◌, some, List, length}
use cloudfs.Fs.Names.{FilePath, Config, same_name, get_key, get_absolute_path, get_metadata_path}
use cloudfs.Fs.Os.{Os}
use cloudfs.Fs.State.{Globals, ok}
use cloudfs.Fs.Disk.{regular}
use cloudfs.Fs.Disk.Updates.{at-same}
use cloudfs.Fs.Laws.{IsReliable, IsFree, o_trunc}
use cloudfs.Fs.Files.{Fh, cloudfs_open, cloudfs_release}
use cloudfs.Fs.Files.Open.{cloudfs_open_lem}
use cloudfs.Fs.Files.Archive.{cloudfs_release-archived}

module _ (os : Os) (rel : IsReliable os) (cfg : Config) (path : FilePath)
    (s : Globals os.World) where
  -- On a system whose calls have their documented effects (IsReliable): let the local file of a
  -- path be a regular file larger than the threshold, its metadata path be another path, in a
  -- directory that exists, that is free or holds a regular file or a record, and the handle be of
  -- a file that is not from the cloud or is dirty. Then `cloudfs_release` returns 0, and a
  -- following `cloudfs_open` without O_TRUNC returns 0 with a handle that is marked as from the
  -- cloud and not dirty, and leaves a local file of the same bytes.
  pub cloudfs_open-cloudfs_release :
      (fh : Fh) (flags : ℕ) (bytes : List ℕ) (o : ℕ)
      → (rel.disk s.world).node (get_absolute_path cfg path) ≡ some (regular bytes o)
      → IsFree (get_metadata_path cfg path) (rel.disk s.world)
      → same_name (get_metadata_path cfg path) (get_absolute_path cfg path) ≡ false
      → (fh.proxy && not fh.dirty) ≡ false
      → cfg.threshold < length bytes
      → bit_and flags o_trunc ≡ 0
      → (s1 s2 : Globals os.World) × (fd o' : ℕ) × (cloudfs_release os cfg path fh s ≡ (ok 0, s1))
        × (cloudfs_open os cfg path flags s1
            ≡ ((ok 0, some (record { fd = fd; proxy = true; dirty = false })), s2))
        × ((rel.disk s2.world).node (get_absolute_path cfg path) ≡ some (regular bytes o'))
  cloudfs_open-cloudfs_release fh flags bytes o h free apart sends large flags_ok =
      let local = get_absolute_path cfg path in
      let d = rel.disk s.world in
      let (s1, e1, d1) =
        cloudfs_release-archived os rel cfg path s fh bytes o h free apart sends large in
      let (fd, o', s2, e2, d2, f2, m2) =
        cloudfs_open_lem os rel cfg path s1 flags (some bytes)
          (ap (λ e. e.room local) d1 ∙ rel.held_room s.world local (regular bytes o) h)
          (ap (λ e. e.object (get_key path)) d1 ∙ at-same (get_key path) _ d.object) flags_ok in
      (s1, s2, fd, o', e1, e2, ap (λ e. e.node local) d2 ∙ at-same local _ (rel.disk s1.world).node)
