-- ===== src/Fs/Files/Open.antt =====
-- What `cloudfs_open` of cloudfs/cloudfs.c leaves in the local file.
use cloudfs.Base.{ℕ, ◌≡◌, refl, ap, ◌∙◌, bit_and, Bool, true, false, Option, none, some, List, []}
use cloudfs.Fs.Names.{FilePath, Config, get_key, get_absolute_path}
use cloudfs.Fs.Os.{Os}
use cloudfs.Fs.State.{Globals, ok}
use cloudfs.Fs.Disk.{Node, regular, put_node}
use cloudfs.Fs.Disk.Updates.{at-same, put_node-put_node}
use cloudfs.Fs.Laws.{IsReliable, o_trunc}
use cloudfs.Fs.Lock.{acquire_lock_wrapper}
use cloudfs.Fs.Lock.Keeps.{acquire_lock_wrapper-keeps}
use cloudfs.Fs.Cloud.{s3_cloudfs_get}
use cloudfs.Fs.Cloud.Get.{Gets, s3_cloudfs_get-found, s3_cloudfs_get-missing}
use cloudfs.Fs.Files.{next_version, cloudfs_open}

-- Whether there is an object, and its bytes.
abbrev pub present : Option (List ℕ) → Bool
present none = false
present (some bytes) = true

abbrev pub bytes_of : Option (List ℕ) → List ℕ
bytes_of none = []
bytes_of (some bytes) = bytes

module _ (os : Os) (cfg : Config) (path : FilePath) (flags : ℕ) (s : Globals os.World) where
  -- The state once the lock is acquired.
  abbrev locked : Globals os.World
  locked = (acquire_lock_wrapper os path flags (next_version os cfg path s).1).1

  opening :
      (proxy : Bool) (fd : ℕ) (removed : Option (Unit {0})) (w1 w3 : os.World)
      (s2 : Globals os.World)
      → os.unlink (get_absolute_path cfg path) locked.world ≡ (removed, w1)
      → s3_cloudfs_get os cfg path (record locked { world = w1 }) ≡ (proxy, s2)
      → os.open_file (get_absolute_path cfg path) flags s2.world ≡ (some fd, w3)
      → cloudfs_open os cfg path flags s ≡ (
        (ok 0, some (record { fd = fd; proxy = proxy; dirty = false })),
        record s2 { world = w3 },
      )
  unfolding cloudfs_open
  opening proxy fd removed w1 w3 s2 e1 e2 e3 = rw (e1, e2, e3) refl

module _ (os : Os) (rel : IsReliable os) (cfg : Config) (path : FilePath)
    (s : Globals os.World) where
  abbrev local : FilePath
  local = get_absolute_path cfg path

  -- The local name removed, if there was one.
  cleared :
      (w : os.World) (n : Option Node)
      → (rel.disk w).room local ≡ true
      → (rel.disk w).node local ≡ n
      → (removed : Option (Unit {0})) × (w1 : os.World) × (os.unlink local w ≡ (removed, w1))
        × ((rel.disk w1).node local ≡ none)
        × ((rel.disk w1).room ≡ (rel.disk w).room)
        × ((rel.disk w1).object ≡ (rel.disk w).object)
        × ((v : Option Node) → put_node local v (rel.disk w1) ≡ put_node local v (rel.disk w))
  cleared w none room h =
      let (w1, e, d) = rel.unlink_missing w local room h in
      (
        none,
        w1,
        e,
        ap (λ x. x.node local) d ∙ h,
        ap (λ x. x.room) d,
        ap (λ x. x.object) d,
        λ v. ap (put_node local v) d,
      )
  cleared w (some n) room h =
      let (w1, e, d) = rel.unlink_file w local n h in
      (
        some tt,
        w1,
        e,
        ap (λ x. x.node local) d ∙ at-same local none (rel.disk w).node,
        ap (λ x. x.room) d,
        ap (λ x. x.object) d,
        λ v. ap (put_node local v) d ∙ put_node-put_node local v (rel.disk w) none,
      )

  got :
      (s1 : Globals os.World) (object : Option (List ℕ))
      → (rel.disk s1.world).room local ≡ true
      → (rel.disk s1.world).node local ≡ none
      → (rel.disk s1.world).object (get_key path) ≡ object
      → Gets os rel cfg path s1 (present object) (bytes_of object)
  got s1 none room gone h = s3_cloudfs_get-missing os rel cfg path s1 room gone h
  got s1 (some bytes) room gone h = s3_cloudfs_get-found os rel cfg path s1 bytes room gone h

  -- On a system whose calls have their documented effects (IsReliable), `cloudfs_open` without
  -- O_TRUNC of a path whose local path is in a directory that exists, and is none itself, returns
  -- 0 with a clean handle, marked as from the cloud exactly if the path has an object, whatever
  -- file or link is at the local path, if any. Its descriptor is on the local file and has the
  -- flags given. It leaves the disk and the cloud as they were but for the local file, which is a
  -- regular file with the bytes of the object, or empty if there is no object.
  pub cloudfs_open_lem :
      (flags : ℕ) (object : Option (List ℕ))
      → (rel.disk s.world).room local ≡ true
      → (rel.disk s.world).object (get_key path) ≡ object
      → bit_and flags o_trunc ≡ 0
      → (fd o : ℕ) × (s' : Globals os.World) × (cloudfs_open os cfg path flags s
          ≡ ((ok 0, some (record { fd = fd; proxy = present object; dirty = false })), s'))
        × (rel.disk s'.world
            ≡ put_node local (some (regular (bytes_of object) o)) (rel.disk s.world))
        × (rel.fd_file s'.world fd ≡ local)
        × (rel.fd_flags s'.world fd ≡ flags)
  cloudfs_open_lem flags object room k flags_ok =
      let d = rel.disk s.world in
      let s1 = locked os cfg path flags s in
      let d0 : rel.disk s1.world ≡ d = acquire_lock_wrapper-keeps os rel path flags _ in
      let (removed, w1, e1, free, rooms, same, over) =
        cleared s1.world _ (ap (λ e. e.room local) d0 ∙ room) refl in
      let (o, s2, e2, d2) =
        got (record s1 { world = w1 }) object
          (ap (λ f. f local) (rooms ∙ ap (λ e. e.room) d0) ∙ room) free
          (ap (λ f. f (get_key path)) (same ∙ ap (λ e. e.object) d0) ∙ k) in
      let d2' : rel.disk s2.world ≡ put_node local (some (regular (bytes_of object) o)) d =
        d2 ∙ over _ ∙ ap (put_node local _) d0 in
      let (fd, w3, e3, d3, f3, m3) =
        rel.open_regular s2.world local flags (bytes_of object) o
          (ap (λ e. e.node local) d2' ∙ at-same local _ d.node) flags_ok in
      (
        fd,
        o,
        _,
        opening os cfg path flags s (present object) fd removed w1 w3 s2 e1 e2 e3,
        d3 ∙ d2',
        f3,
        m3,
      )
