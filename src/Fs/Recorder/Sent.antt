-- ===== src/Fs/Recorder/Sent.antt =====
-- What an open and a release of cloudfs/cloudfs.c send to a lock service that grants what it is
-- asked for.
use cloudfs.Base.{ℕ, ◌+◌, ◌≡◌, refl, ◌∙◌, ap, u32, false, some, List, [], ◌∷◌, ◌++◌}
use cloudfs.Fs.Names.{FilePath, Config, get_absolute_path}
use cloudfs.Fs.Os.{Os, LockParams}
use cloudfs.Fs.State.{Globals}
use cloudfs.Fs.Lock.{
  lock_operation, lock_arg, acquire_loop, acquire_lock_wrapper, release_loop, release_lock_wrapper,
}
use cloudfs.Fs.Cloud.{s3_cloudfs_get}
use cloudfs.Fs.Files.{Fh, release_file, cloudfs_open, cloudfs_release}
use cloudfs.Fs.Recorder.{Recorded, recording, lock_view}
use cloudfs.Fs.State.Keeps.{on-Keeps}
use cloudfs.Fs.Recorder.Quiet.{s3_cloudfs_get-Keeps, release_file-Keeps}
use cloudfs.Fs.Requests.Versions.{release_file-Keeps as kept}

-- The lock service answers OK to every call.
pub record IsGranting (os : Os) : Type 0 where
  pub acquired : (arg : LockParams) (w : os.World) → (os.acquire_1 arg w).0 ≡ some 1
  pub let_go : (arg : LockParams) (w : os.World) → (os.release_1 arg w).0 ≡ some 1

-- The calls sent so far, with one more.
abbrev pub send : {W : Type 0} → Globals (Recorded W) → LockParams → List LockParams
send s arg = s.world.calls ++ (arg ∷ [])

module _ (os : Os) (grants : IsGranting os) (path : FilePath)
    (s : Globals (Recorded os.World)) where
  acquire_lock_wrapper-send :
      (flags : ℕ)
      → lock_view (acquire_lock_wrapper (recording os) path flags s).1
        ≡ (send s (lock_arg os path (lock_operation flags) s.version), s.skip)
  unfolding acquire_lock_wrapper acquire_loop
  acquire_lock_wrapper-send flags = rw (grants.acquired _ s.world.inner) refl

  release_lock_wrapper-send :
      s.skip ≡ false
      → lock_view (release_lock_wrapper (recording os) path s).1
        ≡ (send s (lock_arg os path 3 s.version), false)
  unfolding release_lock_wrapper release_loop
  release_lock_wrapper-send h = rw (h, grants.let_go _ s.world.inner) refl

module _ (os : Os) (grants : IsGranting os) (cfg : Config) (path : FilePath)
    (s : Globals (Recorded os.World)) where
  pub cloudfs_open-send :
      (flags : ℕ)
      → lock_view (cloudfs_open (recording os) cfg path flags s).1
        ≡ (send s (lock_arg os path (lock_operation flags) (u32 (s.version + 1))), s.skip)
  unfolding cloudfs_open
  cloudfs_open-send flags =
      let s1 =
        (acquire_lock_wrapper (recording os) path flags
          (record s { version = u32 (s.version + 1) })).1 in
      let s2 : Globals (Recorded os.World) = record s1 {
        world = ((recording os).unlink (get_absolute_path cfg path) s1.world).1;
      } in
      let s3 = (s3_cloudfs_get (recording os) cfg path s2).1 in
      on-Keeps lock_view ((recording os).open_file (get_absolute_path cfg path) flags s3.world).0 _
        _ (λ t. refl) (λ a t. refl) _
      ∙ s3_cloudfs_get-Keeps os cfg path s2
      ∙ acquire_lock_wrapper-send os grants path (record s { version = u32 (s.version + 1) }) flags

  pub cloudfs_release-send :
      (fh : Fh)
      → s.skip ≡ false
      → lock_view (cloudfs_release (recording os) cfg path fh s).1
        ≡ (send s (lock_arg os path 3 s.version), false)
  unfolding cloudfs_release
  cloudfs_release-send fh h =
      let s1 = (release_file (recording os) cfg path fh s).1 in
      let same : lock_view s1 ≡ lock_view s = release_file-Keeps os cfg path fh s in
      release_lock_wrapper-send os grants path s1 (ap (λ v. v.1) same ∙ h)
      ∙ ap (λ c. (c ++ (lock_arg os path 3 s1.version ∷ []), false)) (ap (λ v. v.0) same)
      ∙ ap (λ v. (s.world.calls ++ (lock_arg os path 3 v ∷ []), false))
          (kept (recording os) cfg path fh s)
