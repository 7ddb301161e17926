-- ===== src/Fs/Lock/Keeps.antt =====
-- The lock calls of cloudfs/cloudfs.c leave all files and objects alone.
use cloudfs.Base.{ℕ, zero, suc, ◌≡◌, refl, ◌∙◌, Bool, true, false, if◌then◌else◌}
use cloudfs.Fs.Names.{FilePath}
use cloudfs.Fs.Os.{Os}
use cloudfs.Fs.State.{Globals}
use cloudfs.Fs.Disk.{Disk}
use cloudfs.Fs.Laws.{IsReliable}
use cloudfs.Fs.Lock.{acquire_loop, acquire_lock_wrapper, release_loop, release_lock_wrapper}

module _ (os : Os) (rel : IsReliable os) where
  abbrev pub after : {A : Type 0} → A × Globals os.World → Disk
  after r = rel.disk r.1.world

  either :
      {A : Type 0} (b : Bool) (x y : A × Globals os.World) (d : Disk)
      → after x ≡ d
      → after y ≡ d
      → after (if b then x else y) ≡ d
  either true x y d h k = h
  either false x y d h k = k

  module _ (path : FilePath) where
    acquire_loop-keeps :
        (flags left result : ℕ) (s : Globals os.World)
        → after (acquire_loop os path flags left result s) ≡ rel.disk s.world
    unfolding acquire_loop
    acquire_loop-keeps flags zero result s = refl
    acquire_loop-keeps flags (suc left) result s =
        either _ _ _ _ (rel.acquire_keeps s.world _)
          (acquire_loop-keeps flags left _ _ ∙ rel.usleep_keeps _ ∙ rel.acquire_keeps s.world _)

    pub acquire_lock_wrapper-keeps :
        (flags : ℕ) (s : Globals os.World)
        → after (acquire_lock_wrapper os path flags s) ≡ rel.disk s.world
    unfolding acquire_lock_wrapper
    acquire_lock_wrapper-keeps flags s = acquire_loop-keeps flags 15 0 s

    release_loop-keeps :
        (left result : ℕ) (s : Globals os.World)
        → after (release_loop os path left result s) ≡ rel.disk s.world
    unfolding release_loop
    release_loop-keeps zero result s = refl
    release_loop-keeps (suc left) result s =
        either _ _ _ _ (rel.release_keeps s.world _)
          (release_loop-keeps left _ _ ∙ rel.usleep_keeps _ ∙ rel.release_keeps s.world _)

    pub release_lock_wrapper-keeps :
        (s : Globals os.World) → after (release_lock_wrapper os path s) ≡ rel.disk s.world
    unfolding release_lock_wrapper
    release_lock_wrapper-keeps s = either s.skip _ _ _ refl (release_loop-keeps 15 0 s)
