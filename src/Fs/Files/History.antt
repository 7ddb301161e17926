-- ===== src/Fs/Files/History.antt =====
-- The life of one file of cloudfs/cloudfs.c as a state machine on its bytes, and the handlers as an
-- implementation of it.
use cloudfs.Base.{ℕ, ◌≡◌, refl, bit_and, false, ltb, Option, none, some, List, [], ◌∷◌, length}
use cloudfs.Fs.Names.{FilePath, Config, same_name, get_absolute_path, get_metadata_path}
use cloudfs.Fs.Os.{Os}
use cloudfs.Fs.State.{M, Globals, Ret, ok, fail, ◌>>=◌, give}
use cloudfs.Fs.Disk.{Disk, HasRoom}
use cloudfs.Fs.Laws.{IsReliable, o_trunc, padded, CanWrite}
use cloudfs.Fs.Files.{cloudfs_mknod, cloudfs_truncate, cloudfs_unlink}
use cloudfs.Fs.Files.Write.{Writes, all_written, counts}
use cloudfs.Fs.Files.Elsewhere.{SameElsewhere, room_elsewhere, unchanged, changed_twice}
use cloudfs.Fs.Files.Stored.{Stored, kept, session, session-Stored}
use cloudfs.Fs.Files.Truncate.{cloudfs_truncate-Stored}
use cloudfs.Fs.Files.Unlink.{IsAbsent, cloudfs_mknod-Stored, cloudfs_unlink-IsAbsent}

pub data Operation : Type 0 where
  make : ℕ → ℕ → Operation
  edit : ℕ → Writes → Operation
  cut : ℕ → Operation
  remove : Operation

-- The abstract file: absent, or its bytes. What an edit starts from is `kept`.
pub data Step (cfg : Config) : Option (List ℕ) → Operation → Option (List ℕ) → Type 0 where
  made : (mode dev : ℕ) → bit_and mode 0o170000 ≡ 0o100000 → Step cfg none (make mode dev) (some [])
  edited :
      (bytes : List ℕ) (flags : ℕ) (ws : Writes)
      → bit_and flags o_trunc ≡ 0
      → CanWrite flags
      → Step cfg
          (some bytes)
          (edit flags ws)
          (some (all_written (kept (ltb cfg.threshold (length bytes)) bytes) ws))
  shortened :
      (size : ℕ) (bytes : List ℕ)
      → ltb cfg.threshold (length bytes) ≡ false
      → ltb cfg.threshold size ≡ false
      → Step cfg (some bytes) (cut size) (some (padded size bytes))
  removed : (bytes : List ℕ) → Step cfg (some bytes) remove none

pub data Steps (cfg : Config) : Option (List ℕ) → List Operation → Option (List ℕ) → Type 0 where
  end : (a : Option (List ℕ)) → Steps cfg a [] a
  then_on :
      {a b c : Option (List ℕ)} {op : Operation} {ops : List Operation}
      → Step cfg a op b
      → Steps cfg b ops c
      → Steps cfg a (op ∷ ops) c

-- The abstract file that a disk holds.
abbrev pub Holds : Config → FilePath → Option (List ℕ) → Disk → Type 0
Holds cfg path none = IsAbsent cfg path
Holds cfg path (some bytes) = Stored cfg path bytes

abbrev all_ok : List Operation → List Ret
all_ok [] = []
all_ok (op ∷ ops) = ok 0 ∷ all_ok ops

-- The result of a session: that of its release. A failed open is `fail 0` here.
abbrev released_as : Option (List Ret × Ret) → Ret
released_as none = fail 0
released_as (some (rs, r)) = r

module _ (os : Os) (cfg : Config) (path : FilePath) where
  unfoldable pub perform : Operation → M os.World Ret
  perform (make mode dev) = cloudfs_mknod os cfg path mode dev
  perform (edit flags ws) = do r ← session os cfg path flags ws; give (released_as r)
  perform (cut size) = cloudfs_truncate os cfg path size
  perform remove = cloudfs_unlink os cfg path

  unfoldable pub perform_all : List Operation → M os.World (List Ret)
  perform_all [] = give []
  perform_all (op ∷ ops) = do r ← perform op; rs ← perform_all ops; give (r ∷ rs)

  editing :
      (flags : ℕ) (ws : Writes) (rs : List Ret) (r : Ret) (s s' : Globals os.World)
      → session os cfg path flags ws s ≡ (some (rs, r), s')
      → perform (edit flags ws) s ≡ (r, s')
  unfolding perform
  editing flags ws rs r s s' e = rw e refl

  going_on :
      (op : Operation) (ops : List Operation) (r : Ret) (rs : List Ret) (s s1 s2 : Globals os.World)
      → perform op s ≡ (r, s1)
      → perform_all ops s1 ≡ (rs, s2)
      → perform_all (op ∷ ops) s ≡ (r ∷ rs, s2)
  unfolding perform_all
  going_on op ops r rs s s1 s2 e e' = rw (e, e') refl

module _ (os : Os) (rel : IsReliable os) (cfg : Config) (path : FilePath)
    (apart : same_name (get_metadata_path cfg path) (get_absolute_path cfg path) ≡ false) where
  pub perform-Step :
      (s : Globals os.World) {a b : Option (List ℕ)} {op : Operation}
      → Step cfg a op b
      → HasRoom cfg path (rel.disk s.world)
      → Holds cfg path a (rel.disk s.world)
      → (s' : Globals os.World) × (perform os cfg path op s ≡ (ok 0, s'))
        × Holds cfg path b (rel.disk s'.world)
        × SameElsewhere cfg path (rel.disk s.world) (rel.disk s'.world)
  unfolding perform
  perform-Step s (made mode dev m) room h =
      cloudfs_mknod-Stored os rel cfg path apart s mode dev m room h
  perform-Step s (edited bytes flags ws t can) room h =
      let (s', e, h', same) =
        session-Stored os rel cfg path apart flags bytes ws s room.1 h t can in
      (s', editing os cfg path flags ws (counts ws) (ok 0) s s' e, h', same)
  perform-Step s (shortened size bytes l k) room h =
      cloudfs_truncate-Stored os rel cfg path apart s size bytes l k h
  perform-Step s (removed bytes) room h =
      cloudfs_unlink-IsAbsent os rel cfg path apart s bytes room.1 h

  -- On a system whose calls have their documented effects (IsReliable), with a path whose metadata
  -- path is not its local path, and whose two files can be made (HasRoom: their directories exist,
  -- and they are none themselves): `cloudfs_mknod`, sessions of open, writes and release,
  -- `cloudfs_truncate` of a file that is not above the threshold to a size that is not above it,
  -- and `cloudfs_unlink`, in any order that the state machine `Step` of one file allows, all
  -- return 0 and leave on the disk and in the cloud what `Holds` says of the state that the
  -- machine reaches; what is stored under other names stays. Its state is absent or the bytes of
  -- the file; a session starts from these bytes if they are more than the threshold, and from an
  -- empty file if not.
  pub perform_all-Steps :
      (s : Globals os.World) {a b : Option (List ℕ)} {ops : List Operation}
      → Steps cfg a ops b
      → HasRoom cfg path (rel.disk s.world)
      → Holds cfg path a (rel.disk s.world)
      → (s' : Globals os.World) × (perform_all os cfg path ops s ≡ (all_ok ops, s'))
        × Holds cfg path b (rel.disk s'.world)
        × SameElsewhere cfg path (rel.disk s.world) (rel.disk s'.world)
  unfolding perform_all
  perform_all-Steps s (end a) room h = (s, refl, h, unchanged cfg path (rel.disk s.world))
  perform_all-Steps s (then_on {op = op} {ops = ops} st steps) room h =
      let (s1, e1, h1, same1) = perform-Step s st room h in
      let (s2, e2, h2, same2) =
        perform_all-Steps s1 steps (room_elsewhere cfg path same1 room) h1 in
      (
        s2,
        going_on os cfg path op ops (ok 0) (all_ok ops) s s1 s2 e1 e2,
        h2,
        changed_twice cfg path same1 same2,
      )
