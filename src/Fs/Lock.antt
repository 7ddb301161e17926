-- ===== src/Fs/Lock.antt =====
-- cloudfs/cloudfs.c: the lock calls around a file's session. The key is that of the path, the
-- identity is `machine`, which is 0, and the current `version`.
pub mod Keeps
pub mod Retries
use Prim.Native.Nat.{bit_and, bit_or}
use cloudfs.Base.{ℕ, zero, suc, Bool, true, false, not, Option, none, some, ◌==◌, if◌then◌else◌}
use cloudfs.Fs.Names.{FilePath, get_key}
use cloudfs.Fs.Os.{Os, LockParams}
use cloudfs.Fs.State.{M, Globals, ◌>>=◌, ◌>>◌, give, run}

abbrev pub maxblock : ℕ
maxblock = 15

-- O_WRONLY and O_RDWR of Linux.
abbrev pub o_wronly : ℕ
o_wronly = 1

abbrev pub o_rdwr : ℕ
o_rdwr = 2

-- WRITE for a file opened for writing, and READ for any other.
unfoldable pub lock_operation : ℕ → ℕ
lock_operation flags =
    if not (bit_or (bit_and flags o_rdwr) (bit_and flags o_wronly) == 0) then 2 else 1

-- The status after a call: what the stub stored, or the one before.
abbrev pub stored : Option ℕ → ℕ → ℕ
stored none result = result
stored (some r) result = r

module _ (os : Os) (path : FilePath) where
  abbrev pub lock_arg : ℕ → ℕ → LockParams
  lock_arg operation version = record {
    key = get_key path;
    operation = operation;
    machine = 0;
    version = version;
  }

  -- From the label RETRANSMIT1 on, with `left` calls to go; at the end `skip` is set.
  unfoldable pub acquire_loop : ℕ → ℕ → ℕ → M os.World (Unit {0})
  acquire_loop flags zero result s = (tt, record s { skip = true })
  acquire_loop flags (suc left) result s =
      let (r, w) = os.acquire_1 (lock_arg (lock_operation flags) s.version) s.world in
      let again = acquire_loop flags left (stored r result) (record s { world = os.usleep w }) in
      if stored r result == 1 then (tt, record s { world = w }) else again

  unfoldable pub acquire_lock_wrapper : ℕ → M os.World (Unit {0})
  acquire_lock_wrapper flags = acquire_loop flags maxblock 0

  -- From the label RETRANSMIT2 on.
  unfoldable pub release_loop : ℕ → ℕ → M os.World (Unit {0})
  release_loop zero result s = (tt, s)
  release_loop (suc left) result s =
      let (r, w) = os.release_1 (lock_arg 3 s.version) s.world in
      let again = release_loop left (stored r result) (record s { world = os.usleep w }) in
      if stored r result == 1 then (tt, record s { world = w }) else again

  unfoldable pub release_lock_wrapper : M os.World (Unit {0})
  release_lock_wrapper s =
      if s.skip then (tt, record s { skip = false }) else release_loop maxblock 0 s
