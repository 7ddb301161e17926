-- ===== src/Fs/State.antt =====
-- The globals of cloudfs/cloudfs.c and cloud-lib/cloudapi.c beside the world, and the monad of
-- functions that read and change them. The log that `write_log` writes is left out: its calls
-- are taken to leave `errno` and all else as it is.
pub mod Keeps
use cloudfs.Base.{ℕ, Bool, Option, none, some}
use cloudfs.Fs.Os.{Os, Call, Status}

-- `version` is the `int` as a 32-bit pattern, so that it starts at 2 ^ 32 - 1 for -1.
pub record Globals (W : Type 0) : Type 0 where
  pub world : W
  pub version : ℕ
  pub skip : Bool
  pub status_g : Status

-- What a handler returns to FUSE: a count or 0, or the negative of an error number.
pub data Ret : Type 0 where
  ok : ℕ → Ret
  fail : ℕ → Ret

abbrev pub M : Type 0 → Type 0 → Type 0
M W A = Globals W → A × Globals W

infixl 5 ◌>>=◌ ◌>>◌
abbrev pub ◌>>=◌ : {W A B : Type 0} → M W A → (A → M W B) → M W B
◌>>=◌ m f s = let (a, s') = m s in f a s'

abbrev pub ◌>>◌ : {W A B : Type 0} → M W A → M W B → M W B
m >> k = m >>= λ _. k

abbrev pub give : {W A : Type 0} → A → M W A
give a s = (a, s)

-- A call of the environment.
abbrev pub run : {W A : Type 0} → (W → A × W) → M W A
run c s = let (a, w) = c s.world in (a, record s { world = w })

-- What follows a call, by its outcome.
abbrev pub on : {W A B : Type 0} → Option A → M W B → (A → M W B) → M W B
on none failed k = failed
on (some a) failed k = k a

-- `return -errno`
abbrev pub minus_errno : (os : Os) → M os.World Ret
minus_errno os s = (fail (os.errno s.world), s)

-- A call whose failure is returned as -errno, and whose success as 0.
abbrev pub zero_or_errno : (os : Os) → Call os.World (Unit {0}) → M os.World Ret
zero_or_errno os c = do r ← run c; on r (minus_errno os) (λ _. give (ok 0))
