-- ===== src/Fs/Dirs.antt =====
-- cloudfs/cloudfs.c: directories. A directory stream is known by a number, which `fi->fh` holds.
pub mod Listing
use cloudfs.Base.{ℕ, zero, suc, Bool, true, false, Option, none, some, [], ◌∷◌, ◌==◌, if◌then◌else◌}
use cloudfs.Fs.Names.{same_name, FilePath, Config, get_absolute_path}
use cloudfs.Fs.Os.{Os}
use cloudfs.Fs.State.{M, Globals, Ret, ok, fail, ◌>>=◌, give, run, on, minus_errno, zero_or_errno}

-- "lost+found"
abbrev pub lost_found : FilePath
lost_found = b'l' ∷ b'o' ∷ b's' ∷ b't' ∷ b'+' ∷ b'f' ∷ b'o' ∷ b'u' ∷ b'n' ∷ b'd' ∷ []

module _ (os : Os) where
  -- The loop of `cloudfs_readdir` from the entry `name` on, on fuel: `none` if the fuel ends.
  unfoldable pub fill_entries : ℕ → ℕ → FilePath → M os.World (Option Ret)
  fill_entries zero dp name s = (none, s)
  fill_entries (suc fuel) dp name s =
      let (full, s') = (if same_name name lost_found then give false else run (os.filler name)) s in
      let (next, s'') = run (os.readdir dp) s' in
      let rest = on next (give (some (ok 0))) (λ name'. fill_entries fuel dp name') s'' in
      if full then (some (fail (os.errno s'.world)), s') else rest

  -- `cloudfs_readdir`
  unfoldable pub cloudfs_readdir : ℕ → ℕ → M os.World (Option Ret)
  cloudfs_readdir fuel dp = do
    first ← run (os.readdir dp)
    on first (do e ← minus_errno os; give (some e)) (λ name. fill_entries fuel dp name)

  -- `cloudfs_releasedir`
  unfoldable pub cloudfs_releasedir : ℕ → M os.World Ret
  cloudfs_releasedir dp = zero_or_errno os (os.closedir dp)

  module _ (cfg : Config) (path : FilePath) where
    unfoldable pub cloudfs_opendir : M os.World (Ret × Option ℕ)
    cloudfs_opendir = do
      r ← run (os.opendir (get_absolute_path cfg path))
      on r (do e ← minus_errno os; give (e, none)) (λ dp. give (ok 0, some dp))

    unfoldable pub cloudfs_mkdir : ℕ → M os.World Ret
    cloudfs_mkdir m = zero_or_errno os (os.mkdir (get_absolute_path cfg path) m)

    unfoldable pub cloudfs_rmdir : M os.World Ret
    cloudfs_rmdir = zero_or_errno os (os.rmdir (get_absolute_path cfg path))

  -- `mkdir_if_not_exist`: whether it returns 0. `enoent` and the mode are constants of the system.
  unfoldable pub mkdir_if_not_exist : FilePath → ℕ → ℕ → M os.World Bool
  mkdir_if_not_exist path enoent mode = do
    dir ← run (os.opendir path)
    on dir
        (λ s.
          if os.errno s.world == enoent
          then (do r ← run (os.mkdir path mode); on r (give false) (λ _. give true)) s
          else (false, s))
        (λ dp. do r ← run (os.closedir dp); on r (give false) (λ _. give true))
