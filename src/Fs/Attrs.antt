-- ===== src/Fs/Attrs.antt =====
-- cloudfs/cloudfs.c: attributes of files, and the operations that are not implemented.
pub mod Released
pub mod Stored
pub mod Dangling
use cloudfs.Base.{ℕ, false, Option, none, some, List, [], if◌then◌else◌}
use cloudfs.Fs.Names.{FilePath, Config, get_absolute_path}
use cloudfs.Fs.Os.{Os, Stat}
use cloudfs.Fs.State.{M, Ret, ok, ◌>>=◌, ◌>>◌, give, run, on, minus_errno, zero_or_errno}
use cloudfs.Fs.Files.{Fh}

-- `memset (stbuf, 0, sizeof (struct stat))`
abbrev pub zero_stat : Stat
zero_stat = record { is_link = false; st_size = 0; others = 0 }

module _ (os : Os) (cfg : Config) (path : FilePath) where
  abbrev absolute : FilePath
  absolute = get_absolute_path cfg path

  -- `cloudfs_getattr` with what it leaves in `*stbuf`. A link stands for a file in the cloud, and
  -- to open it is to open the metadata file.
  unfoldable pub cloudfs_getattr : M os.World (Ret × Stat)
  cloudfs_getattr = do
    r ← run (os.lstat absolute)
    on r (do e ← minus_errno os; give (e, zero_stat))
        (λ st.
          if st.is_link
          then (do
            opened ← run (os.open_file absolute 0)
            on opened (do e ← minus_errno os; give (e, st))
                (λ fd. do
                  got ← run (os.read_stat fd)
                  on got (do e ← minus_errno os; give (e, zero_stat))
                      (λ st'. do run (os.close fd); give (ok 0, st'))))
          else give (ok 0, st))

  -- `cloudfs_fgetattr`
  unfoldable pub cloudfs_fgetattr : Fh → M os.World (Ret × Option Stat)
  cloudfs_fgetattr fh = do
    r ← run (os.fstat fh.fd)
    on r (do e ← minus_errno os; give (e, none)) (λ st. give (ok 0, some st))

  -- `cloudfs_getxattr` with the value; the size that `lgetxattr` returns is dropped.
  unfoldable pub cloudfs_getxattr : List ℕ → ℕ → M os.World (Ret × List ℕ)
  cloudfs_getxattr key size = do
    r ← run (os.lgetxattr absolute key size)
    on r (do e ← minus_errno os; give (e, [])) (λ value. give (ok 0, value))

  unfoldable pub cloudfs_access : ℕ → M os.World Ret
  cloudfs_access mask = zero_or_errno os (os.access absolute mask)

  unfoldable pub cloudfs_utimens : ℕ → M os.World Ret
  cloudfs_utimens ts = zero_or_errno os (os.utimensat absolute ts)

-- The operations that only log that they are not implemented.
module _ {W : Type 0} where
  unfoldable pub cloudfs_setxattr : FilePath → M W Ret
  cloudfs_setxattr path = give (ok 0)

  unfoldable pub cloudfs_listxattr : FilePath → M W Ret
  cloudfs_listxattr path = give (ok 0)

  unfoldable pub cloudfs_removexattr : FilePath → M W Ret
  cloudfs_removexattr path = give (ok 0)

  unfoldable pub cloudfs_rename : FilePath → FilePath → M W Ret
  cloudfs_rename from to = give (ok 0)

  unfoldable pub cloudfs_readlink : FilePath → M W Ret
  cloudfs_readlink path = give (ok 0)

  unfoldable pub cloudfs_symlink : FilePath → FilePath → M W Ret
  cloudfs_symlink path1 path2 = give (ok 0)

  unfoldable pub cloudfs_link : FilePath → FilePath → M W Ret
  cloudfs_link path1 path2 = give (ok 0)

  unfoldable pub cloudfs_chmod : FilePath → ℕ → M W Ret
  cloudfs_chmod path mode = give (ok 0)

  unfoldable pub cloudfs_chown : FilePath → ℕ → ℕ → M W Ret
  cloudfs_chown path owner group = give (ok 0)

  unfoldable pub cloudfs_statfs : FilePath → M W Ret
  cloudfs_statfs path = give (ok 0)

  unfoldable pub cloudfs_fsync : FilePath → M W Ret
  cloudfs_fsync path = give (ok 0)

  unfoldable pub cloudfs_ftruncate : FilePath → ℕ → M W Ret
  cloudfs_ftruncate path off = give (ok 0)
