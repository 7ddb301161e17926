-- ===== src/Fs/Files.antt =====
-- cloudfs/cloudfs.c: the session of a file, from `cloudfs_open` to `cloudfs_release`, and the
-- calls that make, cut and remove files. A handler gets its `fh_t` and returns it.
pub mod Open
pub mod Archive
pub mod Session
pub mod Release
pub mod Elsewhere
pub mod Unlink
pub mod Truncate
pub mod Lost
pub mod Shared
pub mod Write
pub mod Stored
pub mod History
pub mod Many
pub mod Reading
use Prim.Native.Nat.{bit_and}
use cloudfs.Base.{ℕ, ◌+◌, Bool, true, false, Option, none, some, List, [], length, u32}
use cloudfs.Base.{ltb, leb, ◌==◌, if◌then◌else◌}
use cloudfs.Fs.Names.{FilePath, Config, get_absolute_path, get_metadata_path}
use cloudfs.Fs.Os.{Os, Stat}
use cloudfs.Fs.State.{M, Globals, Ret, ok, ◌>>=◌, ◌>>◌, give, run, on, minus_errno, zero_or_errno}
use cloudfs.Fs.Lock.{acquire_lock_wrapper, release_lock_wrapper}
use cloudfs.Fs.Cloud.{s3_cloudfs_put, s3_cloudfs_get, s3_delete}

-- `fh_t`
pub record Fh : Type 0 where
  pub fd : ℕ
  pub proxy : Bool
  pub dirty : Bool

abbrev pub fh_t_new : Fh
fh_t_new = record { fd = 0; proxy = false; dirty = false }

-- `S_ISFIFO`, with the values of Linux.
unfoldable pub is_fifo : ℕ → Bool
is_fifo mode = bit_and mode 0o170000 == 0o10000

module _ (os : Os) (cfg : Config) (path : FilePath) where
  abbrev pub absolute : FilePath
  absolute = get_absolute_path cfg path

  abbrev pub metadata : FilePath
  metadata = get_metadata_path cfg path

  unfoldable pub cloudfs_mknod : ℕ → ℕ → M os.World Ret
  cloudfs_mknod mode dev =
      zero_or_errno os
        (if is_fifo mode then os.mkfifo absolute mode else os.mknod absolute mode dev)

  unfoldable pub cloudfs_truncate : ℕ → M os.World Ret
  cloudfs_truncate size = zero_or_errno os (os.truncate absolute size)

  abbrev pub next_version : M os.World (Unit {0})
  next_version s = (tt, record s { version = u32 (s.version + 1) })

  -- `cloudfs_open`. On success the handle is what `fi->fh` points to.
  unfoldable pub cloudfs_open : ℕ → M os.World (Ret × Option Fh)
  cloudfs_open flags = do
    next_version
    acquire_lock_wrapper os path flags
    run (os.unlink absolute)
    proxy ← s3_cloudfs_get os cfg path
    opened ← run (os.open_file absolute flags)
    on opened (do e ← minus_errno os; give (e, none))
        (λ fd. give (ok 0, some (record fh_t_new { fd = fd; proxy = proxy })))

  -- `cloudfs_read`: the count with the bytes put into `buf`.
  unfoldable pub cloudfs_read : Fh → ℕ → ℕ → M os.World (Ret × List ℕ)
  cloudfs_read fh size offset = do
    r ← run (os.pread fh.fd size offset)
    on r (do e ← minus_errno os; give (e, [])) (λ bytes. give (ok (length bytes), bytes))

  -- `cloudfs_write` with the handle that it leaves.
  unfoldable pub cloudfs_write : Fh → List ℕ → ℕ → M os.World (Ret × Fh)
  cloudfs_write fh buf offset = do
    let fh' : Fh = if fh.proxy then record fh { dirty = true } else fh
    r ← run (os.pwrite fh.fd buf offset)
    on r (do e ← minus_errno os; give (e, fh')) (λ n. give (ok n, fh'))

  -- The metadata file made anew from a `struct stat`; `none` is success.
  unfoldable pub write_metadata : Stat → M os.World (Option Ret)
  write_metadata st = do
    opened ← run (os.create_file metadata)
    on opened (do e ← minus_errno os; give (some e))
        (λ fd. do
          written ← run (os.write_stat fd st)
          on written (do e ← minus_errno os; run (os.close fd); give (some e))
              (λ _. do run (os.close fd); give none))

  -- The local file replaced by a link to the metadata file.
  unfoldable pub replace_by_link : M os.World Ret
  replace_by_link = do
    gone ← run (os.unlink absolute)
    on gone (minus_errno os) (λ _. zero_or_errno os (os.symlink metadata absolute))

  -- The file sent to the cloud, and replaced.
  unfoldable pub move_to_cloud : Stat → M os.World Ret
  move_to_cloud st = do
    s3_cloudfs_put os cfg path
    error ← write_metadata st
    on error replace_by_link (λ e. give e)

  -- `cloudfs_release` up to the label FINISH, and its result.
  unfoldable pub release_file : Fh → M os.World Ret
  release_file fh = do
    r ← run (os.lstat absolute)
    on r (minus_errno os) (λ st.
        if fh.proxy
        then (if fh.dirty
            then (if leb st.st_size cfg.threshold
                then (do s3_delete os cfg path; run (os.unlink metadata); give (ok 0))
                else move_to_cloud st)
            else replace_by_link)
        else if ltb cfg.threshold st.st_size
        then move_to_cloud st
        else give (ok 0))

  unfoldable pub cloudfs_release : Fh → M os.World Ret
  cloudfs_release fh = do
    res ← release_file fh
    release_lock_wrapper os path
    run (os.close fh.fd)
    give res

  -- `cloudfs_flush`: `close (dup (fd))`, where -1 is handed on by a failed `dup`.
  unfoldable pub cloudfs_flush : Fh → ℕ → M os.World Ret
  cloudfs_flush fh bad_fd = do
    d ← run (os.dup fh.fd)
    on d (zero_or_errno os (os.close bad_fd)) (λ fd. zero_or_errno os (os.close fd))

  unfoldable pub cloudfs_unlink : M os.World Ret
  cloudfs_unlink = do
    is_proxy ← run (os.access metadata 0)
    on is_proxy (give tt) (λ _. do s3_delete os cfg path; run (os.unlink metadata); give tt)
    zero_or_errno os (os.unlink absolute)
