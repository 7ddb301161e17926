-- ===== src/Fs/Requests.antt =====
-- The table `cloudfs_operations` of cloudfs/cloudfs.c: which handler serves a request of FUSE. The
-- handles stand for the `fh_t` that open allocates and release frees, under the number that
-- `fi->fh` holds.
pub mod Versions
pub mod Reached
pub mod Replies
use cloudfs.Base.{ℕ, ◌+◌, ◌-◌, ◌^◌, ◌==◌, if◌then◌else◌, false, Option, none, some, List}
use cloudfs.Fs.Names.{FilePath, Config}
use cloudfs.Fs.Os.{Os, Stat, status_ok}
use cloudfs.Fs.State.{M, Globals, Ret}
use cloudfs.Fs.Files.{
  Fh, cloudfs_mknod, cloudfs_truncate, cloudfs_open, cloudfs_read, cloudfs_write, cloudfs_release,
  cloudfs_flush, cloudfs_unlink,
}
use cloudfs.Fs.Attrs.{
  cloudfs_getattr, cloudfs_fgetattr, cloudfs_getxattr, cloudfs_access, cloudfs_utimens,
  cloudfs_setxattr, cloudfs_listxattr, cloudfs_removexattr, cloudfs_rename, cloudfs_readlink,
  cloudfs_symlink, cloudfs_link, cloudfs_chmod, cloudfs_chown, cloudfs_statfs, cloudfs_fsync,
  cloudfs_ftruncate,
}
use cloudfs.Fs.Dirs.{
  cloudfs_readdir, cloudfs_releasedir, cloudfs_opendir, cloudfs_mkdir, cloudfs_rmdir,
}

-- Requests on an open file. FUSE gives the path along.
pub data FileRequest : Type 0 where
  do_read : ℕ → ℕ → FileRequest
  do_write : List ℕ → ℕ → FileRequest
  do_flush do_fgetattr do_release : FileRequest

-- Requests on a path. A readdir has the fuel of its loop and the directory stream.
pub data PathRequest : Type 0 where
  do_getattr do_unlink do_rmdir do_opendir : PathRequest
  do_setxattr do_listxattr do_removexattr do_readlink do_statfs do_fsync : PathRequest
  do_mkdir do_truncate do_access do_utimens do_releasedir do_chmod do_ftruncate : ℕ → PathRequest
  do_mknod do_readdir do_chown : ℕ → ℕ → PathRequest
  do_getxattr : List ℕ → ℕ → PathRequest
  do_rename do_symlink do_link : FilePath → PathRequest

pub data Request : Type 0 where
  on_path : FilePath → PathRequest → Request
  do_open : FilePath → ℕ → Request
  on_handle : FilePath → ℕ → FileRequest → Request

-- A result with what is handed back beside it.
pub data Reply : Type 0 where
  result : Ret → Reply
  attributes : Ret → Option Stat → Reply
  value : Ret → List ℕ → Reply
  handle : Ret → Option ℕ → Reply

pub record Mount (W : Type 0) : Type 0 where
  pub globals : Globals W
  pub handles : ℕ → Option Fh
  -- The number of the next handle: `malloc` gives addresses that are not in use.
  pub next : ℕ

-- Where the loop of readdir has no fuel left, there is no reply.
abbrev pub with_fuel : {W : Type 0} → Option Ret × Globals W → Option Reply × Globals W
with_fuel (none, s) = (none, s)
with_fuel (some r, s) = (some (result r), s)

module _ (os : Os) (cfg : Config) where
  abbrev plain : M os.World Ret → Globals os.World → Option Reply × Globals os.World
  plain m s = let (r, s') = m s in (some (result r), s')

  unfoldable pub serve_path :
      FilePath → PathRequest → Globals os.World → Option Reply × Globals os.World
  serve_path path do_getattr s =
      let ((r, st), s') = cloudfs_getattr os cfg path s in (some (attributes r (some st)), s')
  serve_path path do_unlink s = plain (cloudfs_unlink os cfg path) s
  serve_path path do_rmdir s = plain (cloudfs_rmdir os cfg path) s
  serve_path path do_opendir s =
      let ((r, dp), s') = cloudfs_opendir os cfg path s in (some (handle r dp), s')
  serve_path path do_setxattr s = plain (cloudfs_setxattr path) s
  serve_path path do_listxattr s = plain (cloudfs_listxattr path) s
  serve_path path do_removexattr s = plain (cloudfs_removexattr path) s
  serve_path path do_readlink s = plain (cloudfs_readlink path) s
  serve_path path do_statfs s = plain (cloudfs_statfs path) s
  serve_path path do_fsync s = plain (cloudfs_fsync path) s
  serve_path path (do_mkdir mode) s = plain (cloudfs_mkdir os cfg path mode) s
  serve_path path (do_truncate size) s = plain (cloudfs_truncate os cfg path size) s
  serve_path path (do_access mask) s = plain (cloudfs_access os cfg path mask) s
  serve_path path (do_utimens ts) s = plain (cloudfs_utimens os cfg path ts) s
  serve_path path (do_releasedir dp) s = plain (cloudfs_releasedir os dp) s
  serve_path path (do_chmod mode) s = plain (cloudfs_chmod path mode) s
  serve_path path (do_ftruncate off) s = plain (cloudfs_ftruncate path off) s
  serve_path path (do_mknod mode dev) s = plain (cloudfs_mknod os cfg path mode dev) s
  serve_path path (do_readdir fuel dp) s = with_fuel (cloudfs_readdir os fuel dp s)
  serve_path path (do_chown owner group) s = plain (cloudfs_chown path owner group) s
  serve_path path (do_getxattr key size) s =
      let ((r, bytes), s') = cloudfs_getxattr os cfg path key size s in (some (value r bytes), s')
  serve_path path (do_rename to) s = plain (cloudfs_rename path to) s
  serve_path path (do_symlink to) s = plain (cloudfs_symlink path to) s
  serve_path path (do_link to) s = plain (cloudfs_link path to) s

  -- With the `fh_t` that is left; `none` once it is freed.
  unfoldable pub serve_file :
      FilePath → ℕ → Fh → FileRequest → Globals os.World → (Reply × Option Fh) × Globals os.World
  serve_file path bad_fd fh (do_read size offset) s =
      let ((r, bytes), s') = cloudfs_read os cfg path fh size offset s in
      ((value r bytes, some fh), s')
  serve_file path bad_fd fh (do_write buf offset) s =
      let ((r, fh'), s') = cloudfs_write os cfg path fh buf offset s in ((result r, some fh'), s')
  serve_file path bad_fd fh do_flush s =
      let (r, s') = cloudfs_flush os cfg path fh bad_fd s in ((result r, some fh), s')
  serve_file path bad_fd fh do_fgetattr s =
      let ((r, st), s') = cloudfs_fgetattr os cfg path fh s in ((attributes r st, some fh), s')
  serve_file path bad_fd fh do_release s =
      let (r, s') = cloudfs_release os cfg path fh s in ((result r, none), s')

  abbrev pub set_handle : ℕ → Option Fh → (ℕ → Option Fh) → ℕ → Option Fh
  set_handle i fh handles j = if i == j then fh else handles j

  abbrev pub add_handle : Option Fh → Ret → Mount os.World → Reply × Mount os.World
  add_handle none r m = (handle r none, m)
  add_handle (some fh) r m = (
    handle r (some m.next),
    record m { handles = set_handle m.next (some fh) m.handles; next = m.next + 1 },
  )

  abbrev pub on_live :
      FilePath → ℕ → ℕ → Option Fh → FileRequest → Mount os.World → Option Reply × Mount os.World
  on_live path i bad_fd none q m = (none, m)
  on_live path i bad_fd (some fh) q m =
      let ((reply, fh'), s') = serve_file path bad_fd fh q m.globals in
      (some reply, record m { globals = s'; handles = set_handle i fh' m.handles })

  -- No reply means that the number is of no live handle, which FUSE does not send, or that the
  -- fuel ended. `bad_fd` is -1 as a descriptor.
  unfoldable pub serve : ℕ → Request → Mount os.World → Option Reply × Mount os.World
  serve bad_fd (on_path path q) m =
      let (reply, s') = serve_path path q m.globals in (reply, record m { globals = s' })
  serve bad_fd (do_open path flags) m =
      let ((r, fh), s') = cloudfs_open os cfg path flags m.globals in
      let (reply, m') = add_handle fh r (record m { globals = s' }) in (some reply, m')
  serve bad_fd (on_handle path i q) m = on_live path i bad_fd (m.handles i) q m

  -- The globals as they are initialised, and no file open.
  abbrev pub mounted : os.World → Mount os.World
  mounted w = record {
    globals = record { world = w; version = 2 ^ 32 - 1; skip = false; status_g = status_ok };
    handles = λ i. none;
    next = 1;
  }
