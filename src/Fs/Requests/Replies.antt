-- ===== src/Fs/Requests/Replies.antt =====
-- What the handlers of cloudfs/cloudfs.c may return to FUSE, whatever the system answers.
use cloudfs.Base.{
  ℕ, zero, suc, ◌≡◌, refl, arith, Bool, true, false, ◌==◌, Option, none, some, Option-cases, inl,
  inr,
}
use cloudfs.Fs.Names.{FilePath, Config}
use cloudfs.Fs.Os.{Os, Stat}
use cloudfs.Fs.State.{Globals, Ret, ok, fail}
use cloudfs.Fs.Cloud.{s3_cloudfs_put}
use cloudfs.Fs.Files.{
  Fh, replace_by_link, write_metadata, move_to_cloud, release_file, cloudfs_release, cloudfs_mknod,
  cloudfs_truncate, cloudfs_open, cloudfs_flush, cloudfs_unlink,
}
use cloudfs.Fs.Attrs.{
  cloudfs_getattr, cloudfs_fgetattr, cloudfs_getxattr, cloudfs_access, cloudfs_utimens,
  cloudfs_setxattr, cloudfs_listxattr, cloudfs_removexattr, cloudfs_rename, cloudfs_readlink,
  cloudfs_symlink, cloudfs_link, cloudfs_chmod, cloudfs_chown, cloudfs_statfs, cloudfs_fsync,
  cloudfs_ftruncate,
}
use cloudfs.Fs.Dirs.{
  fill_entries, cloudfs_readdir, cloudfs_releasedir, cloudfs_opendir, cloudfs_mkdir, cloudfs_rmdir,
}
use cloudfs.Fs.Requests.{
  Reply, result, attributes, value, handle, with_fuel, PathRequest, do_readdir, serve_path,
  FileRequest, do_read, do_write, do_flush, do_fgetattr, do_release, Request, on_path, do_open,
  on_handle, Mount, serve_file, on_live, serve,
}

-- 0, or the negative of an error number.
abbrev pub zero_or_error : Ret → Bool
zero_or_error (ok n) = n == 0
zero_or_error (fail e) = true

-- A handle comes with 0, and none with an error.
abbrev pub with_handle : Ret → Option ℕ → Bool
with_handle (ok n) none = false
with_handle (ok n) (some h) = n == 0
with_handle (fail e) none = true
with_handle (fail e) (some h) = false

abbrev pub fits : Option Reply → Bool
fits none = true
fits (some (result r)) = zero_or_error r
fits (some (attributes r st)) = zero_or_error r
fits (some (value r bytes)) = zero_or_error r
fits (some (handle r h)) = with_handle r h

abbrev all_fit : Option Ret → Bool
all_fit none = true
all_fit (some r) = zero_or_error r

with_fuel_fits :
    {W : Type 0} (r : Option Ret × Globals W) → all_fit r.0 ≡ true → fits (with_fuel r).0 ≡ true
with_fuel_fits (none, s) h = refl
with_fuel_fits (some r, s) h = h

-- The requests that return a count of bytes.
abbrev pub returns_count : Request → Bool
returns_count (on_path path q) = false
returns_count (do_open path flags) = false
returns_count (on_handle path i (do_read size offset)) = true
returns_count (on_handle path i (do_write buf offset)) = true
returns_count (on_handle path i do_flush) = false
returns_count (on_handle path i do_fgetattr) = false
returns_count (on_handle path i do_release) = false

module _ (os : Os) where
  entries_fit :
      (fuel dp : ℕ) (name : FilePath) (s : Globals os.World)
      → all_fit (fill_entries os fuel dp name s).0 ≡ true
  unfolding fill_entries
  entries_fit zero dp name s = refl
  entries_fit (suc fuel) dp name s = grind (arith, entries_fit fuel dp)

  module _ (cfg : Config) (path : FilePath) where
    pub serve_path_fits :
        (q : PathRequest) (s : Globals os.World) → fits (serve_path os cfg path q s).0 ≡ true
    unfolding serve_path cloudfs_getattr cloudfs_rmdir cloudfs_opendir cloudfs_setxattr
        cloudfs_listxattr cloudfs_removexattr cloudfs_readlink cloudfs_statfs cloudfs_fsync
        cloudfs_mkdir cloudfs_truncate cloudfs_access cloudfs_utimens cloudfs_releasedir
        cloudfs_chmod cloudfs_ftruncate cloudfs_mknod cloudfs_readdir cloudfs_chown cloudfs_getxattr
        cloudfs_rename cloudfs_symlink cloudfs_link cloudfs_unlink
    serve_path_fits (do_readdir fuel dp) s =
        let (first, w) = os.readdir dp s.world in
        let t : Globals os.World = record s { world = w } in
        with_fuel_fits (cloudfs_readdir os fuel dp s) (elim (Option-cases first) [
          | inl e ↦ rw e refl
          | inr (name, e) ↦ rw e (entries_fit fuel dp name t)
        ])
    serve_path_fits q s = ground arith

    link_fits : (s : Globals os.World) → zero_or_error (replace_by_link os cfg path s).0 ≡ true
    unfolding replace_by_link
    link_fits s = ground arith

    metadata_fits :
        (st : Stat) (s : Globals os.World) → all_fit (write_metadata os cfg path st s).0 ≡ true
    unfolding write_metadata
    metadata_fits st s = ground arith

    move_fits :
        (st : Stat) (s : Globals os.World) → zero_or_error (move_to_cloud os cfg path st s).0 ≡ true
    unfolding move_to_cloud
    move_fits st s =
        let s1 = (s3_cloudfs_put os cfg path s).1 in
        let s2 = (write_metadata os cfg path st s1).1 in
        grind (arith, metadata_fits st s1, link_fits s2)

    release_file_fits :
        (fh : Fh) (s : Globals os.World) → zero_or_error (release_file os cfg path fh s).0 ≡ true
    unfolding release_file
    release_file_fits fh s = grind (arith, link_fits, move_fits)

    release_fits :
        (fh : Fh) (s : Globals os.World) → zero_or_error (cloudfs_release os cfg path fh s).0 ≡ true
    unfolding cloudfs_release
    release_fits fh s = release_file_fits fh s

    file_fits :
        (i bad_fd : ℕ) (fh : Fh) (q : FileRequest) (s : Globals os.World)
        → returns_count (on_handle path i q) ≡ false
        → fits (some (serve_file os cfg path bad_fd fh q s).0.0) ≡ true
    unfolding serve_file cloudfs_flush cloudfs_fgetattr
    file_fits i bad_fd fh (do_read size offset) s h = absurd (cc)
    file_fits i bad_fd fh (do_write buf offset) s h = absurd (cc)
    file_fits i bad_fd fh do_flush s h = ground arith
    file_fits i bad_fd fh do_fgetattr s h = ground arith
    file_fits i bad_fd fh do_release s h = release_fits fh s

    live_fits :
        (i bad_fd : ℕ) (fh : Option Fh) (q : FileRequest) (m : Mount os.World)
        → returns_count (on_handle path i q) ≡ false
        → fits (on_live os cfg path i bad_fd fh q m).0 ≡ true
    live_fits i bad_fd none q m h = refl
    live_fits i bad_fd (some fh) q m h = file_fits i bad_fd fh q m.globals h

  module _ (cfg : Config) (bad_fd : ℕ) where
    -- Whatever the system answers, the reply to any request but a read and a write on a handle is
    -- 0 or the negative of an error number, if there is one; and the reply to an open or an
    -- opendir has a handle exactly if it is 0.
    pub serve_lem :
        (q : Request) (m : Mount os.World)
        → returns_count q ≡ false
        → fits (serve os cfg bad_fd q m).0 ≡ true
    unfolding serve cloudfs_open
    serve_lem (on_path path q) m h = serve_path_fits cfg path q m.globals
    serve_lem (do_open path flags) m h = ground arith
    serve_lem (on_handle path i q) m h = live_fits cfg path i bad_fd (m.handles i) q m h
