-- ===== src/Fs/Recorder/Quiet.antt =====
-- Of the handlers of cloudfs/cloudfs.c, only open and release call the lock service or change `skip`.
use cloudfs.Base.{arith, inl, inr, Option-cases}
use cloudfs.Base.{
  ℕ, zero, suc, ◌≡◌, refl, ◌∙◌, Bool, true, false, Option, none, some, List, [], ◌∷◌,
}
use cloudfs.Fs.Names.{FilePath, Config, get_absolute_path}
use cloudfs.Fs.Os.{Os, Stat}
use cloudfs.Fs.Cloud.{
  get_object_data_callback, get_pieces, cloud_get_object, put_object_data_callback, put_pieces,
  cloud_put_object, cloud_delete_object, put_from, s3_cloudfs_put, s3_cloudfs_get, s3_delete,
}
use cloudfs.Fs.Files.{
  Fh, write_metadata, replace_by_link, move_to_cloud, release_file, cloudfs_unlink, cloudfs_mknod,
  cloudfs_truncate, cloudfs_read, cloudfs_write, cloudfs_flush,
}
use cloudfs.Fs.Recorder.{Recorded, recording, lock_view}
use cloudfs.Fs.Attrs.{
  cloudfs_getattr, cloudfs_fgetattr, cloudfs_getxattr, cloudfs_access, cloudfs_utimens,
  cloudfs_setxattr, cloudfs_listxattr, cloudfs_removexattr, cloudfs_rename, cloudfs_readlink,
  cloudfs_symlink, cloudfs_link, cloudfs_chmod, cloudfs_chown, cloudfs_statfs, cloudfs_fsync,
  cloudfs_ftruncate,
}
use cloudfs.Fs.Dirs.{
  fill_entries, cloudfs_readdir, cloudfs_releasedir, cloudfs_opendir, cloudfs_mkdir, cloudfs_rmdir,
}
use cloudfs.Fs.Requests.{
  with_fuel, FileRequest, do_release, do_read, do_write, do_flush, do_fgetattr, PathRequest,
  do_unlink, do_readdir, serve_path, serve_file,
}
use cloudfs.Fs.State.{Globals, Ret}
use cloudfs.Fs.State.Keeps.{Keeps, if-Keeps, either-Keeps}

abbrev pub is_release : FileRequest → Bool
is_release (do_read size offset) = false
is_release (do_write buf offset) = false
is_release do_flush = false
is_release do_fgetattr = false
is_release do_release = true

module _ (os : Os) where
  get_pieces-Keeps :
      (f : Option ℕ) (pieces : List (List ℕ)) → Keeps lock_view (get_pieces (recording os) f pieces)
  unfolding get_pieces get_object_data_callback
  get_pieces-Keeps f [] s = refl
  get_pieces-Keeps f (piece ∷ pieces) s =
      either-Keeps lock_view _ _ _ (lock_view s) (get_pieces-Keeps f pieces _) refl

  callback-Keeps :
      (f : Option ℕ) (n size : ℕ)
      → Keeps lock_view (put_object_data_callback (recording os) f n size)
  unfolding put_object_data_callback
  callback-Keeps f n size = if-Keeps lock_view _ _ _ (λ t. refl) (λ t. refl)

  put_pieces-Keeps :
      (f : Option ℕ) (sizes : List ℕ) (n : ℕ)
      → Keeps lock_view (put_pieces (recording os) f n sizes)
  unfolding put_pieces
  put_pieces-Keeps f [] n s = refl
  put_pieces-Keeps f (size ∷ sizes) n s =
      let piece : lock_view (put_object_data_callback (recording os) f n size s).1 ≡ lock_view s =
        callback-Keeps f n size s in
      either-Keeps lock_view _ _ _ (lock_view s) piece (put_pieces-Keeps f sizes _ _ ∙ piece)

  module _ (cfg : Config) (path : FilePath) where
    pub s3_cloudfs_get-Keeps : Keeps lock_view (s3_cloudfs_get (recording os) cfg path)
    unfolding s3_cloudfs_get cloud_get_object
    s3_cloudfs_get-Keeps s = get_pieces-Keeps _ _ _

    put_from-Keeps : (f : Option ℕ) → Keeps lock_view (put_from (recording os) cfg path f)
    unfolding put_from cloud_put_object
    put_from-Keeps none s = refl
    put_from-Keeps (some f) s = put_pieces-Keeps (some f) _ _ _

    s3_cloudfs_put-Keeps : Keeps lock_view (s3_cloudfs_put (recording os) cfg path)
    unfolding s3_cloudfs_put
    s3_cloudfs_put-Keeps s = put_from-Keeps _ _

    s3_delete-Keeps : Keeps lock_view (s3_delete (recording os) cfg path)
    unfolding s3_delete cloud_delete_object
    s3_delete-Keeps s = refl

    write_metadata-Keeps : (st : Stat) → Keeps lock_view (write_metadata (recording os) cfg path st)
    unfolding write_metadata
    write_metadata-Keeps st s = ground arith

    replace_by_link-Keeps : Keeps lock_view (replace_by_link (recording os) cfg path)
    unfolding replace_by_link
    replace_by_link-Keeps s = ground arith

    move_to_cloud-Keeps : (st : Stat) → Keeps lock_view (move_to_cloud (recording os) cfg path st)
    unfolding move_to_cloud
    move_to_cloud-Keeps st s = ground (
      arith,
      s3_cloudfs_put-Keeps s,
      write_metadata-Keeps st (s3_cloudfs_put (recording os) cfg path s).1,
      replace_by_link-Keeps
          (write_metadata (recording os) cfg path st
            (s3_cloudfs_put (recording os) cfg path s).1).1,
    )

    pub release_file-Keeps : (fh : Fh) → Keeps lock_view (release_file (recording os) cfg path fh)
    unfolding release_file
    release_file-Keeps fh s =
        let (r, w) = (recording os).lstat (get_absolute_path cfg path) s.world in
        let t : Globals (Recorded os.World) = record s { world = w } in
        elim (Option-cases r) [
          | inl e ↦ rw e refl
          | inr (st, e) ↦
              rw e (
                ground
                  (arith, move_to_cloud-Keeps st t, replace_by_link-Keeps t, s3_delete-Keeps t))
        ]

    pub cloudfs_unlink-Keeps : Keeps lock_view (cloudfs_unlink (recording os) cfg path)
    unfolding cloudfs_unlink s3_delete cloud_delete_object
    cloudfs_unlink-Keeps s = ground arith

  fill_entries-Keeps :
      (fuel dp : ℕ) (name : FilePath) → Keeps lock_view (fill_entries (recording os) fuel dp name)
  unfolding fill_entries
  fill_entries-Keeps zero dp name s = refl
  fill_entries-Keeps (suc fuel) dp name s = grind (arith, fill_entries-Keeps fuel dp)

  with_fuel-view :
      (r : Option Ret × Globals (Recorded os.World)) → lock_view (with_fuel r).1 ≡ lock_view r.1
  with_fuel-view (none, s) = refl
  with_fuel-view (some r, s) = refl

  module _ (cfg : Config) (path : FilePath) where
    pub serve_path-Keeps :
        (q : PathRequest) (s : Globals (Recorded os.World))
        → lock_view (serve_path (recording os) cfg path q s).1 ≡ lock_view s
    unfolding serve_path cloudfs_getattr cloudfs_rmdir cloudfs_opendir cloudfs_setxattr
        cloudfs_listxattr cloudfs_removexattr cloudfs_readlink cloudfs_statfs cloudfs_fsync
        cloudfs_mkdir cloudfs_truncate cloudfs_access cloudfs_utimens cloudfs_releasedir
        cloudfs_chmod cloudfs_ftruncate cloudfs_mknod cloudfs_readdir cloudfs_chown cloudfs_getxattr
        cloudfs_rename cloudfs_symlink cloudfs_link
    serve_path-Keeps do_unlink s = cloudfs_unlink-Keeps cfg path s
    serve_path-Keeps (do_readdir fuel dp) s =
        let (first, w) = (recording os).readdir dp s.world in
        let t : Globals (Recorded os.World) = record s { world = w } in
        with_fuel-view (cloudfs_readdir (recording os) fuel dp s) ∙ elim (Option-cases first) [
          | inl e ↦ rw e refl
          | inr (name, e) ↦ rw e (fill_entries-Keeps fuel dp name t)
        ]
    serve_path-Keeps q s = ground arith

    -- Any request on a handle but a release.
    pub serve_file-Keeps :
        (bad_fd : ℕ) (fh : Fh) (q : FileRequest) (s : Globals (Recorded os.World))
        → is_release q ≡ false
        → lock_view (serve_file (recording os) cfg path bad_fd fh q s).1 ≡ lock_view s
    unfolding serve_file cloudfs_read cloudfs_write cloudfs_flush cloudfs_fgetattr
    serve_file-Keeps bad_fd fh do_release s h = absurd (cc)
    serve_file-Keeps bad_fd fh q s h = ground arith
