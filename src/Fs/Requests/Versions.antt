-- ===== src/Fs/Requests/Versions.antt =====
-- Of the handlers of cloudfs/cloudfs.c, only `cloudfs_open` changes `version`.
use cloudfs.Base.{◌+◌, u32, arith, inl, inr, Option-cases}
use cloudfs.Base.{ℕ, zero, suc, ◌≡◌, refl, ◌∙◌, Option, none, some, List, [], ◌∷◌}
use cloudfs.Fs.Names.{FilePath, Config, get_absolute_path}
use cloudfs.Fs.Os.{Os, Call, Stat}
use cloudfs.Fs.Lock.{
  maxblock, acquire_loop, acquire_lock_wrapper, release_loop, release_lock_wrapper,
}
use cloudfs.Fs.Cloud.{
  get_object_data_callback, get_pieces, cloud_get_object, put_object_data_callback, put_pieces,
  cloud_put_object, cloud_delete_object, put_from, s3_cloudfs_put, s3_cloudfs_get, s3_delete,
}
use cloudfs.Fs.Files.{
  Fh, write_metadata, replace_by_link, move_to_cloud, release_file, cloudfs_release, cloudfs_open,
  cloudfs_unlink,
}
use cloudfs.Fs.State.{Globals, zero_or_errno}
use cloudfs.Fs.State.Keeps.{Keeps, on-Keeps, if-Keeps, either-Keeps}

abbrev version_of : {W : Type 0} → Globals W → ℕ
version_of s = s.version

pub zero_or_errno-Keeps :
    (os : Os) (c : Call os.World (Unit {0})) → Keeps version_of (zero_or_errno os c)
zero_or_errno-Keeps os c s = on-Keeps version_of (c s.world).0 _ _ (λ t. refl) (λ a t. refl) _

module _ (os : Os) where
  get_pieces-Keeps :
      (f : Option ℕ) (pieces : List (List ℕ)) → Keeps version_of (get_pieces os f pieces)
  unfolding get_pieces get_object_data_callback
  get_pieces-Keeps f [] s = refl
  get_pieces-Keeps f (piece ∷ pieces) s =
      either-Keeps version_of _ _ _ s.version (get_pieces-Keeps f pieces _) refl

  callback-Keeps :
      (f : Option ℕ) (n size : ℕ) → Keeps version_of (put_object_data_callback os f n size)
  unfolding put_object_data_callback
  callback-Keeps f n size = if-Keeps version_of _ _ _ (λ t. refl) (λ t. refl)

  put_pieces-Keeps :
      (f : Option ℕ) (sizes : List ℕ) (n : ℕ) → Keeps version_of (put_pieces os f n sizes)
  unfolding put_pieces
  put_pieces-Keeps f [] n s = refl
  put_pieces-Keeps f (size ∷ sizes) n s =
      let piece : (put_object_data_callback os f n size s).1.version ≡ s.version =
        callback-Keeps f n size s in
      either-Keeps version_of _ _ _ s.version piece (put_pieces-Keeps f sizes _ _ ∙ piece)

  release_loop-Keeps :
      (path : FilePath) (left result : ℕ) → Keeps version_of (release_loop os path left result)
  unfolding release_loop
  release_loop-Keeps path zero result s = refl
  release_loop-Keeps path (suc left) result s =
      either-Keeps version_of _ _ _ s.version refl (release_loop-Keeps path left _ _)

  release_lock_wrapper-Keeps : (path : FilePath) → Keeps version_of (release_lock_wrapper os path)
  unfolding release_lock_wrapper
  release_lock_wrapper-Keeps path s =
      either-Keeps version_of s.skip _ _ s.version refl (release_loop-Keeps path maxblock 0 s)

  acquire_loop-Keeps :
      (path : FilePath) (flags left result : ℕ)
      → Keeps version_of (acquire_loop os path flags left result)
  unfolding acquire_loop
  acquire_loop-Keeps path flags zero result s = refl
  acquire_loop-Keeps path flags (suc left) result s =
      either-Keeps version_of _ _ _ s.version refl (acquire_loop-Keeps path flags left _ _)

  module _ (cfg : Config) (path : FilePath) where
    acquire-Keeps : (flags : ℕ) → Keeps version_of (acquire_lock_wrapper os path flags)
    unfolding acquire_lock_wrapper
    acquire-Keeps flags s = acquire_loop-Keeps path flags maxblock 0 s

    s3_cloudfs_get-Keeps : Keeps version_of (s3_cloudfs_get os cfg path)
    unfolding s3_cloudfs_get cloud_get_object
    s3_cloudfs_get-Keeps s = get_pieces-Keeps _ _ _

    put_from-Keeps : (f : Option ℕ) → Keeps version_of (put_from os cfg path f)
    unfolding put_from cloud_put_object
    put_from-Keeps none s = refl
    put_from-Keeps (some f) s = put_pieces-Keeps (some f) _ _ _

    s3_cloudfs_put-Keeps : Keeps version_of (s3_cloudfs_put os cfg path)
    unfolding s3_cloudfs_put
    s3_cloudfs_put-Keeps s = put_from-Keeps _ _

    s3_delete-Keeps : Keeps version_of (s3_delete os cfg path)
    unfolding s3_delete cloud_delete_object
    s3_delete-Keeps s = refl

    write_metadata-Keeps : (st : Stat) → Keeps version_of (write_metadata os cfg path st)
    unfolding write_metadata
    write_metadata-Keeps st s = ground arith

    replace_by_link-Keeps : Keeps version_of (replace_by_link os cfg path)
    unfolding replace_by_link
    replace_by_link-Keeps s = ground arith

    move_to_cloud-Keeps : (st : Stat) → Keeps version_of (move_to_cloud os cfg path st)
    unfolding move_to_cloud
    move_to_cloud-Keeps st s = ground (
      arith,
      s3_cloudfs_put-Keeps s,
      write_metadata-Keeps st (s3_cloudfs_put os cfg path s).1,
      replace_by_link-Keeps (write_metadata os cfg path st (s3_cloudfs_put os cfg path s).1).1,
    )

    pub release_file-Keeps : (fh : Fh) → Keeps version_of (release_file os cfg path fh)
    unfolding release_file
    release_file-Keeps fh s =
        let (r, w) = os.lstat (get_absolute_path cfg path) s.world in
        let t : Globals os.World = record s { world = w } in
        elim (Option-cases r) [
          | inl e ↦ rw e refl
          | inr (st, e) ↦
              rw e (
                ground
                  (arith, move_to_cloud-Keeps st t, replace_by_link-Keeps t, s3_delete-Keeps t))
        ]

    pub cloudfs_release-Keeps : (fh : Fh) → Keeps version_of (cloudfs_release os cfg path fh)
    unfolding cloudfs_release
    cloudfs_release-Keeps fh s =
        release_lock_wrapper-Keeps path (release_file os cfg path fh s).1 ∙ release_file-Keeps fh s

    -- An open counts one up.
    pub cloudfs_open-version :
        (flags : ℕ) (s : Globals os.World)
        → (cloudfs_open os cfg path flags s).1.version ≡ u32 (s.version + 1)
    unfolding cloudfs_open
    cloudfs_open-version flags s = grind (arith, s3_cloudfs_get-Keeps, acquire-Keeps)

    pub cloudfs_unlink-Keeps : Keeps version_of (cloudfs_unlink os cfg path)
    unfolding cloudfs_unlink s3_delete cloud_delete_object
    cloudfs_unlink-Keeps s = ground arith
