-- ===== src/Fs/Files/Lost.antt =====
-- `cloudfs_release` of cloudfs/cloudfs.c while the object store cannot be reached: the status of the
-- put is dropped on the way from `cloud_put_object` through `s3_cloudfs_put`.
use mathlib.Core.Path.{subst}
use cloudfs.Base.{
  ℕ, zero, suc, ◌-◌, ◌<◌, ◌≡◌, refl, sym, ap, ◌∙◌, bit_and, true, false, not, ◌&&◌, Option, some,
  List, [], ◌∷◌, length,
}
use cloudfs.Fs.Names.{
  FilePath, Key, Config, same_name, get_key, get_absolute_path, get_metadata_path,
}
use cloudfs.Fs.Os.{Os, Stat, failed}
use cloudfs.Fs.State.{Globals, ok}
use cloudfs.Fs.Disk.{Disk, regular, saved, link, put_node, stat_of}
use cloudfs.Fs.Disk.Updates.{at-other}
use cloudfs.Fs.Laws.{IsReliable, IsFree, o_trunc, CanRead}
use cloudfs.Fs.Lock.{release_loop, release_lock_wrapper}
use cloudfs.Fs.Lock.Keeps.{release_lock_wrapper-keeps}
use cloudfs.Fs.Cloud.{
  put_object_data_callback, put_pieces, cloud_put_object, put_from, s3_cloudfs_put,
}
use cloudfs.Fs.Cloud.Pieces.{put_pieces_lem}
use cloudfs.Fs.Files.{Fh, write_metadata, replace_by_link, cloudfs_release}
use cloudfs.Fs.Files.Archive.{write_metadata_lem, replace_by_link_lem, moving, releasing, finishing}
use cloudfs.Fs.Files.Open.{bytes_of}
use cloudfs.Fs.Files.Reading.{Reads, Reads-object}

-- The system with a store that refuses every put, with the status numbered `code`.
abbrev pub unreachable : Os → ℕ → Os
unreachable os code = record os { s3_put_object = λ k n bytes w. (failed code, w) }

module _ (os : Os) (code : ℕ) where
  same_pieces :
      (f : Option ℕ) (n : ℕ) (sizes : List ℕ) (s : Globals os.World)
      → put_pieces (unreachable os code) f n sizes s ≡ put_pieces os f n sizes s
  unfolding put_pieces put_object_data_callback
  same_pieces f n [] s = refl
  same_pieces f n (size ∷ sizes) s =
      let (piece, s') = put_object_data_callback os f n size s in
      rw (same_pieces f (n - length piece) sizes s') refl

  same_loop :
      (path : FilePath) (left result : ℕ) (s : Globals os.World)
      → release_loop (unreachable os code) path left result s ≡ release_loop os path left result s
  unfolding release_loop
  same_loop path zero result s = refl
  same_loop path (suc left) result s = rw (same_loop path left) refl

  same_unlock :
      (path : FilePath) (s : Globals os.World)
      → release_lock_wrapper (unreachable os code) path s ≡ release_lock_wrapper os path s
  unfolding release_lock_wrapper
  same_unlock path s = rw (same_loop path) refl

  module _ (cfg : Config) (path : FilePath) (s : Globals os.World) where
    same_record :
        (st : Stat)
        → write_metadata (unreachable os code) cfg path st s ≡ write_metadata os cfg path st s
    unfolding write_metadata
    same_record st = refl

    same_link : replace_by_link (unreachable os code) cfg path s ≡ replace_by_link os cfg path s
    unfolding replace_by_link
    same_link = refl

    after_pieces :
        (k : Key) (n f : ℕ) (bytes : List ℕ) (w1 : os.World)
        → put_pieces (unreachable os code) (some f) n (os.s3_put_sizes k n s.world) s
          ≡ (bytes, record s { world = w1 })
        → cloud_put_object (unreachable os code) k n (some f) s
          ≡ (failed code, record s { world = w1; status_g = failed code })
    unfolding cloud_put_object
    after_pieces k n f bytes w1 e = rw e refl

    after_put :
        (st : Stat) (f : ℕ) (s3 : Globals os.World) (w1 w2 : os.World)
        → os.fopen_read (get_absolute_path cfg path) s.world ≡ (some f, w1)
        → os.lstat (get_absolute_path cfg path) w1 ≡ (some st, w2)
        → cloud_put_object
            (unreachable os code)
            (get_key path)
            st.st_size
            (some f)
            (record s { world = w2 })
          ≡ (failed code, s3)
        → s3_cloudfs_put (unreachable os code) cfg path s
          ≡ (true, record s3 { world = os.fclose (some f) s3.world })
    unfolding s3_cloudfs_put put_from
    after_put st f s3 w1 w2 e1 e2 e3 = rw (e1, e2, e3) refl

-- The disk without a new object: only the record and the link.
abbrev pub linked : Config → FilePath → Stat → Disk → Disk
linked cfg path st d =
    put_node (get_absolute_path cfg path) (some (link (get_metadata_path cfg path)))
      (put_node (get_metadata_path cfg path) (some (saved st)) d)

module _ (os : Os) (rel : IsReliable os) (code : ℕ) (cfg : Config) (path : FilePath) where
  put_fails :
      (s : Globals os.World) (bytes : List ℕ) (o : ℕ)
      → (rel.disk s.world).node (get_absolute_path cfg path) ≡ some (regular bytes o)
      → (s' : Globals os.World) × (s3_cloudfs_put (unreachable os code) cfg path s ≡ (true, s'))
        × (rel.disk s'.world ≡ rel.disk s.world)
  put_fails s bytes o h =
      let p = get_absolute_path cfg path in
      let key = get_key path in
      let n = length bytes in
      let (f, w1, e1, d1, u1) = rel.fopen_regular s.world p bytes o h in
      let (w2, e2, d2, u2) = rel.lstat_regular w1 p bytes o (ap (λ d. d.node p) d1 ∙ h) in
      let t : Globals os.World = record s { world = w2 } in
      let sizes = rel.put_sizes w2 key n in
      let (w3, e3, d3) =
        put_pieces_lem os rel f n (os.s3_put_sizes key n w2) t sizes.0 sizes.1
          (ap length (ap (λ u. u f) u2 ∙ u1)) in
      (
        _,
        after_put os code cfg path s (stat_of bytes o) f _ w1 w2 e1 e2 (
            after_pieces os code cfg path t key n f _ w3 (same_pieces os code (some f) n _ t ∙ e3)),
        rel.fclose_keeps w3 f ∙ d3 ∙ d2 ∙ d1,
      )

  module _ (apart : same_name (get_metadata_path cfg path) (get_absolute_path cfg path) ≡ false)
      (s : Globals os.World) (fh : Fh) (bytes : List ℕ) (o : ℕ)
      (there : (rel.disk s.world).node (get_absolute_path cfg path) ≡ some (regular bytes o))
      (free : IsFree (get_metadata_path cfg path) (rel.disk s.world))
      (sends : (fh.proxy && not fh.dirty) ≡ false) (large : cfg.threshold < length bytes) where
    release_fails :
        (s' : Globals os.World) × (cloudfs_release (unreachable os code) cfg path fh s ≡ (ok 0, s'))
        × (rel.disk s'.world ≡ linked cfg path (stat_of bytes o) (rel.disk s.world))
    release_fails =
        let local = get_absolute_path cfg path in
        let meta = get_metadata_path cfg path in
        let st = stat_of bytes o in
        let d = rel.disk s.world in
        let (w1, e1, d1, u1) = rel.lstat_regular s.world local bytes o there in
        let t : Globals os.World = record s { world = w1 } in
        let (s1, e2, d2) = put_fails t bytes o (ap (λ e. e.node local) d1 ∙ there) in
        let d2' = d2 ∙ d1 in
        let (s2, e3, d3) =
          write_metadata_lem os rel cfg path s1 st (subst (IsFree meta) (sym d2') free) in
        let d3' = d3 ∙ ap (put_node meta (some (saved st))) d2' in
        let (s3, e4, d4) =
          replace_by_link_lem os rel cfg path s2 (regular bytes o)
            (ap (λ e. e.node local) d3' ∙ at-other meta _ d.node local apart ∙ there) in
        let os' = unreachable os code in
        (
          _,
          finishing os' cfg path s fh s3 (
              releasing os' cfg path s fh st w1 s3 e1 sends large (
                moving os' cfg path t st s1 s2 s3 e2 (same_record os code cfg path s1 st ∙ e3)
                  (same_link os code cfg path s2 ∙ e4))),
          rel.close_keeps _ fh.fd
              ∙ ap (λ r. rel.disk r.1.world) (same_unlock os code path s3)
              ∙ release_lock_wrapper-keeps os rel path s3
              ∙ d4
              ∙ ap (put_node local _) d3',
        )

    -- On a system whose calls have their documented effects (IsReliable), but for puts into the
    -- store, which all fail with one status and change nothing (unreachable): let the local file
    -- of a path be a regular file above the threshold, its metadata path be another path, in a
    -- directory that exists, that is free or holds a regular file or a record, and the handle be
    -- of a file that is not from the cloud or is dirty. Then `cloudfs_release` returns 0; and an
    -- open for reading without O_TRUNC after it and a `cloudfs_read`, on the system of which all
    -- calls have their effects, give at any offset the bytes of the object as it was before, or of
    -- an empty file if there was none.
    pub cloudfs_read-unreachable :
        (flags size offset : ℕ)
        → bit_and flags o_trunc ≡ 0
        → CanRead flags
        → (s' : Globals os.World) × (cloudfs_release (unreachable os code) cfg path fh s
            ≡ (ok 0, s'))
          × Reads os rel cfg path apart s' flags size offset
              (bytes_of ((rel.disk s.world).object (get_key path)))
    cloudfs_read-unreachable flags size offset t can =
        let (s1, e1, d1) = release_fails in
        (
          s1,
          e1,
          Reads-object os rel cfg path apart s1 flags size offset _
              (ap (λ e. e.room (get_absolute_path cfg path)) d1
                ∙ rel.held_room s.world (get_absolute_path cfg path) (regular bytes o) there)
              (ap (λ e. e.object (get_key path)) d1) t can,
        )
