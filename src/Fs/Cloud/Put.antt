-- ===== src/Fs/Cloud/Put.antt =====
-- `s3_cloudfs_put` of cloudfs/s3_cloudfs.c makes the object of a file its content.
use cloudfs.Base.{ℕ, ◌≡◌, refl, ap, ◌∙◌, true, some, List, length}
use cloudfs.Fs.Names.{FilePath, Key, Config, get_key, get_absolute_path}
use cloudfs.Fs.Os.{Os, Stat, status_ok}
use cloudfs.Fs.State.{Globals}
use cloudfs.Fs.Disk.{regular, put_object}
use cloudfs.Fs.Laws.{IsReliable}
use cloudfs.Fs.Cloud.{put_pieces, cloud_put_object, s3_cloudfs_put, put_from}
use cloudfs.Fs.Cloud.Pieces.{put_pieces_lem}

module _ (os : Os) where
  after_pieces :
      (k : Key) (n f : ℕ) (bytes : List ℕ) (s : Globals os.World) (w1 w2 : os.World)
      → put_pieces os (some f) n (os.s3_put_sizes k n s.world) s ≡ (bytes, record s { world = w1 })
      → os.s3_put_object k n bytes w1 ≡ (status_ok, w2)
      → cloud_put_object os k n (some f) s
        ≡ (status_ok, record s { world = w2; status_g = status_ok })
  unfolding cloud_put_object
  after_pieces k n f bytes s w1 w2 e1 e2 = rw (e1, e2) refl

  after_put :
      (cfg : Config) (path : FilePath) (st : Stat) (f : ℕ) (s s3 : Globals os.World)
      (w1 w2 : os.World)
      → os.fopen_read (get_absolute_path cfg path) s.world ≡ (some f, w1)
      → os.lstat (get_absolute_path cfg path) w1 ≡ (some st, w2)
      → cloud_put_object os (get_key path) st.st_size (some f) (record s { world = w2 })
        ≡ (status_ok, s3)
      → s3_cloudfs_put os cfg path s ≡ (true, record s3 { world = os.fclose (some f) s3.world })
  unfolding s3_cloudfs_put put_from
  after_put cfg path st f s s3 w1 w2 e1 e2 e3 = rw (e1, e2, e3) refl

module _ (os : Os) (rel : IsReliable os) where
  pub cloud_put_object_lem :
      (k : Key) (f : ℕ) (bytes : List ℕ) (s : Globals os.World)
      → rel.unread s.world f ≡ bytes
      → (w' : os.World) × (cloud_put_object os k (length bytes) (some f) s
          ≡ (status_ok, record s { world = w'; status_g = status_ok }))
        × (rel.disk w' ≡ put_object k (some bytes) (rel.disk s.world))
  cloud_put_object_lem k f bytes s u =
      let n = length bytes in
      let sizes = rel.put_sizes s.world k n in
      let (w1, e1, d1) =
        put_pieces_lem os rel f n (os.s3_put_sizes k n s.world) s sizes.0 sizes.1 (ap length u) in
      let (w2, e2, d2) = rel.put_all w1 k bytes in
      (
        w2,
        after_pieces os k n f bytes s w1 w2 (e1 ∙ ap (λ z. (z, record s { world = w1 })) u) e2,
        d2 ∙ ap (put_object k (some bytes)) d1,
      )

  pub s3_cloudfs_put_lem :
      (cfg : Config) (path : FilePath) (bytes : List ℕ) (o : ℕ) (s : Globals os.World)
      → (rel.disk s.world).node (get_absolute_path cfg path) ≡ some (regular bytes o)
      → (w' : os.World) × (s3_cloudfs_put os cfg path s
          ≡ (true, record s { world = w'; status_g = status_ok }))
        × (rel.disk w' ≡ put_object (get_key path) (some bytes) (rel.disk s.world))
  s3_cloudfs_put_lem cfg path bytes o s h =
      let p = get_absolute_path cfg path in
      let (f, w1, e1, d1, u1) = rel.fopen_regular s.world p bytes o h in
      let (w2, e2, d2, u2) = rel.lstat_regular w1 p bytes o (ap (λ d. d.node p) d1 ∙ h) in
      let (w3, e3, d3) =
        cloud_put_object_lem (get_key path) f bytes (record s { world = w2 })
          (ap (λ u. u f) u2 ∙ u1) in
      (
        os.fclose (some f) w3,
        after_put os cfg path _ f s _ w1 w2 e1 e2 e3,
        rel.fclose_keeps w3 f ∙ d3 ∙ ap (put_object (get_key path) (some bytes)) (d2 ∙ d1),
      )
