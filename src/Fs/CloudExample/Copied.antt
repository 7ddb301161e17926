-- ===== src/Fs/CloudExample/Copied.antt =====
-- What cloud-lib/cloud-example.c leaves behind.
use cloudfs.Base.{ℕ, suc, ◌≡◌, refl, ap, ◌∙◌, true, none, some, List, []}
use cloudfs.Fs.Os.{Os, Stat, Status, status_ok}
use cloudfs.Fs.State.{Globals}
use cloudfs.Fs.Disk.{regular, put_node, put_object, stat_of}
use cloudfs.Fs.Disk.Updates.{at-at, at-same, put_node-put_node}
use cloudfs.Fs.Laws.{IsReliable}
use cloudfs.Fs.Cloud.Get.{get_pieces_lem}
use cloudfs.Fs.Cloud.Put.{cloud_put_object_lem}
use cloudfs.Fs.Cloud.{get_pieces, cloud_put_object, cloud_get_object, cloud_delete_object}
use cloudfs.Fs.Buckets.{
  Text, BucketCalls, cloud_init, cloud_create_bucket, cloud_delete_bucket, cloud_list_service,
  cloud_list_bucket,
}
use cloudfs.Fs.CloudExample.{
  test_hostname, test_bucket, hello_world, readme, readme_copy, put_input, get_output, test,
}
use cloudfs.Fs.CloudExample.Store.{IsSmallStore, service_disk, listing_disk}

module _ (os : Os) (s : Globals os.World) where
  putting :
      (st : Stat) (f : ℕ) (code : Status) (w1 : os.World) (s2 : Globals os.World)
      → os.lstat readme s.world ≡ (some st, w1)
      → cloud_put_object os hello_world st.st_size (some f) (record s { world = w1 }) ≡ (code, s2)
      → put_input os f s ≡ (tt, record s2 { world = os.fclose (some f) s2.world })
  unfolding put_input
  putting st f code w1 s2 e1 e2 = rw (e1, e2) refl

  getting :
      (f : ℕ) (pieces : List (List ℕ)) (code : Status) (w1 w2 w3 : os.World)
      → os.fopen_write readme_copy s.world ≡ (some f, w1)
      → os.s3_get_object hello_world w1 ≡ ((pieces, code), w2)
      → get_pieces os (some f) pieces (record s { world = w2 }) ≡ (true, record s { world = w3 })
      → get_output os s ≡ (tt, record s { world = os.fclose (some f) w3; status_g = code })
  unfolding get_output cloud_get_object
  getting f pieces code w1 w2 w3 e1 e2 e3 = rw (e1, e2, e3) refl

module _ (os : Os) (rel : IsReliable os) (s : Globals os.World) (bytes : List ℕ) where
  put_input_lem :
      (f o : ℕ)
      → rel.unread s.world f ≡ bytes
      → (rel.disk s.world).node readme ≡ some (regular bytes o)
      → (s' : Globals os.World) × (put_input os f s ≡ (tt, s'))
        × (rel.disk s'.world ≡ put_object hello_world (some bytes) (rel.disk s.world))
  put_input_lem f o unread there =
      let (w1, e1, d1, u1) = rel.lstat_regular s.world readme bytes o there in
      let (w2, e2, d2) =
        cloud_put_object_lem os rel hello_world f bytes (record s { world = w1 })
          (ap (λ u. u f) u1 ∙ unread) in
      (
        _,
        putting os s (stat_of bytes o) f status_ok w1 _ e1 e2,
        rel.fclose_keeps w2 f ∙ d2 ∙ ap (put_object hello_world (some bytes)) d1,
      )

  get_output_lem :
      (rel.disk s.world).room readme_copy ≡ true
      → (rel.disk s.world).node readme_copy ≡ none
      → (rel.disk s.world).object hello_world ≡ some bytes
      → (o : ℕ) × (s' : Globals os.World) × (get_output os s ≡ (tt, s'))
        × (rel.disk s'.world ≡ put_node readme_copy (some (regular bytes o)) (rel.disk s.world))
  get_output_lem room gone there =
      let d = rel.disk s.world in
      let (f, o, w1, e1, d1, q1) = rel.fopen_new s.world readme_copy room gone in
      let (pieces, w2, e2, b2, d2, q2) =
        rel.get_found w1 hello_world bytes (ap (λ e. e.object hello_world) d1 ∙ there) in
      let (o3, w3, e3, d3) =
        get_pieces_lem os rel readme_copy f o [] pieces (record s { world = w2 })
          (ap (λ g. g f) q2 ∙ q1)
          (ap (λ e. e.node readme_copy) (d2 ∙ d1) ∙ at-same readme_copy _ d.node) in
      (
        o3,
        _,
        getting os s f pieces status_ok w1 w2 w3 e1 e2 e3,
        rel.fclose_keeps w3 f
            ∙ d3
            ∙ ap (put_node readme_copy _) (d2 ∙ d1)
            ∙ put_node-put_node readme_copy _ d _
            ∙ ap (λ b. put_node readme_copy (some (regular b o3)) d) b2,
      )

module _ (os : Os) (s3 : BucketCalls os.World) (deinitialize : os.World → os.World)
    (s : Globals os.World) where
  -- The state before the input is opened, and that after the last listing of the bucket.
  abbrev begun : Globals os.World
  begun =
      let s1 = (cloud_init os s3 test_hostname s).1 in
      let s2 = (cloud_list_service os s3 s1).1 in
      let s3' = (cloud_create_bucket os s3 test_bucket s2).1 in (cloud_list_service os s3 s3').1

  abbrev finished : Globals os.World
  finished =
      let s1 = (cloud_list_service os s3 (cloud_delete_bucket os s3 test_bucket s).1).1 in
      record s1 { world = deinitialize s1.world }

module _ (os : Os) (s3 : BucketCalls os.World) (deinitialize : os.World → os.World)
    (s : Globals os.World) where
  test_by :
      (fuel f : ℕ) (null_text : Text) (code code' : Status) (w5 : os.World)
      (s6 s7 s8 s10 : Globals os.World)
      → os.fopen_read readme (begun os s3 deinitialize s).world ≡ (some f, w5)
      → put_input os f (record (begun os s3 deinitialize s) { world = w5 }) ≡ (tt, s6)
      → cloud_list_bucket os s3 fuel test_bucket null_text s6 ≡ (some code, s7)
      → get_output os s7 ≡ (tt, s8)
      → cloud_list_bucket os s3 fuel test_bucket null_text (cloud_delete_object os hello_world s8).1
        ≡ (some code', s10)
      → test os s3 deinitialize fuel null_text s ≡ (some 0, finished os s3 deinitialize s10)
  unfolding test
  test_by fuel f null_text code code' w5 s6 s7 s8 s10 e1 e2 e3 e4 e5 = rw (e1, e2, e3, e4, e5) refl

module _ (os : Os) (rel : IsReliable os) (s3 : BucketCalls os.World)
    (deinitialize : os.World → os.World) (small : IsSmallStore os rel s3 deinitialize)
    (s : Globals os.World) where
  begun_disk : rel.disk (begun os s3 deinitialize s).world ≡ rel.disk s.world
  unfolding cloud_init cloud_create_bucket
  begun_disk =
      service_disk os rel s3 deinitialize small _
      ∙ small.created test_bucket _
      ∙ service_disk os rel s3 deinitialize small _
      ∙ small.initialized test_hostname s.world

  finished_disk : rel.disk (finished os s3 deinitialize s).world ≡ rel.disk s.world
  unfolding cloud_delete_bucket
  finished_disk =
      small.ended _
      ∙ service_disk os rel s3 deinitialize small _
      ∙ small.deleted test_bucket s.world

  removing :
      rel.disk (cloud_delete_object os hello_world s).1.world
      ≡ put_object hello_world none (rel.disk s.world)
  unfolding cloud_delete_object
  removing =
      let (code, w1, e, d) = rel.delete_any s.world hello_world in ap (λ r. rel.disk r.1) e ∙ d

module _ (os : Os) (rel : IsReliable os) (s3 : BucketCalls os.World)
    (deinitialize : os.World → os.World) (small : IsSmallStore os rel s3 deinitialize)
    (s : Globals os.World) where
  -- On a system whose calls have their documented effects (IsReliable) and a store whose requests
  -- on buckets leave files and objects alone and cut no listing (IsSmallStore): if ./README is a
  -- regular file and /tmp/README is not there but can be made (there is /tmp), `test` of
  -- cloud-example.c on any fuel but 0 returns 0, and then /tmp/README is a regular file with the
  -- bytes of ./README, there is no object helloworld, and nothing else stored has changed.
  pub test_lem :
      (fuel : ℕ) (null_text : Text) (bytes : List ℕ) (o : ℕ)
      → (rel.disk s.world).node readme ≡ some (regular bytes o)
      → (rel.disk s.world).room readme_copy ≡ true
      → (rel.disk s.world).node readme_copy ≡ none
      → (o' : ℕ) × (s' : Globals os.World) × (test os s3 deinitialize (suc fuel) null_text s
          ≡ (some 0, s'))
        × (rel.disk s'.world
            ≡ put_object hello_world none
                (put_node readme_copy (some (regular bytes o')) (rel.disk s.world)))
  test_lem fuel null_text bytes o there room gone =
      let d = rel.disk s.world in
      let s4 = begun os s3 deinitialize s in
      let d4 = begun_disk os rel s3 deinitialize small s in
      let (f, w5, e5, d5, u5) =
        rel.fopen_regular s4.world readme bytes o (ap (λ e. e.node readme) d4 ∙ there) in
      let (s6, e6, d6) =
        put_input_lem os rel (record s4 { world = w5 }) bytes f o u5
          (ap (λ e. e.node readme) (d5 ∙ d4) ∙ there) in
      let (code, s7, e7, d7) =
        listing_disk os rel s3 deinitialize small fuel test_bucket null_text s6 in
      let d7' : rel.disk s7.world ≡ put_object hello_world (some bytes) d =
        d7 ∙ d6 ∙ ap (put_object hello_world (some bytes)) (d5 ∙ d4) in
      let (o', s8, e8, d8) =
        get_output_lem os rel s7 bytes (ap (λ e. e.room readme_copy) d7' ∙ room)
          (ap (λ e. e.node readme_copy) d7' ∙ gone)
          (ap (λ e. e.object hello_world) d7' ∙ at-same hello_world _ d.object) in
      let s9 = (cloud_delete_object os hello_world s8).1 in
      let (code', s10, e10, d10) =
        listing_disk os rel s3 deinitialize small fuel test_bucket null_text s9 in
      let copied = put_node readme_copy (some (regular bytes o')) d in
      (
        o',
        finished os s3 deinitialize s10,
        test_by os s3 deinitialize s (suc fuel) f null_text code code' w5 s6 s7 s8 s10 e5 e6 e7 e8
            e10,
        finished_disk os rel s3 deinitialize small s10
            ∙ d10
            ∙ removing os rel s3 deinitialize small s8
            ∙ ap (put_object hello_world none)
                (d8 ∙ ap (put_node readme_copy (some (regular bytes o'))) d7')
            ∙ ap (λ g. record copied { object = g }) (at-at hello_world none d.object (some bytes)),
      )
