-- ===== src/Fs/CloudExample/Store.antt =====
-- The requests on buckets that cloud-lib/cloud-example.c makes, where they leave files alone.
use cloudfs.Base.{
  ℕ, suc, ◌≡◌, refl, ◌∙◌, Bool, true, false, some, List, [], ◌∷◌, All, take, if◌then◌else◌,
}
use cloudfs.Fs.Os.{Os, Status}
use cloudfs.Fs.State.{Globals}
use cloudfs.Fs.Laws.{IsReliable}
use cloudfs.Fs.Cloud.{is_ok}
use cloudfs.Fs.Buckets.{
  Text, Content, Page, BucketCalls, cloud_list_service, cloud_list_bucket, list_bucket_callback,
  list_pages, fill_contents, list_services,
}

-- What the program relies on in the requests on buckets and in its own fillers, which print: they
-- leave files and objects alone, and a listing of few objects is not cut.
pub record IsSmallStore (os : Os) (rel : IsReliable os) (s3 : BucketCalls os.World)
    (deinitialize : os.World → os.World) : Type 0 where
  pub initialized :
      (hostname : Text) (w : os.World) → rel.disk (s3.initialize hostname w).1 ≡ rel.disk w
  pub created : (name : Text) (w : os.World) → rel.disk (s3.create name w).1 ≡ rel.disk w
  pub deleted : (name : Text) (w : os.World) → rel.disk (s3.delete name w).1 ≡ rel.disk w
  pub served : (w : os.World) → rel.disk (s3.service w).1 ≡ rel.disk w
  pub paged : (name marker : Text) (w : os.World) → rel.disk (s3.pages name marker w).1 ≡ rel.disk w
  pub uncut :
      (name marker : Text) (w : os.World)
      → All (λ page. page.is_truncated ≡ false) (s3.pages name marker w).0.0
  pub named : (name : Text) (w : os.World) → rel.disk (s3.service_filler name w) ≡ rel.disk w
  pub shown : (c : Content) (w : os.World) → rel.disk (s3.bucket_filler c w) ≡ rel.disk w
  pub ended : (w : os.World) → rel.disk (deinitialize w) ≡ rel.disk w

uncut_once :
    {A : Type 0} (b cut : Bool) (rest x : A)
    → cut ≡ false
    → (if b then (if cut then rest else x) else x) ≡ x
uncut_once true cut rest x e = rw e refl
uncut_once false cut rest x e = refl

module _ (os : Os) (rel : IsReliable os) (s3 : BucketCalls os.World)
    (deinitialize : os.World → os.World) (small : IsSmallStore os rel s3 deinitialize) where
  contents_disk :
      (cs : List Content) (w : os.World) → rel.disk (fill_contents os s3 cs w) ≡ rel.disk w
  contents_disk [] w = refl
  contents_disk (c ∷ cs) w = contents_disk cs (s3.bucket_filler c w) ∙ small.shown c w

  services_disk :
      (names : List Text) (w : os.World) → rel.disk (list_services os s3 names w) ≡ rel.disk w
  services_disk [] w = refl
  services_disk (name ∷ names) w =
      services_disk names (s3.service_filler name w) ∙ small.named name w

  callback_disk :
      (pages : List Page) (cut : Bool) (marker : Text) (w : os.World)
      → All (λ page. page.is_truncated ≡ false) pages
      → cut ≡ false
      → ((list_bucket_callback os s3 pages cut marker w).0.0 ≡ false)
        × (rel.disk (list_bucket_callback os s3 pages cut marker w).1 ≡ rel.disk w)
  unfolding list_bucket_callback
  callback_disk [] cut marker w h e = (e, refl)
  callback_disk (page ∷ pages) cut marker w h e =
      let w1 = fill_contents os s3 page.contents w in
      let (last, d) = callback_disk pages page.is_truncated _ w1 h.1 h.0 in
      (last, d ∙ contents_disk page.contents w)

  pub service_disk :
      (s : Globals os.World) → rel.disk (cloud_list_service os s3 s).1.world ≡ rel.disk s.world
  unfolding cloud_list_service
  service_disk s =
      services_disk (s3.service s.world).0.0 (s3.service s.world).1 ∙ small.served s.world

  pub listing_disk :
      (fuel : ℕ) (name null_text : Text) (s : Globals os.World)
      → (code : Status) × (s' : Globals os.World) × (cloud_list_bucket os s3
            (suc fuel)
            name
            null_text
            s
          ≡ (some code, s'))
        × (rel.disk s'.world ≡ rel.disk s.world)
  unfolding cloud_list_bucket list_pages
  listing_disk fuel name null_text s =
      let marker = take 1023 null_text in
      let ((pages, code), w1) = s3.pages name marker s.world in
      let (last, d) = callback_disk pages false marker w1 (small.uncut name marker s.world) refl in
      (code, _, uncut_once (is_ok code) _ _ _ last, d ∙ small.paged name marker s.world)
