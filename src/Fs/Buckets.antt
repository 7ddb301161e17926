-- ===== src/Fs/Buckets.antt =====
-- cloud-lib/cloudapi.c: the requests on buckets and the listings, and the functions of
-- cloudfs/s3_cloudfs.c that make them. libs3 is a parameter; the field `keyCount`, which nothing
-- reads, is left out.
pub mod Listed
use cloudfs.Base.{ℕ, zero, suc, Bool, false, Option, none, some, List, [], ◌∷◌, take, if◌then◌else◌}
use cloudfs.Fs.Os.{Os, Status}
use cloudfs.Fs.State.{M, Globals, ◌>>=◌, ◌>>◌, give, run}
use cloudfs.Fs.Cloud.{is_ok, response_complete}

abbrev pub Text : Type 0
Text = List ℕ

-- `S3ListBucketContent`, as far as it is read.
pub record Content : Type 0 where
  pub key : Text
  pub last_modified : ℕ
  pub size : ℕ

-- The arguments of one call of `listBucketCallback`.
pub record Page : Type 0 where
  pub is_truncated : Bool
  pub next_marker : Option Text
  pub contents : List Content

-- The requests: each gives its status, and a listing the entries for its callback.
pub record BucketCalls (W : Type 0) : Type 0 where
  pub initialize : Text → W → Status × W
  pub create : Text → W → Status × W
  pub delete : Text → W → Status × W
  pub service : W → (List Text × Status) × W
  pub pages : Text → Text → W → (List Page × Status) × W
  -- The fillers given by the caller.
  pub service_filler : Text → W → W
  pub bucket_filler : Content → W → W

-- The marker for the next request: that of the page, or the last key if it has none or an empty
-- one. `nextMarker` holds 1023 bytes of it.
abbrev pub last_key : List Content → Option Text → Option Text
last_key [] marker = marker
last_key (c ∷ cs) marker = last_key cs (some c.key)

abbrev pub or_last : Option Text → List Content → Option Text
or_last none contents = last_key contents none
or_last (some []) contents = last_key contents (some [])
or_last (some (b ∷ bs)) contents = some (b ∷ bs)

abbrev pub marker_text : Option Text → Text
marker_text none = []
marker_text (some marker) = take 1023 marker

module _ (os : Os) (s3 : BucketCalls os.World) where
  -- `cloud_init`
  unfoldable pub cloud_init : Text → M os.World Status
  cloud_init hostname = run (s3.initialize hostname)

  -- A request whose status goes through `responseCompleteCallback`.
  abbrev request : (os.World → Status × os.World) → M os.World Status
  request call = do code ← run call; response_complete os code; λ s. (s.status_g, s)

  -- `cloud_create_bucket`
  unfoldable pub cloud_create_bucket : Text → M os.World Status
  cloud_create_bucket name = request (s3.create name)

  -- `cloud_delete_bucket`
  unfoldable pub cloud_delete_bucket : Text → M os.World Status
  cloud_delete_bucket name = request (s3.delete name)

  -- `listServiceCallback`, for each bucket.
  abbrev pub list_services : List Text → os.World → os.World
  list_services [] w = w
  list_services (name ∷ names) w = list_services names (s3.service_filler name w)

  -- `cloud_list_service`
  unfoldable pub cloud_list_service : M os.World Status
  cloud_list_service = do
    (names, code) ← run s3.service
    run (λ w. (tt, list_services names w))
    response_complete os code
    λ s. (s.status_g, s)

  abbrev pub fill_contents : List Content → os.World → os.World
  fill_contents [] w = w
  fill_contents (c ∷ cs) w = fill_contents cs (s3.bucket_filler c w)

  -- `listBucketCallback`, for each page of a request: whether the last was cut, and its marker.
  unfoldable pub list_bucket_callback :
      List Page → Bool → Text → os.World → (Bool × Text) × os.World
  list_bucket_callback [] cut marker w = ((cut, marker), w)
  list_bucket_callback (page ∷ pages) cut marker w =
      list_bucket_callback pages page.is_truncated
        (marker_text (or_last page.next_marker page.contents)) (fill_contents page.contents w)

  -- The loop of `cloud_list_bucket`, on fuel: `none` if the fuel ends.
  unfoldable pub list_pages : ℕ → Text → Text → M os.World (Option Status)
  list_pages zero name marker s = (none, s)
  list_pages (suc fuel) name marker s =
      let ((pages, code), w) = s3.pages name marker s.world in
      let ((cut, marker'), w') = list_bucket_callback pages false marker w in
      let s' : Globals os.World = record s { world = w'; status_g = code } in
      let rest = list_pages fuel name marker' s' in
      if is_ok code then (if cut then rest else (some code, s')) else (some code, s')

  -- `cloud_list_bucket`; `null_text` is what `snprintf` writes for the null pointer.
  unfoldable pub cloud_list_bucket : ℕ → Text → Text → M os.World (Option Status)
  cloud_list_bucket fuel name null_text = list_pages fuel name (take 1023 null_text)

  -- `s3_init`; the messages of `cloud_print_error` are only logged.
  unfoldable pub s3_init : Text → Text → M os.World (Unit {0})
  s3_init hostname my_bucket = do cloud_init hostname; cloud_create_bucket my_bucket; give tt

  -- `s3_list_service`
  unfoldable pub s3_list_service : M os.World (Unit {0})
  s3_list_service = do cloud_list_service; give tt

  -- `s3_list_bucket`
  unfoldable pub s3_list_bucket : ℕ → Text → Text → M os.World (Option (Unit {0}))
  s3_list_bucket fuel my_bucket null_text = do
    code ← cloud_list_bucket fuel my_bucket null_text
    give (elim code [ none ↦ none | some c ↦ some tt ])
