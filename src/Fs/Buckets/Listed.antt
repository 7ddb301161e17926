-- ===== src/Fs/Buckets/Listed.antt =====
-- `cloud_list_bucket` of cloud-lib/cloudapi.c on a bucket that is listed in several requests.
use cloudfs.Base.{ℕ, ◌≤◌, ◌≡◌, ◌⊎◌, Bool, true, false}
use cloudfs.Base.{Option, none, some, List, [], ◌∷◌, ◌++◌, length}
use cloudfs.Fs.Os.{Os, status_ok}
use cloudfs.Fs.State.{Globals}
use cloudfs.Fs.Buckets.{
  Text, Content, Page, BucketCalls, last_key, list_bucket_callback, list_pages,
}

abbrev pub contents_of : List Page → List Content
contents_of [] = []
contents_of (page ∷ pages) = page.contents ++ contents_of pages

-- The pages of one request, and the key to go on after: the last one of a listing that was cut.
-- S3 gives that key as the marker, or leaves it out. A key has 1 to 1023 bytes.
pub data IsResponse : List Page → Option Text → Type 0 where
  final : (page : Page) → page.is_truncated ≡ false → IsResponse (page ∷ []) none
  partial :
      (page : Page) (b : ℕ) (bs : Text)
      → page.is_truncated ≡ true
      → last_key page.contents none ≡ some (b ∷ bs)
      → (page.next_marker ≡ none) ⊎ (page.next_marker ≡ some (b ∷ bs))
      → length (b ∷ bs) ≤ 1023
      → IsResponse (page ∷ []) (some (b ∷ bs))
  further :
      {pages : List Page} {next : Option Text} (page : Page)
      → IsResponse pages next
      → IsResponse (page ∷ pages) next

abbrev pub after_next : (Text → List Content) → Option Text → List Content
after_next after none = []
after_next after (some key) = after key

-- What the code relies on in the listing of a bucket that nobody changes, and in its filler.
pub record IsListing (os : Os) (s3 : BucketCalls os.World) (name : Text) : Type 0 where
  -- The objects whose keys come after a marker, in order, and those given to the filler.
  pub after : Text → List Content
  pub seen : os.World → List Content
  pub answer :
      (w : os.World) (marker : Text)
      → (pages : List Page) × (next : Option Text) × (w' : os.World) × (s3.pages name marker w
          ≡ ((pages, status_ok), w'))
        × IsResponse pages next
        × (after marker ≡ contents_of pages ++ after_next after next)
        × (seen w' ≡ seen w)
  pub filled : (w : os.World) (c : Content) → seen (s3.bucket_filler c w) ≡ seen w ++ (c ∷ [])

abbrev is_cut : Option Text → Bool
is_cut none = false
is_cut (some key) = true

module _ (os : Os) (s3 : BucketCalls os.World) (name : Text) (lists : IsListing os s3 name) where
  -- After the pages of a request: whether to go on, and after which key.
  Called : List Page → Option Text → Bool → Text → os.World → Type 0
  Called pages next cut marker w =
      (m : Text) × (w' : os.World) × (list_bucket_callback os s3 pages cut marker w
        ≡ ((is_cut next, m), w'))
      × (lists.seen w' ≡ lists.seen w ++ contents_of pages)
      × ((key : Text) → next ≡ some key → m ≡ key)

  -- The listing from a marker on has been handed to the filler.
  Lists : ℕ → Text → Globals os.World → Type 0
  Lists fuel marker s =
      (s' : Globals os.World) × (list_pages os s3 fuel name marker s ≡ (some status_ok, s'))
      × (lists.seen s'.world ≡ lists.seen s.world ++ lists.after marker)
