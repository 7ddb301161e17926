-- ===== src/Tests/Buckets.antt =====
-- The listing of a bucket at a concrete input: two objects, one for each request.
use cloudfs.Base.{
  ◌≡◌, refl, ap, arith, ℕ, inl, Bool, true, false, ltb, Option, none, some, List, [], ◌∷◌, ◌++◌,
}
use cloudfs.Fs.Os.{status_ok}
use cloudfs.Fs.Memory.{Machine, memory}
use cloudfs.Fs.Buckets.{Text, Content, Page, BucketCalls}
use cloudfs.Fs.Buckets.Listed.{IsListing, IsResponse, final, partial, contents_of, after_next}

abbrev content : ℕ → Content
content b = record { key = b ∷ []; last_modified = 0; size = 3 }

-- The objects "a" and "b" after a marker, by whether it is below "a", and below "b".
abbrev objects : Bool → Bool → List Content
objects true second = content b'a' ∷ content b'b' ∷ []
objects false true = content b'b' ∷ []
objects false false = []

abbrev objects_after : Text → List Content
objects_after [] = objects true true
objects_after (b ∷ bs) = objects (ltb b b'a') (ltb b b'b')

abbrev response : Bool → Bool → Page
response true second = record {
  is_truncated = true;
  next_marker = none;
  contents = content b'a' ∷ [];
}
response false second = record {
  is_truncated = false;
  next_marker = none;
  contents = objects false second;
}

abbrev response_after : Text → Page
response_after [] = response true true
response_after (b ∷ bs) = response (ltb b b'a') (ltb b b'b')

-- The names in the buffer hold what the filler gets.
abbrev as_text : Content → Text
as_text c = c.last_modified ∷ c.size ∷ c.key

abbrev as_content : Text → Content
as_content [] = content 0
as_content (b ∷ []) = content b
as_content (m ∷ n ∷ key) = record { key = key; last_modified = m; size = n }

abbrev as_contents : List Text → List Content
as_contents [] = []
as_contents (text ∷ texts) = as_content text ∷ as_contents texts

as_contents_snoc :
    (texts : List Text) (c : Content)
    → as_contents (texts ++ (as_text c ∷ [])) ≡ as_contents texts ++ (c ∷ [])
as_contents_snoc [] c = refl
as_contents_snoc (text ∷ texts) c = ap (λ l. as_content text ∷ l) (as_contents_snoc texts c)

abbrev pub bucket : BucketCalls Machine
bucket = record {
  initialize = λ host w. (status_ok, w);
  create = λ name w. (status_ok, w);
  delete = λ name w. (status_ok, w);
  service = λ w. (([], status_ok), w);
  pages = λ name marker w. ((response_after marker ∷ [], status_ok), w);
  service_filler = λ name w. w;
  bucket_filler = λ c w. record w { filled = w.filled ++ (as_text c ∷ []) };
}

abbrev Answers : Page → List Content → Type 0
Answers page contents =
    (next : Option Text) × IsResponse (page ∷ []) next
    × (contents ≡ contents_of (page ∷ []) ++ after_next objects_after next)

answers : (first second : Bool) → Answers (response first second) (objects first second)
answers true second = (
  some (b'a' ∷ []),
  partial (response true second) b'a' [] refl refl (inl refl) (omega arith),
  refl,
)
answers false true = (none, final (response false true) refl, refl)
answers false false = (none, final (response false false) refl, refl)

answering : (marker : Text) → Answers (response_after marker) (objects_after marker)
answering [] = answers true true
answering (b ∷ bs) = answers (ltb b b'a') (ltb b b'b')

abbrev listing : IsListing memory bucket (b't' ∷ [])
listing = record {
  after = objects_after;
  seen = λ w. as_contents w.filled;
  answer = λ w marker.
      let (next, r, e) = answering marker in
      (response_after marker ∷ [], next, w, refl, r, e, refl);
  filled = λ w c. as_contents_snoc w.filled c;
}

-- The null pointer prints as "(null)", which comes before "a".
abbrev null_text : Text
null_text = b'(' ∷ b'n' ∷ b'u' ∷ b'l' ∷ b'l' ∷ b')' ∷ []
