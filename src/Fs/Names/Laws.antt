-- ===== src/Fs/Names/Laws.antt =====
-- Which paths have a key, and so a metadata file, of their own.
use cloudfs.Base.{ℕ, ◌≡◌, ◌≢◌, ap, ap₂, arith, ◌==◌, if◌then◌else◌, List, [], ◌∷◌, ◌++◌, All}
use cloudfs.Fs.Names.{FilePath, Config, slash, plus, get_key, get_metadata_path}

head-eq : (x y : ℕ) (xs ys : List ℕ) → x ∷ xs ≡ y ∷ ys → (x ≡ y) × (xs ≡ ys)
head-eq x y xs ys e = ground arith

pub get_key-injective :
    (p q : FilePath) → All (λ c. c ≢ plus) p → All (λ c. c ≢ plus) q → get_key p ≡ get_key q → p ≡ q
unfolding get_key
get_key-injective [] [] h k e = λ i. []
get_key-injective [] (d ∷ ds) h k e = absurd (cc)
get_key-injective (c ∷ cs) [] h k e = absurd (cc)
get_key-injective (c ∷ cs) (d ∷ ds) h k e =
    let parts = head-eq _ _ (get_key cs) (get_key ds) e in
    let same : c ≡ d = ground arith in ap₂ ◌∷◌ same (get_key-injective cs ds h.1 k.1 parts.1)

pub get_key-slash : (p : FilePath) → All (λ c. c ≢ slash) (get_key p)
unfolding get_key
get_key-slash [] = tt
get_key-slash (c ∷ cs) = (ground arith, get_key-slash cs)

pub append_cancel : (xs ys zs : List ℕ) → xs ++ ys ≡ xs ++ zs → ys ≡ zs
append_cancel [] ys zs e = e
append_cancel (x ∷ xs) ys zs e = append_cancel xs ys zs (head-eq x x (xs ++ ys) (xs ++ zs) e).1

-- Two paths without the byte `+` that `get_metadata_path` gives the same metadata file, under one
-- configuration, are the same path.
pub get_metadata_path-injective :
    (cfg : Config) (p q : FilePath)
    → All (λ c. c ≢ plus) p
    → All (λ c. c ≢ plus) q
    → get_metadata_path cfg p ≡ get_metadata_path cfg q
    → p ≡ q
unfolding get_metadata_path
get_metadata_path-injective cfg p q h k e =
    get_key-injective p q h k
      (head-eq slash slash (get_key p) (get_key q) (append_cancel cfg.metadata_path _ _ e)).1

pub get_key_collision : (p q : FilePath) → get_key (p ++ (slash ∷ q)) ≡ get_key (p ++ (plus ∷ q))
unfolding get_key
get_key_collision [] q = λ i. plus ∷ get_key q
get_key_collision (c ∷ cs) q = ap (◌∷◌ (if c == slash then plus else c)) (get_key_collision cs q)
