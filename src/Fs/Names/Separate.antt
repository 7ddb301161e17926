-- ===== src/Fs/Names/Separate.antt =====
-- Paths without the byte `+` have names of their own for all that cloudfs/ keeps of a file.
use mathlib.Core.Path.{subst}
use cloudfs.Base.{
  ◌≡◌, ◌≢◌, refl, sym, ℕ, Bool-cases, inl, inr, false, List, [], ◌∷◌, ◌++◌, All, All-append,
}
use cloudfs.Fs.Names.{
  FilePath, Config, slash, plus, same_name, get_key, get_absolute_path, get_metadata_path,
}
use cloudfs.Fs.Names.Laws.{get_key-injective, get_metadata_path-injective, append_cancel}
use cloudfs.Fs.Disk.Updates.{same_name_sound}

abbrev pub NoPlus : List ℕ → Type 0
NoPlus = All (λ c. c ≢ plus)

-- A path as FUSE gives it, without the byte `+`.
pub record IsPlain (p : FilePath) : Type 0 where
  pub no_plus : NoPlus p
  pub rooted : (rest : FilePath) × (p ≡ slash ∷ rest)

-- No name of the one file is a name of the other.
pub record IsSeparate (cfg : Config) (p q : FilePath) : Type 0 where
  pub local_local : same_name (get_absolute_path cfg p) (get_absolute_path cfg q) ≡ false
  pub local_metadata : same_name (get_absolute_path cfg p) (get_metadata_path cfg q) ≡ false
  pub metadata_local : same_name (get_metadata_path cfg p) (get_absolute_path cfg q) ≡ false
  pub metadata_metadata : same_name (get_metadata_path cfg p) (get_metadata_path cfg q) ≡ false
  pub keys : same_name (get_key p) (get_key q) ≡ false

distinct : (k k' : List ℕ) → k ≢ k' → same_name k k' ≡ false
distinct k k' h = elim (Bool-cases (same_name k k')) [
  | inl e ↦ absurd (h (same_name_sound k k' e))
  | inr e ↦ e
]

local_injective :
    (cfg : Config) (p q : FilePath) → get_absolute_path cfg p ≡ get_absolute_path cfg q → p ≡ q
unfolding get_absolute_path
local_injective cfg p q e = append_cancel cfg.ssd_path p q e

without_prefix : (xs ys : List ℕ) → NoPlus (xs ++ ys) → NoPlus ys
without_prefix [] ys h = h
without_prefix (x ∷ xs) ys h = without_prefix xs ys h.1

local-NoPlus :
    (cfg : Config) (q : FilePath)
    → NoPlus cfg.ssd_path
    → NoPlus q
    → NoPlus (get_absolute_path cfg q)
unfolding get_absolute_path
local-NoPlus cfg q h k = All-append (λ c. c ≢ plus) cfg.ssd_path q h k

-- A key begins with the byte `+`.
metadata-NoPlus :
    (cfg : Config) (rest : FilePath) → NoPlus (get_metadata_path cfg (slash ∷ rest)) → ⊥
unfolding get_metadata_path get_key
metadata-NoPlus cfg rest h = (without_prefix cfg.metadata_path _ h).1.0 refl

module _ (cfg : Config) (ssd : NoPlus cfg.ssd_path) where
  metadata_not_local :
      (p q : FilePath) → IsPlain p → IsPlain q → get_metadata_path cfg p ≢ get_absolute_path cfg q
  metadata_not_local p q h k e =
      let (rest, r) = h.rooted in
      metadata-NoPlus cfg rest (
        subst (λ x. NoPlus (get_metadata_path cfg x)) r
          (subst NoPlus (sym e) (local-NoPlus cfg q ssd k.no_plus)))

  pub own_names_differ :
      (p : FilePath)
      → IsPlain p
      → same_name (get_metadata_path cfg p) (get_absolute_path cfg p) ≡ false
  own_names_differ p h = distinct _ _ (metadata_not_local p p h h)

  pub IsPlain-IsSeparate : (p q : FilePath) → IsPlain p → IsPlain q → p ≢ q → IsSeparate cfg p q
  IsPlain-IsSeparate p q h k other = record {
    local_local = distinct _ _ (λ e. other (local_injective cfg p q e));
    local_metadata = distinct _ _ (λ e. metadata_not_local q p k h (sym e));
    metadata_local = distinct _ _ (metadata_not_local p q h k);
    metadata_metadata =
        distinct _ _ (λ e. other (get_metadata_path-injective cfg p q h.no_plus k.no_plus e));
    keys = distinct _ _ (λ e. other (get_key-injective p q h.no_plus k.no_plus e));
  }
