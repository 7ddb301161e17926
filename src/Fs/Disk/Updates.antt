-- ===== src/Fs/Disk/Updates.antt =====
-- Updates of a map at a name.
use cloudfs.Base.{
  ℕ, ◌≡◌, refl, sym, ap, ap₂, ◌∙◌, arith, Bool, true, false, Option, List, [], ◌∷◌, if◌then◌else◌,
}
use cloudfs.Fs.Names.{same_name, FilePath}
use cloudfs.Fs.Disk.{at, Node, Disk, put_node}

pub same_name_refl : (k : List ℕ) → same_name k k ≡ true
same_name_refl [] = refl
same_name_refl (c ∷ cs) = ground (arith, same_name_refl cs)

pub same_name_sym : (k k' : List ℕ) → same_name k' k ≡ same_name k k'
same_name_sym [] [] = refl
same_name_sym [] (d ∷ ds) = refl
same_name_sym (c ∷ cs) [] = refl
same_name_sym (c ∷ cs) (d ∷ ds) = let tails = same_name_sym cs ds in ground arith

pub same_name_sound : (k k' : List ℕ) → same_name k k' ≡ true → k ≡ k'
same_name_sound [] [] h = refl
same_name_sound [] (d ∷ ds) h = absurd (cc)
same_name_sound (c ∷ cs) [] h = absurd (cc)
same_name_sound (c ∷ cs) (d ∷ ds) h = ap₂ ◌∷◌ (ground arith) (same_name_sound cs ds (ground arith))

module _ {A : Type 0} (k : List ℕ) (v : Option A) (f : List ℕ → Option A) where
  pub at-same : at k v f k ≡ v
  unfolding at
  at-same = rw (same_name_refl k) refl

  pub at-other : (k' : List ℕ) → same_name k k' ≡ false → at k v f k' ≡ f k'
  unfolding at
  at-other k' h = rw h refl

  pub at-at : (v' : Option A) → at k v (at k v' f) ≡ at k v f
  unfolding at
  at-at v' = λ i k'.
      (elim (same_name k k')
          as (λ b. (if b then v else (if b then v' else f k')) ≡ (if b then v else f k')) [
            | true ↦ refl
            | false ↦ refl
          ])
        i

  at-id_by :
      f k ≡ v → (k' : List ℕ) (b : Bool) → same_name k k' ≡ b → (if b then v else f k') ≡ f k'
  at-id_by h k' true e = sym h ∙ ap f (same_name_sound k k' e)
  at-id_by h k' false e = refl

  pub at-id : f k ≡ v → at k v f ≡ f
  unfolding at
  at-id h = λ i k'. at-id_by h k' (same_name k k') refl i

module _ (p : FilePath) (n : Option Node) (d : Disk) where
  pub put_node-id : d.node p ≡ n → put_node p n d ≡ d
  put_node-id h = ap (λ g. record d { node = g }) (at-id p n d.node h)

  pub put_node-put_node : (n' : Option Node) → put_node p n (put_node p n' d) ≡ put_node p n d
  put_node-put_node n' = ap (λ g. record d { node = g }) (at-at p n d.node n')
