-- ===== src/Fs/Cloud/Pieces.antt =====
-- `putObjectDataCallback` of cloud-lib/cloudapi.c sends a whole stream, in whatever pieces it is
-- asked for.
use cloudfs.Base.{
  ℕ, zero, suc, ◌+◌, ◌-◌, ◌≤◌, ◌<◌, ◌≡◌, refl, sym, ap, ◌∙◌, arith, false, ltb, ◌==◌,
}
use cloudfs.Base.{some, List, [], ◌∷◌, ◌++◌, length, take, drop, All, length-take, length-drop}
use cloudfs.Base.{take-append-drop, if◌then◌else◌}
use cloudfs.Fs.Os.{Os}
use cloudfs.Fs.State.{Globals}
use cloudfs.Fs.Laws.{IsReliable, total}
use cloudfs.Fs.Cloud.{put_object_data_callback, put_pieces}

length-zero : (xs : List ℕ) → length xs ≡ 0 → xs ≡ []
length-zero [] h = refl
length-zero (x ∷ xs) h = absurd (omega arith)

nonzero : (n : ℕ) → 0 < n → (n == 0) ≡ false
nonzero n h = ground arith

module _ (os : Os) (rel : IsReliable os) where
  abbrev chunk : ℕ → ℕ → ℕ
  chunk size remaining = if ltb size remaining then size else remaining

  callback :
      (f size r : ℕ) (s : Globals os.World)
      → (w' : os.World) × (put_object_data_callback os (some f) (suc r) size s
          ≡ (take (chunk size (suc r)) (rel.unread s.world f), record s { world = w' }))
        × (rel.disk w' ≡ rel.disk s.world)
        × (rel.unread w' f ≡ drop (chunk size (suc r)) (rel.unread s.world f))
  unfolding put_object_data_callback
  callback f size r s =
      let (w', e, d, u) = rel.fread_next s.world f (chunk size (suc r)) in
      (w', rw (nonzero (suc r) (omega arith)) (ap (λ z. (z.0, record s { world = z.1 })) e), d, u)

  chunk-bounds : (size r : ℕ) → 0 < size → (0 < chunk size (suc r)) × (chunk size (suc r) ≤ suc r)
  chunk-bounds size r h = ground arith

  chunk-rest : (size r t : ℕ) → suc r ≤ size + t → suc r - chunk size (suc r) ≤ t
  chunk-rest size r t h = ground arith

  no_sizes :
      (f remaining : ℕ) (s : Globals os.World) → put_pieces os (some f) remaining [] s ≡ ([], s)
  unfolding put_pieces
  no_sizes f remaining s = refl

  no_more :
      (f size : ℕ) (sizes : List ℕ) (s : Globals os.World)
      → put_pieces os (some f) 0 (size ∷ sizes) s ≡ ([], s)
  unfolding put_pieces put_object_data_callback
  no_more f size sizes s = refl

  one_more :
      (f size r : ℕ) (piece : List ℕ) (sizes : List ℕ) (s s' : Globals os.World)
      → put_object_data_callback os (some f) (suc r) size s ≡ (piece, s')
      → 0 < length piece
      → put_pieces os (some f) (suc r) (size ∷ sizes) s ≡ (
        piece ++ (put_pieces os (some f) (suc r - length piece) sizes s').0,
        (put_pieces os (some f) (suc r - length piece) sizes s').1,
      )
  unfolding put_pieces
  one_more f size r piece sizes s s' e h = rw (e, nonzero (length piece) h) refl

  all_more :
      (f size r n : ℕ) (bytes rest : List ℕ) (sizes : List ℕ) (s s1 s2 : Globals os.World)
      → put_object_data_callback os (some f) (suc r) size s ≡ (take n bytes, s1)
      → length (take n bytes) ≡ n
      → 0 < n
      → put_pieces os (some f) (suc r - n) sizes s1 ≡ (rest, s2)
      → rest ≡ drop n bytes
      → put_pieces os (some f) (suc r) (size ∷ sizes) s ≡ (bytes, s2)
  all_more f size r n bytes rest sizes s s1 s2 e len h e' u =
      one_more f size r (take n bytes) sizes s s1 e (omega arith)
      ∙ rw (len, e', u, take-append-drop n bytes) refl

  pub put_pieces_lem :
      (f remaining : ℕ) (sizes : List ℕ) (s : Globals os.World)
      → All (λ size. 0 < size) sizes
      → remaining ≤ total sizes
      → length (rel.unread s.world f) ≡ remaining
      → (w' : os.World) × (put_pieces os (some f) remaining sizes s
          ≡ (rel.unread s.world f, record s { world = w' }))
        × (rel.disk w' ≡ rel.disk s.world)
  put_pieces_lem f remaining [] s h enough same =
      (s.world, no_sizes f remaining s ∙ ap (λ z. (z, s)) (sym (length-zero _ (omega arith))), refl)
  put_pieces_lem f zero (size ∷ sizes) s h enough same =
      (s.world, no_more f size sizes s ∙ ap (λ z. (z, s)) (sym (length-zero _ same)), refl)
  put_pieces_lem f (suc r) (size ∷ sizes) s h enough same =
      let (w1, e, d, u) = callback f size r s in
      let n = chunk size (suc r) in
      let b = chunk-bounds size r h.0 in
      let bytes = rel.unread s.world f in
      let len : length (take n bytes) ≡ n = omega (arith, length-take n bytes) in
      let (w2, e', d') =
        put_pieces_lem f (suc r - n) sizes (record s { world = w1 }) h.1
          (chunk-rest size r (total sizes) enough) (rw u (omega (arith, length-drop n bytes))) in
      (w2, all_more f size r n bytes _ sizes s _ _ e len b.0 e' u, d' ∙ d)
