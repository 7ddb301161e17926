-- ===== src/Fs/Cloud/Get.antt =====
-- `s3_cloudfs_get` of cloudfs/s3_cloudfs.c makes the content of a file that of its object.
use mathlib.Core.List.{append-nil, append_assoc}
use mathlib.Core.Path.{subst}
use cloudfs.Base.{ℕ, ◌≡◌, refl, sym, ap, ◌∙◌, arith, Bool, true, false, none, some}
use cloudfs.Base.{List, [], ◌∷◌, ◌++◌, length, ltb, if◌then◌else◌}
use cloudfs.Fs.Names.{FilePath, Config, get_key, get_absolute_path}
use cloudfs.Fs.Os.{Os, Status, status_ok, failed}
use cloudfs.Fs.State.{Globals}
use cloudfs.Fs.Disk.{regular, put_node}
use cloudfs.Fs.Disk.Updates.{at-same, put_node-id, put_node-put_node}
use cloudfs.Fs.Laws.{IsReliable, flat}
use cloudfs.Fs.Cloud.{is_ok, get_object_data_callback, get_pieces, cloud_get_object, s3_cloudfs_get}

module _ (os : Os) where
  whole : (n : ℕ) → (if ltb n n then false else true) ≡ true
  whole n = ground arith

  one_piece :
      (f : ℕ) (piece : List ℕ) (pieces : List (List ℕ)) (s s2 : Globals os.World) (w1 : os.World)
      → os.fwrite (some f) piece s.world ≡ (length piece, w1)
      → get_pieces os (some f) pieces (record s { world = w1 }) ≡ (true, s2)
      → get_pieces os (some f) (piece ∷ pieces) s ≡ (true, s2)
  unfolding get_pieces get_object_data_callback
  one_piece f piece pieces s s2 w1 e e' = rw (e, whole (length piece), e') refl

  no_piece : (f : ℕ) (s : Globals os.World) → get_pieces os (some f) [] s ≡ (true, s)
  unfolding get_pieces
  no_piece f s = refl

  after_get :
      (cfg : Config) (path : FilePath) (f : ℕ) (pieces : List (List ℕ)) (code : Status)
      (s : Globals os.World) (w1 w2 w3 : os.World)
      → os.fopen_write (get_absolute_path cfg path) s.world ≡ (some f, w1)
      → os.s3_get_object (get_key path) w1 ≡ ((pieces, code), w2)
      → get_pieces os (some f) pieces (record s { world = w2 }) ≡ (true, record s { world = w3 })
      → s3_cloudfs_get os cfg path s
        ≡ (is_ok code, record s { world = os.fclose (some f) w3; status_g = code })
  unfolding s3_cloudfs_get cloud_get_object
  after_get cfg path f pieces code s w1 w2 w3 e1 e2 e3 = rw (e1, e2, e3) refl

module _ (os : Os) (rel : IsReliable os) where
  pub get_pieces_lem :
      (p : FilePath) (f o : ℕ) (done : List ℕ) (pieces : List (List ℕ)) (s : Globals os.World)
      → rel.file_of s.world f ≡ p
      → (rel.disk s.world).node p ≡ some (regular done o)
      → (o' : ℕ) × (w' : os.World) × (get_pieces os (some f) pieces s
          ≡ (true, record s { world = w' }))
        × (rel.disk w' ≡ put_node p (some (regular (done ++ flat pieces) o')) (rel.disk s.world))
  get_pieces_lem p f o done [] s q h = (
    o,
    s.world,
    no_piece os f s,
    rw (append-nil done) (sym (put_node-id p (some (regular done o)) (rel.disk s.world) h)),
  )
  get_pieces_lem p f o done (piece ∷ pieces) s q h =
      let (o1, w1, e1, d1, q1) = rel.fwrite_end s.world f o done piece (rw q h) in
      let d = rel.disk s.world in
      let added : rel.disk w1 ≡ put_node p (some (regular (done ++ piece) o1)) d =
        d1 ∙ ap (λ r. put_node r (some (regular (done ++ piece) o1)) d) q in
      let (o2, w2, e2, d2) =
        get_pieces_lem p f o1 (done ++ piece) pieces (record s { world = w1 }) (q1 ∙ q)
          (ap (λ e. e.node p) added ∙ at-same p _ d.node) in
      (
        o2,
        w2,
        one_piece os f piece pieces s _ w1 e1 e2,
        d2
            ∙ ap (put_node p _) added
            ∙ put_node-put_node p _ d _
            ∙ ap (λ b. put_node p (some (regular b o2)) d) (append_assoc done piece (flat pieces)),
      )

  module _ (cfg : Config) (path : FilePath) (s : Globals os.World) where
    abbrev local : FilePath
    local = get_absolute_path cfg path

    -- What a get leaves: its result, and a file with these bytes.
    abbrev pub Gets : Bool → List ℕ → Type 0
    Gets result bytes =
        (o : ℕ) × (s' : Globals os.World) × (s3_cloudfs_get os cfg path s ≡ (result, s'))
        × (rel.disk s'.world ≡ put_node local (some (regular bytes o)) (rel.disk s.world))

    received :
        (f o : ℕ) (w1 w2 : os.World) (pieces : List (List ℕ)) (code : Status)
        → os.fopen_write local s.world ≡ (some f, w1)
        → rel.disk w1 ≡ put_node local (some (regular [] o)) (rel.disk s.world)
        → os.s3_get_object (get_key path) w1 ≡ ((pieces, code), w2)
        → rel.disk w2 ≡ rel.disk w1
        → rel.file_of w2 f ≡ local
        → Gets (is_ok code) (flat pieces)
    received f o w1 w2 pieces code e1 d1 e2 d2 q =
        let d = rel.disk s.world in
        let (o3, w3, e3, d3) =
          get_pieces_lem local f o [] pieces (record s { world = w2 }) q
            (ap (λ e. e.node local) (d2 ∙ d1) ∙ at-same local _ d.node) in
        (
          o3,
          _,
          after_get os cfg path f pieces code s w1 w2 w3 e1 e2 e3,
          rel.fclose_keeps w3 f
              ∙ d3
              ∙ ap (put_node local _) (d2 ∙ d1)
              ∙ put_node-put_node local _ d _,
        )

    pub s3_cloudfs_get-found :
        (bytes : List ℕ)
        → (rel.disk s.world).room local ≡ true
        → (rel.disk s.world).node local ≡ none
        → (rel.disk s.world).object (get_key path) ≡ some bytes
        → Gets true bytes
    s3_cloudfs_get-found bytes room gone h =
        let (f, o, w1, e1, d1, q1) = rel.fopen_new s.world local room gone in
        let (pieces, w2, e2, b2, d2, q2) =
          rel.get_found w1 (get_key path) bytes (ap (λ e. e.object (get_key path)) d1 ∙ h) in
        subst (Gets true) b2
          (received f o w1 w2 pieces status_ok e1 d1 e2 d2 (ap (λ g. g f) q2 ∙ q1))

    pub s3_cloudfs_get-missing :
        (rel.disk s.world).room local ≡ true
        → (rel.disk s.world).node local ≡ none
        → (rel.disk s.world).object (get_key path) ≡ none
        → Gets false []
    s3_cloudfs_get-missing room gone h =
        let (f, o, w1, e1, d1, q1) = rel.fopen_new s.world local room gone in
        let (n, w2, e2, d2, q2) =
          rel.get_missing w1 (get_key path) (ap (λ e. e.object (get_key path)) d1 ∙ h) in
        received f o w1 w2 [] (failed n) e1 d1 e2 d2 (ap (λ g. g f) q2 ∙ q1)
