-- ===== src/Fs/Files/Many.antt =====
-- Many files of cloudfs/cloudfs.c at once: the handlers as an implementation of a map from paths to
-- bytes.
use mathlib.Core.Path.{subst}
use cloudfs.Base.{
  ℕ, ◌≡◌, ◌≢◌, refl, sym, ap, ◌∙◌, Bool, true, false, ltb, Bool-cases, inl, inr, if-true, if-false,
}
use cloudfs.Base.{Option, none, some, List, [], ◌∷◌, length, All, if◌then◌else◌}
use cloudfs.Fs.Names.{FilePath, Config, same_name, get_absolute_path, get_metadata_path}
use cloudfs.Fs.Names.Separate.{NoPlus, IsPlain, IsSeparate, own_names_differ, IsPlain-IsSeparate}
use cloudfs.Fs.Os.{Os}
use cloudfs.Fs.State.{M, Globals, Ret, ok, ◌>>=◌, give}
use cloudfs.Fs.Disk.{Disk, HasRoom}
use cloudfs.Fs.Disk.Updates.{same_name_refl, same_name_sound}
use cloudfs.Fs.Laws.{IsReliable}
use cloudfs.Fs.Files.Elsewhere.{SameElsewhere}
use cloudfs.Fs.Files.Stored.{IsStored}
use cloudfs.Fs.Files.History.{Operation, Step, Holds, perform, perform-Step}

abbrev pub Tree : Type 0
Tree = FilePath → Option (List ℕ)

abbrev pub with_file : FilePath → Option (List ℕ) → Tree → Tree
with_file p a t q = if same_name p q then a else t q

-- Operations on plain paths, each as the state machine of its file allows it.
pub data Moves (cfg : Config) : Tree → List (FilePath × Operation) → Tree → Type 0 where
  stay : (t : Tree) → Moves cfg t [] t
  move :
      {t t' : Tree} {p : FilePath} {op : Operation} {a : Option (List ℕ)}
      {ops : List (FilePath × Operation)}
      → IsPlain p
      → Step cfg (t p) op a
      → Moves cfg (with_file p a t) ops t'
      → Moves cfg t ((p, op) ∷ ops) t'

-- A disk that holds, of every plain path, what the tree has there.
abbrev pub HoldsTree : Config → Tree → Disk → Type 0
HoldsTree cfg t d = (p : FilePath) → IsPlain p → Holds cfg p (t p) d

-- A file can be at each of the paths operated on.
abbrev pub HaveRoom : Config → List (FilePath × Operation) → Disk → Type 0
HaveRoom cfg ops d = All (λ x. HasRoom cfg x.0 d) ops

abbrev pub zeros : List (FilePath × Operation) → List Ret
zeros [] = []
zeros (x ∷ ops) = ok 0 ∷ zeros ops

module _ (cfg : Config) (p q : FilePath) (d d' : Disk) (same : SameElsewhere cfg p d d')
    (apart : IsSeparate cfg p q) where
  untouched_by :
      (large : Bool) (bytes : List ℕ) → IsStored cfg q large bytes d → IsStored cfg q large bytes d'
  untouched_by true bytes (there, (st, record_there, size), object) = (
    same.nodes _ apart.local_local apart.metadata_local ∙ there,
    (st, same.nodes _ apart.local_metadata apart.metadata_metadata ∙ record_there, size),
    same.objects _ apart.keys ∙ object,
  )
  untouched_by false bytes ((o, there), no_record, no_object) = (
    (o, same.nodes _ apart.local_local apart.metadata_local ∙ there),
    same.nodes _ apart.local_metadata apart.metadata_metadata ∙ no_record,
    same.objects _ apart.keys ∙ no_object,
  )

  pub untouched : (a : Option (List ℕ)) → Holds cfg q a d → Holds cfg q a d'
  untouched none (no_file, no_record, no_object) = (
    same.nodes _ apart.local_local apart.metadata_local ∙ no_file,
    same.nodes _ apart.local_metadata apart.metadata_metadata ∙ no_record,
    same.objects _ apart.keys ∙ no_object,
  )
  untouched (some bytes) h = untouched_by (ltb cfg.threshold (length bytes)) bytes h

rooms_stay :
    (cfg : Config) (p : FilePath) (ops : List (FilePath × Operation)) {d d' : Disk}
    → SameElsewhere cfg p d d'
    → HaveRoom cfg ops d
    → HaveRoom cfg ops d'
rooms_stay cfg p [] same h = h
rooms_stay cfg p ((q, op) ∷ ops) same ((here, there), h) = (
  (
    ap (λ r. r (get_absolute_path cfg q)) same.rooms ∙ here,
    ap (λ r. r (get_metadata_path cfg q)) same.rooms ∙ there,
  ),
  rooms_stay cfg p ops same h,
)

module _ (os : Os) (cfg : Config) where
  unfoldable pub perform_each : List (FilePath × Operation) → M os.World (List Ret)
  perform_each [] = give []
  perform_each ((p, op) ∷ ops) = do r ← perform os cfg p op; rs ← perform_each ops; give (r ∷ rs)

  going_on :
      (p : FilePath) (op : Operation) (ops : List (FilePath × Operation)) (r : Ret) (rs : List Ret)
      (s s1 s2 : Globals os.World)
      → perform os cfg p op s ≡ (r, s1)
      → perform_each ops s1 ≡ (rs, s2)
      → perform_each ((p, op) ∷ ops) s ≡ (r ∷ rs, s2)
  unfolding perform_each
  going_on p op ops r rs s s1 s2 e e' = rw (e, e') refl

module _ (os : Os) (rel : IsReliable os) (cfg : Config) (ssd : NoPlus cfg.ssd_path) where
  updated_map :
      (p : FilePath) (a : Option (List ℕ)) (t : Tree) (d d' : Disk)
      → IsPlain p
      → SameElsewhere cfg p d d'
      → Holds cfg p a d'
      → HoldsTree cfg t d
      → HoldsTree cfg (with_file p a t) d'
  updated_map p a t d d' plain same h tree q plain' = elim (Bool-cases (same_name p q)) [
    | inl e ↦
        subst (λ x. Holds cfg q x d') (sym (if-true (same_name p q) a (t q) e))
          (subst (λ x. Holds cfg x a d') (same_name_sound p q e) h)
    | inr e ↦
        let other : p ≢ q = λ k. cc (ap (same_name p) k, same_name_refl p, e) in
        subst (λ x. Holds cfg q x d') (sym (if-false (same_name p q) a (t q) e))
          (untouched cfg p q d d' same (IsPlain-IsSeparate cfg ssd p q plain plain' other) (t q)
            (tree q plain'))
  ]

  -- On a system whose calls have their documented effects (IsReliable), with an `ssd_path` without
  -- the byte `+`: `cloudfs_mknod`, whole sessions of open, writes and release, `cloudfs_truncate`
  -- of a file that is not above the threshold to a size that is not above it, and
  -- `cloudfs_unlink`, on any paths that begin with a slash and have no `+`, and whose local and
  -- metadata files can be made (HasRoom: their directories exist, and they are none themselves),
  -- one after the other in any order that the state machine `Step` allows each path, all return 0.
  -- If the disk and the cloud held a map from such paths to bytes before, they hold the map that
  -- `Moves` reaches afterwards, at every such path.
  pub perform_each-Moves :
      (s : Globals os.World) {t t' : Tree} {ops : List (FilePath × Operation)}
      → Moves cfg t ops t'
      → HaveRoom cfg ops (rel.disk s.world)
      → HoldsTree cfg t (rel.disk s.world)
      → (s' : Globals os.World) × (perform_each os cfg ops s ≡ (zeros ops, s'))
        × HoldsTree cfg t' (rel.disk s'.world)
  unfolding perform_each
  perform_each-Moves s (stay t) rooms h = (s, refl, h)
  perform_each-Moves s (move {t = t} {p = p} {op = op} {a = a} {ops = ops} plain st moves) rooms h =
      let (s1, e1, h1, same) =
        perform-Step os rel cfg p (own_names_differ cfg ssd p plain) s st rooms.0 (h p plain) in
      let (s2, e2, h2) =
        perform_each-Moves s1 moves (rooms_stay cfg p ops same rooms.1)
          (updated_map p a t (rel.disk s.world) (rel.disk s1.world) plain same h1 h) in
      (s2, going_on os cfg p op ops (ok 0) (zeros ops) s s1 s2 e1 e2, h2)
