-- ===== src/Fs/Files/Truncate.antt =====
-- `cloudfs_truncate` of cloudfs/cloudfs.c: it cuts a local file, and not one that is in the cloud.
use mathlib.Core.Path.{subst}
use cloudfs.Base.{
  ℕ, zero, suc, ◌≡◌, refl, sym, ap, ◌∙◌, arith, bit_and, true, false, ltb, Bool, some, List, [],
  ◌∷◌, length,
}
use cloudfs.Fs.Names.{FilePath, Config, same_name, get_key, get_absolute_path, get_metadata_path}
use cloudfs.Fs.Os.{Os}
use cloudfs.Fs.State.{Globals, ok}
use cloudfs.Fs.Disk.{regular, link}
use cloudfs.Fs.Disk.Updates.{at-same, at-other, same_name_sym}
use cloudfs.Fs.Laws.{IsReliable, o_trunc, padded, CanRead}
use cloudfs.Fs.Files.{cloudfs_truncate}
use cloudfs.Fs.Files.Elsewhere.{SameElsewhere, local_elsewhere}
use cloudfs.Fs.Files.Stored.{IsStored, Stored}
use cloudfs.Fs.Files.Reading.{Reads, Reads-object}

pub length-padded : (size : ℕ) (bytes : List ℕ) → length (padded size bytes) ≡ size
length-padded zero bytes = refl
length-padded (suc n) [] = omega (arith, length-padded n [])
length-padded (suc n) (b ∷ bs) = omega (arith, length-padded n bs)

module _ (os : Os) (cfg : Config) (path : FilePath) (size : ℕ) (s : Globals os.World) where
  cutting :
      (w1 : os.World)
      → os.truncate (get_absolute_path cfg path) size s.world ≡ (some tt, w1)
      → cloudfs_truncate os cfg path size s ≡ (ok 0, record s { world = w1 })
  unfolding cloudfs_truncate
  cutting w1 e = rw e refl

module _ (os : Os) (rel : IsReliable os) (cfg : Config) (path : FilePath)
    (apart : same_name (get_metadata_path cfg path) (get_absolute_path cfg path) ≡ false)
    (s : Globals os.World) where
  small_cut :
      (large : Bool) (size : ℕ) (bytes : List ℕ)
      → large ≡ false
      → ltb cfg.threshold size ≡ false
      → IsStored cfg path large bytes (rel.disk s.world)
      → (s' : Globals os.World) × (cloudfs_truncate os cfg path size s ≡ (ok 0, s'))
        × Stored cfg path (padded size bytes) (rel.disk s'.world)
        × SameElsewhere cfg path (rel.disk s.world) (rel.disk s'.world)
  small_cut true size bytes l k h = absurd (cc)
  small_cut false size bytes l k ((o, there), no_record, no_object) =
      let local = get_absolute_path cfg path in
      let d = rel.disk s.world in
      let (o1, w1, e1, d1) = rel.truncate_regular s.world local size o bytes there in
      let is_small : ltb cfg.threshold (length (padded size bytes)) ≡ false =
        ap (ltb cfg.threshold) (length-padded size bytes) ∙ k in
      (
        record s { world = w1 },
        cutting os cfg path size s w1 e1,
        subst (λ l. IsStored cfg path l (padded size bytes) (rel.disk w1)) (sym is_small)
            (subst (IsStored cfg path false (padded size bytes)) (sym d1) (
              (o1, at-same local _ d.node),
              at-other local _ d.node (get_metadata_path cfg path)
                    (same_name_sym (get_metadata_path cfg path) local ∙ apart)
                  ∙ no_record,
              no_object,
            )),
        subst (SameElsewhere cfg path d) (sym d1)
            (local_elsewhere cfg path (some (regular (padded size bytes) o1)) d),
      )

  pub cloudfs_truncate-Stored :
      (size : ℕ) (bytes : List ℕ)
      → ltb cfg.threshold (length bytes) ≡ false
      → ltb cfg.threshold size ≡ false
      → Stored cfg path bytes (rel.disk s.world)
      → (s' : Globals os.World) × (cloudfs_truncate os cfg path size s ≡ (ok 0, s'))
        × Stored cfg path (padded size bytes) (rel.disk s'.world)
        × SameElsewhere cfg path (rel.disk s.world) (rel.disk s'.world)
  cloudfs_truncate-Stored size bytes l k h = small_cut _ size bytes l k h

  -- On a system whose calls have their documented effects (IsReliable), with a path whose metadata
  -- path is not its local path: `cloudfs_truncate`, to any size, of a stored file that is above
  -- the threshold returns 0, and an open for reading without O_TRUNC after it and a `cloudfs_read`
  -- at any offset give the bytes of before.
  pub cloudfs_read-cloudfs_truncate :
      (cut flags size offset : ℕ) (bytes : List ℕ)
      → ltb cfg.threshold (length bytes) ≡ true
      → Stored cfg path bytes (rel.disk s.world)
      → bit_and flags o_trunc ≡ 0
      → CanRead flags
      → (s' : Globals os.World) × (cloudfs_truncate os cfg path cut s ≡ (ok 0, s'))
        × Reads os rel cfg path apart s' flags size offset bytes
  cloudfs_read-cloudfs_truncate cut flags size offset bytes l h t can =
      let local = get_absolute_path cfg path in
      let meta = get_metadata_path cfg path in
      let d = rel.disk s.world in
      let (there, (st, record_there, _), object) : IsStored cfg path true bytes d =
        subst (λ x. IsStored cfg path x bytes d) l h in
      let (n, w1, e1, d1) = rel.truncate_link s.world local meta cut st there record_there in
      let s1 : Globals os.World = record s { world = w1 } in
      (
        s1,
        cutting os cfg path cut s w1 e1,
        Reads-object os rel cfg path apart s1 flags size offset (some bytes)
            (ap (λ e. e.room local) d1 ∙ rel.held_room s.world local (link meta) there)
            (ap (λ e. e.object (get_key path)) d1 ∙ object) t can,
      )
