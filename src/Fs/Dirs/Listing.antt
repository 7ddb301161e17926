-- ===== src/Fs/Dirs/Listing.antt =====
-- `cloudfs_readdir` of cloudfs/cloudfs.c hands every entry but lost+found to FUSE.
use mathlib.Core.List.{append_assoc, append-nil}
use cloudfs.Base.{ℕ, zero, suc, ◌<◌, ◌≡◌, refl, sym, ap, ◌∙◌, arith, false, none, some}
use cloudfs.Base.{List, [], ◌∷◌, ◌++◌, length, if◌then◌else◌, Bool-cases, inl, inr}
use cloudfs.Fs.Names.{FilePath, same_name}
use cloudfs.Fs.Os.{Os}
use cloudfs.Fs.State.{Globals, ok, give, run}
use cloudfs.Fs.Dirs.{lost_found, fill_entries, cloudfs_readdir}

-- What the code relies on in a directory stream, and in a buffer of FUSE that has room.
pub record IsDirectory (os : Os) : Type 0 where
  -- The entries that a stream has yet to give, and the names in the buffer.
  pub entries : os.World → ℕ → List FilePath
  pub filled : os.World → List FilePath
  pub readdir_next :
      (w : os.World) (dp : ℕ) (name : FilePath) (names : List FilePath)
      → entries w dp ≡ name ∷ names
      → (w' : os.World) × (os.readdir dp w ≡ (some name, w'))
        × (entries w' dp ≡ names)
        × (filled w' ≡ filled w)
  pub readdir_end :
      (w : os.World) (dp : ℕ)
      → entries w dp ≡ []
      → (w' : os.World) × (os.readdir dp w ≡ (none, w')) × (filled w' ≡ filled w)
  pub filler_room :
      (w : os.World) (name : FilePath)
      → (w' : os.World) × (os.filler name w ≡ (false, w'))
        × (entries w' ≡ entries w)
        × (filled w' ≡ filled w ++ (name ∷ []))

-- The names without lost+found.
abbrev pub shown : FilePath → List FilePath → List FilePath
shown name names = if same_name name lost_found then names else name ∷ names

abbrev pub listed : List FilePath → List FilePath
listed [] = []
listed (name ∷ names) = shown name (listed names)

module _ (os : Os) where
  at_end :
      (fuel dp : ℕ) (name : FilePath) (s s1 : Globals os.World) (w2 : os.World)
      → (if same_name name lost_found then give false else run (os.filler name)) s ≡ (false, s1)
      → os.readdir dp s1.world ≡ (none, w2)
      → fill_entries os (suc fuel) dp name s ≡ (some (ok 0), record s1 { world = w2 })
  unfolding fill_entries
  at_end fuel dp name s s1 w2 e1 e2 = rw (e1, e2) refl

  carries_on :
      (fuel dp : ℕ) (name name' : FilePath) (s s1 : Globals os.World) (w2 : os.World)
      → (if same_name name lost_found then give false else run (os.filler name)) s ≡ (false, s1)
      → os.readdir dp s1.world ≡ (some name', w2)
      → fill_entries os (suc fuel) dp name s
        ≡ fill_entries os fuel dp name' (record s1 { world = w2 })
  unfolding fill_entries
  carries_on fuel dp name name' s s1 w2 e1 e2 = rw (e1, e2) refl

  begins :
      (fuel dp : ℕ) (name : FilePath) (s : Globals os.World) (w1 : os.World)
      → os.readdir dp s.world ≡ (some name, w1)
      → cloudfs_readdir os fuel dp s ≡ fill_entries os fuel dp name (record s { world = w1 })
  unfolding cloudfs_readdir
  begins fuel dp name s w1 e = rw e refl

module _ (os : Os) (dir : IsDirectory os) (dp : ℕ) where
  hand_over :
      (name : FilePath) (s : Globals os.World)
      → (w' : os.World) × ((if same_name name lost_found then give false else run (os.filler name))
            s
          ≡ (false, record s { world = w' }))
        × (dir.entries w' ≡ dir.entries s.world)
        × ((rest : List FilePath) → dir.filled w' ++ rest ≡ dir.filled s.world ++ shown name rest)
  hand_over name s = elim (Bool-cases (same_name name lost_found)) [
    | inl e ↦ (s.world, rw e refl, refl, λ rest. rw e refl)
    | inr e ↦
        let (w', e1, n1, f1) = dir.filler_room s.world name in
        (
          w',
          rw (e, e1) refl,
          n1,
          λ rest. rw (e, f1) (append_assoc (dir.filled s.world) (name ∷ []) rest),
        )
  ]

  fill_entries_lem :
      (fuel : ℕ) (name : FilePath) (names : List FilePath) (s : Globals os.World)
      → dir.entries s.world dp ≡ names
      → length names < fuel
      → (s' : Globals os.World) × (fill_entries os fuel dp name s ≡ (some (ok 0), s'))
        × (dir.filled s'.world ≡ dir.filled s.world ++ listed (name ∷ names))
  fill_entries_lem zero name names s h k = absurd (omega arith)
  fill_entries_lem (suc fuel) name [] s h k =
      let (w1, e1, n1, f1) = hand_over name s in
      let (w2, e2, f2) = dir.readdir_end w1 dp (ap (λ g. g dp) n1 ∙ h) in
      (
        record s { world = w2 },
        at_end os fuel dp name s _ w2 e1 e2,
        f2 ∙ sym (append-nil (dir.filled w1)) ∙ f1 [],
      )
  fill_entries_lem (suc fuel) name (name' ∷ names) s h k =
      let (w1, e1, n1, f1) = hand_over name s in
      let (w2, e2, n2, f2) = dir.readdir_next w1 dp name' names (ap (λ g. g dp) n1 ∙ h) in
      let (s3, e3, f3) =
        fill_entries_lem fuel name' names (record s { world = w2 }) n2 (omega arith) in
      (
        s3,
        carries_on os fuel dp name name' s _ w2 e1 e2 ∙ e3,
        f3 ∙ ap (λ l. l ++ listed (name' ∷ names)) f2 ∙ f1 (listed (name' ∷ names)),
      )

  -- Where a directory stream gives its entries one after the other and the buffer has room
  -- (IsDirectory), `cloudfs_readdir` of a stream that is yet to give at least one entry ends on
  -- any fuel that is more than the number of entries after the first, returns 0, and has put the
  -- names of all entries but lost+found into the buffer, in order.
  pub cloudfs_readdir_lem :
      (fuel : ℕ) (name : FilePath) (names : List FilePath) (s : Globals os.World)
      → dir.entries s.world dp ≡ name ∷ names
      → length names < fuel
      → (s' : Globals os.World) × (cloudfs_readdir os fuel dp s ≡ (some (ok 0), s'))
        × (dir.filled s'.world ≡ dir.filled s.world ++ listed (name ∷ names))
  cloudfs_readdir_lem fuel name names s h k =
      let (w1, e1, n1, f1) = dir.readdir_next s.world dp name names h in
      let (s2, e2, f2) = fill_entries_lem fuel name names (record s { world = w1 }) n1 k in
      (s2, begins os fuel dp name s w1 e1 ∙ e2, f2 ∙ ap (λ l. l ++ listed (name ∷ names)) f1)
