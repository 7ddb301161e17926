-- ===== src/Fs/Files/Stored.antt =====
-- A file of cloudfs/cloudfs.c between sessions, as its bytes, and what a session makes of it.
use mathlib.Core.Path.{subst}
use cloudfs.Base.{
  ℕ, ◌≡◌, refl, sym, ap, ◌∙◌, bit_and, Bool, true, false, not, ◌&&◌, ltb, Option, none, some, List,
  [], ◌∷◌,
}
use cloudfs.Base.{length, if◌then◌else◌}
use cloudfs.Fs.Names.{FilePath, Config, same_name, get_key, get_absolute_path, get_metadata_path}
use cloudfs.Fs.Os.{Os, Stat}
use cloudfs.Fs.State.{M, Globals, Ret, ok, ◌>>=◌, give, on}
use cloudfs.Fs.Disk.{Node, Disk, regular, saved, link, put_node, put_object, stat_of}
use cloudfs.Fs.Disk.Updates.{at-same, at-other, same_name_sym, put_node-put_node}
use cloudfs.Fs.Laws.{IsReliable, IsNoLink, o_trunc, CanWrite}
use cloudfs.Fs.Files.{Fh, cloudfs_open, cloudfs_release}
use cloudfs.Fs.Files.Open.{cloudfs_open_lem}
use cloudfs.Fs.Files.Write.{
  Writes, all_written, any_write, wrote_all_lem, counts, write_all, write_all_lem,
}
use cloudfs.Fs.Files.Archive.{archived}
use cloudfs.Fs.Files.Elsewhere.{SameElsewhere, changed_twice, local_elsewhere, released_elsewhere}
use cloudfs.Fs.Files.Release.{HasMetadata, released, cloudfs_release_lem}

-- What an open finds of a stored file.
abbrev pub kept : Bool → List ℕ → List ℕ
kept large bytes = if large then bytes else []

module _ (cfg : Config) (path : FilePath) where
  -- A file above the threshold is an object, its record and a link; any other is a local file.
  abbrev pub IsStored : (large : Bool) → List ℕ → Disk → Type 0
  IsStored true bytes d =
      (d.node (get_absolute_path cfg path) ≡ some (link (get_metadata_path cfg path)))
      × ((st : Stat) × (d.node (get_metadata_path cfg path) ≡ some (saved st))
          × (st.st_size ≡ length bytes))
      × (d.object (get_key path) ≡ some bytes)
  IsStored false bytes d =
      ((o : ℕ) × (d.node (get_absolute_path cfg path) ≡ some (regular bytes o)))
      × (d.node (get_metadata_path cfg path) ≡ none)
      × (d.object (get_key path) ≡ none)

  abbrev pub Stored : List ℕ → Disk → Type 0
  Stored bytes = IsStored (ltb cfg.threshold (length bytes)) bytes

  module _
      (apart : same_name (get_metadata_path cfg path) (get_absolute_path cfg path) ≡ false) where
    unlinked :
        (n : Option Node) (d : Disk)
        → (put_node (get_absolute_path cfg path) n d).node (get_metadata_path cfg path)
          ≡ d.node (get_metadata_path cfg path)
    unlinked n d =
        at-other (get_absolute_path cfg path) n d.node (get_metadata_path cfg path)
          (same_name_sym (get_metadata_path cfg path) (get_absolute_path cfg path) ∙ apart)

    stored_metadata :
        (large : Bool) (bytes : List ℕ) (d : Disk) (n : Option Node)
        → d.room (get_metadata_path cfg path) ≡ true
        → IsStored large bytes d
        → HasMetadata large (get_metadata_path cfg path) (put_node (get_absolute_path cfg path) n d)
    stored_metadata true bytes d n room h = (h.1.0, unlinked n d ∙ h.1.1)
    stored_metadata false bytes d n room h = (room, subst IsNoLink (sym (unlinked n d ∙ h.1)) tt)

    archived-IsStored :
        (bytes : List ℕ) (o : ℕ) (d : Disk)
        → IsStored true bytes (archived cfg path bytes (stat_of bytes o) d)
    archived-IsStored bytes o d =
        let meta = get_metadata_path cfg path in
        let d1 = put_object (get_key path) (some bytes) d in
        let d2 = put_node meta (some (saved (stat_of bytes o))) d1 in
        (
          at-same (get_absolute_path cfg path) _ d2.node,
          (stat_of bytes o, unlinked _ d2 ∙ at-same meta _ d1.node, refl),
          at-same (get_key path) _ d.object,
        )

    -- A release after the local file was set to `final`.
    released-IsStored :
        (large dirty large' : Bool) (bytes final : List ℕ) (o : ℕ) (d : Disk)
        → IsStored large bytes d
        → ((large && not dirty) ≡ true → (final ≡ bytes) × (large' ≡ true))
        → IsStored large' final (
            released cfg path large dirty large' final o
              (put_node (get_absolute_path cfg path) (some (regular final o)) d))
    released-IsStored true false large' bytes final o d h clean =
        let (e, l) = clean refl in
        let d1 = put_node (get_absolute_path cfg path) (some (regular final o)) d in
        let linked : IsStored true bytes
            (put_node (get_absolute_path cfg path) (some (link (get_metadata_path cfg path))) d1) =
          (
            at-same (get_absolute_path cfg path) _ d1.node,
            (h.1.0, unlinked _ d1 ∙ unlinked _ d ∙ h.1.1, h.1.2),
            h.2,
          ) in
        let after = released cfg path true false large' final o d1 in
        subst (λ x. IsStored x final after) (sym l)
          (subst (λ b. IsStored true b after) (sym e) linked)
    released-IsStored true true true bytes final o d h clean =
        archived-IsStored final o (put_node (get_absolute_path cfg path) (some (regular final o)) d)
    released-IsStored true true false bytes final o d h clean =
        let d1 = put_node (get_absolute_path cfg path) (some (regular final o)) d in
        (
          (
            o,
            at-other (get_metadata_path cfg path) none d1.node (get_absolute_path cfg path) apart
                ∙ at-same (get_absolute_path cfg path) _ d.node,
          ),
          at-same (get_metadata_path cfg path) none d1.node,
          at-same (get_key path) none d.object,
        )
    released-IsStored false dirty true bytes final o d h clean =
        archived-IsStored final o (put_node (get_absolute_path cfg path) (some (regular final o)) d)
    released-IsStored false dirty false bytes final o d h clean =
        ((o, at-same (get_absolute_path cfg path) _ d.node), unlinked _ d ∙ h.1, h.2)

module _ (os : Os) (cfg : Config) (path : FilePath) where
  -- Open, some writes, and release: the results of the writes and of the release, if open succeeds.
  unfoldable pub session : ℕ → Writes → M os.World (Option (List Ret × Ret))
  session flags ws = do
    (r, opened) ← cloudfs_open os cfg path flags
    on opened (give none) (λ fh. do
      (rs, fh') ← write_all os cfg path fh ws
      r' ← cloudfs_release os cfg path fh'
      give (some (rs, r')))

  session_by :
      (flags : ℕ) (ws : Writes) (fh fh' : Fh) (rs : List Ret) (s s1 s2 s3 : Globals os.World)
      → cloudfs_open os cfg path flags s ≡ ((ok 0, some fh), s1)
      → write_all os cfg path fh ws s1 ≡ ((rs, fh'), s2)
      → cloudfs_release os cfg path fh' s2 ≡ (ok 0, s3)
      → session flags ws s ≡ (some (rs, ok 0), s3)
  unfolding session
  session_by flags ws fh fh' rs s s1 s2 s3 e1 e2 e3 = rw (e1, e2, e3) refl

clean_writes :
    (large large' : Bool) (bytes : List ℕ) (ws : Writes) (t : ℕ)
    → ltb t (length bytes) ≡ large
    → ltb t (length (all_written (if large then bytes else []) ws)) ≡ large'
    → (large && not (large && any_write ws)) ≡ true
    → (all_written (if large then bytes else []) ws ≡ bytes) × (large' ≡ true)
clean_writes true large' bytes [] t h k c = (refl, sym k ∙ h)
clean_writes true large' bytes (x ∷ ws) t h k c = absurd (cc)
clean_writes false large' bytes ws t h k c = absurd (cc)

module _ (os : Os) (rel : IsReliable os) (cfg : Config) (path : FilePath)
    (apart : same_name (get_metadata_path cfg path) (get_absolute_path cfg path) ≡ false) where
  pub open_stored :
      (large : Bool) (flags : ℕ) (bytes : List ℕ) (s : Globals os.World)
      → IsStored cfg path large bytes (rel.disk s.world)
      → bit_and flags o_trunc ≡ 0
      → (fd o : ℕ) × (s' : Globals os.World) × (cloudfs_open os cfg path flags s
          ≡ ((ok 0, some (record { fd = fd; proxy = large; dirty = false })), s'))
        × (rel.disk s'.world
            ≡ put_node
                (get_absolute_path cfg path)
                (some (regular (kept large bytes) o))
                (rel.disk s.world))
        × (rel.fd_file s'.world fd ≡ get_absolute_path cfg path)
        × (rel.fd_flags s'.world fd ≡ flags)
  open_stored true flags bytes s h t =
      cloudfs_open_lem os rel cfg path s flags (some bytes) (rel.held_room s.world _ _ h.0) h.2 t
  open_stored false flags bytes s h t =
      cloudfs_open_lem os rel cfg path s flags none (rel.held_room s.world _ _ h.0.1) h.2 t

  -- A file in the cloud has its record in a directory.
  pub room_beside_link :
      (bytes : List ℕ) (s : Globals os.World)
      → ltb cfg.threshold (length bytes) ≡ true
      → Stored cfg path bytes (rel.disk s.world)
      → (rel.disk s.world).room (get_metadata_path cfg path) ≡ true
  room_beside_link bytes s large h =
      rel.held_room s.world _ _
        (subst (λ l. IsStored cfg path l bytes (rel.disk s.world)) large h).1.1

  session_on :
      (large : Bool) (flags : ℕ) (bytes : List ℕ) (ws : Writes) (s : Globals os.World)
      → ltb cfg.threshold (length bytes) ≡ large
      → (rel.disk s.world).room (get_metadata_path cfg path) ≡ true
      → IsStored cfg path large bytes (rel.disk s.world)
      → bit_and flags o_trunc ≡ 0
      → CanWrite flags
      → (s' : Globals os.World) × (session os cfg path flags ws s ≡ (some (counts ws, ok 0), s'))
        × Stored cfg path (all_written (kept large bytes) ws) (rel.disk s'.world)
        × SameElsewhere cfg path (rel.disk s.world) (rel.disk s'.world)
  session_on large flags bytes ws s l room h t can =
      let local = get_absolute_path cfg path in
      let d = rel.disk s.world in
      let found = kept large bytes in
      let final = all_written found ws in
      let (fd, o1, s1, e1, d1, f1, m1) = open_stored large flags bytes s h t in
      let fh : Fh = record { fd = fd; proxy = large; dirty = false } in
      let fh' : Fh = record { fd = fd; proxy = large; dirty = large && any_write ws } in
      let (o2, s2, e2, d2, f2, m2) =
        write_all_lem os rel cfg path fh local flags o1 found ws s1 f1 m1
          (ap (λ e. e.node local) d1 ∙ at-same local _ d.node) can in
      let d2' : rel.disk s2.world ≡ put_node local (some (regular final o2)) d =
        d2 ∙ ap (put_node local _) d1 ∙ put_node-put_node local _ d _ in
      let (s3, e3, d3) =
        cloudfs_release_lem os rel cfg path s2 final o2
          (ap (λ e. e.node local) d2' ∙ at-same local _ d.node) apart fh'
          (subst (HasMetadata large (get_metadata_path cfg path)) (sym d2')
            (stored_metadata cfg path apart large bytes d (some (regular final o2)) room h)) in
      let large' = ltb cfg.threshold (length final) in
      (
        s3,
        session_by os cfg path flags ws fh fh' (counts ws) s s1 s2 s3 e1
            (e2 ∙ ap (λ x. ((counts ws, x), s2)) (wrote_all_lem fd large ws)) e3,
        subst (Stored cfg path final)
            (sym (d3 ∙ ap (released cfg path large (large && any_write ws) large' final o2) d2'))
            (released-IsStored cfg path apart large (large && any_write ws) large' bytes final o2 d
              h (clean_writes large large' bytes ws cfg.threshold l refl)),
        subst (SameElsewhere cfg path d)
            (sym (d3 ∙ ap (released cfg path large (large && any_write ws) large' final o2) d2'))
            (changed_twice cfg path (local_elsewhere cfg path (some (regular final o2)) d)
              (released_elsewhere cfg path large (large && any_write ws) large' final o2 _)),
      )

  -- On a system whose calls have their documented effects (IsReliable), with a path whose metadata
  -- path is not its local path and is in a directory that exists: a session (open for writing
  -- without O_TRUNC and O_APPEND, any writes, release) on a stored file returns the counts of the
  -- writes and 0, and leaves the file stored with the writes done, as an object, a record and a
  -- link if it is above the threshold and as a local file alone if not. The writes go onto the
  -- bytes of before if these are more than the threshold, and onto an empty file if not. What is
  -- stored under other names stays.
  pub session-Stored :
      (flags : ℕ) (bytes : List ℕ) (ws : Writes) (s : Globals os.World)
      → (rel.disk s.world).room (get_metadata_path cfg path) ≡ true
      → Stored cfg path bytes (rel.disk s.world)
      → bit_and flags o_trunc ≡ 0
      → CanWrite flags
      → (s' : Globals os.World) × (session os cfg path flags ws s ≡ (some (counts ws, ok 0), s'))
        × Stored cfg path
            (all_written (kept (ltb cfg.threshold (length bytes)) bytes) ws)
            (rel.disk s'.world)
        × SameElsewhere cfg path (rel.disk s.world) (rel.disk s'.world)
  session-Stored flags bytes ws s room h t can = session_on _ flags bytes ws s refl room h t can
