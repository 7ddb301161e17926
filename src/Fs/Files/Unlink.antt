-- ===== src/Fs/Files/Unlink.antt =====
-- `cloudfs_mknod` and `cloudfs_unlink` of cloudfs/cloudfs.c: the beginning and the end of a file.
use mathlib.Core.Path.{subst}
use cloudfs.Base.{
  ℕ, ◌≡◌, refl, sym, ap, ◌∙◌, arith, bit_and, Bool, true, false, ltb, none, some, List, [],
}
use cloudfs.Fs.Names.{FilePath, Config, same_name, get_key, get_absolute_path, get_metadata_path}
use cloudfs.Fs.Os.{Os}
use cloudfs.Fs.State.{Globals, ok}
use cloudfs.Fs.Disk.{Disk, HasRoom, regular, saved, link, put_node, put_object}
use cloudfs.Fs.Disk.Updates.{at-same, at-other, same_name_sym}
use cloudfs.Fs.Laws.{IsReliable, o_trunc, CanWrite}
use cloudfs.Fs.Cloud.{s3_delete}
use cloudfs.Fs.Files.{is_fifo, cloudfs_mknod, cloudfs_unlink}
use cloudfs.Fs.Files.Elsewhere.{
  SameElsewhere, room_elsewhere, changed_twice, local_elsewhere, forgotten_elsewhere,
}
use cloudfs.Fs.Files.Release.{forgotten, s3_delete_lem}
use cloudfs.Fs.Files.Write.{Writes, all_written, counts}
use cloudfs.Fs.Files.Stored.{IsStored, Stored, kept, session, session-Stored}

module _ (cfg : Config) (path : FilePath) where
  -- No local file, no record and no object.
  abbrev pub IsAbsent : Disk → Type 0
  IsAbsent d =
      (d.node (get_absolute_path cfg path) ≡ none)
      × (d.node (get_metadata_path cfg path) ≡ none)
      × (d.object (get_key path) ≡ none)

module _ (os : Os) (cfg : Config) (path : FilePath) (s : Globals os.World) where
  unlinking :
      (s2 : Globals os.World) (w1 w3 w4 : os.World)
      → os.access (get_metadata_path cfg path) 0 s.world ≡ (some tt, w1)
      → s3_delete os cfg path (record s { world = w1 }) ≡ (tt, s2)
      → os.unlink (get_metadata_path cfg path) s2.world ≡ (some tt, w3)
      → os.unlink (get_absolute_path cfg path) w3 ≡ (some tt, w4)
      → cloudfs_unlink os cfg path s ≡ (ok 0, record s2 { world = w4 })
  unfolding cloudfs_unlink
  unlinking s2 w1 w3 w4 e1 e2 e3 e4 = rw (e1, e2, e3, e4) refl

  unlinking_local :
      (w1 w4 : os.World)
      → os.access (get_metadata_path cfg path) 0 s.world ≡ (none, w1)
      → os.unlink (get_absolute_path cfg path) w1 ≡ (some tt, w4)
      → cloudfs_unlink os cfg path s ≡ (ok 0, record s { world = w4 })
  unfolding cloudfs_unlink
  unlinking_local w1 w4 e1 e4 = rw (e1, e4) refl

  making :
      (mode dev : ℕ) (w1 : os.World)
      → is_fifo mode ≡ false
      → os.mknod (get_absolute_path cfg path) mode dev s.world ≡ (some tt, w1)
      → cloudfs_mknod os cfg path mode dev s ≡ (ok 0, record s { world = w1 })
  unfolding cloudfs_mknod
  making mode dev w1 h e = rw (h, e) refl

regular_mode : (mode : ℕ) → bit_and mode 0o170000 ≡ 0o100000 → is_fifo mode ≡ false
unfolding is_fifo
regular_mode mode h = rw h refl

module _ (os : Os) (rel : IsReliable os) (cfg : Config) (path : FilePath)
    (apart : same_name (get_metadata_path cfg path) (get_absolute_path cfg path) ≡ false)
    (s : Globals os.World) where
  unlink_stored :
      (large : Bool) (bytes : List ℕ)
      → (rel.disk s.world).room (get_metadata_path cfg path) ≡ true
      → IsStored cfg path large bytes (rel.disk s.world)
      → (s' : Globals os.World) × (cloudfs_unlink os cfg path s ≡ (ok 0, s'))
        × IsAbsent cfg path (rel.disk s'.world)
        × SameElsewhere cfg path (rel.disk s.world) (rel.disk s'.world)
  unlink_stored true bytes room (there, (st, record_there, _), _) =
      let local = get_absolute_path cfg path in
      let meta = get_metadata_path cfg path in
      let d = rel.disk s.world in
      let (w1, e1, d1) = rel.access_there s.world meta st record_there in
      let (s2, e2, d2) = s3_delete_lem os rel cfg path (record s { world = w1 }) in
      let d2' = d2 ∙ ap (put_object (get_key path) none) d1 in
      let (w3, e3, d3) =
        rel.unlink_file s2.world meta (saved st) (ap (λ e. e.node meta) d2' ∙ record_there) in
      let d3' : rel.disk w3 ≡ forgotten cfg path d = d3 ∙ ap (put_node meta none) d2' in
      let (w4, e4, d4) =
        rel.unlink_file w3 local (link meta)
          (ap (λ e. e.node local) d3' ∙ at-other meta none d.node local apart ∙ there) in
      let d4' = d4 ∙ ap (put_node local none) d3' in
      (
        record s2 { world = w4 },
        unlinking os cfg path s s2 w1 w3 w4 e1 e2 e3 e4,
        subst (IsAbsent cfg path) (sym d4') (
          at-same local none (forgotten cfg path d).node,
          at-other local none (forgotten cfg path d).node meta (same_name_sym meta local ∙ apart)
              ∙ at-same meta none d.node,
          at-same (get_key path) none d.object,
        ),
        subst (SameElsewhere cfg path d) (sym d4') (
            changed_twice cfg path (forgotten_elsewhere cfg path d)
              (local_elsewhere cfg path none _)),
      )
  unlink_stored false bytes room ((o, there), no_record, no_object) =
      let local = get_absolute_path cfg path in
      let meta = get_metadata_path cfg path in
      let d = rel.disk s.world in
      let (w1, e1, d1) = rel.access_gone s.world meta room no_record in
      let (w4, e4, d4) =
        rel.unlink_file w1 local (regular bytes o) (ap (λ e. e.node local) d1 ∙ there) in
      (
        record s { world = w4 },
        unlinking_local os cfg path s w1 w4 e1 e4,
        subst (IsAbsent cfg path) (sym (d4 ∙ ap (put_node local none) d1)) (
          at-same local none d.node,
          at-other local none d.node meta (same_name_sym meta local ∙ apart) ∙ no_record,
          no_object,
        ),
        subst (SameElsewhere cfg path d) (sym (d4 ∙ ap (put_node local none) d1))
            (local_elsewhere cfg path none d),
      )

  -- On a system whose calls have their documented effects (IsReliable), with a path whose metadata
  -- path is not its local path and is in a directory that exists: `cloudfs_unlink` of a stored
  -- file, above the threshold or not, returns 0 and leaves no local file, no record and no object
  -- of the path. What is stored under other names stays.
  pub cloudfs_unlink-IsAbsent :
      (bytes : List ℕ)
      → (rel.disk s.world).room (get_metadata_path cfg path) ≡ true
      → Stored cfg path bytes (rel.disk s.world)
      → (s' : Globals os.World) × (cloudfs_unlink os cfg path s ≡ (ok 0, s'))
        × IsAbsent cfg path (rel.disk s'.world)
        × SameElsewhere cfg path (rel.disk s.world) (rel.disk s'.world)
  cloudfs_unlink-IsAbsent bytes room h = unlink_stored _ bytes room h

  -- A new file is an empty one.
  pub cloudfs_mknod-Stored :
      (mode dev : ℕ)
      → bit_and mode 0o170000 ≡ 0o100000
      → HasRoom cfg path (rel.disk s.world)
      → IsAbsent cfg path (rel.disk s.world)
      → (s' : Globals os.World) × (cloudfs_mknod os cfg path mode dev s ≡ (ok 0, s'))
        × Stored cfg path [] (rel.disk s'.world)
        × SameElsewhere cfg path (rel.disk s.world) (rel.disk s'.world)
  cloudfs_mknod-Stored mode dev m (room, _) (no_file, no_record, no_object) =
      let local = get_absolute_path cfg path in
      let d = rel.disk s.world in
      let (o, w1, e1, d1) = rel.mknod_new s.world local mode dev room no_file m in
      let small : ltb cfg.threshold 0 ≡ false = ground arith in
      (
        record s { world = w1 },
        making os cfg path s mode dev w1 (regular_mode mode m) e1,
        subst (λ l. IsStored cfg path l [] (rel.disk w1)) (sym small)
            (subst (IsStored cfg path false []) (sym d1) (
              (o, at-same local _ d.node),
              at-other local _ d.node (get_metadata_path cfg path)
                    (same_name_sym (get_metadata_path cfg path) local ∙ apart)
                  ∙ no_record,
              no_object,
            )),
        subst (SameElsewhere cfg path d) (sym d1)
            (local_elsewhere cfg path (some (regular [] o)) d),
      )

nothing_kept : (large : Bool) → kept large [] ≡ []
nothing_kept true = refl
nothing_kept false = refl

module _ (os : Os) (rel : IsReliable os) (cfg : Config) (path : FilePath)
    (apart : same_name (get_metadata_path cfg path) (get_absolute_path cfg path) ≡ false)
    (s : Globals os.World) where
  -- On a system whose calls have their documented effects (IsReliable), with a path whose metadata
  -- path is not its local path: where there is no local file, record and object, and the
  -- directories of the two files exist (HasRoom), `cloudfs_mknod` of a regular file returns 0, and
  -- a session (open for writing without O_TRUNC and O_APPEND, any writes, release) after it
  -- returns the counts of the writes and 0 and leaves the file stored with the writes done on an
  -- empty file. What is stored under other names stays.
  pub session-cloudfs_mknod :
      (mode dev flags : ℕ) (ws : Writes)
      → bit_and mode 0o170000 ≡ 0o100000
      → HasRoom cfg path (rel.disk s.world)
      → IsAbsent cfg path (rel.disk s.world)
      → bit_and flags o_trunc ≡ 0
      → CanWrite flags
      → (s1 s2 : Globals os.World) × (cloudfs_mknod os cfg path mode dev s ≡ (ok 0, s1))
        × (session os cfg path flags ws s1 ≡ (some (counts ws, ok 0), s2))
        × Stored cfg path (all_written [] ws) (rel.disk s2.world)
        × SameElsewhere cfg path (rel.disk s.world) (rel.disk s2.world)
  session-cloudfs_mknod mode dev flags ws m room absent t can =
      let (s1, e1, h1, same1) =
        cloudfs_mknod-Stored os rel cfg path apart s mode dev m room absent in
      let (s2, e2, h2, same2) =
        session-Stored os rel cfg path apart flags [] ws s1 (room_elsewhere cfg path same1 room).1
          h1 t can in
      (
        s1,
        s2,
        e1,
        e2,
        subst (λ b. Stored cfg path (all_written b ws) (rel.disk s2.world)) (nothing_kept _) h2,
        changed_twice cfg path same1 same2,
      )
