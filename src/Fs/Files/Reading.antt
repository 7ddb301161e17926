-- ===== src/Fs/Files/Reading.antt =====
-- What a reader of cloudfs/cloudfs.c gets of a stored file.
use mathlib.Core.Path.{subst}
use cloudfs.Base.{
  ℕ, ◌≡◌, ap, ◌∙◌, bit_and, true, false, ltb, Option, some, List, length, take, drop,
}
use cloudfs.Fs.Names.{FilePath, Config, same_name, get_key, get_absolute_path, get_metadata_path}
use cloudfs.Fs.Os.{Os}
use cloudfs.Fs.State.{Globals, ok}
use cloudfs.Fs.Disk.Updates.{at-same}
use cloudfs.Fs.Laws.{IsReliable, o_trunc, CanRead, CanWrite}
use cloudfs.Fs.Files.{Fh, cloudfs_open, cloudfs_read}
use cloudfs.Fs.Files.Open.{present, bytes_of, cloudfs_open_lem}
use cloudfs.Fs.Files.Write.{Writes, all_written, counts, cloudfs_read_lem}
use cloudfs.Fs.Files.Stored.{Stored, kept, open_stored, room_beside_link, session, session-Stored}

abbrev pub slice : ℕ → ℕ → List ℕ → List ℕ
slice size offset bytes = take size (drop offset bytes)

module _ (os : Os) (rel : IsReliable os) (cfg : Config) (path : FilePath)
    (apart : same_name (get_metadata_path cfg path) (get_absolute_path cfg path) ≡ false)
    (s : Globals os.World) where
  -- A reader that opens a file and reads at an offset gets `bytes` there.
  abbrev pub Reads : ℕ → ℕ → ℕ → List ℕ → Type 0
  Reads flags size offset bytes =
      (fh : Fh) × (s1 s2 : Globals os.World) × (cloudfs_open os cfg path flags s
        ≡ ((ok 0, some fh), s1))
      × (cloudfs_read os cfg path fh size offset s1
          ≡ ((ok (length (slice size offset bytes)), slice size offset bytes), s2))

  -- Whatever is at the local name, a reader gets the object, or an empty file if there is none.
  pub Reads-object :
      (flags size offset : ℕ) (object : Option (List ℕ))
      → (rel.disk s.world).room (get_absolute_path cfg path) ≡ true
      → (rel.disk s.world).object (get_key path) ≡ object
      → bit_and flags o_trunc ≡ 0
      → CanRead flags
      → Reads flags size offset (bytes_of object)
  Reads-object flags size offset object room h t can =
      let local = get_absolute_path cfg path in
      let (fd, o, s1, e1, d1, f1, m1) = cloudfs_open_lem os rel cfg path s flags object room h t in
      let fh : Fh = record { fd = fd; proxy = present object; dirty = false } in
      let (s2, e2, d2) =
        cloudfs_read_lem os rel cfg path fh local flags size offset o (bytes_of object) s1 f1 m1
          (ap (λ e. e.node local) d1 ∙ at-same local _ (rel.disk s.world).node) can in
      (fh, s1, s2, e1, e2)

  pub cloudfs_read-cloudfs_open :
      (flags size offset : ℕ) (bytes : List ℕ)
      → Stored cfg path bytes (rel.disk s.world)
      → bit_and flags o_trunc ≡ 0
      → CanRead flags
      → Reads flags size offset (kept (ltb cfg.threshold (length bytes)) bytes)
  cloudfs_read-cloudfs_open flags size offset bytes h t can =
      let local = get_absolute_path cfg path in
      let large = ltb cfg.threshold (length bytes) in
      let (fd, o, s1, e1, d1, f1, m1) = open_stored os rel cfg path apart large flags bytes s h t in
      let fh : Fh = record { fd = fd; proxy = large; dirty = false } in
      let (s2, e2, d2) =
        cloudfs_read_lem os rel cfg path fh local flags size offset o (kept large bytes) s1 f1 m1
          (ap (λ e. e.node local) d1 ∙ at-same local _ (rel.disk s.world).node) can in
      (fh, s1, s2, e1, e2)

module _ (os : Os) (rel : IsReliable os) (cfg : Config) (path : FilePath)
    (apart : same_name (get_metadata_path cfg path) (get_absolute_path cfg path) ≡ false)
    (s : Globals os.World) where
  -- On a system whose calls have their documented effects (IsReliable), with a path whose metadata
  -- path is not its local path: let a file be stored as bytes that are more than the threshold,
  -- and let the writes of a session (open for writing without O_TRUNC and O_APPEND, then
  -- `cloudfs_write`, then `cloudfs_release`) leave bytes that are more than the threshold too.
  -- Then the session returns the counts and 0, and an open for reading after it and a
  -- `cloudfs_read` at any offset give the bytes written there, and those of before where none were
  -- written.
  pub cloudfs_read-session :
      (bytes : List ℕ) (flags flags' size offset : ℕ) (ws : Writes)
      → Stored cfg path bytes (rel.disk s.world)
      → bit_and flags o_trunc ≡ 0
      → CanWrite flags
      → bit_and flags' o_trunc ≡ 0
      → CanRead flags'
      → ltb cfg.threshold (length bytes) ≡ true
      → ltb cfg.threshold (length (all_written bytes ws)) ≡ true
      → (s' : Globals os.World) × (session os cfg path flags ws s ≡ (some (counts ws, ok 0), s'))
        × Reads os rel cfg path apart s' flags' size offset (all_written bytes ws)
  cloudfs_read-session bytes flags flags' size offset ws h t can t' can' large large' =
      let final = all_written bytes ws in
      let (s', e, h', same) =
        session-Stored os rel cfg path apart flags bytes ws s
          (room_beside_link os rel cfg path apart bytes s large h) h t can in
      let h'' : Stored cfg path final (rel.disk s'.world) =
        subst (λ l. Stored cfg path (all_written (kept l bytes) ws) (rel.disk s'.world)) large h' in
      (
        s',
        e,
        subst (λ l. Reads os rel cfg path apart s' flags' size offset (kept l final)) large'
            (cloudfs_read-cloudfs_open os rel cfg path apart s' flags' size offset final h'' t'
              can'),
      )
