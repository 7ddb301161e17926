-- ===== src/Fs/Files/Shared.antt =====
-- Two machines that run cloudfs/cloudfs.c on one object store, each with a disk of its own.
use mathlib.Core.Path.{subst}
use cloudfs.Base.{ℕ, ◌≡◌, ap, ◌∙◌, bit_and, true, false, ltb, some, List, length}
use cloudfs.Fs.Names.{FilePath, Config, same_name, get_key, get_absolute_path, get_metadata_path}
use cloudfs.Fs.Os.{Os}
use cloudfs.Fs.State.{Globals, ok}
use cloudfs.Fs.Disk.{Disk}
use cloudfs.Fs.Laws.{IsReliable, o_trunc, CanRead, CanWrite}
use cloudfs.Fs.Files.Write.{Writes, all_written, counts}
use cloudfs.Fs.Files.Stored.{IsStored, Stored, kept, session, session-Stored}
use cloudfs.Fs.Files.Reading.{Reads, Reads-object}

large_object :
    (cfg : Config) (path : FilePath) (bytes : List ℕ) (d : Disk)
    → ltb cfg.threshold (length bytes) ≡ true
    → Stored cfg path bytes d
    → d.object (get_key path) ≡ some bytes
large_object cfg path bytes d large h =
    let found : IsStored cfg path true bytes d = subst (λ l. IsStored cfg path l bytes d) large h in
    found.2

module _ (os os' : Os) (rel : IsReliable os) (rel' : IsReliable os') (cfg cfg' : Config)
    (path : FilePath)
    (apart : same_name (get_metadata_path cfg path) (get_absolute_path cfg path) ≡ false)
    (apart' : same_name (get_metadata_path cfg' path) (get_absolute_path cfg' path) ≡ false)
    (s : Globals os.World) (t : Globals os'.World) where
  -- On two systems whose calls have their documented effects (IsReliable), each with settings
  -- under which the metadata path of this path is not its local path: let a file be stored on the
  -- first, with a metadata path in a directory that exists, and let the writes of a session there
  -- (open for writing without O_TRUNC and O_APPEND, then `cloudfs_write`, then `cloudfs_release`)
  -- leave bytes that are more than the threshold. If the second has the objects of the first after
  -- that session, whatever is on its disk but for a directory for the local path, then an open for
  -- reading without O_TRUNC on it and a `cloudfs_read` at any offset give these bytes. The session
  -- returns the counts and 0.
  pub Reads-session :
      (bytes : List ℕ) (flags flags' size offset : ℕ) (ws : Writes)
      → (rel.disk s.world).room (get_metadata_path cfg path) ≡ true
      → (rel'.disk t.world).room (get_absolute_path cfg' path) ≡ true
      → Stored cfg path bytes (rel.disk s.world)
      → bit_and flags o_trunc ≡ 0
      → CanWrite flags
      → bit_and flags' o_trunc ≡ 0
      → CanRead flags'
      → ltb cfg.threshold (length (all_written (kept (ltb cfg.threshold (length bytes)) bytes) ws))
        ≡ true
      → (rel'.disk t.world).object ≡ (rel.disk (session os cfg path flags ws s).1.world).object
      → ((session os cfg path flags ws s).0 ≡ some (counts ws, ok 0))
        × Reads os' rel' cfg' path apart' t flags' size offset
            (all_written (kept (ltb cfg.threshold (length bytes)) bytes) ws)
  Reads-session bytes flags flags' size offset ws room room' h no_trunc can no_trunc' can' large
        shared =
      let final = all_written (kept (ltb cfg.threshold (length bytes)) bytes) ws in
      let (s1, e1, stored, same) =
        session-Stored os rel cfg path apart flags bytes ws s room h no_trunc can in
      (
        ap (λ r. r.0) e1,
        Reads-object os' rel' cfg' path apart' t flags' size offset (some final) room'
            (ap (λ f. f (get_key path)) (shared ∙ ap (λ r. (rel.disk r.1.world).object) e1)
              ∙ large_object cfg path final (rel.disk s1.world) large stored)
            no_trunc' can',
      )
