-- ===== src/Fs/Files/Write.antt =====
-- `cloudfs_write` and `cloudfs_read` of cloudfs/cloudfs.c on an open file, and several writes in a
-- row.
use mathlib.Core.Path.{subst}
use cloudfs.Base.{ℕ, ◌≡◌, refl, sym, ap, ◌∙◌, Bool, true, false, ◌||◌, ◌&&◌, some, List, [], ◌∷◌}
use cloudfs.Base.{length, take, drop, if◌then◌else◌}
use cloudfs.Fs.Names.{FilePath, Config}
use cloudfs.Fs.Os.{Os}
use cloudfs.Fs.State.{M, Globals, Ret, ok}
use cloudfs.Fs.Disk.{regular, put_node}
use cloudfs.Fs.Disk.Updates.{at-same, put_node-put_node, put_node-id}
use cloudfs.Fs.Laws.{IsReliable, overwrite, CanRead, CanWrite}
use cloudfs.Fs.Files.{Fh, cloudfs_read, cloudfs_write}

-- Writes, each an offset and the bytes.
abbrev pub Writes : Type 0
Writes = List (ℕ × List ℕ)

-- What the bytes of a file become.
abbrev pub all_written : List ℕ → Writes → List ℕ
all_written bytes [] = bytes
all_written bytes ((offset, buf) ∷ ws) = all_written (overwrite bytes offset buf) ws

abbrev pub any_write : Writes → Bool
any_write [] = false
any_write (x ∷ ws) = true

-- The handle of a file of the cloud gets dirty by a write.
abbrev pub wrote : Fh → Fh
wrote fh = record fh { dirty = fh.proxy || fh.dirty }

abbrev pub wrote_all : Fh → Writes → Fh
wrote_all fh [] = fh
wrote_all fh (x ∷ ws) = wrote_all (wrote fh) ws

abbrev pub counts : Writes → List Ret
counts [] = []
counts ((offset, buf) ∷ ws) = ok (length buf) ∷ counts ws

still_dirty :
    (fd : ℕ) (ws : Writes)
    → wrote_all (record { fd = fd; proxy = true; dirty = true }) ws
      ≡ record { fd = fd; proxy = true; dirty = true }
still_dirty fd [] = refl
still_dirty fd (x ∷ ws) = still_dirty fd ws

pub wrote_all_lem :
    (fd : ℕ) (proxy : Bool) (ws : Writes)
    → wrote_all (record { fd = fd; proxy = proxy; dirty = false }) ws
      ≡ record { fd = fd; proxy = proxy; dirty = proxy && any_write ws }
wrote_all_lem fd true [] = refl
wrote_all_lem fd true (x ∷ ws) = still_dirty fd ws
wrote_all_lem fd false [] = refl
wrote_all_lem fd false (x ∷ ws) = wrote_all_lem fd false ws

module _ (os : Os) (cfg : Config) (path : FilePath) where
  -- The calls of `cloudfs_write` that FUSE makes for them, with their results and the last handle.
  unfoldable pub write_all : Fh → Writes → M os.World (List Ret × Fh)
  write_all fh [] s = (([], fh), s)
  write_all fh ((offset, buf) ∷ ws) s =
      let ((r, fh'), s') = cloudfs_write os cfg path fh buf offset s in
      let ((rs, fh''), s'') = write_all fh' ws s' in ((r ∷ rs, fh''), s'')

  marked : (fh : Fh) → (if fh.proxy then record fh { dirty = true } else fh) ≡ wrote fh
  marked fh = by_proxy fh.fd fh.proxy fh.dirty
    where
      by_proxy :
          (fd : ℕ) (proxy dirty : Bool)
          → (let fh' : Fh = record { fd = fd; proxy = proxy; dirty = dirty } in
              (if proxy then record fh' { dirty = true } else fh') ≡ wrote fh')
      by_proxy fd true dirty = refl
      by_proxy fd false dirty = refl

  writing :
      (fh : Fh) (buf : List ℕ) (offset n : ℕ) (s : Globals os.World) (w' : os.World)
      → os.pwrite fh.fd buf offset s.world ≡ (some n, w')
      → cloudfs_write os cfg path fh buf offset s
        ≡ ((ok n, if fh.proxy then record fh { dirty = true } else fh), record s { world = w' })
  unfolding cloudfs_write
  writing fh buf offset n s w' e = rw e refl

  reading :
      (fh : Fh) (size offset : ℕ) (bytes : List ℕ) (s : Globals os.World) (w' : os.World)
      → os.pread fh.fd size offset s.world ≡ (some bytes, w')
      → cloudfs_read os cfg path fh size offset s
        ≡ ((ok (length bytes), bytes), record s { world = w' })
  unfolding cloudfs_read
  reading fh size offset bytes s w' e = rw e refl

  more_writing :
      (fh fh1 fh2 : Fh) (buf : List ℕ) (offset : ℕ) (ws : Writes) (r : Ret) (rs : List Ret)
      (s s1 s2 : Globals os.World)
      → cloudfs_write os cfg path fh buf offset s ≡ ((r, fh1), s1)
      → write_all fh1 ws s1 ≡ ((rs, fh2), s2)
      → write_all fh ((offset, buf) ∷ ws) s ≡ ((r ∷ rs, fh2), s2)
  unfolding write_all
  more_writing fh fh1 fh2 buf offset ws r rs s s1 s2 e e' = rw (e, e') refl

  no_writing : (fh : Fh) (s : Globals os.World) → write_all fh [] s ≡ (([], fh), s)
  unfolding write_all
  no_writing fh s = refl

module _ (os : Os) (rel : IsReliable os) (cfg : Config) (path : FilePath) where
  pub cloudfs_write_lem :
      (fh : Fh) (p : FilePath) (flags offset o : ℕ) (bytes buf : List ℕ) (s : Globals os.World)
      → rel.fd_file s.world fh.fd ≡ p
      → rel.fd_flags s.world fh.fd ≡ flags
      → (rel.disk s.world).node p ≡ some (regular bytes o)
      → CanWrite flags
      → (o' : ℕ) × (s' : Globals os.World) × (cloudfs_write os cfg path fh buf offset s
          ≡ ((ok (length buf), wrote fh), s'))
        × (rel.disk s'.world
            ≡ put_node p (some (regular (overwrite bytes offset buf) o')) (rel.disk s.world))
        × (rel.fd_file s'.world fh.fd ≡ p)
        × (rel.fd_flags s'.world fh.fd ≡ flags)
  cloudfs_write_lem fh p flags offset o bytes buf s f m h can =
      let (o', w', e, d, f', m') =
        rel.pwrite_regular s.world fh.fd offset o bytes buf (ap (rel.disk s.world).node f ∙ h)
          (subst CanWrite (sym m) can) in
      (
        o',
        record s { world = w' },
        writing os cfg path fh buf offset (length buf) s w' e
            ∙ ap (λ x. ((ok (length buf), x), record s { world = w' })) (marked os cfg path fh),
        d
            ∙ ap
                (λ q.
                  put_node q (some (regular (overwrite bytes offset buf) o')) (rel.disk s.world))
                f,
        f' ∙ f,
        m' ∙ m,
      )

  pub cloudfs_read_lem :
      (fh : Fh) (p : FilePath) (flags size offset o : ℕ) (bytes : List ℕ) (s : Globals os.World)
      → rel.fd_file s.world fh.fd ≡ p
      → rel.fd_flags s.world fh.fd ≡ flags
      → (rel.disk s.world).node p ≡ some (regular bytes o)
      → CanRead flags
      → (s' : Globals os.World) × (cloudfs_read os cfg path fh size offset s
          ≡ ((ok (length (take size (drop offset bytes))), take size (drop offset bytes)), s'))
        × (rel.disk s'.world ≡ rel.disk s.world)
  cloudfs_read_lem fh p flags size offset o bytes s f m h can =
      let (w', e, d, f', m') =
        rel.pread_regular s.world fh.fd size offset o bytes (ap (rel.disk s.world).node f ∙ h)
          (subst CanRead (sym m) can) in
      (record s { world = w' }, reading os cfg path fh size offset _ s w' e, d)

  pub write_all_lem :
      (fh : Fh) (p : FilePath) (flags o : ℕ) (bytes : List ℕ) (ws : Writes) (s : Globals os.World)
      → rel.fd_file s.world fh.fd ≡ p
      → rel.fd_flags s.world fh.fd ≡ flags
      → (rel.disk s.world).node p ≡ some (regular bytes o)
      → CanWrite flags
      → (o' : ℕ) × (s' : Globals os.World) × (write_all os cfg path fh ws s
          ≡ ((counts ws, wrote_all fh ws), s'))
        × (rel.disk s'.world
            ≡ put_node p (some (regular (all_written bytes ws) o')) (rel.disk s.world))
        × (rel.fd_file s'.world fh.fd ≡ p)
        × (rel.fd_flags s'.world fh.fd ≡ flags)
  write_all_lem fh p flags o bytes [] s f m h can =
      (o, s, no_writing os cfg path fh s, sym (put_node-id p _ (rel.disk s.world) h), f, m)
  write_all_lem fh p flags o bytes ((offset, buf) ∷ ws) s f m h can =
      let (o1, s1, e1, d1, f1, m1) = cloudfs_write_lem fh p flags offset o bytes buf s f m h can in
      let (o2, s2, e2, d2, f2, m2) =
        write_all_lem (wrote fh) p flags o1 (overwrite bytes offset buf) ws s1 f1 m1
          (ap (λ d. d.node p) d1 ∙ at-same p _ (rel.disk s.world).node) can in
      (
        o2,
        s2,
        more_writing os cfg path fh _ _ buf offset ws _ _ s s1 s2 e1 e2,
        d2 ∙ ap (put_node p _) d1 ∙ put_node-put_node p _ (rel.disk s.world) _,
        f2,
        m2,
      )
