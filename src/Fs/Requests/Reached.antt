-- ===== src/Fs/Requests/Reached.antt =====
-- What holds of the state of cloudfs/cloudfs.c after any requests, whatever the system answers.
use mathlib.Core.Path.{subst}
use cloudfs.Base.{
  ℕ, zero, suc, ◌+◌, ◌-◌, ◌%◌, ◌^◌, ◌<◌, ◌≤◌, ◌≡◌, refl, sym, ◌∙◌, arith, true, false, ◌==◌,
}
use cloudfs.Base.{
  Option, none, some, u32, Option-cases, Bool-cases, if-true, if-false, inl, inr, List, [], ◌∷◌,
}
use cloudfs.Fs.Names.{FilePath, Config}
use cloudfs.Fs.Os.{Os}
use cloudfs.Fs.State.{Globals, Ret}
use cloudfs.Fs.Files.{
  Fh, cloudfs_mknod, cloudfs_truncate, cloudfs_open, cloudfs_read, cloudfs_write, cloudfs_flush,
}
use cloudfs.Fs.Attrs.{
  cloudfs_getattr, cloudfs_fgetattr, cloudfs_getxattr, cloudfs_access, cloudfs_utimens,
  cloudfs_setxattr, cloudfs_listxattr, cloudfs_removexattr, cloudfs_rename, cloudfs_readlink,
  cloudfs_symlink, cloudfs_link, cloudfs_chmod, cloudfs_chown, cloudfs_statfs, cloudfs_fsync,
  cloudfs_ftruncate,
}
use cloudfs.Fs.Dirs.{
  fill_entries, cloudfs_readdir, cloudfs_releasedir, cloudfs_opendir, cloudfs_mkdir, cloudfs_rmdir,
}
use cloudfs.Fs.Requests.{
  with_fuel, FileRequest, do_release, PathRequest, do_unlink, do_readdir, Request, on_path, do_open,
  on_handle, Mount, serve_path, serve_file, serve, set_handle, add_handle, on_live, mounted,
}
use cloudfs.Fs.Requests.Versions.{cloudfs_release-Keeps, cloudfs_open-version, cloudfs_unlink-Keeps}

with_fuel-version :
    {W : Type 0} (r : Option Ret × Globals W) → (with_fuel r).1.version ≡ r.1.version
with_fuel-version (none, s) = refl
with_fuel-version (some r, s) = refl

module _ (os : Os) where
  fill_entries-version :
      (fuel dp : ℕ) (name : FilePath) (s : Globals os.World)
      → (fill_entries os fuel dp name s).1.version ≡ s.version
  unfolding fill_entries
  fill_entries-version zero dp name s = refl
  fill_entries-version (suc fuel) dp name s = grind (arith, fill_entries-version fuel dp)

  module _ (cfg : Config) (path : FilePath) where
    serve_path-version :
        (q : PathRequest) (s : Globals os.World)
        → (serve_path os cfg path q s).1.version ≡ s.version
    unfolding serve_path cloudfs_getattr cloudfs_rmdir cloudfs_opendir cloudfs_setxattr
        cloudfs_listxattr cloudfs_removexattr cloudfs_readlink cloudfs_statfs cloudfs_fsync
        cloudfs_mkdir cloudfs_truncate cloudfs_access cloudfs_utimens cloudfs_releasedir
        cloudfs_chmod cloudfs_ftruncate cloudfs_mknod cloudfs_readdir cloudfs_chown cloudfs_getxattr
        cloudfs_rename cloudfs_symlink cloudfs_link
    serve_path-version do_unlink s = cloudfs_unlink-Keeps os cfg path s
    serve_path-version (do_readdir fuel dp) s =
        let (first, w) = os.readdir dp s.world in
        let t : Globals os.World = record s { world = w } in
        with_fuel-version (cloudfs_readdir os fuel dp s) ∙ elim (Option-cases first) [
          | inl e ↦ rw e refl
          | inr (name, e) ↦ rw e (fill_entries-version fuel dp name t)
        ]
    serve_path-version q s = ground arith

    serve_file-version :
        (bad_fd : ℕ) (fh : Fh) (q : FileRequest) (s : Globals os.World)
        → (serve_file os cfg path bad_fd fh q s).1.version ≡ s.version
    unfolding serve_file cloudfs_read cloudfs_write cloudfs_flush cloudfs_fgetattr
    serve_file-version bad_fd fh do_release s = cloudfs_release-Keeps os cfg path fh s
    serve_file-version bad_fd fh q s = ground arith

    serve_file-dirty :
        (bad_fd : ℕ) (fh fh' : Fh) (q : FileRequest) (s : Globals os.World)
        → (fh.dirty ≡ true → fh.proxy ≡ true)
        → (serve_file os cfg path bad_fd fh q s).0.1 ≡ some fh'
        → fh'.dirty ≡ true
        → fh'.proxy ≡ true
    unfolding serve_file cloudfs_read cloudfs_write cloudfs_flush cloudfs_fgetattr
    serve_file-dirty bad_fd fh fh' q s h e d = ground arith

-- `opens` files were opened since the mount; every live handle has a number that was given out, and
-- is dirty only if its file came from the cloud.
pub record IsSound {W : Type 0} (opens : ℕ) (m : Mount W) : Type 0 where
  pub counted : m.globals.version ≡ (2 ^ 32 - 1 + opens) % 2 ^ 32
  pub given_out : (i : ℕ) (fh : Fh) → m.handles i ≡ some fh → i < m.next
  pub clean : (i : ℕ) (fh : Fh) → m.handles i ≡ some fh → fh.dirty ≡ true → fh.proxy ≡ true

-- The opens among requests.
abbrev pub opens_of : List Request → ℕ
opens_of [] = 0
opens_of (on_path path q ∷ qs) = opens_of qs
opens_of (do_open path flags ∷ qs) = suc (opens_of qs)
opens_of (on_handle path i q ∷ qs) = opens_of qs

module _ (os : Os) (cfg : Config) (bad_fd : ℕ) where
  unfoldable pub serve_all : List Request → Mount os.World → Mount os.World
  serve_all [] m = m
  serve_all (q ∷ qs) m = serve_all qs (serve os cfg bad_fd q m).1

  pub on_path-IsSound :
      (path : FilePath) (q : PathRequest) (n : ℕ) (m : Mount os.World)
      → IsSound n m
      → IsSound n (serve os cfg bad_fd (on_path path q) m).1
  unfolding serve
  on_path-IsSound path q n m h = record {
    counted = serve_path-version os cfg path q m.globals ∙ h.counted;
    given_out = h.given_out;
    clean = h.clean;
  }

  opened_clean :
      (path : FilePath) (flags : ℕ) (s : Globals os.World) (fh : Fh)
      → (cloudfs_open os cfg path flags s).0.1 ≡ some fh
      → fh.dirty ≡ false
  unfolding cloudfs_open
  opened_clean path flags s fh e = ground arith

  next_version :
      (v n : ℕ) → v ≡ (2 ^ 32 - 1 + n) % 2 ^ 32 → u32 (v + 1) ≡ (2 ^ 32 - 1 + suc n) % 2 ^ 32
  next_version v n e = omega arith

  set_handle-IsSound :
      (i n : ℕ) (fh : Option Fh) (m : Mount os.World) (t : Globals os.World) (next : ℕ)
      → t.version ≡ (2 ^ 32 - 1 + n) % 2 ^ 32
      → i < next
      → m.next ≤ next
      → ((j : ℕ) (f : Fh) → m.handles j ≡ some f → j < m.next)
      → ((j : ℕ) (f : Fh) → m.handles j ≡ some f → f.dirty ≡ true → f.proxy ≡ true)
      → ((f : Fh) → fh ≡ some f → f.dirty ≡ true → f.proxy ≡ true)
      → IsSound n (record { globals = t; handles = set_handle os cfg i fh m.handles; next = next })
  set_handle-IsSound i n fh m t next v below more given_out clean new = record {
    counted = v;
    given_out = λ j f e. elim (Bool-cases (i == j)) [
      | inl same ↦ ground arith
      | inr other ↦ ground (arith, given_out j f)
    ];
    clean = λ j f e d. elim (Bool-cases (i == j)) [
      | inl same ↦ new f (sym (if-true (i == j) fh (m.handles j) same) ∙ e) d
      | inr other ↦ clean j f (sym (if-false (i == j) fh (m.handles j) other) ∙ e) d
    ];
  }

  add_handle-IsSound :
      (fh : Option Fh) (r : Ret) (n : ℕ) (m : Mount os.World) (t : Globals os.World)
      → t.version ≡ (2 ^ 32 - 1 + n) % 2 ^ 32
      → ((j : ℕ) (f : Fh) → m.handles j ≡ some f → j < m.next)
      → ((j : ℕ) (f : Fh) → m.handles j ≡ some f → f.dirty ≡ true → f.proxy ≡ true)
      → ((f : Fh) → fh ≡ some f → f.dirty ≡ false)
      → IsSound n (add_handle os cfg fh r (record m { globals = t })).1
  add_handle-IsSound none r n m t v given_out clean new = record {
    counted = v;
    given_out = given_out;
    clean = clean;
  }
  add_handle-IsSound (some fh) r n m t v given_out clean new =
      set_handle-IsSound m.next n (some fh) m t (m.next + 1) v (omega arith) (omega arith) given_out
        clean (λ f e d. absurd (cc (new f e)))

  pub do_open-IsSound :
      (path : FilePath) (flags n : ℕ) (m : Mount os.World)
      → IsSound n m
      → IsSound (suc n) (serve os cfg bad_fd (do_open path flags) m).1
  unfolding serve
  do_open-IsSound path flags n m h =
      let (opened, s') = cloudfs_open os cfg path flags m.globals in
      add_handle-IsSound opened.1 opened.0 (suc n) m s'
        (cloudfs_open-version os cfg path flags m.globals ∙ next_version _ n h.counted) h.given_out
        h.clean (λ f e. opened_clean path flags m.globals f e)

  on_live-IsSound :
      (path : FilePath) (i : ℕ) (q : FileRequest) (n : ℕ) (m : Mount os.World) (fh : Option Fh)
      → m.handles i ≡ fh
      → IsSound n m
      → IsSound n (on_live os cfg path i bad_fd fh q m).1
  on_live-IsSound path i q n m none e h = h
  on_live-IsSound path i q n m (some fh) e h =
      let (reply, s') = serve_file os cfg path bad_fd fh q m.globals in
      set_handle-IsSound i n reply.1 m s' m.next
        (serve_file-version os cfg path bad_fd fh q m.globals ∙ h.counted) (h.given_out i fh e)
        (omega arith) h.given_out h.clean
        (λ f e'. serve_file-dirty os cfg path bad_fd fh f q m.globals (h.clean i fh e) e')

  pub on_handle-IsSound :
      (path : FilePath) (i : ℕ) (q : FileRequest) (n : ℕ) (m : Mount os.World)
      → IsSound n m
      → IsSound n (serve os cfg bad_fd (on_handle path i q) m).1
  unfolding serve
  on_handle-IsSound path i q n m h = on_live-IsSound path i q n m (m.handles i) refl h

  serve-IsSound :
      (q : Request) (qs : List Request) (n : ℕ) (m : Mount os.World)
      → IsSound n m
      → (k : ℕ) × IsSound k (serve os cfg bad_fd q m).1 × (k + opens_of qs ≡ n + opens_of (q ∷ qs))
  serve-IsSound (on_path path q) qs n m h = (n, on_path-IsSound path q n m h, refl)
  serve-IsSound (do_open path flags) qs n m h =
      (suc n, do_open-IsSound path flags n m h, omega arith)
  serve-IsSound (on_handle path i q) qs n m h = (n, on_handle-IsSound path i q n m h, refl)

  pub serve_all-IsSound :
      (qs : List Request) (n : ℕ) (m : Mount os.World)
      → IsSound n m
      → IsSound (n + opens_of qs) (serve_all qs m)
  unfolding serve_all
  serve_all-IsSound [] n m h = subst (λ k. IsSound k m) (omega arith) h
  serve_all-IsSound (q ∷ qs) n m h =
      let (k, h', e) = serve-IsSound q qs n m h in
      subst (λ j. IsSound j (serve_all qs (serve os cfg bad_fd q m).1)) e
        (serve_all-IsSound qs k (serve os cfg bad_fd q m).1 h')

  pub mounted-IsSound : (w : os.World) → IsSound 0 (mounted os cfg w)
  mounted-IsSound w = record {
    counted = refl;
    given_out = λ i fh e. absurd (cc);
    clean = λ i fh e d. absurd (cc);
  }

  -- Whatever the system answers, after any requests to a fresh mount: `version` is 2 ^ 32 - 1 plus
  -- the number of opens, modulo 2 ^ 32; the number of a live handle has been given out; and a live
  -- handle is dirty only if its file came from the cloud.
  pub serve_all_lem :
      (w : os.World) (qs : List Request) → IsSound (opens_of qs) (serve_all qs (mounted os cfg w))
  serve_all_lem w qs =
      subst (λ n. IsSound n (serve_all qs (mounted os cfg w))) (omega arith)
        (serve_all-IsSound qs 0 (mounted os cfg w) (mounted-IsSound w))
