-- ===== src/Fs/Start/Mounted.antt =====
-- What `main` of cloudfs/main.c mounts, and where.
use cloudfs.Base.{ℕ, ◌≡◌, ◌<◌, ◌&&◌, refl, arith, ltb, true, ◌∙◌, ap, sym}
use cloudfs.Base.{List, [], ◌∷◌, ◌++◌, length}
use mathlib.Core.Path.{subst}
use cloudfs.Fs.Os.{Os}
use cloudfs.Fs.State.{Globals}
use cloudfs.Fs.Options.{CloudfsState, parsed, unknown_option, default_state, parse_arguments}
use cloudfs.Fs.Options.Folded.{
  Accepted, is_unknown, last_given, apply_options_lem, apply_options_unknown,
}
use cloudfs.Fs.Buckets.{Text, BucketCalls}
use cloudfs.Fs.Start.{StartCalls, exited, returned, cloudfs_start, run_cloudfs}

module _ (atoi : List ℕ → ℕ) (os : Os) (s3 : BucketCalls os.World) (calls : StartCalls os.World)
    (argv0 : Text) (s : Globals os.World) where
  -- FUSE has run once on these settings, with its own name, the mount point and -s.
  abbrev pub after_fuse : CloudfsState → Text → Globals os.World
  after_fuse st mount_point = record s {
    world = (calls.fuse_main st (argv0 ∷ mount_point ∷ (b'-' ∷ b's' ∷ []) ∷ []) s.world).1;
  }

  fit : (a b : ℕ) → a < 128 → b < 1024 → (ltb a 128 && ltb b 1024) ≡ true
  fit a b h k = ground arith

  starting :
      (options : List (ℕ × List ℕ)) (st : CloudfsState)
      → parse_arguments atoi options ≡ parsed st
      → length argv0 < 128
      → length st.fuse_path < 1024
      → run_cloudfs os s3 calls atoi argv0 options s ≡ (returned, after_fuse st st.fuse_path)
  unfolding run_cloudfs cloudfs_start
  starting options st e h k = rw (e, fit (length argv0) (length st.fuse_path) h k) refl

  refusing :
      (options : List (ℕ × List ℕ))
      → parse_arguments atoi options ≡ unknown_option
      → run_cloudfs os s3 calls atoi argv0 options s ≡ (exited, s)
  unfolding run_cloudfs
  refusing options e = rw e refl

  -- Given options of the table of which the arguments of -s and -f are shorter than 4096 bytes and
  -- those of -h than 1024 (Accepted), a program name shorter than 128 bytes and a mount point,
  -- that is the argument of the last -f or the default, shorter than 1024: `main` of main.c runs
  -- FUSE once, on a state whose local directory is the argument of the last -s or the default,
  -- with its own name, the mount point and -s for a single thread, and returns. With an option of
  -- another letter after these, whatever follows it, `main` exits with the world as it was.
  pub run_cloudfs_lem :
      (options : List (ℕ × List ℕ)) (c : ℕ) (optarg : List ℕ) (more : List (ℕ × List ℕ))
      → Accepted options
      → is_unknown c ≡ true
      → length argv0 < 128
      → length (last_given b'f' options default_state.fuse_path) < 1024
      → ((st : CloudfsState) × (parse_arguments atoi options ≡ parsed st)
          × (st.ssd_path ≡ last_given b's' options default_state.ssd_path)
          × (run_cloudfs os s3 calls atoi argv0 options s
              ≡ (returned, after_fuse st (last_given b'f' options default_state.fuse_path))))
        × (run_cloudfs os s3 calls atoi argv0 (options ++ ((c, optarg) ∷ more)) s ≡ (exited, s))
  unfolding parse_arguments
  run_cloudfs_lem options c optarg more h u name path =
      let (st, e, ssd, fuse, metadata) = apply_options_lem atoi options default_state h in
      (
        (
          st,
          e,
          ssd,
          starting options st e name (subst (λ p. length p < 1024) (sym fuse) path)
              ∙ ap (λ p. (returned, after_fuse st p)) fuse,
        ),
        refusing (options ++ ((c, optarg) ∷ more))
            (apply_options_unknown atoi options c optarg more default_state h u),
      )
