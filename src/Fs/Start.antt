-- ===== src/Fs/Start.antt =====
-- cloudfs/cloudfs.c: what runs before and after the requests, and `main` of cloudfs/main.c. The
-- log and the message at the start are left out. Where a `strcpy` overruns its array, the model
-- stops.
pub mod Mounted
use cloudfs.Base.{ℕ, ◌*◌, ◌&&◌, ltb, if◌then◌else◌, length, Option, none, some, List, [], ◌∷◌}
use cloudfs.Fs.Names.{FilePath}
use cloudfs.Fs.Os.{Os, Call}
use cloudfs.Fs.State.{M, Globals, ◌>>=◌, ◌>>◌, give, run, on}
use cloudfs.Fs.Options.{CloudfsState, on_parsed, parse_arguments}
use cloudfs.Fs.Dirs.{mkdir_if_not_exist}
use cloudfs.Fs.Buckets.{Text, BucketCalls, s3_init, s3_list_service}

-- The RPC client, libs3's end, and FUSE, which serves requests until the unmount.
pub record StartCalls (W : Type 0) : Type 0 where
  pub clnt_create : Call W ℕ
  -- `clnt_control` with CLSET_TIMEOUT and CLSET_RETRY_TIMEOUT, in microseconds.
  pub set_timeout : ℕ → ℕ → W → W
  pub set_retry_timeout : ℕ → ℕ → W → W
  pub clnt_destroy : ℕ → W → W
  pub deinitialize : W → W
  pub fuse_main : CloudfsState → List Text → W → ℕ × W

-- How `main` ends: by the exit on an unknown option, in the return after FUSE, or, with nothing more
-- known, in an overrun.
pub data Ending : Type 0 where
  exited : Ending
  overran : Ending
  returned : Ending

abbrev pub retry_time : ℕ
retry_time = 100000

module _ (os : Os) (s3 : BucketCalls os.World) (calls : StartCalls os.World) where
  -- `cloudfs_init` with the client; `none` is the exit without one. `enoent`, the mode and the
  -- name of the bucket are constants.
  unfoldable pub cloudfs_init : CloudfsState → ℕ → ℕ → Text → M os.World (Option ℕ)
  cloudfs_init state enoent mode my_bucket = do
    created ← run calls.clnt_create
    on created (give none) (λ client. do
      run (λ w. (tt, calls.set_timeout client (60 * 1000000) w))
      run (λ w. (tt, calls.set_retry_timeout client retry_time w))
      mkdir_if_not_exist os state.metadata_path enoent mode
      s3_init os s3 state.hostname my_bucket
      s3_list_service os s3
      give (some client))

  -- `cloudfs_destroy`
  unfoldable pub cloudfs_destroy : ℕ → M os.World (Unit {0})
  cloudfs_destroy client = do
    run (λ w. (tt, calls.clnt_destroy client w))
    run (λ w. (tt, calls.deinitialize w))

  -- `cloudfs_start`. The names are copied into 128 and 1024 bytes; `none` is an overrun of them.
  unfoldable pub cloudfs_start : CloudfsState → Text → M os.World (Option ℕ)
  cloudfs_start state fuse_runtime_name =
      if ltb (length fuse_runtime_name) 128 && ltb (length state.fuse_path) 1024
      then (do
        status ←
            run (
              calls.fuse_main state (fuse_runtime_name ∷ state.fuse_path ∷ (b'-' ∷ b's' ∷ []) ∷ []))
        give (some status))
      else give none

  -- `main` of cloudfs/main.c.
  unfoldable pub run_cloudfs : (List ℕ → ℕ) → Text → List (ℕ × List ℕ) → M os.World Ending
  run_cloudfs atoi argv0 options =
      on_parsed (parse_arguments atoi options) (give exited) (give overran) (λ state. do
        status ← cloudfs_start state argv0
        on status (give overran) (λ n. give returned))
