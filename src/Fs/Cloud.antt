-- ===== src/Fs/Cloud.antt =====
-- cloudfs/s3_cloudfs.c, and the calls of cloud-lib/cloudapi.c that it makes. libs3 is taken to
-- call `responseCompleteCallback` once for each request, with the request's status.
pub mod Pieces
pub mod Put
pub mod Get
use cloudfs.Base.{ℕ, ◌-◌, Bool, true, false, not, Option, none, some, List, [], ◌∷◌, ◌++◌, length}
use cloudfs.Base.{ltb, ◌==◌, if◌then◌else◌}
use cloudfs.Fs.Names.{FilePath, Key, Config, get_key, get_absolute_path}
use cloudfs.Fs.Os.{Os, Stat, Status, status_ok, aborted_by_callback, failed}
use cloudfs.Fs.State.{M, ◌>>=◌, ◌>>◌, give, run}

-- A failed `lstat` leaves the size undetermined in C; the model takes 0.
abbrev pub size_of : Option Stat → ℕ
size_of none = 0
size_of (some st) = st.st_size

abbrev pub is_ok : Status → Bool
is_ok status_ok = true
is_ok aborted_by_callback = false
is_ok (failed n) = false

module _ (os : Os) where
  -- `responseCompleteCallback`; the text in `errorDetailsG` is only printed.
  abbrev pub response_complete : Status → M os.World (Unit {0})
  response_complete status s = (tt, record s { status_g = status })

  -- `getObjectDataCallback` with the filler `get_buffer`: whether the piece was written whole.
  unfoldable pub get_object_data_callback : Option ℕ → List ℕ → M os.World Bool
  get_object_data_callback outfile piece = do
    wrote ← run (os.fwrite outfile piece)
    give (if ltb wrote (length piece) then false else true)

  -- libs3 hands over the pieces until one is refused.
  unfoldable pub get_pieces : Option ℕ → List (List ℕ) → M os.World Bool
  get_pieces outfile [] s = (true, s)
  get_pieces outfile (piece ∷ pieces) s =
      let (taken, s') = get_object_data_callback outfile piece s in
      let rest = get_pieces outfile pieces s' in if taken then rest else (false, s')

  -- `cloud_get_object`
  unfoldable pub cloud_get_object : Key → Option ℕ → M os.World Status
  cloud_get_object key outfile = do
    (pieces, status) ← run (os.s3_get_object key)
    taken ← get_pieces outfile pieces
    response_complete (if taken then status else aborted_by_callback)
    λ s. (s.status_g, s)

  -- `putObjectDataCallback` with the filler `put_buffer`, for `remaining` bytes yet to send.
  unfoldable pub put_object_data_callback : Option ℕ → ℕ → ℕ → M os.World (List ℕ)
  put_object_data_callback infile remaining size =
      if not (remaining == 0)
      then run (os.fread infile (if ltb size remaining then size else remaining))
      else give []

  -- libs3 asks for data until none comes.
  unfoldable pub put_pieces : Option ℕ → ℕ → List ℕ → M os.World (List ℕ)
  put_pieces infile remaining [] s = ([], s)
  put_pieces infile remaining (size ∷ sizes) s =
      let (piece, s') = put_object_data_callback infile remaining size s in
      let (more, s'') = put_pieces infile (remaining - length piece) sizes s' in
      if length piece == 0 then ([], s') else (piece ++ more, s'')

  -- `cloud_put_object`
  unfoldable pub cloud_put_object : Key → ℕ → Option ℕ → M os.World Status
  cloud_put_object key content_length infile s =
      (do
        sent ← put_pieces infile content_length (os.s3_put_sizes key content_length s.world)
        status ← run (os.s3_put_object key content_length sent)
        response_complete status
        λ t. (t.status_g, t))
        s

  -- `cloud_delete_object`
  unfoldable pub cloud_delete_object : Key → M os.World Status
  cloud_delete_object key = do
    status ← run (os.s3_delete_object key)
    response_complete status
    λ s. (s.status_g, s)

  module _ (cfg : Config) (path : FilePath) where
    -- `s3_cloudfs_put` once its file is open.
    unfoldable pub put_from : Option ℕ → M os.World Bool
    put_from none = give false
    put_from (some infile) = do
      st ← run (os.lstat (get_absolute_path cfg path))
      cloud_put_object (get_key path) (size_of st) (some infile)
      run (λ w. (tt, os.fclose (some infile) w))
      give true

    -- `s3_cloudfs_put`: false is its -1. The status of the put is only logged.
    unfoldable pub s3_cloudfs_put : M os.World Bool
    s3_cloudfs_put = do infile ← run (os.fopen_read (get_absolute_path cfg path)); put_from infile

    -- `s3_cloudfs_get`: false is its -1.
    unfoldable pub s3_cloudfs_get : M os.World Bool
    s3_cloudfs_get = do
      outfile ← run (os.fopen_write (get_absolute_path cfg path))
      status ← cloud_get_object (get_key path) outfile
      run (λ w. (tt, os.fclose outfile w))
      give (is_ok status)

    -- `s3_delete`
    unfoldable pub s3_delete : M os.World (Unit {0})
    s3_delete = do cloud_delete_object (get_key path); give tt
