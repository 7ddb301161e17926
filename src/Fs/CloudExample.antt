-- ===== src/Fs/CloudExample.antt =====
-- cloud-lib/cloud-example.c: a program that makes a bucket, puts a file into it, gets it back and
-- removes all again. What it and `cloud_print_error` print is left out; the requests for objects
-- are those on its bucket.
pub mod Store
pub mod Copied
use cloudfs.Base.{ℕ, Option, none, some, List, [], ◌∷◌}
use cloudfs.Fs.Names.{FilePath, Key}
use cloudfs.Fs.Os.{Os}
use cloudfs.Fs.State.{M, ◌>>=◌, ◌>>◌, give, run, on}
use cloudfs.Fs.Cloud.{size_of, cloud_put_object, cloud_get_object, cloud_delete_object}
use cloudfs.Fs.Buckets.{
  Text, BucketCalls, cloud_init, cloud_create_bucket, cloud_delete_bucket, cloud_list_service,
  cloud_list_bucket,
}

-- "localhost:8888", "test", "helloworld", "./README" and "/tmp/README"
abbrev pub test_hostname : Text
test_hostname =
    b'l' ∷ b'o' ∷ b'c' ∷ b'a' ∷ b'l' ∷ b'h' ∷ b'o' ∷ b's' ∷ b't' ∷ b':' ∷ b'8' ∷ b'8' ∷ b'8' ∷ b'8'
    ∷ []

abbrev pub test_bucket : Text
test_bucket = b't' ∷ b'e' ∷ b's' ∷ b't' ∷ []

abbrev pub hello_world : Key
hello_world = b'h' ∷ b'e' ∷ b'l' ∷ b'l' ∷ b'o' ∷ b'w' ∷ b'o' ∷ b'r' ∷ b'l' ∷ b'd' ∷ []

abbrev pub readme : FilePath
readme = b'.' ∷ b'/' ∷ b'R' ∷ b'E' ∷ b'A' ∷ b'D' ∷ b'M' ∷ b'E' ∷ []

abbrev pub readme_copy : FilePath
readme_copy = b'/' ∷ b't' ∷ b'm' ∷ b'p' ∷ b'/' ∷ b'R' ∷ b'E' ∷ b'A' ∷ b'D' ∷ b'M' ∷ b'E' ∷ []

module _ (os : Os) where
  -- `test` once the input is open, up to the `fclose` of it.
  unfoldable pub put_input : ℕ → M os.World (Unit {0})
  put_input infile = do
    st ← run (os.lstat readme)
    cloud_put_object os hello_world (size_of st) (some infile)
    run (λ w. (tt, os.fclose (some infile) w))

  -- The object into the copy.
  unfoldable pub get_output : M os.World (Unit {0})
  get_output = do
    outfile ← run (os.fopen_write readme_copy)
    cloud_get_object os hello_world outfile
    run (λ w. (tt, os.fclose outfile w))

module _ (os : Os) (s3 : BucketCalls os.World) (deinitialize : os.World → os.World) where
  -- `test`, which is all of `main`, with the fuel of each listing: `none` if it ends.
  unfoldable pub test : ℕ → Text → M os.World (Option ℕ)
  test fuel null_text = do
    cloud_init os s3 test_hostname
    cloud_list_service os s3
    cloud_create_bucket os s3 test_bucket
    cloud_list_service os s3
    input ← run (os.fopen_read readme)
    on input (give (some 1)) (λ infile. do
      put_input os infile
      listed ← cloud_list_bucket os s3 fuel test_bucket null_text
      on listed (give none) (λ _. do
        get_output os
        cloud_delete_object os hello_world
        listed_again ← cloud_list_bucket os s3 fuel test_bucket null_text
        on listed_again (give none) (λ _. do
          cloud_delete_bucket os s3 test_bucket
          cloud_list_service os s3
          run (λ w. (tt, deinitialize w))
          give (some 0))))
