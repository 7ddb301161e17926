-- ===== src/Tests/Requests.antt =====
-- The theorems on requests, directories and locks at concrete inputs, on the system in memory.
use cloudfs.Base.{◌≡◌, refl, arith, true, false, some, List, [], ◌∷◌}
use cloudfs.Fs.Names.{FilePath}
use cloudfs.Fs.State.{Globals, ok}
use cloudfs.Fs.Memory.{Machine, memory}
use cloudfs.Fs.Memory.Directory.{memory_directory}
use cloudfs.Fs.Lock.{maxblock, lock_operation, lock_arg, acquire_lock_wrapper, release_lock_wrapper}
use cloudfs.Fs.Lock.Retries.{Retries, after, acquire_lock_wrapper_lem, release_lock_wrapper_lem}
use cloudfs.Fs.Dirs.{lost_found, cloudfs_readdir}
use cloudfs.Fs.Dirs.Listing.{cloudfs_readdir_lem}
use cloudfs.Fs.Requests.{
  Request, on_path, do_open, on_handle, do_write, do_read, do_release, do_unlink, mounted, serve,
}
use cloudfs.Fs.Requests.Replies.{fits, serve_lem}
use cloudfs.Fs.Requests.Reached.{IsSound, serve_all, serve_all_lem}
use cloudfs.Tests.Fs.{config, file_a, machine, start}

-- A path that is opened twice, written and read, and removed while it is open.
abbrev requests : List Request
requests =
    do_open file_a 2
    ∷ on_handle file_a 1 (do_write (7 ∷ []) 0)
    ∷ do_open file_a 0
    ∷ on_handle file_a 2 (do_read 4 0)
    ∷ on_path file_a do_unlink
    ∷ on_handle file_a 1 do_release
    ∷ on_handle file_a 9 do_release
    ∷ []

serve_all_lem_example :
    IsSound 2 (serve_all memory config 4294967295 requests (mounted memory config machine))
serve_all_lem_example = serve_all_lem memory config 4294967295 machine requests

-- "b", lost+found, and "c"
abbrev directory : List FilePath
directory = (b'b' ∷ []) ∷ lost_found ∷ (b'c' ∷ []) ∷ []

abbrev in_directory : Globals Machine
in_directory = record start { world = record machine { entries = directory } }

cloudfs_readdir_lem_example :
    (s' : Globals Machine) × (cloudfs_readdir memory 3 8 in_directory ≡ (some (ok 0), s'))
    × (s'.world.filled ≡ (b'b' ∷ []) ∷ (b'c' ∷ []) ∷ [])
cloudfs_readdir_lem_example =
    cloudfs_readdir_lem memory memory_directory 8 3 (b'b' ∷ []) (lost_found ∷ (b'c' ∷ []) ∷ [])
      in_directory refl (omega arith)

acquire_lock_wrapper_lem_example :
    Retries memory
      (memory.acquire_1 (lock_arg memory file_a (lock_operation 2) 5))
      (after memory file_a start)
      (λ w. (tt, record start { world = w; skip = true }))
      maxblock
      machine
      (acquire_lock_wrapper memory file_a 2 start)
acquire_lock_wrapper_lem_example = acquire_lock_wrapper_lem memory file_a start 2

release_lock_wrapper_lem_example :
    (start.skip ≡ true
      → release_lock_wrapper memory file_a start ≡ (tt, record start { skip = false }))
    × (start.skip ≡ false
        → Retries memory
            (memory.release_1 (lock_arg memory file_a 3 5))
            (after memory file_a start)
            (after memory file_a start)
            maxblock
            machine
            (release_lock_wrapper memory file_a start))
release_lock_wrapper_lem_example = release_lock_wrapper_lem memory file_a start

serve_lem_example :
    fits (serve memory config 4294967295 (do_open file_a 2) (mounted memory config machine)).0
    ≡ true
serve_lem_example =
    serve_lem memory config 4294967295 (do_open file_a 2) (mounted memory config machine) refl
