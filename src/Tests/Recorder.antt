-- ===== src/Tests/Recorder.antt =====
-- The theorems on the calls of the lock service at concrete requests, on the system in memory.
use cloudfs.Base.{ℕ, ◌%◌, ◌^◌, ◌≡◌, ◌↔◌, refl, false, some, List, [], ◌∷◌, ◌++◌}
use cloudfs.Fs.Names.{get_absolute_path, get_key}
use cloudfs.Fs.Os.{LockParams}
use cloudfs.Fs.Lock.{acquire_lock_wrapper, acquire_loop}
use cloudfs.Fs.Cloud.{cloud_get_object, get_pieces, s3_cloudfs_get}
use cloudfs.Fs.Files.{cloudfs_open}
use cloudfs.Fs.Disk.{at}
use cloudfs.Fs.Memory.{memory}
use cloudfs.Fs.Requests.{Request, do_open, on_handle, do_write, do_release, serve}
use cloudfs.Fs.Requests.Reached.{opens_of}
use cloudfs.Fs.Recorder.{recording}
use cloudfs.Fs.Recorder.Sent.{IsGranting}
use cloudfs.Fs.Recorder.Conversation.{calls_of, sent, serve_each, fresh, serve_each-sent}
use cloudfs.Fs.Recorder.Overtaken.{at_first, at_open, at_last, at_release, versions_agree}
use cloudfs.Tests.Fs.{config, file_a, machine}

memory_grants : IsGranting memory
memory_grants = record { acquired = λ arg w. refl; let_go = λ arg w. refl }

abbrev bad : ℕ
bad = 4294967295

-- Two sessions on a file, one within the other, and a release of no live handle.
abbrev nested : List Request
nested =
    do_open file_a 2
    ∷ do_open file_a 0
    ∷ on_handle file_a 1 (do_write (7 ∷ []) 0)
    ∷ on_handle file_a 2 do_release
    ∷ on_handle file_a 1 do_release
    ∷ on_handle file_a 1 do_release
    ∷ []

serve_each-sent_example :
    calls_of (serve_each (recording memory) config bad nested (fresh memory config bad machine)).1
    ≡ sent 0 nested
        (serve_each (recording memory) config bad nested (fresh memory config bad machine)).0
serve_each-sent_example = serve_each-sent memory memory_grants config bad machine nested

-- One other open of the same path comes between.
abbrev others : List Request
others = do_open file_a 0 ∷ []

still_open :
    (at_last memory config bad machine [] file_a 2 others).handles
      (at_first memory config bad machine [] file_a 2 others).next
    ≡ some (record { fd = 3; proxy = false; dirty = false })
unfolding serve serve_each cloudfs_open acquire_lock_wrapper acquire_loop s3_cloudfs_get
    cloud_get_object get_pieces get_absolute_path get_key at
still_open = refl

versions_agree_example :
    (a b : LockParams) × (calls_of (at_open memory config bad machine [] file_a 2 others)
      ≡ calls_of (at_first memory config bad machine [] file_a 2 others) ++ (a ∷ []))
    × (calls_of (at_release memory config bad machine [] file_a 2 others)
        ≡ calls_of (at_last memory config bad machine [] file_a 2 others) ++ (b ∷ []))
    × (a.key ≡ b.key)
    × ((a.version ≡ b.version) ↔ (opens_of others % 2 ^ 32 ≡ 0))
versions_agree_example =
    versions_agree memory memory_grants config bad machine [] file_a 2 others
      (record { fd = 3; proxy = false; dirty = false }) still_open
