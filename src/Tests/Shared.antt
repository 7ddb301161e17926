-- ===== src/Tests/Shared.antt =====
-- The theorems on a second machine at concrete inputs, on two systems in memory.
use cloudfs.Base.{true, ℕ, ◌≡◌, refl, inl, some, none, [], ◌∷◌}
use cloudfs.Fs.Names.{get_metadata_path, get_key}
use cloudfs.Fs.Os.{Stat}
use cloudfs.Fs.State.{Globals, ok, fail}
use cloudfs.Fs.Disk.{Disk, regular}
use cloudfs.Fs.Memory.{Machine, memory}
use cloudfs.Fs.Memory.Reliable.{memory_reliable}
use cloudfs.Fs.Files.{Fh, cloudfs_open, cloudfs_release}
use cloudfs.Fs.Files.Stored.{session}
use cloudfs.Fs.Files.Reading.{Reads}
use cloudfs.Fs.Files.Shared.{Reads-session}
use cloudfs.Fs.Attrs.{cloudfs_getattr}
use cloudfs.Fs.Attrs.Dangling.{cloudfs_getattr-cloudfs_open}
use cloudfs.Tests.Fs.{config, file_a, local_a, three, apart}
use cloudfs.Tests.Files.{key_a, one_at, large, at_disk, writes, large_in_cloud, writable}

-- The second machine has no file, and the store of the first after its session.
abbrev other_machine : Globals Machine
other_machine = at_disk (record {
  room = λ p. true;
  node = λ p. none;
  object = (session memory config file_a 2 writes (at_disk large)).1.world.stored.object;
})

Reads-session_example :
    ((session memory config file_a 2 writes (at_disk large)).0 ≡ some (ok 1 ∷ ok 3 ∷ [], ok 0))
    × Reads memory memory_reliable config file_a apart other_machine 0 3 1
        (7 ∷ 5 ∷ 9 ∷ 0 ∷ 1 ∷ 2 ∷ 3 ∷ [])
Reads-session_example =
    Reads-session memory memory memory_reliable memory_reliable config config file_a apart apart
      (at_disk large) other_machine three 2 0 3 1 writes refl refl large_in_cloud refl writable refl
      (inl refl) refl refl

-- An empty local file, and an object of three bytes that another machine put.
abbrev made_here : Disk
made_here = record {
  room = λ p. true;
  node = one_at local_a (regular [] 33188);
  object = one_at key_a three;
}

their_object : made_here.object (get_key file_a) ≡ some three
unfolding get_key
their_object = refl

no_record : made_here.node (get_metadata_path config file_a) ≡ none
unfolding get_metadata_path get_key
no_record = refl

cloudfs_getattr-cloudfs_open_example :
    (fh : Fh) × (s1 s2 s3 : Globals Machine) × (n : ℕ) × (st : Stat) × (cloudfs_open memory config
        file_a 0
        (at_disk made_here)
      ≡ ((ok 0, some fh), s1))
    × (cloudfs_release memory config file_a fh s1 ≡ (ok 0, s2))
    × (cloudfs_getattr memory config file_a s2 ≡ ((fail n, st), s3))
cloudfs_getattr-cloudfs_open_example =
    cloudfs_getattr-cloudfs_open memory memory_reliable config file_a apart (at_disk made_here) 0
      three (refl, refl) their_object no_record refl
