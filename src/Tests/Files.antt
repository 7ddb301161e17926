-- ===== src/Tests/Files.antt =====
-- The theorems on the life of a file at concrete inputs, on the system in memory.
use cloudfs.Base.{arith, ◌≡◌, refl, inl, inr, ℕ, true, false, Option, none, some, List, [], ◌∷◌}
use cloudfs.Fs.Names.{FilePath, Key, same_name, get_key, get_metadata_path, get_absolute_path}
use cloudfs.Fs.Os.{status_ok}
use cloudfs.Fs.State.{Globals, ok}
use cloudfs.Fs.Disk.{Node, Disk, at, regular, saved, link, stat_of, put_node}
use cloudfs.Fs.Laws.{CanWrite, IsFree}
use cloudfs.Fs.Memory.{Machine, disk_of, memory}
use cloudfs.Fs.Memory.Reliable.{memory_reliable}
use cloudfs.Fs.Files.{cloudfs_release, cloudfs_mknod, cloudfs_truncate, cloudfs_unlink}
use cloudfs.Fs.Files.Release.{released, cloudfs_release_lem}
use cloudfs.Fs.Files.Write.{Writes}
use cloudfs.Fs.Files.Elsewhere.{SameElsewhere}
use cloudfs.Fs.Files.Stored.{Stored, session, session-Stored}
use cloudfs.Fs.Files.Unlink.{IsAbsent, cloudfs_unlink-IsAbsent, session-cloudfs_mknod}
use cloudfs.Fs.Files.History.{
  Operation, make, edit, cut, remove, Steps, made, edited, shortened, removed, end, then_on,
  perform_all, perform_all-Steps,
}
use cloudfs.Fs.Files.Truncate.{cloudfs_read-cloudfs_truncate}
use cloudfs.Fs.Files.Lost.{unreachable, cloudfs_read-unreachable}
use cloudfs.Fs.Files.Reading.{Reads, cloudfs_read-session}
use cloudfs.Tests.Fs.{config, file_a, local_a, three, apart}
use cloudfs.Fs.Attrs.Stored.{HasSize, cloudfs_getattr-Stored}

abbrev metadata_a : FilePath
metadata_a = b'/' ∷ b'm' ∷ b'/' ∷ b'+' ∷ b'a' ∷ []

abbrev pub key_a : Key
key_a = b'+' ∷ b'a' ∷ []

abbrev pub one_at : {A : Type 0} → List ℕ → A → List ℕ → Option A
one_at p a q = elim (same_name p q) [ true ↦ some a | false ↦ none ]

-- A file of one byte; a file of three bytes in the cloud; and no file.
abbrev small : Disk
small = record {
  room = λ p. true;
  node = one_at local_a (regular (7 ∷ []) 33188);
  object = λ k. none;
}

abbrev large_nodes : FilePath → Option Node
large_nodes p = elim (same_name local_a p) [
  | true ↦ some (link metadata_a)
  | false ↦ one_at metadata_a (saved (stat_of three 33188)) p
]

abbrev pub large : Disk
large = record { room = λ p. true; node = large_nodes; object = one_at key_a three }

abbrev pub nothing : Disk
nothing = record { room = λ p. true; node = λ p. none; object = λ k. none }

abbrev new_file : Disk
new_file = record {
  room = λ p. true;
  node = one_at local_a (regular three 33188);
  object = λ k. none;
}

abbrev pub at_disk : Disk → Globals Machine
at_disk d = record {
  world = record {
    stored = d;
    opened = [];
    flags = 0;
    record_at = none;
    input = [];
    entries = [];
    filled = [];
  };
  version = 5;
  skip = false;
  status_g = status_ok;
}

small_in_place : Stored config file_a (7 ∷ []) small
unfolding get_metadata_path get_absolute_path get_key
small_in_place = ((33188, refl), refl, refl)

pub large_in_cloud : Stored config file_a three large
unfolding get_metadata_path get_absolute_path get_key
large_in_cloud = (refl, (stat_of three 33188, refl, refl), refl)

new_there : new_file.node (get_absolute_path config file_a) ≡ some (regular three 33188)
unfolding get_absolute_path
new_there = refl

unrecorded : IsFree (get_metadata_path config file_a) new_file
unfolding get_metadata_path
unrecorded = (refl, tt)

pub writable : CanWrite 2
writable = (inr refl, refl)

now_small :
    (put_node local_a (some (regular (7 ∷ []) 33188)) large).node (get_absolute_path config file_a)
    ≡ some (regular (7 ∷ []) 33188)
unfolding get_absolute_path at
now_small = refl

recorded :
    (put_node local_a (some (regular (7 ∷ []) 33188)) large).node (get_metadata_path config file_a)
    ≡ some (saved (stat_of three 33188))
unfolding get_metadata_path get_key at
recorded = refl

nothing_there : IsAbsent config file_a nothing
nothing_there = (refl, refl, refl)

-- Two writes: one byte at offset 1, and three at offset 4, past the end.
abbrev pub writes : Writes
writes = (1, 5 ∷ []) ∷ (4, 1 ∷ 2 ∷ 3 ∷ []) ∷ []

session-Stored_example :
    (s' : Globals Machine) × (session memory config file_a 2 writes (at_disk large)
      ≡ (some (ok 1 ∷ ok 3 ∷ [], ok 0), s'))
    × Stored config file_a (7 ∷ 5 ∷ 9 ∷ 0 ∷ 1 ∷ 2 ∷ 3 ∷ []) (disk_of s'.world)
    × SameElsewhere config file_a large (disk_of s'.world)
session-Stored_example =
    session-Stored memory memory_reliable config file_a apart 2 three writes (at_disk large) refl
      large_in_cloud refl writable

cloudfs_read-session_example :
    (s' : Globals Machine) × (session memory config file_a 2 writes (at_disk large)
      ≡ (some (ok 1 ∷ ok 3 ∷ [], ok 0), s'))
    × Reads memory memory_reliable config file_a apart s' 0 3 1 (7 ∷ 5 ∷ 9 ∷ 0 ∷ 1 ∷ 2 ∷ 3 ∷ [])
cloudfs_read-session_example =
    cloudfs_read-session memory memory_reliable config file_a apart (at_disk large) three 2 0 3 1
      writes large_in_cloud refl writable refl (inl refl) refl refl

cloudfs_unlink-IsAbsent_example :
    (s' : Globals Machine) × (cloudfs_unlink memory config file_a (at_disk large) ≡ (ok 0, s'))
    × IsAbsent config file_a (disk_of s'.world)
    × SameElsewhere config file_a large (disk_of s'.world)
cloudfs_unlink-IsAbsent_example =
    cloudfs_unlink-IsAbsent memory memory_reliable config file_a apart (at_disk large) three refl
      large_in_cloud

-- A regular file with the permissions 644.
session-cloudfs_mknod_example :
    (s1 s2 : Globals Machine) × (cloudfs_mknod memory config file_a 0o100644 0 (at_disk nothing)
      ≡ (ok 0, s1))
    × (session memory config file_a 1 writes s1 ≡ (some (ok 1 ∷ ok 3 ∷ [], ok 0), s2))
    × Stored config file_a (0 ∷ 5 ∷ 0 ∷ 0 ∷ 1 ∷ 2 ∷ 3 ∷ []) (disk_of s2.world)
    × SameElsewhere config file_a nothing (disk_of s2.world)
session-cloudfs_mknod_example =
    session-cloudfs_mknod memory memory_reliable config file_a apart (at_disk nothing) 0o100644 0 1
      writes refl (refl, refl) nothing_there refl (inl refl, refl)

-- A small file that is written again starts empty.
abbrev life : List Operation
life = make 0o100644 0 ∷ edit 1 ((0, 7 ∷ []) ∷ []) ∷ cut 2 ∷ edit 2 writes ∷ edit 2 [] ∷ remove ∷ []

life_allowed : Steps config none life none
life_allowed = then_on (made 0o100644 0 refl) (
    then_on (edited [] 1 ((0, 7 ∷ []) ∷ []) refl (inl refl, refl)) (
      then_on (shortened 2 (7 ∷ []) refl refl) (
        then_on (edited (7 ∷ 0 ∷ []) 2 writes refl writable) (
          then_on (edited (0 ∷ 5 ∷ 0 ∷ 0 ∷ 1 ∷ 2 ∷ 3 ∷ []) 2 [] refl writable)
            (then_on (removed (0 ∷ 5 ∷ 0 ∷ 0 ∷ 1 ∷ 2 ∷ 3 ∷ [])) (end none))))))

perform_all-Steps_example :
    (s' : Globals Machine) × (perform_all memory config file_a life (at_disk nothing)
      ≡ (ok 0 ∷ ok 0 ∷ ok 0 ∷ ok 0 ∷ ok 0 ∷ ok 0 ∷ [], s'))
    × IsAbsent config file_a (disk_of s'.world)
    × SameElsewhere config file_a nothing (disk_of s'.world)
perform_all-Steps_example =
    perform_all-Steps memory memory_reliable config file_a apart (at_disk nothing) life_allowed
      (refl, refl) nothing_there

-- A file from the cloud that got small: its object and its record go.
cloudfs_release_lem_example :
    (s' : Globals Machine) × (cloudfs_release memory config file_a
        (record { fd = 3; proxy = true; dirty = true })
        (at_disk (put_node local_a (some (regular (7 ∷ []) 33188)) large))
      ≡ (ok 0, s'))
    × (disk_of s'.world
        ≡ released config file_a true true false
            (7 ∷ [])
            33188
            (put_node local_a (some (regular (7 ∷ []) 33188)) large))
cloudfs_release_lem_example =
    cloudfs_release_lem memory memory_reliable config file_a
      (at_disk (put_node local_a (some (regular (7 ∷ []) 33188)) large)) (7 ∷ []) 33188 now_small
      apart (record { fd = 3; proxy = true; dirty = true }) (stat_of three 33188, recorded)

cloudfs_getattr-Stored_example : HasSize memory memory_reliable config file_a (at_disk large) 3
cloudfs_getattr-Stored_example =
    cloudfs_getattr-Stored memory memory_reliable config file_a (at_disk large) three large_in_cloud

-- Cut to nothing, and yet the three bytes come back.
cloudfs_read-cloudfs_truncate_example :
    (s' : Globals Machine) × (cloudfs_truncate memory config file_a 0 (at_disk large) ≡ (ok 0, s'))
    × Reads memory memory_reliable config file_a apart s' 0 3 0 three
cloudfs_read-cloudfs_truncate_example =
    cloudfs_read-cloudfs_truncate memory memory_reliable config file_a apart (at_disk large) 0 0 3 0
      three refl large_in_cloud refl (inl refl)

-- A new file of three bytes is closed while the store is away: then the file is empty.
cloudfs_read-unreachable_example :
    (s' : Globals Machine) × (cloudfs_release
        (unreachable memory 500)
        config
        file_a
        (record { fd = 3; proxy = false; dirty = false })
        (at_disk new_file)
      ≡ (ok 0, s'))
    × Reads memory memory_reliable config file_a apart s' 0 3 0 []
cloudfs_read-unreachable_example =
    cloudfs_read-unreachable memory memory_reliable 500 config file_a apart (at_disk new_file)
      (record { fd = 3; proxy = false; dirty = false }) three 33188 new_there unrecorded refl
      (omega arith) 0 3 0 refl (inl refl)
