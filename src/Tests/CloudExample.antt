-- ===== src/Tests/CloudExample.antt =====
-- The run of cloud-lib/cloud-example.c on a file of three bytes, on the system in memory and a store
-- with one bucket.
use cloudfs.Base.{true, ℕ, ◌≡◌, refl, false, none, some, [], ◌∷◌}
use cloudfs.Fs.Os.{status_ok}
use cloudfs.Fs.State.{Globals}
use cloudfs.Fs.Disk.{Disk, regular, put_node, put_object}
use cloudfs.Fs.Memory.{Machine, disk_of, memory}
use cloudfs.Fs.Memory.Reliable.{memory_reliable}
use cloudfs.Fs.Buckets.{Page, BucketCalls}
use cloudfs.Fs.CloudExample.{test_bucket, hello_world, readme, readme_copy, test}
use cloudfs.Fs.CloudExample.Store.{IsSmallStore}
use cloudfs.Fs.CloudExample.Copied.{test_lem}
use cloudfs.Tests.Fs.{three}
use cloudfs.Tests.Files.{one_at, at_disk}

abbrev one_page : Page
one_page = record {
  is_truncated = false;
  next_marker = none;
  contents = record { key = hello_world; last_modified = 0; size = 3 } ∷ [];
}

abbrev small_store : BucketCalls Machine
small_store = record {
  initialize = λ hostname w. (status_ok, w);
  create = λ name w. (status_ok, w);
  delete = λ name w. (status_ok, w);
  service = λ w. ((test_bucket ∷ [], status_ok), w);
  pages = λ name marker w. ((one_page ∷ [], status_ok), w);
  service_filler = λ name w. w;
  bucket_filler = λ c w. w;
}

abbrev quits : Machine → Machine
quits w = w

memory_store : IsSmallStore memory memory_reliable small_store quits
memory_store = record {
  initialized = λ hostname w. refl;
  created = λ name w. refl;
  deleted = λ name w. refl;
  served = λ w. refl;
  paged = λ name marker w. refl;
  uncut = λ name marker w. (refl, tt);
  named = λ name w. refl;
  shown = λ c w. refl;
  ended = λ w. refl;
}

abbrev with_readme : Disk
with_readme = record {
  room = λ p. true;
  node = one_at readme (regular three 33188);
  object = λ k. none;
}

test_lem_example :
    (o' : ℕ) × (s' : Globals Machine) × (test memory small_store quits 1 [] (at_disk with_readme)
      ≡ (some 0, s'))
    × (disk_of s'.world
        ≡ put_object hello_world none (put_node readme_copy (some (regular three o')) with_readme))
test_lem_example =
    test_lem memory memory_reliable small_store quits memory_store (at_disk with_readme) 0 [] three
      33188 refl refl refl
