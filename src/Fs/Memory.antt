-- ===== src/Fs/Memory.antt =====
-- A system in memory that `Fs.Laws` describes: paths, objects and, for each descriptor or stream,
-- the file it stands for and what it has yet to read. No call of it fails without a reason.
pub mod Reliable
pub mod Directory
use cloudfs.Base.{ℕ, suc, true, false, Option, none, some, List, [], ◌∷◌, ◌++◌}
use cloudfs.Base.{length, take, drop}
use cloudfs.Fs.Names.{FilePath, Key}
use cloudfs.Fs.Os.{Os, Call, Stat, Status, status_ok, failed}
use cloudfs.Fs.Laws.{overwrite, padded}
use cloudfs.Fs.Disk.{Node, Disk, regular, saved, link, put_node, put_object, stat_of}

pub record Machine : Type 0 where
  pub stored : Disk
  -- The one file that is open, by path, the record it holds, and the bytes not read yet.
  pub opened : FilePath
  pub flags : ℕ
  pub record_at : Option Stat
  pub input : List ℕ
  -- The entries of the one directory that are yet to be read, and the names handed to FUSE.
  pub entries : List FilePath
  pub filled : List FilePath

-- Memory has no directories: every name has room.
abbrev pub disk_of : Machine → Disk
disk_of w = record w.stored { room = λ p. true }

abbrev lookup : FilePath → Machine → Option Node
lookup p w = w.stored.node p

abbrev done : {A : Type 0} → A → Machine → Option A × Machine
done a w = (some a, w)

abbrev broken : {A : Type 0} → Call Machine A
broken w = (none, w)

abbrev pub with_node : FilePath → Option Node → Machine → Machine
with_node p n w = record w { stored = put_node p n w.stored }

abbrev lstat_node : Option Node → Call Machine Stat
lstat_node none = broken
lstat_node (some (regular bytes o)) = done (stat_of bytes o)
lstat_node (some (saved st)) = done (stat_of [] 0)
lstat_node (some (link p)) = done (record { is_link = true; st_size = length p; others = 0 })

abbrev unlink_node : FilePath → Option Node → Call Machine (Unit {0})
unlink_node p none w = (none, w)
unlink_node p (some n) w = (some tt, with_node p none w)

abbrev symlink_node : FilePath → FilePath → Option Node → Call Machine (Unit {0})
symlink_node target p none w = (some tt, with_node p (some (link target)) w)
symlink_node target p (some n) w = (none, w)

abbrev pub empty_at : FilePath → Call Machine ℕ
empty_at p w = (some 3, record (with_node p (some (regular [] 0)) w) { opened = p })

abbrev pub create_node : FilePath → Option Node → Call Machine ℕ
create_node p none = empty_at p
create_node p (some (regular bytes o)) = empty_at p
create_node p (some (saved st)) = empty_at p
create_node p (some (link target)) = broken

-- Through a link to a file; a link to a link is not followed.
abbrev follow_node : Option Node → Call Machine ℕ
follow_node none w = (none, w)
follow_node (some (regular bytes o)) w = (none, w)
follow_node (some (saved st)) w = (some 3, record w { record_at = some st })
follow_node (some (link target)) w = (none, w)

abbrev open_node : FilePath → ℕ → Option Node → Call Machine ℕ
open_node p mode none w = (none, w)
open_node p mode (some (regular bytes o)) w = (some 3, record w { opened = p; flags = mode })
open_node p mode (some (saved st)) w = (some 3, record w { record_at = some st })
open_node p mode (some (link target)) w = follow_node (lookup target w) w

abbrev read_record : Option Stat → Call Machine Stat
read_record none = broken
read_record (some st) = done st

abbrev fopen_node : Option Node → Call Machine ℕ
fopen_node none w = (none, w)
fopen_node (some (regular bytes o)) w = (some 4, record w { input = bytes })
fopen_node (some (saved st)) w = (none, w)
fopen_node (some (link target)) w = (none, w)

abbrev append_node : List ℕ → FilePath → Option Node → Machine → ℕ × Machine
append_node piece p none w = (0, w)
append_node piece p (some (regular bytes o)) w =
    (length piece, with_node p (some (regular (bytes ++ piece) o)) w)
append_node piece p (some (saved st)) w = (0, w)
append_node piece p (some (link target)) w = (0, w)

abbrev access_node : Option Node → Call Machine (Unit {0})
access_node none = broken
access_node (some n) = done tt

abbrev mknod_node : FilePath → Option Node → Call Machine (Unit {0})
mknod_node p none w = (some tt, with_node p (some (regular [] 0)) w)
mknod_node p (some n) w = (none, w)

abbrev pub truncate_node : ℕ → FilePath → Option Node → Call Machine (Unit {0})
truncate_node size p none w = (none, w)
truncate_node size p (some (regular bytes o)) w =
    (some tt, with_node p (some (regular (padded size bytes) o)) w)
truncate_node size p (some (saved st)) w = (some tt, with_node p (some (regular [] 0)) w)
truncate_node size p (some (link target)) w = (some tt, with_node target (some (regular [] 0)) w)

abbrev read_node : ℕ → ℕ → Option Node → Call Machine (List ℕ)
read_node size offset none = broken
read_node size offset (some (regular bytes o)) = done (take size (drop offset bytes))
read_node size offset (some (saved st)) = broken
read_node size offset (some (link target)) = broken

abbrev write_node : List ℕ → ℕ → FilePath → Option Node → Call Machine ℕ
write_node buf offset p none w = (none, w)
write_node buf offset p (some (regular bytes o)) w =
    (some (length buf), with_node p (some (regular (overwrite bytes offset buf) o)) w)
write_node buf offset p (some (saved st)) w = (none, w)
write_node buf offset p (some (link target)) w = (none, w)

abbrev next_entry : List FilePath → Call Machine FilePath
next_entry [] w = (none, w)
next_entry (name ∷ names) w = (some name, record w { entries = names })

-- An object in two pieces.
abbrev pieces_of : Option (List ℕ) → List (List ℕ) × Status
pieces_of none = ([], failed 404)
pieces_of (some bytes) = (take 2 bytes ∷ drop 2 bytes ∷ [], status_ok)

abbrev pub memory : Os
memory = record {
  World = Machine;
  errno = λ w. 5;
  unlink = λ p w. unlink_node p (lookup p w) w;
  symlink = λ target p w. symlink_node target p (lookup p w) w;
  lstat = λ p w. lstat_node (lookup p w) w;
  fstat = λ fd w. lstat_node (lookup w.opened w) w;
  open_file = λ p mode w. open_node p mode (lookup p w) w;
  create_file = λ p w. create_node p (lookup p w) w;
  close = λ fd. done tt;
  dup = λ fd. done fd;
  pread = λ fd size offset w. read_node size offset (lookup w.opened w) w;
  pwrite = λ fd bytes offset w. write_node bytes offset w.opened (lookup w.opened w) w;
  write_stat = λ fd st w. (some 1, with_node w.opened (some (saved st)) w);
  read_stat = λ fd w. read_record w.record_at w;
  mknod = λ p mode dev w. mknod_node p (lookup p w) w;
  mkfifo = λ p mode. broken;
  truncate = λ p size w. truncate_node size p (lookup p w) w;
  access = λ p mask w. access_node (lookup p w) w;
  utimensat = λ p ts. done tt;
  lgetxattr = λ p key size. broken;
  mkdir = λ p mode. broken;
  rmdir = λ p. broken;
  opendir = λ p. broken;
  readdir = λ dp w. next_entry w.entries w;
  closedir = λ dp. done tt;
  filler = λ name w. (false, record w { filled = w.filled ++ (name ∷ []) });
  fopen_write = λ p w. create_node p (lookup p w) w;
  fopen_read = λ p w. fopen_node (lookup p w) w;
  fwrite = λ f piece w. append_node piece w.opened (lookup w.opened w) w;
  fread = λ f n w. (take n w.input, record w { input = drop n w.input });
  fclose = λ f w. w;
  acquire_1 = λ arg. done 1;
  release_1 = λ arg. done 1;
  usleep = λ w. w;
  s3_get_object = λ k w. (pieces_of (w.stored.object k), w);
  s3_put_sizes = λ k n w. 1 ∷ suc n ∷ [];
  s3_put_object =
      λ k n bytes w. (status_ok, record w { stored = put_object k (some bytes) w.stored });
  s3_delete_object = λ k w. (status_ok, record w { stored = put_object k none w.stored });
}
