-- ===== src/Fs/Laws.antt =====
-- What cloudfs/ relies on in the system, the C library, libs3 and the lock service, when no call
-- is hindered by a full disk, a permission or the network: each field is the documented effect of
-- one call. A file is made only at a name that has room, that is in a directory that exists and is
-- no directory itself. What a stream has buffered counts as stored.
use cloudfs.Base.{
  ℕ, zero, suc, ◌+◌, ◌%◌, ◌⊎◌, ◌≤◌, ◌<◌, ◌≡◌, true, Option, none, some, List, [], ◌∷◌, ◌++◌, length,
}
use cloudfs.Base.{bit_and, take, drop, All}
use cloudfs.Fs.Names.{FilePath, Key}
use cloudfs.Fs.Os.{Os, Stat, Status, status_ok, failed, LockParams}
use cloudfs.Fs.Disk.{Node, Disk, regular, saved, link, put_node, put_object, stat_of}

-- O_TRUNC of Linux.
abbrev pub o_trunc : ℕ
o_trunc = 0o1000

-- O_APPEND of Linux.
abbrev pub o_append : ℕ
o_append = 0o2000

abbrev pub flat : List (List ℕ) → List ℕ
flat [] = []
flat (piece ∷ pieces) = piece ++ flat pieces

abbrev pub total : List ℕ → ℕ
total [] = 0
total (n ∷ ns) = n + total ns

-- A file after `buf` is written at an offset: what lies before is filled with zeros.
abbrev pub padded : ℕ → List ℕ → List ℕ
padded zero bytes = []
padded (suc n) [] = 0 ∷ padded n []
padded (suc n) (b ∷ bs) = b ∷ padded n bs

abbrev pub overwrite : List ℕ → ℕ → List ℕ → List ℕ
overwrite bytes offset [] = bytes
overwrite bytes offset (c ∷ cs) =
    padded offset bytes ++ ((c ∷ cs) ++ drop (offset + length (c ∷ cs)) bytes)

-- O_RDONLY, O_WRONLY and O_RDWR are 0, 1 and 2 in the two lowest digits. With O_APPEND, Linux
-- writes at the end whatever the offset.
abbrev pub CanRead : ℕ → Type 0
CanRead flags = (flags % 4 ≡ 0) ⊎ (flags % 4 ≡ 2)

abbrev pub CanWrite : ℕ → Type 0
CanWrite flags = ((flags % 4 ≡ 1) ⊎ (flags % 4 ≡ 2)) × (bit_and flags o_append ≡ 0)

abbrev pub IsNoLink : Option Node → Type 0
IsNoLink none = Unit
IsNoLink (some (regular bytes o)) = Unit
IsNoLink (some (saved st)) = Unit
IsNoLink (some (link target)) = ⊥

-- A name at which O_CREAT | O_TRUNC makes an empty file: it has room, and no link, which would be
-- followed instead.
abbrev pub IsFree : FilePath → Disk → Type 0
IsFree p d = (d.room p ≡ true) × IsNoLink (d.node p)

pub record IsReliable (os : Os) : Type 0 where
  pub disk : os.World → Disk
  -- The bytes that an input stream has not read; the file that an output stream or a new file's
  -- descriptor writes; the record at the start of the file that a descriptor reads.
  pub unread : os.World → ℕ → List ℕ
  pub file_of : os.World → ℕ → FilePath
  pub stat_on : os.World → ℕ → Option Stat
  -- The file that a descriptor of `open` reads and writes, and the flags it was opened with.
  pub fd_file : os.World → ℕ → FilePath
  pub fd_flags : os.World → ℕ → ℕ
  -- What is stored is in a directory.
  pub held_room :
      (w : os.World) (p : FilePath) (n : Node) → (disk w).node p ≡ some n → (disk w).room p ≡ true
  pub lstat_regular :
      (w : os.World) (p : FilePath) (bytes : List ℕ) (o : ℕ)
      → (disk w).node p ≡ some (regular bytes o)
      → (w' : os.World) × (os.lstat p w ≡ (some (stat_of bytes o), w'))
        × (disk w' ≡ disk w)
        × (unread w' ≡ unread w)
  pub lstat_link :
      (w : os.World) (p target : FilePath)
      → (disk w).node p ≡ some (link target)
      → (st : Stat) × (w' : os.World) × (os.lstat p w ≡ (some st, w'))
        × (st.is_link ≡ true)
        × (disk w' ≡ disk w)
  pub unlink_file :
      (w : os.World) (p : FilePath) (n : Node)
      → (disk w).node p ≡ some n
      → (w' : os.World) × (os.unlink p w ≡ (some tt, w')) × (disk w' ≡ put_node p none (disk w))
  pub unlink_missing :
      (w : os.World) (p : FilePath)
      → (disk w).room p ≡ true
      → (disk w).node p ≡ none
      → (w' : os.World) × (os.unlink p w ≡ (none, w')) × (disk w' ≡ disk w)
  -- `access (path, F_OK)` of a path that is no link.
  pub access_there :
      (w : os.World) (p : FilePath) (st : Stat)
      → (disk w).node p ≡ some (saved st)
      → (w' : os.World) × (os.access p 0 w ≡ (some tt, w')) × (disk w' ≡ disk w)
  pub access_gone :
      (w : os.World) (p : FilePath)
      → (disk w).room p ≡ true
      → (disk w).node p ≡ none
      → (w' : os.World) × (os.access p 0 w ≡ (none, w')) × (disk w' ≡ disk w)
  pub mknod_new :
      (w : os.World) (p : FilePath) (mode dev : ℕ)
      → (disk w).room p ≡ true
      → (disk w).node p ≡ none
      → bit_and mode 0o170000 ≡ 0o100000
      → (o : ℕ) × (w' : os.World) × (os.mknod p mode dev w ≡ (some tt, w'))
        × (disk w' ≡ put_node p (some (regular [] o)) (disk w))
  pub truncate_regular :
      (w : os.World) (p : FilePath) (size o : ℕ) (bytes : List ℕ)
      → (disk w).node p ≡ some (regular bytes o)
      → (o' : ℕ) × (w' : os.World) × (os.truncate p size w ≡ (some tt, w'))
        × (disk w' ≡ put_node p (some (regular (padded size bytes) o')) (disk w))
  -- A link is followed, and what becomes of a record that is cut is left open.
  pub truncate_link :
      (w : os.World) (p target : FilePath) (size : ℕ) (st : Stat)
      → (disk w).node p ≡ some (link target)
      → (disk w).node target ≡ some (saved st)
      → (n : Node) × (w' : os.World) × (os.truncate p size w ≡ (some tt, w'))
        × (disk w' ≡ put_node target (some n) (disk w))
  pub symlink_new :
      (w : os.World) (target p : FilePath)
      → (disk w).room p ≡ true
      → (disk w).node p ≡ none
      → (w' : os.World) × (os.symlink target p w ≡ (some tt, w'))
        × (disk w' ≡ put_node p (some (link target)) (disk w))
  pub create_empty :
      (w : os.World) (p : FilePath)
      → IsFree p (disk w)
      → (fd o : ℕ) × (w' : os.World) × (os.create_file p w ≡ (some fd, w'))
        × (disk w' ≡ put_node p (some (regular [] o)) (disk w))
        × (file_of w' fd ≡ p)
  pub write_stat_new :
      (w : os.World) (fd o : ℕ) (st : Stat)
      → (disk w).node (file_of w fd) ≡ some (regular [] o)
      → (n : ℕ) × (w' : os.World) × (os.write_stat fd st w ≡ (some n, w'))
        × (disk w' ≡ put_node (file_of w fd) (some (saved st)) (disk w))
  pub close_keeps : (w : os.World) (fd : ℕ) → disk (os.close fd w).1 ≡ disk w
  pub open_regular :
      (w : os.World) (p : FilePath) (flags : ℕ) (bytes : List ℕ) (o : ℕ)
      → (disk w).node p ≡ some (regular bytes o)
      → bit_and flags o_trunc ≡ 0
      → (fd : ℕ) × (w' : os.World) × (os.open_file p flags w ≡ (some fd, w'))
        × (disk w' ≡ disk w)
        × (fd_file w' fd ≡ p)
        × (fd_flags w' fd ≡ flags)
  pub pwrite_regular :
      (w : os.World) (fd offset o : ℕ) (bytes buf : List ℕ)
      → (disk w).node (fd_file w fd) ≡ some (regular bytes o)
      → CanWrite (fd_flags w fd)
      → (o' : ℕ) × (w' : os.World) × (os.pwrite fd buf offset w ≡ (some (length buf), w'))
        × (disk w'
            ≡ put_node (fd_file w fd) (some (regular (overwrite bytes offset buf) o')) (disk w))
        × (fd_file w' fd ≡ fd_file w fd)
        × (fd_flags w' fd ≡ fd_flags w fd)
  pub pread_regular :
      (w : os.World) (fd size offset o : ℕ) (bytes : List ℕ)
      → (disk w).node (fd_file w fd) ≡ some (regular bytes o)
      → CanRead (fd_flags w fd)
      → (w' : os.World) × (os.pread fd size offset w ≡ (some (take size (drop offset bytes)), w'))
        × (disk w' ≡ disk w)
        × (fd_file w' fd ≡ fd_file w fd)
        × (fd_flags w' fd ≡ fd_flags w fd)
  pub open_saved :
      (w : os.World) (p target : FilePath) (st : Stat)
      → (disk w).node p ≡ some (link target)
      → (disk w).node target ≡ some (saved st)
      → (fd : ℕ) × (w' : os.World) × (os.open_file p 0 w ≡ (some fd, w'))
        × (disk w' ≡ disk w)
        × (stat_on w' fd ≡ some st)
  pub open_dangling :
      (w : os.World) (p target : FilePath)
      → (disk w).node p ≡ some (link target)
      → (disk w).room target ≡ true
      → (disk w).node target ≡ none
      → (w' : os.World) × (os.open_file p 0 w ≡ (none, w')) × (disk w' ≡ disk w)
  pub read_saved :
      (w : os.World) (fd : ℕ) (st : Stat)
      → stat_on w fd ≡ some st
      → (w' : os.World) × (os.read_stat fd w ≡ (some st, w')) × (disk w' ≡ disk w)
  pub fopen_regular :
      (w : os.World) (p : FilePath) (bytes : List ℕ) (o : ℕ)
      → (disk w).node p ≡ some (regular bytes o)
      → (f : ℕ) × (w' : os.World) × (os.fopen_read p w ≡ (some f, w'))
        × (disk w' ≡ disk w)
        × (unread w' f ≡ bytes)
  pub fread_next :
      (w : os.World) (f n : ℕ)
      → (w' : os.World) × (os.fread (some f) n w ≡ (take n (unread w f), w'))
        × (disk w' ≡ disk w)
        × (unread w' f ≡ drop n (unread w f))
  pub fopen_new :
      (w : os.World) (p : FilePath)
      → (disk w).room p ≡ true
      → (disk w).node p ≡ none
      → (f o : ℕ) × (w' : os.World) × (os.fopen_write p w ≡ (some f, w'))
        × (disk w' ≡ put_node p (some (regular [] o)) (disk w))
        × (file_of w' f ≡ p)
  pub fwrite_end :
      (w : os.World) (f o : ℕ) (bytes piece : List ℕ)
      → (disk w).node (file_of w f) ≡ some (regular bytes o)
      → (o' : ℕ) × (w' : os.World) × (os.fwrite (some f) piece w ≡ (length piece, w'))
        × (disk w' ≡ put_node (file_of w f) (some (regular (bytes ++ piece) o')) (disk w))
        × (file_of w' f ≡ file_of w f)
  pub fclose_keeps : (w : os.World) (f : ℕ) → disk (os.fclose (some f) w) ≡ disk w
  pub acquire_keeps : (w : os.World) (arg : LockParams) → disk (os.acquire_1 arg w).1 ≡ disk w
  pub release_keeps : (w : os.World) (arg : LockParams) → disk (os.release_1 arg w).1 ≡ disk w
  pub usleep_keeps : (w : os.World) → disk (os.usleep w) ≡ disk w
  pub get_found :
      (w : os.World) (k : Key) (bytes : List ℕ)
      → (disk w).object k ≡ some bytes
      → (pieces : List (List ℕ)) × (w' : os.World) × (os.s3_get_object k w
          ≡ ((pieces, status_ok), w'))
        × (flat pieces ≡ bytes)
        × (disk w' ≡ disk w)
        × (file_of w' ≡ file_of w)
  pub get_missing :
      (w : os.World) (k : Key)
      → (disk w).object k ≡ none
      → (n : ℕ) × (w' : os.World) × (os.s3_get_object k w ≡ (([], failed n), w'))
        × (disk w' ≡ disk w)
        × (file_of w' ≡ file_of w)
  pub put_sizes :
      (w : os.World) (k : Key) (n : ℕ)
      → All (λ size. 0 < size) (os.s3_put_sizes k n w) × (n ≤ total (os.s3_put_sizes k n w))
  pub put_all :
      (w : os.World) (k : Key) (bytes : List ℕ)
      → (w' : os.World) × (os.s3_put_object k (length bytes) bytes w ≡ (status_ok, w'))
        × (disk w' ≡ put_object k (some bytes) (disk w))
  pub delete_any :
      (w : os.World) (k : Key)
      → (status : Status) × (w' : os.World) × (os.s3_delete_object k w ≡ (status, w'))
        × (disk w' ≡ put_object k none (disk w))
