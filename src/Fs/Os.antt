-- ===== src/Fs/Os.antt =====
-- What the file system calls and this repository does not implement: the operating system, the
-- C library's streams, FUSE's directory filler, the lock service's RPC stubs and libs3. All of
-- it acts on a world of which nothing is known but what `Fs.Laws` states.
use cloudfs.Base.{ℕ, Bool, Option, List}
use cloudfs.Fs.Names.{FilePath, Key}

-- `struct stat`: whether it is a symbolic link, the size, and the other fields as one number.
pub record Stat : Type 0 where
  pub is_link : Bool
  pub st_size : ℕ
  pub others : ℕ

-- `lock_params`; the operation is 1 for READ, 2 for WRITE and 3 for RELEASE.
pub record LockParams : Type 0 where
  pub key : Key
  pub operation : ℕ
  pub machine : ℕ
  pub version : ℕ

-- `S3Status`
pub data Status : Type 0 where
  status_ok aborted_by_callback : Status
  failed : ℕ → Status

-- A call that may fail. `none` is the -1, or the null pointer, that C returns.
abbrev pub Call : Type 0 → Type 0 → Type 0
Call W A = W → Option A × W

pub record Os : Type 1 where
  pub World : Type 0
  pub errno : World → ℕ
  -- Files, by path and by descriptor.
  pub unlink : FilePath → Call World (Unit {0})
  pub symlink : FilePath → FilePath → Call World (Unit {0})
  pub lstat : FilePath → Call World Stat
  pub fstat : ℕ → Call World Stat
  pub open_file : FilePath → ℕ → Call World ℕ
  -- `open (path, O_RDWR | O_TRUNC | O_CREAT, 0644)`
  pub create_file : FilePath → Call World ℕ
  pub close : ℕ → Call World (Unit {0})
  pub dup : ℕ → Call World ℕ
  pub pread : ℕ → ℕ → ℕ → Call World (List ℕ)
  pub pwrite : ℕ → List ℕ → ℕ → Call World ℕ
  -- `write` of a `struct stat`, and `read` of one into a zeroed one.
  pub write_stat : ℕ → Stat → Call World ℕ
  pub read_stat : ℕ → Call World Stat
  pub mknod : FilePath → ℕ → ℕ → Call World (Unit {0})
  pub mkfifo : FilePath → ℕ → Call World (Unit {0})
  pub truncate : FilePath → ℕ → Call World (Unit {0})
  pub access : FilePath → ℕ → Call World (Unit {0})
  pub utimensat : FilePath → ℕ → Call World (Unit {0})
  pub lgetxattr : FilePath → List ℕ → ℕ → Call World (List ℕ)
  -- Directories. At the end `readdir` gives the null pointer and leaves `errno`.
  pub mkdir : FilePath → ℕ → Call World (Unit {0})
  pub rmdir : FilePath → Call World (Unit {0})
  pub opendir : FilePath → Call World ℕ
  pub readdir : ℕ → Call World FilePath
  pub closedir : ℕ → Call World (Unit {0})
  -- The buffer that FUSE fills for `readdir`: true when it is full.
  pub filler : FilePath → World → Bool × World
  -- Streams. A failed `fopen` hands the null pointer on.
  pub fopen_write : FilePath → Call World ℕ
  pub fopen_read : FilePath → Call World ℕ
  pub fwrite : Option ℕ → List ℕ → World → ℕ × World
  pub fread : Option ℕ → ℕ → World → List ℕ × World
  pub fclose : Option ℕ → World → World
  -- The stubs of the lock service give the status that they stored, if the call succeeded.
  pub acquire_1 : LockParams → Call World ℕ
  pub release_1 : LockParams → Call World ℕ
  pub usleep : World → World
  -- libs3: the pieces in which a get hands over the object, and its status if none is refused;
  -- the buffer sizes that a put asks for, and its status for the bytes that it was given.
  pub s3_get_object : Key → World → (List (List ℕ) × Status) × World
  pub s3_put_sizes : Key → ℕ → World → List ℕ
  pub s3_put_object : Key → ℕ → List ℕ → World → Status × World
  pub s3_delete_object : Key → World → Status × World
