-- ===== src/Fs/Recorder.antt =====
-- A system that notes the calls of the lock service beside what any other system does. What
-- cloudfs/cloudfs.c sends is then a part of its state.
pub mod Quiet
pub mod Sent
pub mod Conversation
pub mod Overtaken
use cloudfs.Base.{ℕ, Bool, Option, List, [], ◌∷◌, ◌++◌}
use cloudfs.Fs.Os.{Os, Call, LockParams}
use cloudfs.Fs.State.{Globals}

pub record Recorded (W : Type 0) : Type 0 where
  pub inner : W
  -- In the order in which they were sent.
  pub calls : List LockParams

-- A call that is not noted.
abbrev quiet : {W A : Type 0} → (W → A × W) → Recorded W → A × Recorded W
quiet c r = let (a, w) = c r.inner in (a, record r { inner = w })

abbrev noted : {W : Type 0} → (LockParams → Call W ℕ) → LockParams → Call (Recorded W) ℕ
noted call arg r =
    let (a, w) = call arg r.inner in (a, record { inner = w; calls = r.calls ++ (arg ∷ []) })

abbrev pub recording : Os → Os
recording os = record {
  World = Recorded os.World;
  errno = λ r. os.errno r.inner;
  unlink = λ p. quiet (os.unlink p);
  symlink = λ target p. quiet (os.symlink target p);
  lstat = λ p. quiet (os.lstat p);
  fstat = λ fd. quiet (os.fstat fd);
  open_file = λ p flags. quiet (os.open_file p flags);
  create_file = λ p. quiet (os.create_file p);
  close = λ fd. quiet (os.close fd);
  dup = λ fd. quiet (os.dup fd);
  pread = λ fd size offset. quiet (os.pread fd size offset);
  pwrite = λ fd bytes offset. quiet (os.pwrite fd bytes offset);
  write_stat = λ fd st. quiet (os.write_stat fd st);
  read_stat = λ fd. quiet (os.read_stat fd);
  mknod = λ p mode dev. quiet (os.mknod p mode dev);
  mkfifo = λ p mode. quiet (os.mkfifo p mode);
  truncate = λ p size. quiet (os.truncate p size);
  access = λ p mask. quiet (os.access p mask);
  utimensat = λ p ts. quiet (os.utimensat p ts);
  lgetxattr = λ p key size. quiet (os.lgetxattr p key size);
  mkdir = λ p mode. quiet (os.mkdir p mode);
  rmdir = λ p. quiet (os.rmdir p);
  opendir = λ p. quiet (os.opendir p);
  readdir = λ dp. quiet (os.readdir dp);
  closedir = λ dp. quiet (os.closedir dp);
  filler = λ name. quiet (os.filler name);
  fopen_write = λ p. quiet (os.fopen_write p);
  fopen_read = λ p. quiet (os.fopen_read p);
  fwrite = λ f bytes. quiet (os.fwrite f bytes);
  fread = λ f n. quiet (os.fread f n);
  fclose = λ f r. record r { inner = os.fclose f r.inner };
  acquire_1 = noted os.acquire_1;
  release_1 = noted os.release_1;
  usleep = λ r. record r { inner = os.usleep r.inner };
  s3_get_object = λ k. quiet (os.s3_get_object k);
  s3_put_sizes = λ k n r. os.s3_put_sizes k n r.inner;
  s3_put_object = λ k n bytes. quiet (os.s3_put_object k n bytes);
  s3_delete_object = λ k. quiet (os.s3_delete_object k);
}

-- The calls sent so far, and whether the next release is skipped.
abbrev pub lock_view : {W : Type 0} → Globals (Recorded W) → List LockParams × Bool
lock_view s = (s.world.calls, s.skip)
