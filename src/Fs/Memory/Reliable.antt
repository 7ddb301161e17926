-- ===== src/Fs/Memory/Reliable.antt =====
-- The system in memory has every effect that `Fs.Laws` documents.
use mathlib.Core.List.{append-nil}
use cloudfs.Base.{◌≡◌, refl, arith, true, Option, none, some, [], ◌∷◌, ◌++◌}
use cloudfs.Base.{length, take, drop, take-append-drop}
use cloudfs.Fs.Names.{FilePath}
use cloudfs.Fs.Os.{status_ok}
use cloudfs.Fs.Disk.{Node, regular, saved, link, put_object}
use cloudfs.Fs.Laws.{IsReliable, IsNoLink, overwrite, padded}
use cloudfs.Fs.Memory.{Machine, disk_of, memory, with_node, create_node, empty_at}

pub creates :
    (p : FilePath) (n : Option Node) (w : Machine) → IsNoLink n → create_node p n w ≡ empty_at p w
creates p none w free = refl
creates p (some (regular bytes o)) w free = refl
creates p (some (saved st)) w free = refl
creates p (some (link target)) w free = absurd free

abbrev pub memory_reliable : IsReliable memory
memory_reliable = record {
  disk = disk_of;
  held_room = λ w p n h. refl;
  unread = λ w f. w.input;
  file_of = λ w f. w.opened;
  stat_on = λ w fd. w.record_at;
  fd_file = λ w fd. w.opened;
  fd_flags = λ w fd. w.flags;
  lstat_regular = λ w p bytes o h. (w, rw h refl, refl, refl);
  lstat_link = λ w p target h.
      (record { is_link = true; st_size = length target; others = 0 }, w, rw h refl, refl, refl);
  unlink_file = λ w p n h. (with_node p none w, rw h refl, refl);
  unlink_missing = λ w p room h. (w, rw h refl, refl);
  access_there = λ w p st h. (w, rw h refl, refl);
  access_gone = λ w p room h. (w, rw h refl, refl);
  mknod_new = λ w p mode dev room h k. (0, with_node p (some (regular [] 0)) w, rw h refl, refl);
  truncate_regular = λ w p size o bytes h.
      (o, with_node p (some (regular (padded size bytes) o)) w, rw h refl, refl);
  truncate_link = λ w p target size st h k.
      (regular [] 0, with_node target (some (regular [] 0)) w, rw h refl, refl);
  symlink_new = λ w target p room h. (with_node p (some (link target)) w, rw h refl, refl);
  create_empty =
      λ w p free. (3, 0, (empty_at p w).1, creates p (w.stored.node p) w free.1, refl, refl);
  write_stat_new = λ w fd o st h. (1, with_node w.opened (some (saved st)) w, refl, refl);
  close_keeps = λ w fd. refl;
  open_regular = λ w p flags bytes o h k.
      (3, record w { opened = p; flags = flags }, rw h refl, refl, refl, refl);
  pwrite_regular = λ w fd offset o bytes buf h k. (
    o,
    with_node w.opened (some (regular (overwrite bytes offset buf) o)) w,
    rw h refl,
    refl,
    refl,
    refl,
  );
  pread_regular = λ w fd size offset o bytes h k. (w, rw h refl, refl, refl, refl);
  open_saved =
      λ w p target st h k. (3, record w { record_at = some st }, rw (h, k) refl, refl, refl);
  open_dangling = λ w p target h room k. (w, rw (h, k) refl, refl);
  read_saved = λ w fd st h. (w, rw h refl, refl);
  fopen_regular = λ w p bytes o h. (4, record w { input = bytes }, rw h refl, refl, refl);
  fread_next = λ w f n. (record w { input = drop n w.input }, refl, refl, refl);
  fopen_new = λ w p room h. (3, 0, (empty_at p w).1, rw h refl, refl, refl);
  fwrite_end = λ w f o bytes piece h.
      (o, with_node w.opened (some (regular (bytes ++ piece) o)) w, rw h refl, refl, refl);
  fclose_keeps = λ w f. refl;
  acquire_keeps = λ w arg. refl;
  release_keeps = λ w arg. refl;
  usleep_keeps = λ w. refl;
  get_found = λ w k bytes h. (
    take 2 bytes ∷ drop 2 bytes ∷ [],
    w,
    rw h refl,
    rw (append-nil (drop 2 bytes)) (take-append-drop 2 bytes),
    refl,
    refl,
  );
  get_missing = λ w k h. (404, w, rw h refl, refl, refl);
  put_sizes = λ w k n. ((omega arith, (omega arith, tt)), omega arith);
  put_all = λ w k bytes. (record w { stored = put_object k (some bytes) w.stored }, refl, refl);
  delete_any = λ w k. (status_ok, record w { stored = put_object k none w.stored }, refl, refl);
}
