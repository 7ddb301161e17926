-- ===== src/Fs/Memory/Directory.antt =====
-- The system in memory has the directory streams and the buffer of `Fs.Dirs.Listing`.
use cloudfs.Base.{refl, [], ◌∷◌, ◌++◌}
use cloudfs.Fs.Dirs.Listing.{IsDirectory}
use cloudfs.Fs.Memory.{memory}

abbrev pub memory_directory : IsDirectory memory
memory_directory = record {
  entries = λ w dp. w.entries;
  filled = λ w. w.filled;
  readdir_next = λ w dp name names h. (record w { entries = names }, rw h refl, refl, refl);
  readdir_end = λ w dp h. (w, rw h refl, refl);
  filler_room = λ w name. (record w { filled = w.filled ++ (name ∷ []) }, refl, refl, refl);
}
