-- ===== src/Tests/Many.antt =====
-- Two files at once at a concrete input, on the system in memory.
use cloudfs.Base.{◌≡◌, refl, inl, arith, none, some, List, [], ◌∷◌}
use cloudfs.Fs.Names.{FilePath}
use cloudfs.Fs.Names.Separate.{NoPlus, IsPlain}
use cloudfs.Fs.State.{Globals, ok}
use cloudfs.Fs.Memory.{Machine, disk_of, memory}
use cloudfs.Fs.Memory.Reliable.{memory_reliable}
use cloudfs.Fs.Files.History.{Operation, make, edit, remove, made, edited, removed}
use cloudfs.Fs.Files.Many.{
  Tree, with_file, Moves, stay, move, HoldsTree, perform_each, perform_each-Moves,
}
use cloudfs.Tests.Fs.{config, file_a, three}
use cloudfs.Tests.Files.{nothing, at_disk}

abbrev file_b : FilePath
file_b = b'/' ∷ b'b' ∷ []

a_fits : IsPlain file_a
a_fits = record { no_plus = (ground arith, (ground arith, tt)); rooted = (b'a' ∷ [], refl) }

b_fits : IsPlain file_b
b_fits = record { no_plus = (ground arith, (ground arith, tt)); rooted = (b'b' ∷ [], refl) }

root_fits : NoPlus config.ssd_path
root_fits = (ground arith, (ground arith, tt))

abbrev no_files : Tree
no_files p = none

abbrev history : List (FilePath × Operation)
history =
    (file_a, make 0o100644 0)
    ∷ (file_b, make 0o100644 0)
    ∷ (file_a, edit 1 ((0, three) ∷ []))
    ∷ (file_b, edit 1 ((0, 4 ∷ []) ∷ []))
    ∷ (file_a, remove)
    ∷ []

abbrev two_empty : Tree
two_empty = with_file file_b (some []) (with_file file_a (some []) no_files)

abbrev two_written : Tree
two_written = with_file file_b (some (4 ∷ [])) (with_file file_a (some three) two_empty)

moves : Moves config no_files history (with_file file_a none two_written)
moves = move a_fits (made 0o100644 0 refl) (
    move b_fits (made 0o100644 0 refl) (
      move a_fits (edited [] 1 ((0, three) ∷ []) refl (inl refl, refl)) (
        move b_fits (edited [] 1 ((0, 4 ∷ []) ∷ []) refl (inl refl, refl))
          (move a_fits (removed three) (stay (with_file file_a none two_written))))))

perform_each-Moves_example :
    (s' : Globals Machine) × (perform_each memory config history (at_disk nothing)
      ≡ (ok 0 ∷ ok 0 ∷ ok 0 ∷ ok 0 ∷ ok 0 ∷ [], s'))
    × HoldsTree config (with_file file_a none two_written) (disk_of s'.world)
perform_each-Moves_example =
    perform_each-Moves memory memory_reliable config root_fits (at_disk nothing) moves
      ((refl, refl), ((refl, refl), ((refl, refl), ((refl, refl), ((refl, refl), tt)))))
      (λ p plain. (refl, refl, refl))
