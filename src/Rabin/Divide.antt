-- ===== src/Rabin/Divide.antt =====
-- dedup-lib/rabin-example.c: the loops of `main` that divide a file into segments. What `read`
-- puts into its buffer, call by call, is the list of chunks. MD5 is outside this repository: a
-- line printed is the segment's length with the bytes that were given to MD5_Update for it.
pub mod Segments
use cloudfs.Base.{ℕ, zero, suc, ◌+◌, true, ◌==◌, if◌then◌else◌, Option, none, some}
use cloudfs.Base.{List, [], ◌∷◌, ◌++◌, length, take, drop}
use cloudfs.Rabin.Window.{Rabin}
use cloudfs.Rabin.Segment.{Found, rabin_segment_next}

pub record Line : Type 0 where
  pub segment_len : ℕ
  pub hashed : List ℕ

-- The variables of `main` between two calls: `rp`, the segment under way, and the lines printed.
pub record Progress : Type 0 where
  pub rp : Rabin
  pub under_way : Line
  pub printed : List Line

-- The body of the inner loop after a call that read `f.count` bytes of `buf`.
unfoldable pub after_call : Progress → Found → List ℕ → Progress
after_call s f buf =
    let line : Line = record {
      segment_len = s.under_way.segment_len + f.count;
      hashed = s.under_way.hashed ++ take f.count buf;
    } in
    if f.is_new_segment
    then record {
      rp = f.state;
      under_way = record { segment_len = 0; hashed = [] };
      printed = s.printed ++ (line ∷ []);
    }
    else record { rp = f.state; under_way = line; printed = s.printed }

-- The inner loop on fuel. `none` is `exit(2)` after a call that failed, or the end of the fuel.
unfoldable pub chunk_loop : ℕ → Progress → List ℕ → Option Progress
chunk_loop zero s buf = none
chunk_loop (suc fuel) s buf = elim (rabin_segment_next (some s.rp) (some buf) (length buf) true) [
  | none ↦ none
  | some f ↦
      let s' = after_call s f buf in
      let buf' = drop f.count buf in
      let rest = chunk_loop fuel s' buf' in
      if f.count == 0
      then some (record s { rp = f.state })
      else if length buf' == 0
      then some s'
      else rest
]

-- The outer loop. A chunk of n bytes takes fuel n + 1.
unfoldable pub read_loop : Progress → List (List ℕ) → Option Progress
read_loop s [] = some s
read_loop s (chunk ∷ chunks) = elim (chunk_loop (suc (length chunk)) s chunk) [
  | none ↦ none
  | some s' ↦ read_loop s' chunks
]

-- From a fresh state to the last line, which is printed after the loop.
unfoldable pub divide : Rabin → List (List ℕ) → Option (List Line)
divide rp chunks =
    elim (read_loop
      (record { rp = rp; under_way = record { segment_len = 0; hashed = [] }; printed = [] })
      chunks) [ none ↦ none | some s ↦ some (s.printed ++ (s.under_way ∷ [])) ]
