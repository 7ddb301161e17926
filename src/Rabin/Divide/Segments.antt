-- ===== src/Rabin/Divide/Segments.antt =====
-- The segments of a file make up the file, and their lengths keep the bounds.
use mathlib.Core.List.{append_assoc, append-nil}
use cloudfs.Base.{ℕ, zero, suc, ◌≤◌, ◌<◌, ◌≡◌, refl, sym, ap, ◌∙◌, arith, inl, inr}
use mathlib.Core.Path.{subst}
use cloudfs.Base.{
  Bool-cases, ==_iff, ◌==◌, if◌then◌else◌, some, List, [], ◌∷◌, ◌++◌, length, take, drop, All,
}
use cloudfs.Base.{length-append, length-take, length-drop, take-append-drop, take-all, All-append}
use cloudfs.Rabin.Window.{Rabin}
use cloudfs.Rabin.Segment.{Found}
use cloudfs.Rabin.Segment.Bounds.{IsOpen, IsFound, rabin_segment_next_lem}
use cloudfs.Rabin.Divide.{Line, Progress, after_call, chunk_loop, read_loop, divide}

-- The bytes of the lines, in order.
pub bytes_of : List Line → List ℕ
bytes_of [] = []
bytes_of (l ∷ ls) = l.hashed ++ bytes_of ls

bytes_of-append : (ls ks : List Line) → bytes_of (ls ++ ks) ≡ bytes_of ls ++ bytes_of ks
unfolding bytes_of
bytes_of-append [] ks = refl
bytes_of-append (l ∷ ls) ks =
    ap (λ (xs : List ℕ). l.hashed ++ xs) (bytes_of-append ls ks)
    ∙ sym (append_assoc l.hashed (bytes_of ls) (bytes_of ks))

pub flat : List (List ℕ) → List ℕ
flat [] = []
flat (c ∷ cs) = c ++ flat cs

-- A line whose length is that of its bytes and lies within the bounds.
pub record IsSegment (min max : ℕ) (l : Line) : Type 0 where
  pub counted : l.segment_len ≡ length l.hashed
  pub at_least : min ≤ l.segment_len
  pub at_most : l.segment_len ≤ max

-- The loops after they have read `seen`.
pub record HasRead (min max : ℕ) (seen : List ℕ) (s : Progress) : Type 0 where
  pub is_open : IsOpen s.rp
  pub same_min : s.rp.min_segment_size ≡ min
  pub same_max : s.rp.max_segment_size ≡ max
  pub counted : s.under_way.segment_len ≡ length s.under_way.hashed
  pub current : s.rp.cur_seg_size ≡ s.under_way.segment_len
  pub segments : All (IsSegment min max) s.printed
  pub whole : bytes_of s.printed ++ s.under_way.hashed ≡ seen

length-eq-zero : (xs : List ℕ) → length xs ≡ 0 → xs ≡ []
length-eq-zero [] e = refl
length-eq-zero (x ∷ xs) e = absurd (omega arith)

count-le :
    (rp : Rabin) (f : Found) (buf : List ℕ)
    → IsFound rp buf 0 f
    → length (take f.count buf) ≡ f.count
count-le rp f buf found = elim (Bool-cases f.is_new_segment) [
  | inl e ↦ omega (arith, length-take f.count buf, found.at_boundary e)
  | inr e ↦ omega (arith, length-take f.count buf, found.at_end e)
]

module _ (min max : ℕ) where
  after_call-HasRead :
      (s : Progress) (f : Found) (seen buf : List ℕ)
      → HasRead min max seen s
      → IsFound s.rp buf 0 f
      → IsOpen f.state
      → HasRead min max (seen ++ take f.count buf) (after_call s f buf)
  unfolding after_call bytes_of
  after_call-HasRead s f seen buf h found o =
      let n = count-le s.rp f buf found in
      let more : List ℕ = take f.count buf in
      let joined = length-append s.under_way.hashed more in
      let whole : bytes_of s.printed ++ (s.under_way.hashed ++ more) ≡ seen ++ more =
        sym (append_assoc (bytes_of s.printed) s.under_way.hashed more)
        ∙ ap (λ (xs : List ℕ). xs ++ more) h.whole in
      elim (Bool-cases f.is_new_segment) [
        | inl e ↦ rw e (record {
          is_open = o;
          same_min = omega (arith, found.keeps, h.same_min);
          same_max = omega (arith, found.keeps, h.same_max);
          counted = refl;
          current = omega (arith, found.at_boundary e);
          segments = All-append (IsSegment min max) s.printed _ h.segments (
            record {
              counted = omega (arith, h.counted, n, joined);
              at_least = omega (arith, found.at_boundary e, h.current, h.same_min);
              at_most = omega (arith, found.at_boundary e, h.current, h.same_max);
            },
            tt,
          );
          whole =
              append-nil _
              ∙ bytes_of-append s.printed _
              ∙ ap (λ (xs : List ℕ). bytes_of s.printed ++ xs)
                  (append-nil (s.under_way.hashed ++ more))
              ∙ whole;
        })
        | inr e ↦ rw e (record {
          is_open = o;
          same_min = omega (arith, found.keeps, h.same_min);
          same_max = omega (arith, found.keeps, h.same_max);
          counted = omega (arith, h.counted, n, joined);
          current = omega (arith, found.at_end e, h.current, n);
          segments = h.segments;
          whole = whole;
        })
      ]

  -- A call that reads nothing was given nothing.
  idle-HasRead :
      (s : Progress) (f : Found) (seen buf : List ℕ)
      → HasRead min max seen s
      → IsFound s.rp buf 0 f
      → IsOpen f.state
      → f.count ≡ 0
      → HasRead min max (seen ++ buf) (record s { rp = f.state })
  idle-HasRead s f seen [] h found o e = elim (Bool-cases f.is_new_segment) [
    | inl new ↦ absurd (omega (arith, found.at_boundary new))
    | inr old ↦ record {
      is_open = o;
      same_min = omega (arith, found.keeps, h.same_min);
      same_max = omega (arith, found.keeps, h.same_max);
      counted = h.counted;
      current = omega (arith, found.at_end old, h.current);
      segments = h.segments;
      whole = h.whole ∙ sym (append-nil seen);
    }
  ]
  idle-HasRead s f seen (x ∷ xs) h found o e = elim (Bool-cases f.is_new_segment) [
    | inl new ↦ absurd (omega (arith, found.at_boundary new))
    | inr old ↦ absurd (omega (arith, found.at_end old))
  ]

  -- What the inner loop returns once it has a call's outcome, from what its later rounds return.
  after_found :
      (fuel : ℕ) (s : Progress) (f : Found) (seen buf : List ℕ)
      → HasRead min max seen s
      → IsFound s.rp buf 0 f
      → IsOpen f.state
      → (length (drop f.count buf) < length buf
          → HasRead min max (seen ++ take f.count buf) (after_call s f buf)
          → (s' : Progress) × (chunk_loop fuel (after_call s f buf) (drop f.count buf) ≡ some s')
            × HasRead min max ((seen ++ take f.count buf) ++ drop f.count buf) s')
      → (s' : Progress) × ((if f.count == 0
            then some (record s { rp = f.state })
            else if length (drop f.count buf) == 0
            then some (after_call s f buf)
            else chunk_loop fuel (after_call s f buf) (drop f.count buf))
          ≡ some s')
        × HasRead min max (seen ++ buf) s'
  after_found fuel s f seen buf h found o later =
      let next = after_call-HasRead s f seen buf h found o in
      let all_read : (seen ++ take f.count buf) ++ drop f.count buf ≡ seen ++ buf =
        append_assoc seen (take f.count buf) (drop f.count buf)
        ∙ ap (λ (xs : List ℕ). seen ++ xs) (take-append-drop f.count buf) in
      elim (Bool-cases (f.count == 0)) [
        | inl e ↦ rw e (
          record s { rp = f.state },
          refl,
          idle-HasRead s f seen buf h found o ((==_iff f.count 0).0 e),
        )
        | inr e ↦ rw e (elim (Bool-cases (length (drop f.count buf) == 0)) [
          | inl last ↦ rw last (
            after_call s f buf,
            refl,
            subst (λ (xs : List ℕ). HasRead min max xs (after_call s f buf))
                (sym (append-nil (seen ++ take f.count buf))
                  ∙ ap (λ (xs : List ℕ). (seen ++ take f.count buf) ++ xs)
                      (sym (length-eq-zero (drop f.count buf) ((==_iff _ 0).0 last)))
                  ∙ all_read)
                next,
          )
          | inr more ↦ rw more (
              let shorter : length (drop f.count buf) < length buf =
                ground (arith, length-drop f.count buf) in
              let (s', e', h') = later shorter next in
              (s', e', subst (λ (xs : List ℕ). HasRead min max xs s') all_read h'))
        ])
      ]

  chunk_loop-HasRead :
      (fuel : ℕ) (s : Progress) (seen buf : List ℕ)
      → length buf < fuel
      → HasRead min max seen s
      → (s' : Progress) × (chunk_loop fuel s buf ≡ some s') × HasRead min max (seen ++ buf) s'
  unfolding chunk_loop
  chunk_loop-HasRead zero s seen buf enough h = absurd (omega arith)
  chunk_loop-HasRead (suc fuel) s seen buf enough h =
      let (f, e, found', o) = rabin_segment_next_lem s.rp buf (length buf) h.is_open in
      let found : IsFound s.rp buf 0 f =
        subst (λ (xs : List ℕ). IsFound s.rp xs 0 f) (take-all (length buf) buf (omega arith))
          found' in
      rw (e, chunk_loop)
        (after_found fuel s f seen buf h found o λ shorter next.
          chunk_loop-HasRead fuel (after_call s f buf) (seen ++ take f.count buf) (drop f.count buf)
            (omega arith) next)

  read_loop-HasRead :
      (chunks : List (List ℕ)) (s : Progress) (seen : List ℕ)
      → HasRead min max seen s
      → (s' : Progress) × (read_loop s chunks ≡ some s') × HasRead min max (seen ++ flat chunks) s'
  unfolding read_loop flat
  read_loop-HasRead [] s seen h =
      (s, refl, subst (λ (xs : List ℕ). HasRead min max xs s) (sym (append-nil seen)) h)
  read_loop-HasRead (c ∷ cs) s seen h =
      let (s₁, e₁, h₁) = chunk_loop-HasRead (suc (length c)) s seen c (omega arith) h in
      let (s₂, e₂, h₂) = read_loop-HasRead cs s₁ (seen ++ c) h₁ in
      (
        s₂,
        rw (e₁, read_loop) e₂,
        subst (λ (xs : List ℕ). HasRead min max xs s₂) (append_assoc seen c (flat cs)) h₂,
      )

-- With sizes as `rabin_init` accepts them (below 2 ^ 32) and no segment begun, the loops of
-- rabin-example.c end, whatever pieces `read` returns the file in: they print one line for each
-- segment, the segments put together are the file, each length printed is that of its segment,
-- each segment but the last has between the smallest and the largest size, and the last is below
-- the largest.
pub divide_lem :
    (rp : Rabin) (chunks : List (List ℕ))
    → IsOpen rp
    → rp.cur_seg_size ≡ 0
    → (ls : List Line) × (last : Line) × (divide rp chunks ≡ some (ls ++ (last ∷ [])))
      × (bytes_of (ls ++ (last ∷ [])) ≡ flat chunks)
      × All (IsSegment rp.min_segment_size rp.max_segment_size) ls
      × (last.segment_len ≡ length last.hashed)
      × (last.segment_len < rp.max_segment_size)
unfolding divide bytes_of
divide_lem rp chunks o e =
    let start : Progress = record {
      rp = rp;
      under_way = record { segment_len = 0; hashed = [] };
      printed = [];
    } in
    let begun : HasRead rp.min_segment_size rp.max_segment_size [] start = record {
      is_open = o;
      same_min = refl;
      same_max = refl;
      counted = refl;
      current = e;
      segments = tt;
      whole = refl;
    } in
    let (s, ran, h) =
      read_loop-HasRead rp.min_segment_size rp.max_segment_size chunks start [] begun in
    (
      s.printed,
      s.under_way,
      rw (ran, divide) refl,
      bytes_of-append s.printed (s.under_way ∷ [])
          ∙ ap (λ (xs : List ℕ). bytes_of s.printed ++ xs) (append-nil s.under_way.hashed)
          ∙ h.whole,
      h.segments,
      h.counted,
      omega (arith, h.current, h.is_open.unfinished, h.same_max),
    )
