-- ===== src/Fs/Details/Bounds.antt =====
-- When the text of an error fits into `errorDetailsG` of cloud-lib/cloudapi.c, and when not.
use mathlib.Core.List.{append_assoc, append-nil}
use cloudfs.Base.{
  ℕ, ◌+◌, ◌-◌, ◌<◌, ◌≡◌, refl, sym, ap, ◌∙◌, arith, ltb, true, false, Option, none, some, List, [],
  ◌∷◌, ◌++◌, length, length-append, take-all, take, Bool-cases, inl, inr,
}
use cloudfs.Fs.Laws.{flat}
use cloudfs.Fs.Details.{
  Text, ErrorDetails, details_size, pieces_of_error, Printed, print_piece, print_pieces,
  compose_details,
}

fitting :
    (piece : Text) (pieces : List Text) (p : Printed)
    → p.len + length piece < details_size
    → print_pieces (piece ∷ pieces) p
      ≡ print_pieces pieces (record { text = p.text ++ piece; len = p.len + length piece })
unfolding print_pieces print_piece
fitting piece pieces p h =
    let inside : ltb details_size p.len ≡ false = ground arith in
    rw (inside, take-all (details_size - 1 - p.len) piece (omega arith)) refl

print_pieces_lem :
    (pieces : List Text) (p : Printed)
    → p.len + length (flat pieces) < details_size
    → print_pieces pieces p
      ≡ some (record { text = p.text ++ flat pieces; len = p.len + length (flat pieces) })
unfolding print_pieces
print_pieces_lem [] p h =
    let text = append-nil p.text in
    ap (λ t. some (record p { text = t })) (sym text)
    ∙ ap (λ (n : ℕ). some (record { text = p.text ++ []; len = n })) (omega arith)
print_pieces_lem (piece ∷ pieces) p h =
    let both = length-append piece (flat pieces) in
    fitting piece pieces p (omega (arith, both))
    ∙ print_pieces_lem pieces (record { text = p.text ++ piece; len = p.len + length piece })
        (omega (arith, both))
    ∙ ap (λ t. some (record { text = t; len = p.len + length piece + length (flat pieces) }))
        (append_assoc p.text piece (flat pieces))
    ∙ ap (λ (n : ℕ). some (record { text = p.text ++ (piece ++ flat pieces); len = n }))
        (omega (arith, both))

-- If the pieces of the text of an error are fewer bytes in total than `errorDetailsG` has,
-- `responseCompleteCallback` writes them inside it, one after the other, and nothing of them is
-- cut.
pub compose_details_lem :
    (error : Option ErrorDetails)
    → length (flat (pieces_of_error error)) < details_size
    → compose_details error
      ≡ some (record {
        text = flat (pieces_of_error error);
        len = length (flat (pieces_of_error error));
      })
unfolding compose_details
compose_details_lem error h =
    print_pieces_lem (pieces_of_error error) (record { text = []; len = 0 }) (omega arith)
    ∙ ap (λ (n : ℕ). some (record { text = flat (pieces_of_error error); len = n })) (omega arith)

module _ (piece : Text) (pieces : List Text) (p : Printed) where
  past_the_end : ltb details_size p.len ≡ true → print_pieces (piece ∷ pieces) p ≡ none
  unfolding print_pieces print_piece
  past_the_end e = rw e refl

  in_the_buffer :
      ltb details_size p.len ≡ false
      → print_pieces (piece ∷ pieces) p
        ≡ print_pieces pieces (record {
          text = p.text ++ take (details_size - 1 - p.len) piece;
          len = p.len + length piece;
        })
  unfolding print_pieces print_piece
  in_the_buffer e = rw e refl

overflow :
    (pieces rest : List Text) (next : Text) (p : Printed)
    → details_size < p.len + length (flat pieces)
    → print_pieces (pieces ++ (next ∷ rest)) p ≡ none
overflow [] rest next p h = past_the_end next rest p (ground arith)
overflow (piece ∷ pieces) rest next p h =
    let after : Printed = record {
      text = p.text ++ take (details_size - 1 - p.len) piece;
      len = p.len + length piece;
    } in
    elim (Bool-cases (ltb details_size p.len)) [
      | inl e ↦ past_the_end piece _ p e
      | inr e ↦
          in_the_buffer piece _ p e
          ∙ overflow pieces rest next after (omega (arith, length-append piece (flat pieces)))
    ]

-- If some pieces of the text of an error have more bytes in total than `errorDetailsG`, and
-- another piece follows them, `responseCompleteCallback` calls snprintf with a place behind its
-- end and a size that has wrapped around.
pub compose_details_overflow :
    (error : Option ErrorDetails) (pieces rest : List Text) (next : Text)
    → pieces_of_error error ≡ pieces ++ (next ∷ rest)
    → details_size < length (flat pieces)
    → compose_details error ≡ none
unfolding compose_details
compose_details_overflow error pieces rest next e h =
    ap (λ ps. print_pieces ps (record { text = []; len = 0 })) e
    ∙ overflow pieces rest next (record { text = []; len = 0 }) (omega arith)
