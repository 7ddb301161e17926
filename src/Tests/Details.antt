-- ===== src/Tests/Details.antt =====
-- The theorems on the text of an error at concrete inputs.
use cloudfs.Base.{
  ◌≡◌, refl, arith, ℕ, ◌<◌, Option, none, some, [], ◌∷◌, ◌++◌, length, replicate, length-append,
  length-replicate,
}
use cloudfs.Fs.Laws.{flat}
use cloudfs.Fs.Details.{
  Text, ErrorDetails, details_size, message_text, pieces_of_error, compose_details,
}
use cloudfs.Fs.Details.Bounds.{compose_details_lem, compose_details_overflow}

-- An error with a message alone, and one with a message of 4097 bytes and a resource.
abbrev short : Option ErrorDetails
short = some (record {
  message = some (b'n' ∷ b'o' ∷ []);
  resource = none;
  further_details = none;
  extra_details = [];
})

abbrev long_message : Text
long_message = replicate 4097 b'n'

abbrev long : Option ErrorDetails
long = some (record {
  message = some long_message;
  resource = some (b'r' ∷ []);
  further_details = none;
  extra_details = [];
})

short_fits : length (flat (pieces_of_error short)) < details_size
unfolding pieces_of_error
short_fits = omega arith

compose_details_lem_example :
    compose_details short
    ≡ some (record {
      text = flat (pieces_of_error short);
      len = length (flat (pieces_of_error short));
    })
compose_details_lem_example = compose_details_lem short short_fits

abbrev first_piece : Text
first_piece = message_text ++ (long_message ++ (10 ∷ []))

abbrev second_piece : Text
second_piece =
    b' ' ∷ b' ' ∷ b'R' ∷ b'e' ∷ b's' ∷ b'o' ∷ b'u' ∷ b'r' ∷ b'c' ∷ b'e' ∷ b':' ∷ b' ' ∷ b'r' ∷ 10
    ∷ []

long_pieces : pieces_of_error long ≡ (first_piece ∷ []) ++ (second_piece ∷ [])
unfolding pieces_of_error
long_pieces = refl

too_long : details_size < length (flat (first_piece ∷ []))
too_long = omega (
  arith,
  length-append first_piece [],
  length-append message_text (long_message ++ (10 ∷ [])),
  length-append long_message (10 ∷ []),
  length-replicate {A = ℕ} 4097 b'n',
)

compose_details_overflow_example : compose_details long ≡ none
compose_details_overflow_example =
    compose_details_overflow long (first_piece ∷ []) [] second_piece long_pieces too_long
