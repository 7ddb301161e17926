-- ===== src/Fs/Details.antt =====
-- cloud-lib/cloudapi.c: the text that `responseCompleteCallback` leaves in `errorDetailsG`.
pub mod Bounds
use cloudfs.Base.{
  ℕ, ◌+◌, ◌-◌, Option, none, some, List, [], ◌∷◌, ◌++◌, length, take, if◌then◌else◌, ltb, map,
  on_given,
}

abbrev pub Text : Type 0
Text = List ℕ

-- `S3ErrorDetails`, as far as it is read: the null pointers are `none`, and the extra details are
-- the pairs of a name and a value.
pub record ErrorDetails : Type 0 where
  pub message : Option Text
  pub resource : Option Text
  pub further_details : Option Text
  pub extra_details : List (Text × Text)

-- `sizeof (errorDetailsG)`
abbrev pub details_size : ℕ
details_size = 4096

abbrev pub message_text : Text
message_text = b' ' ∷ b' ' ∷ b'M' ∷ b'e' ∷ b's' ∷ b's' ∷ b'a' ∷ b'g' ∷ b'e' ∷ b':' ∷ b' ' ∷ []

abbrev resource_text : Text
resource_text =
    b' ' ∷ b' ' ∷ b'R' ∷ b'e' ∷ b's' ∷ b'o' ∷ b'u' ∷ b'r' ∷ b'c' ∷ b'e' ∷ b':' ∷ b' ' ∷ []

abbrev further_text : Text
further_text =
    b' ' ∷ b' ' ∷ b'F' ∷ b'u' ∷ b'r' ∷ b't' ∷ b'h' ∷ b'e' ∷ b'r' ∷ b' ' ∷ b'D' ∷ b'e' ∷ b't' ∷ b'a'
    ∷ b'i' ∷ b'l' ∷ b's' ∷ b':' ∷ b' ' ∷ []

abbrev extra_text : Text
extra_text =
    b' ' ∷ b' ' ∷ b'E' ∷ b'x' ∷ b't' ∷ b'r' ∷ b'a' ∷ b' ' ∷ b'D' ∷ b'e' ∷ b't' ∷ b'a' ∷ b'i' ∷ b'l'
    ∷ b's' ∷ b':' ∷ 10 ∷ []

abbrev line : Text → Option Text → List Text
line start none = []
line start (some text) = (start ++ (text ++ (10 ∷ []))) ∷ []

abbrev pair_line : Text × Text → Text
pair_line (name, value) =
    (b' ' ∷ b' ' ∷ b' ' ∷ b' ' ∷ []) ++ (name ++ ((b':' ∷ b' ' ∷ []) ++ (value ++ (10 ∷ []))))

abbrev extra_lines : List (Text × Text) → List Text
extra_lines [] = []
extra_lines (pair ∷ pairs) = extra_text ∷ map pair_line (pair ∷ pairs)

-- What the calls of `snprintf` print, in order.
unfoldable pub pieces_of_error : Option ErrorDetails → List Text
pieces_of_error none = []
pieces_of_error (some error) =
    line message_text error.message
    ++ (line resource_text error.resource
        ++ (line further_text error.further_details ++ extra_lines error.extra_details))

-- What the calls have written into the buffer before its zero byte, and the local `len`.
pub record Printed : Type 0 where
  pub text : Text
  pub len : ℕ

-- `len += snprintf (&buf[len], size - len, ...)`. Behind the end, the size that is left wraps
-- around to a large one, and the call has no defined effect on the buffer: `none`.
unfoldable pub print_piece : Text → Printed → Option Printed
print_piece piece p =
    if ltb details_size p.len
    then none
    else some (record {
      text = p.text ++ take (details_size - 1 - p.len) piece;
      len = p.len + length piece;
    })

unfoldable pub print_pieces : List Text → Printed → Option Printed
print_pieces [] p = some p
print_pieces (piece ∷ pieces) p = on_given (print_piece piece p) none (print_pieces pieces)

-- What the callback writes, from `len = 0` on.
unfoldable pub compose_details : Option ErrorDetails → Option Printed
compose_details error = print_pieces (pieces_of_error error) (record { text = []; len = 0 })
