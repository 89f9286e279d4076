-- ===== src/Fcapi/Lengths.antt =====
-- The length line of a message, and that the length is read from it.
use keycard.Prelude.{
  ℕ, ◌<◌, ◌≡◌, refl, none, List, [], ◌∷◌, ◌++◌, ap, Text, codes, All-append, All-weaken, arith,
  length, pos, ok, same_text, cut,
}
use keycard.Prelude.Numbers.{strip, strip_left, strip_right, str_to_int}
use keycard.Prelude.Decimals.{
  decimal, pow10, IsDigit, decimal-AllDigits, strip-decimal, str_to_int-decimal,
}
use keycard.Fcapi.{header_of, header, lower, content_length}
use keycard.Fcapi.Framing.{IsBare, IsLine}

abbrev pub length_line : Text → Text
length_line body = codes "Content-Length: " ++ decimal (length body)

pub decimal-IsBare : (n : ℕ) → IsBare (decimal n)
decimal-IsBare n = All-weaken IsDigit _ (decimal n) (λ c h. ground arith) (decimal-AllDigits n)

pub length_line-IsLine : (body : Text) → IsLine (length_line body)
length_line-IsLine body = record {
  bare = All-append _ (codes "Content-Length: ") _ (ground arith) (decimal-IsBare (length body));
  some_text = λ e. cc;
}

pub header_of-length_line :
    (body : Text) → header_of (length_line body) ≡ (codes "content-length", decimal (length body))
unfolding cut lower strip strip_left strip_right
header_of-length_line body =
    ap (λ v. (codes "content-length", v)) (unfold strip in strip-decimal (length body))

-- A length line that comes last is the length, whatever stands before it.
pub content_length-length_line :
    (body : Text) (found : List (Text × Text))
    → length body < pow10 19
    → content_length (header_of (length_line body) ∷ found) ≡ ok (pos (length body))
content_length-length_line body found h = rw (header_of-length_line body) (
    unfold content_length header same_text in
    ground (arith, str_to_int-decimal (length body) h, no_digits))
  where
    no_digits : str_to_int [] ≡ none
    no_digits = unfold str_to_int in refl
