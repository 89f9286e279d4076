-- ===== src/Fcapi/Request.antt =====
-- An encoded request is read back by a server.
use keycard.Prelude.{
  ◌<◌, ◌≡◌, refl, none, some, List, [], ◌∷◌, ◌++◌, append_assoc, ◌∙◌, Text, codes, All, All-snoc,
  All-append, arith, length, ◌≢◌, pos, Result, ok, err, ◌>>=◌, eof_error, value_error, same_text,
  cut,
}
use keycard.Prelude.Numbers.{strip, strip_left, strip_right}
use keycard.Prelude.Decimals.{pow10}
use keycard.Fcapi.{
  split_lines, read_head, header_of, header, lower, parse_headers, content_length, read_exactly,
  request_lines, encode_request, join_lines,
}
use keycard.Fcapi.Framing.{
  terminated, IsBare, IsLine, join-terminated, read_head-terminated, split_lines-terminated,
  take_exactly-append,
}
use keycard.Fcapi.Lengths.{length_line, length_line-IsLine, content_length-length_line}

-- A server's side of a request: the request line, the body that the length announces, and what
-- stays unread.
abbrev pub read_request : Text → Result (Text × (Text × Text))
read_request stream = elim (read_head stream) [
  | none ↦ err eof_error
  | some (head, rest) ↦ elim (split_lines head) [
    | [] ↦ err value_error
    | l ∷ ls ↦ (content_length (parse_headers ls [])) >>= λ size.
        (read_exactly size rest) >>= λ r. ok (l, r)
  ]
]

abbrev type_line : Text
type_line = codes "Content-Type: application/json"

type_line-IsLine : IsLine type_line
type_line-IsLine = record { bare = ground arith; some_text = λ e. cc }

-- The lines behind the request line, up to the length.
abbrev fixed_lines : Text → List Text
fixed_lines payload =
    codes "Host: localhost"
    ∷ codes "Accept: application/json"
    ∷ codes "Connection: close"
    ∷ length_line payload
    ∷ []

fixed_lines_AreLines : (payload : Text) → All IsLine (fixed_lines payload)
fixed_lines_AreLines payload = (
  record { bare = ground arith; some_text = λ e. cc },
  (
    record { bare = ground arith; some_text = λ e. cc },
    (record { bare = ground arith; some_text = λ e. cc }, (length_line-IsLine payload, tt)),
  ),
)

-- The type of the body hides no length.
content_length-type_line :
    (found : List (Text × Text))
    → content_length (header_of type_line ∷ found) ≡ content_length found
unfolding content_length header same_text cut lower strip strip_left strip_right
content_length-type_line found = refl

-- The lines that follow the request line in `encode_request`.
abbrev other_lines : Text → List Text
other_lines [] = fixed_lines []
other_lines (c ∷ cs) = fixed_lines (c ∷ cs) ++ type_line ∷ []

other_lines_AreLines : (payload : Text) → All IsLine (other_lines payload)
other_lines_AreLines [] = fixed_lines_AreLines []
other_lines_AreLines (c ∷ cs) =
    All-snoc IsLine (fixed_lines (c ∷ cs)) (fixed_lines_AreLines (c ∷ cs)) type_line-IsLine

announced_length :
    (payload : Text)
    → length payload < pow10 19
    → content_length (parse_headers (other_lines payload ++ [] ∷ [] ∷ []) [])
      ≡ ok (pos (length payload))
unfolding parse_headers
announced_length [] h = content_length-length_line [] _ h
announced_length (c ∷ cs) h = content_length-type_line _ ∙ content_length-length_line (c ∷ cs) _ h

abbrev pub request_line : Text → Text → Text
request_line method path = method ++ (b' ' ∷ (path ++ codes " HTTP/1.1"))

request_lines-eq :
    (method path payload : Text)
    → request_lines method path payload ≡ request_line method path ∷ other_lines payload
unfolding request_lines
request_lines-eq method path [] = refl
request_lines-eq method path (c ∷ cs) = refl

request_line-IsLine :
    (method path : Text) → IsBare method → IsBare path → IsLine (request_line method path)
request_line-IsLine method path m p = record {
  bare =
      All-append _ method (b' ' ∷ (path ++ codes " HTTP/1.1")) m
        (refl, All-append _ path (codes " HTTP/1.1") p (ground arith));
  some_text = (elim method as (λ m. request_line m path ≢ []) [ [] ↦ λ e. cc | c ∷ cs ↦ λ e. cc ]);
}

encode_request-terminated :
    (method path payload rest : Text)
    → encode_request method path (some payload) ++ rest
      ≡ terminated (request_line method path ∷ other_lines payload) (13 ∷ 10 ∷ (payload ++ rest))
unfolding encode_request
encode_request-terminated method path [] rest =
    append_assoc (join_lines (request_line method path ∷ other_lines [])) (13 ∷ 10 ∷ 13 ∷ 10 ∷ [])
      rest
    ∙ join-terminated (request_line method path) (other_lines []) (13 ∷ 10 ∷ rest)
encode_request-terminated method path (c ∷ cs) rest =
    append_assoc (join_lines (request_line method path ∷ other_lines (c ∷ cs)))
      (13 ∷ 10 ∷ 13 ∷ 10 ∷ c ∷ cs) rest
    ∙ join-terminated (request_line method path) (other_lines (c ∷ cs)) (13 ∷ 10 ∷ c ∷ (cs ++ rest))

-- A server reads from an encoded request its request line and exactly its body, whatever bytes
-- the body has, and what follows on the stream is no part of it.
pub read_request-encode_request :
    (method path payload rest : Text)
    → IsBare method
    → IsBare path
    → length payload < pow10 19
    → read_request (encode_request method path (some payload) ++ rest)
      ≡ ok (request_line method path, (payload, rest))
unfolding split_lines read_exactly
read_request-encode_request method path payload rest m p small =
    let first = request_line method path in
    let others = other_lines payload in
    let lines : All IsLine (first ∷ others) =
      (request_line-IsLine method path m p, other_lines_AreLines payload) in
    let split : split_lines (terminated (first ∷ others) (13 ∷ 10 ∷ []))
        ≡ first ∷ others ++ [] ∷ [] ∷ [] =
      split_lines-terminated (first ∷ others) (13 ∷ 10 ∷ []) lines in
    rw
      (
        encode_request-terminated method path payload rest,
        read_head-terminated first others (payload ++ rest) lines,
        split,
        announced_length payload small,
        read_request,
        ◌>>=◌,
        read_exactly,
        take_exactly-append payload rest,
      )
      refl
