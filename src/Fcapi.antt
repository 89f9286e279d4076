-- ===== src/Fcapi.antt =====
-- src/keycard/backends/fcapi.py: HTTP/1.1 on the API socket of Firecracker. A stream is the bytes that
-- are to come; a text is decoded byte by byte, as ISO 8859-1 is. `json.dumps` is a parameter: a body
-- is what it has written.
pub mod Framing
mod Lengths
mod Fault
pub mod Ready
pub mod Reply
pub mod Request
mod Examples
use keycard.Prelude.{
  ℕ, zero, suc, ◌+◌, Bool, true, false, ◌&&◌, ◌||◌, Option, none, some, List, [], ◌∷◌, ◌++◌, ℤ, pos,
  negsuc, Text, codes, same_text, starts_with, cut, take_exactly, Result, ok, err, ◌>>=◌, Error,
  value_error, eof_error, timeout_error, api_error, ltb, leb, ◌==◌, length, if◌then◌else◌,
}
use keycard.Prelude.Numbers.{strip, is_blank, str_to_int}
use keycard.Prelude.Decimals.{decimal}

-- `"\r\n".join`
unfoldable pub join_lines : List Text → Text
join_lines [] = []
join_lines (l ∷ []) = l
join_lines (l ∷ m ∷ ls) = l ++ 13 ∷ 10 ∷ join_lines (m ∷ ls)

-- The lines of `encode_request`.
unfoldable pub request_lines : Text → Text → Text → List Text
request_lines method path payload =
    (method ++ (b' ' ∷ (path ++ codes " HTTP/1.1")))
    ∷ codes "Host: localhost"
    ∷ codes "Accept: application/json"
    ∷ codes "Connection: close"
    ∷ (codes "Content-Length: " ++ decimal (length payload))
    ∷ (elim payload [ [] ↦ [] | c ∷ cs ↦ codes "Content-Type: application/json" ∷ [] ])

-- `encode_request`
unfoldable pub encode_request : Text → Text → Option Text → Text
unfolding request_lines join_lines
encode_request method path body =
    let payload : Text = elim body [ none ↦ [] | some bytes ↦ bytes ] in
    join_lines (request_lines method path payload) ++ 13 ∷ 10 ∷ 13 ∷ 10 ∷ payload

abbrev push : ℕ → List Text → List Text
push c [] = (c ∷ []) ∷ []
push c (l ∷ ls) = (c ∷ l) ∷ ls

-- `text.split("\r\n")`
unfoldable pub split_lines : Text → List Text
split_lines [] = [] ∷ []
split_lines (c ∷ []) = (c ∷ []) ∷ []
split_lines (c ∷ d ∷ cs) =
    let next = split_lines cs in
    let more = split_lines (d ∷ cs) in if (c == 13) && (d == 10) then [] ∷ next else push c more

-- What stands before the first space: a word of `split(" ", 2)`.
abbrev pub first_word : Text → Text
first_word cs = elim (cut b' ' cs) [ none ↦ cs | some (front, back) ↦ front ]

-- The status line of `parse_head`.
unfoldable pub parse_status : Text → Result ℤ
parse_status line = elim (cut b' ' line) [
  | none ↦ err value_error
  | some (version, rest) ↦
      if starts_with version (codes "HTTP/")
      then (elim (str_to_int (first_word rest)) [ none ↦ err value_error | some n ↦ ok n ])
      else err value_error
]

-- `str.lower` below 256.
unfoldable pub lower : Text → Text
lower [] = []
lower (c ∷ cs) =
    let rest = lower cs in
    (if (leb 65 c && leb c 90) || ((leb 192 c && leb c 214) || (leb 216 c && leb c 222))
      then c + 32
      else c)
    ∷ rest

abbrev pub header_of : Text → Text × Text
header_of line = elim (cut b':' line) [
  | none ↦ (lower (strip is_blank line), [])
  | some (name, value) ↦ (lower (strip is_blank name), strip is_blank value)
]

-- The header lines of `parse_head`; the dict is the list of its assignments, latest first.
unfoldable pub parse_headers : List Text → List (Text × Text) → List (Text × Text)
parse_headers [] headers = headers
parse_headers ([] ∷ lines) headers = parse_headers lines headers
parse_headers ((c ∷ cs) ∷ lines) headers = parse_headers lines (header_of (c ∷ cs) ∷ headers)

-- `parse_head`
unfoldable pub parse_head : Text → Result (ℤ × List (Text × Text))
unfolding parse_status split_lines parse_headers
parse_head head = elim (split_lines head) [
  | [] ↦ err value_error
  | l ∷ ls ↦ (parse_status l) >>= λ status. ok (status, parse_headers ls [])
]

-- `headers.get(name)`
unfoldable pub header : Text → List (Text × Text) → Option Text
header name [] = none
header name ((n, v) ∷ headers) = if same_text n name then some v else header name headers

abbrev prefix : Text → Option (Text × Text) → Option (Text × Text)
prefix line none = none
prefix line (some (head, rest)) = some (line ++ head, rest)

-- `reader.readuntil(b"\r\n\r\n")`, and what stays unread.
unfoldable pub read_head : Text → Option (Text × Text)
read_head [] = none
read_head (c ∷ cs) =
    let more = read_head cs in
    if starts_with (c ∷ cs) (13 ∷ 10 ∷ 13 ∷ 10 ∷ [])
    then take_exactly 4 (c ∷ cs)
    else prefix (c ∷ []) more

-- `int(headers.get("content-length", "0") or "0")`
unfoldable pub content_length : List (Text × Text) → Result ℤ
unfolding header
content_length headers = elim (header (codes "content-length") headers) [
  | none ↦ ok (pos 0)
  | some value ↦ elim value [
    | [] ↦ ok (pos 0)
    | c ∷ cs ↦ elim (str_to_int (c ∷ cs)) [ none ↦ err value_error | some n ↦ ok n ]
  ]
]

-- `reader.readexactly`, which refuses a negative length.
unfoldable pub read_exactly : ℤ → Text → Result (Text × Text)
read_exactly (pos n) stream = elim (take_exactly n stream) [ none ↦ err eof_error | some r ↦ ok r ]
read_exactly (negsuc n) stream = err value_error

pub record Response : Type 0 where
  pub status : ℤ
  pub body : Text

-- `read_response` behind the head.
unfoldable pub read_body : ℤ → List (Text × Text) → Text → Result (Response × Text)
unfolding content_length read_exactly header
read_body status headers stream = elim (header (codes "transfer-encoding") headers) [
  | some value ↦ err value_error
  | none ↦ do
    size ← content_length headers
    (body, rest) ← read_exactly size stream
    ok (record { status = status; body = body }, rest)
]

-- `read_response`
unfoldable pub read_response : Text → Result (Response × Text)
unfolding read_head parse_head read_body
read_response stream = elim (read_head stream) [
  | none ↦ err eof_error
  | some (head, rest) ↦ (parse_head head) >>= λ h. read_body h.0 h.1 rest
]

-- `Response.ok`
unfoldable pub is_success : ℤ → Bool
is_success (pos n) = leb 200 n && ltb n 300
is_success (negsuc n) = false

-- `_exchange`: `sent` is the outcome of connecting and sending.
unfoldable pub exchange : Result (Unit {0}) → Text → Result Response
unfolding read_response
exchange sent stream = do _ ← sent; (response, rest) ← read_response stream; ok response

-- `request`, with the outcome of the exchange under its timeout.
unfoldable pub request : Result Response → Result Response
unfolding is_success
request (err e) = elim e [ Error.timeout_error ↦ err api_error | x ↦ err x ]
request (ok response) = if is_success response.status then ok response else err api_error
