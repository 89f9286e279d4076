-- ===== src/Fcapi/Reply.antt =====
-- A response that is written on the socket is read back.
use keycard.Prelude.{
  leb, ltb, ◌&&◌, api_error, if◌then◌else◌, ℕ, ◌<◌, false, ◌≡◌, refl, none, some, List, [], ◌∷◌,
  ◌++◌, append_assoc, ◌∙◌, Text, codes, All, All-snoc, All-append, All-weaken, arith, ◌==◌, length,
  map, ◌≢◌, pos, ok, err, same_text, cut, starts_with,
}
use keycard.Prelude.Numbers.{strip, is_blank}
use keycard.Prelude.Decimals.{decimal, pow10, IsDigit, decimal-AllDigits, str_to_int-decimal}
use keycard.Fcapi.{
  request, exchange, split_lines, header_of, header, lower, parse_headers, parse_status, parse_head,
  content_length, read_exactly, read_body, read_response, join_lines,
}
use keycard.Fcapi.Framing.{
  terminated, IsBare, IsLine, join-terminated, read_head-terminated, split_lines-terminated,
  cut-append, take_exactly-append,
}
use keycard.Fcapi.Lengths.{
  length_line, decimal-IsBare, length_line-IsLine, header_of-length_line,
  content_length-length_line,
}

abbrev pub header_line : Text × Text → Text
header_line (name, value) = name ++ b':' ∷ value

-- A response as RFC 9112 has it: the status line, any headers, and the length of the body last.
abbrev pub response_lines : ℕ → Text → List (Text × Text) → Text → List Text
response_lines status reason headers body =
    (codes "HTTP/1.1 " ++ decimal status ++ b' ' ∷ reason) ∷ map header_line headers
    ++ length_line body ∷ []

abbrev pub response_text : ℕ → Text → List (Text × Text) → Text → Text
response_text status reason headers body =
    join_lines (response_lines status reason headers body) ++ 13 ∷ 10 ∷ 13 ∷ 10 ∷ body

-- A header that does not chunk the body.
pub record IsPlain (h : Text × Text) : Type 0 where
  pub bare_name : IsBare h.0
  pub no_colon : All (λ c. (c == b':') ≡ false) h.0
  pub bare_value : IsBare h.1
  pub not_chunked : same_text (lower (strip is_blank h.0)) (codes "transfer-encoding") ≡ false

header_line-IsLine : (h : Text × Text) → IsPlain h → IsLine (header_line h)
header_line-IsLine (name, value) p = record {
  bare = All-append _ name (b':' ∷ value) p.bare_name (refl, p.bare_value);
  some_text = (elim name as (λ n. n ++ b':' ∷ value ≢ []) [ [] ↦ λ e. cc | c ∷ cs ↦ λ e. cc ]);
}

headers-AreLines :
    (headers : List (Text × Text)) → All IsPlain headers → All IsLine (map header_line headers)
headers-AreLines [] h = tt
headers-AreLines (x ∷ headers) h = (header_line-IsLine x h.0, headers-AreLines headers h.1)

parse_headers-append :
    (ls ms : List Text) (found : List (Text × Text))
    → parse_headers (ls ++ ms) found ≡ parse_headers ms (parse_headers ls found)
unfolding parse_headers
parse_headers-append [] ms found = refl
parse_headers-append ([] ∷ ls) ms found = parse_headers-append ls ms found
parse_headers-append ((c ∷ cs) ∷ ls) ms found = parse_headers-append ls ms _

parse_headers-line :
    (l : Text) (ls : List Text) (found : List (Text × Text))
    → l ≢ []
    → parse_headers (l ∷ ls) found ≡ parse_headers ls (header_of l ∷ found)
unfolding parse_headers
parse_headers-line [] ls found h = absurd (h refl)
parse_headers-line (c ∷ cs) ls found h = refl

header_of-header_line :
    (name value : Text)
    → All (λ c. (c == b':') ≡ false) name
    → header_of (header_line (name, value)) ≡ (lower (strip is_blank name), strip is_blank value)
header_of-header_line name value h = ground (arith, cut-append b':' name value h)

-- No plain header is a transfer encoding.
headers_are_plain :
    (headers found : List (Text × Text))
    → All IsPlain headers
    → header (codes "transfer-encoding") found ≡ none
    → header (codes "transfer-encoding") (parse_headers (map header_line headers) found) ≡ none
headers_are_plain [] found h e = unfold parse_headers in e
headers_are_plain ((name, value) ∷ headers) found h e =
    rw
      (parse_headers-line (header_line (name, value)) (map header_line headers) found
        (header_line-IsLine (name, value) h.0).some_text)
      (headers_are_plain headers _ h.1 (
        rw (header_of-header_line name value h.0.no_colon)
          (unfold header in ground (arith, h.0.not_chunked))))

response_lines_AreLines :
    (status : ℕ) (reason : Text) (headers : List (Text × Text)) (body : Text)
    → IsBare reason
    → All IsPlain headers
    → All IsLine (response_lines status reason headers body)
response_lines_AreLines status reason headers body r h = (
  record {
    bare =
        All-append _ (codes "HTTP/1.1 ") _ (ground arith)
          (All-append _ (decimal status) (b' ' ∷ reason) (decimal-IsBare status) (refl, r));
    some_text = λ e. cc;
  },
  All-snoc IsLine (map header_line headers) (headers-AreLines headers h) (length_line-IsLine body),
)

parse_status-line :
    (status : ℕ) (reason : Text)
    → status < pow10 19
    → parse_status (codes "HTTP/1.1 " ++ decimal status ++ b' ' ∷ reason) ≡ ok (pos status)
unfolding parse_status
parse_status-line status reason h =
    let version : cut b' ' (codes "HTTP/1.1 " ++ decimal status ++ b' ' ∷ reason)
        ≡ some (codes "HTTP/1.1", decimal status ++ b' ' ∷ reason) =
      cut-append b' ' (codes "HTTP/1.1") _ (ground arith) in
    let word =
      cut-append b' ' (decimal status) reason
        (All-weaken IsDigit _ (decimal status) (λ c d. ground arith) (decimal-AllDigits status)) in
    rw (version, parse_status)
      (unfold starts_with in ground (arith, str_to_int-decimal status h, word))

-- The headers of a rendered response: no transfer encoding, and the length of the body.
found_headers :
    (headers : List (Text × Text)) (body : Text)
    → All IsPlain headers
    → length body < pow10 19
    → let found =
        parse_headers ((map header_line headers ++ length_line body ∷ []) ++ [] ∷ [] ∷ []) [] in
      (header (codes "transfer-encoding") found ≡ none)
      × (content_length found ≡ ok (pos (length body)))
found_headers headers body h small =
    let before = parse_headers (map header_line headers) [] in
    let found : parse_headers ((map header_line headers ++ length_line body ∷ []) ++ [] ∷ [] ∷ [])
          []
        ≡ header_of (length_line body) ∷ before =
      parse_headers-append (map header_line headers ++ length_line body ∷ []) ([] ∷ [] ∷ []) []
      ∙ unfold parse_headers in
        parse_headers-append (map header_line headers) (length_line body ∷ []) [] in
    rw found (
      rw (header_of-length_line body)
          (unfold header same_text in headers_are_plain headers [] h (unfold header in refl)),
      content_length-length_line body before small,
    )

-- A response whose status line and headers are on lines of their own, and whose headers do not say
-- that it is chunked, is read back: the status and the body as they were written, and what comes
-- behind the body is left on the stream.
pub read_response-response_text :
    (status : ℕ) (reason : Text) (headers : List (Text × Text)) (body rest : Text)
    → status < pow10 19
    → length body < pow10 19
    → IsBare reason
    → All IsPlain headers
    → read_response (response_text status reason headers body ++ rest)
      ≡ ok (record { status = pos status; body = body }, rest)
unfolding split_lines read_response
read_response-response_text status reason headers body rest hs hb r h =
    let first = codes "HTTP/1.1 " ++ decimal status ++ b' ' ∷ reason in
    let others = map header_line headers ++ length_line body ∷ [] in
    let lines = response_lines_AreLines status reason headers body r h in
    let joined : response_text status reason headers body ++ rest
        ≡ terminated (first ∷ others) (13 ∷ 10 ∷ body ++ rest) =
      append_assoc (join_lines (first ∷ others)) (13 ∷ 10 ∷ 13 ∷ 10 ∷ body) rest
      ∙ join-terminated first others (13 ∷ 10 ∷ body ++ rest) in
    let split : split_lines (terminated (first ∷ others) (13 ∷ 10 ∷ []))
        ≡ first ∷ others ++ [] ∷ [] ∷ [] =
      split_lines-terminated (first ∷ others) (13 ∷ 10 ∷ []) lines in
    let (no_chunks, size) = found_headers headers body h hb in
    rw
      (
        joined,
        read_head-terminated first others (body ++ rest) lines,
        split,
        parse_status-line status reason hs,
        no_chunks,
        size,
        take_exactly-append body rest,
        read_response,
        parse_head,
        read_body,
        read_exactly,
      )
      refl

-- A call of the API that is answered by a well-formed response, with whatever bytes behind it: the
-- status and the body come back as they were sent if the status is a success, and the `ApiError`
-- is raised otherwise. Well-formed: the status and the body's length have fewer than 20 digits, the
-- reason phrase and the other headers have no carriage return, and none of these headers has a colon in
-- its name or is a transfer encoding.
pub request-exchange :
    (status : ℕ) (reason : Text) (headers : List (Text × Text)) (body rest : Text)
    → status < pow10 19
    → length body < pow10 19
    → IsBare reason
    → All IsPlain headers
    → request (exchange (ok tt) (response_text status reason headers body ++ rest)) ≡ (
        if leb 200 status && ltb status 300
        then ok (record { status = pos status; body = body })
        else err api_error)
unfolding request exchange
request-exchange status reason headers body rest hs hb r h =
    rw (read_response-response_text status reason headers body rest hs hb r h) refl
