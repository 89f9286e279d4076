-- ===== src/Fcapi/Examples.antt =====
-- The theorem about a call of the API at a concrete answer.
use keycard.Prelude.{
  leb, ltb, ◌&&◌, ◌≡◌, refl, same_text, [], ◌∷◌, ◌++◌, arith, pos, codes, ok, err, api_error,
  if◌then◌else◌,
}
use keycard.Fcapi.{lower, request, exchange}
use keycard.Prelude.Numbers.{strip, strip_left, strip_right}
use keycard.Fcapi.Reply.{response_text, request-exchange}

request-exchange_example :
    request (
      exchange (ok tt) (
        response_text 200
          (codes "OK")
          ((codes "Server", codes " Firecracker API") ∷ [])
          (codes "{\"state\": \"Running\"}")
        ++ codes "HTTP"))
    ≡ (if leb 200 200 && ltb 200 300
        then ok (record { status = pos 200; body = codes "{\"state\": \"Running\"}" })
        else err api_error)
request-exchange_example =
    request-exchange 200 (codes "OK") ((codes "Server", codes " Firecracker API") ∷ [])
      (codes "{\"state\": \"Running\"}") (codes "HTTP") (omega arith) (omega arith) (ground arith)
      (
        record {
          bare_name = ground arith;
          no_colon = ground arith;
          bare_value = ground arith;
          not_chunked = unfold lower strip strip_left strip_right same_text in refl;
        },
        tt,
      )
