-- ===== src/Vsock/Examples.antt =====
-- The theorems at concrete replies and attempts.
use keycard.Prelude.{
  true, false, ◌≡◌, none, some, ◌++◌, ◌∷◌, arith, Text, codes, ok, err, vsock_error,
}
use keycard.Vsock.{connect, parse_ack}
use keycard.Vsock.Handshake.{connect_keeps_session_bytes}

-- A reply with the first bytes of the session right behind it.
connect_keeps_session_bytes_example :
    connect (ok tt) (codes "OK 1073741824" ++ 10 ∷ codes "hello")
    ≡ (elim (parse_ack (codes "OK 1073741824")) [
      | none ↦ (err vsock_error, false)
      | some port ↦ (ok (codes "hello"), true)
    ])
connect_keeps_session_bytes_example =
    connect_keeps_session_bytes (codes "OK 1073741824") (codes "hello") (ground arith) (omega arith)

-- A peer that sends no newline.
abbrev flood : Text
flood = codes "0123456789012345678901234567890123456789012345678901234567890123456789"
