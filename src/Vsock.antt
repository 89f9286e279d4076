-- ===== src/Vsock.antt =====
-- src/keycard/backends/vsock.py: the handshake with Firecracker's vsock device. What a socket
-- receives is the list of bytes to come; the clock and each attempt's outcome are given by its number.
pub mod Handshake
mod Examples
use keycard.Prelude.{
  starts_with, ℕ, zero, suc, ◌+◌, ◌-◌, Bool, true, false, Option, none, some, List, [], ◌∷◌, ◌++◌,
  ℤ, Text, codes, Result, ok, err, vsock_error, Error, ◌==◌, leb, ltb, length, if◌then◌else◌,
}
use keycard.Prelude.Numbers.{to_int}

abbrev pub max_ack : ℕ
max_ack = 64

-- The part of `line.partition(b" ")` behind the first space: empty where there is none.
unfoldable pub after_space : Text → Text
after_space [] = []
after_space (c ∷ cs) = let rest = after_space cs in if c == 32 then cs else rest

-- `parse_ack`
unfoldable pub parse_ack : Text → Option ℤ
unfolding starts_with after_space
parse_ack line = if starts_with line (codes "OK") then to_int (after_space line) else none

-- `_read_ack`: `room` counts the bytes that still fit; the line, and what stays unread.
unfoldable pub read_ack_from : ℕ → Text → Text → Text × Text
read_ack_from zero line stream = (line, stream)
read_ack_from (suc room) line [] = (line, [])
read_ack_from (suc room) line (c ∷ stream) =
    let more = read_ack_from room (line ++ c ∷ []) stream in
    if c == 10 then (line, stream) else more

unfoldable pub read_ack : Text → Text × Text
unfolding read_ack_from
read_ack stream = read_ack_from max_ack [] stream

-- `connect`: the stream behind the handshake, or what it raises. `sent` is the outcome of connecting
-- and sending, where `err` is an `OSError` or any other exception. The flag tells whether the
-- socket is still open.
unfoldable pub connect : Result (Unit {0}) → Text → Result Text × Bool
connect sent stream = elim sent [
  | err e ↦ elim e [ Error.os_error ↦ (err vsock_error, false) | x ↦ (err x, false) ]
  | ok _ ↦
      let (ack, rest) = read_ack stream in
      elim (parse_ack ack) [ none ↦ (err vsock_error, false) | some port ↦ (ok rest, true) ]
]

-- `connect_with_retry`, with fuel. Attempt `n` gives `attempt n`; a `VsockError` is followed by a look
-- at the clock, `now n`, and by a sleep. The result is with the number of attempts; `none` is fuel
-- that ran out.
unfoldable pub retry : (ℕ → Result Text) → (ℕ → ℕ) → ℕ → ℕ → ℕ → Option (Result Text × ℕ)
retry attempt now deadline zero n = none
retry attempt now deadline (suc fuel) n =
    let rest = retry attempt now deadline fuel (suc n) in
    elim (attempt n) [
      | ok sock ↦ some (ok sock, suc n)
      | err e ↦ elim e [
        | Error.vsock_error ↦ if leb deadline (now n) then some (err vsock_error, suc n) else rest
        | x ↦ some (err x, suc n)
      ]
    ]

-- `start` is the clock at the call.
unfoldable pub connect_with_retry :
    (ℕ → Result Text) → (ℕ → ℕ) → ℕ → ℕ → ℕ → Option (Result Text × ℕ)
unfolding retry
connect_with_retry attempt now start timeout fuel = retry attempt now (start + timeout) fuel 0
