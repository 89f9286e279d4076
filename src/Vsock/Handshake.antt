-- ===== src/Vsock/Handshake.antt =====
-- The handshake leaves the session's bytes unread, and the retries end.
use keycard.Prelude.Polling.{Advances}
use keycard.Prelude.{
  length-append, ℕ, zero, suc, ◌+◌, ◌*◌, ◌≤◌, ◌<◌, true, false, ◌≡◌, ◌≢◌, ◌⊎◌, refl, Option, none,
  some, [], ◌∷◌, ◌++◌, append-nil, append_assoc, arith, Text, All, length, Result, ok, err, Error,
  vsock_error, ◌==◌, Bool-cases, leb, inl, inr,
}
use keycard.Vsock.{max_ack, parse_ack, read_ack_from, read_ack, connect, retry, connect_with_retry}

read_from_line :
    (line stream : Text) (room : ℕ) (before : Text)
    → All (λ c. (c == 10) ≡ false) line
    → length line < room
    → read_ack_from room before (line ++ 10 ∷ stream) ≡ (before ++ line, stream)
unfolding read_ack_from
read_from_line line stream zero before clean h = absurd (omega arith)
read_from_line [] stream (suc room) before clean h = ground (arith, append-nil before)
read_from_line (c ∷ line) stream (suc room) before clean h = ground (
  arith,
  read_from_line line stream room (before ++ c ∷ []) clean.1,
  append_assoc before (c ∷ []) line,
)

-- Of a reply line of fewer than 64 bytes, the handshake reads the line and its newline and no more:
-- the connection succeeds exactly where the line is an acknowledgement, the bytes behind the
-- newline are all there for the session, and a socket that is not handed out has been closed.
pub connect_keeps_session_bytes :
    (line stream : Text)
    → All (λ c. (c == 10) ≡ false) line
    → length line < max_ack
    → connect (ok tt) (line ++ 10 ∷ stream)
      ≡ (elim (parse_ack line) [ none ↦ (err vsock_error, false) | some port ↦ (ok stream, true) ])
unfolding connect read_ack
connect_keeps_session_bytes line stream clean h =
    ground (arith, read_from_line line stream max_ack [] clean h)

abbrev raised : Error → Result Text
raised = err

is_retried-cases : (x : Result Text) → (x ≡ err vsock_error) ⊎ (x ≢ err vsock_error)
is_retried-cases (ok sock) = inr (λ e. cc)
is_retried-cases (err e) =
    elim e as (λ x. (raised x ≡ err vsock_error) ⊎ (raised x ≢ err vsock_error)) [
      | Error.vsock_error ↦ inl refl
      | x ↦ inr (λ q. cc)
    ]

-- The call returns what its last attempt returned, attempt `k`.
abbrev Ends : (ℕ → Result Text) → (ℕ → ℕ) → ℕ → Option (Result Text × ℕ) → Type 0
Ends attempt now deadline x =
    (k : ℕ) × ((x ≡ some (attempt k, suc k))
      × ((attempt k ≢ err vsock_error) ⊎ ((attempt k ≡ err vsock_error) × (deadline ≤ now k))))

retry-other :
    (attempt : ℕ → Result Text) (now : ℕ → ℕ) (deadline fuel n : ℕ)
    → attempt n ≢ err vsock_error
    → retry attempt now deadline (suc fuel) n ≡ some (attempt n, suc n)
unfolding retry
retry-other attempt now deadline fuel n h = ground arith

retry-late :
    (attempt : ℕ → Result Text) (now : ℕ → ℕ) (deadline fuel n : ℕ)
    → attempt n ≡ err vsock_error
    → deadline ≤ now n
    → retry attempt now deadline (suc fuel) n ≡ some (attempt n, suc n)
unfolding retry
retry-late attempt now deadline fuel n h late = ground arith

retry-again :
    (attempt : ℕ → Result Text) (now : ℕ → ℕ) (deadline fuel n : ℕ)
    → attempt n ≡ err vsock_error
    → leb deadline (now n) ≡ false
    → retry attempt now deadline (suc fuel) n ≡ retry attempt now deadline fuel (suc n)
unfolding retry
retry-again attempt now deadline fuel n h early = ground arith

retry-Ends :
    (attempt : ℕ → Result Text) (now : ℕ → ℕ) (start delay timeout fuel n : ℕ)
    → Advances start delay now
    → timeout ≤ (n + fuel) * delay
    → Ends attempt now (start + timeout) (retry attempt now (start + timeout) (suc fuel) n)
retry-Ends attempt now start delay timeout zero n adv h =
    let late : start + timeout ≤ now n = omega (arith, adv n, h) in
    elim (is_retried-cases (attempt n)) [
      | inr other ↦ (n, (retry-other attempt now (start + timeout) 0 n other, inl other))
      | inl failed ↦
          (n, (retry-late attempt now (start + timeout) 0 n failed late, inr (failed, late)))
    ]
retry-Ends attempt now start delay timeout (suc fuel) n adv h =
    let ih = retry-Ends attempt now start delay timeout fuel (suc n) adv (omega (arith, h)) in
    elim (is_retried-cases (attempt n)) [
      | inr other ↦ (n, (retry-other attempt now (start + timeout) (suc fuel) n other, inl other))
      | inl failed ↦ elim (Bool-cases (leb (start + timeout) (now n))) [
        | inl yes' ↦
            let late : start + timeout ≤ now n = ground arith in
            (
              n,
              (
                retry-late attempt now (start + timeout) (suc fuel) n failed late,
                inr (failed, late),
              ),
            )
        | inr early ↦ rw (retry-again attempt now (start + timeout) (suc fuel) n failed early) ih
      ]
    ]

-- The clock advances by at least `delay` from one attempt to the next, and there is fuel for
-- `timeout / delay` retries: the retries end. The outcome of the call is that of its last attempt,
-- which is a success, an error other than `VsockError`, or a `VsockError` at or past the deadline.
pub connect_with_retry_ends :
    (attempt : ℕ → Result Text) (now : ℕ → ℕ) (start delay timeout fuel : ℕ)
    → Advances start delay now
    → timeout ≤ fuel * delay
    → (k : ℕ) × ((connect_with_retry attempt now start timeout (suc fuel) ≡ some (attempt k, suc k))
        × ((attempt k ≢ err vsock_error)
            ⊎ ((attempt k ≡ err vsock_error) × (start + timeout ≤ now k))))
unfolding connect_with_retry
connect_with_retry_ends attempt now start delay timeout fuel adv h =
    retry-Ends attempt now start delay timeout fuel 0 adv (omega (arith, h))

read_ack_from-parts :
    (room : ℕ) (line stream : Text)
    → let (ack, rest) = read_ack_from room line stream in
      (length ack ≤ length line + room)
      × ((line ++ stream ≡ ack ++ rest) ⊎ (line ++ stream ≡ ack ++ 10 ∷ rest))
unfolding read_ack_from
read_ack_from-parts zero line stream = ground arith
read_ack_from-parts (suc room) line [] = ground arith
read_ack_from-parts (suc room) line (c ∷ stream) = ground (
  arith,
  read_ack_from-parts room (line ++ c ∷ []) stream,
  length-append line (c ∷ []),
  append_assoc line (c ∷ []) stream,
)

-- Whatever the peer sends, the handshake takes a line of at most 64 bytes off the stream: the line
-- and what stays unread make up the stream again, less the newline where there was one.
pub read_ack_is_bounded :
    (stream : Text)
    → let (ack, rest) = read_ack stream in
      (length ack ≤ max_ack) × ((stream ≡ ack ++ rest) ⊎ (stream ≡ ack ++ 10 ∷ rest))
unfolding read_ack
read_ack_is_bounded stream = ground (arith, read_ack_from-parts max_ack [] stream)
