-- ===== src/Firecracker/Room/Channels.antt =====
-- What goes through a room's two channels: `read`, `write` and `resize` of `FirecrackerRoom`.
use keycard.Prelude.{ℕ, [], ◌∷◌, ◌++◌, Text, codes, Result}
use keycard.Prelude.Decimals.{decimal}
use keycard.Rooms.{received, delivered}

-- `read`, with what `sock_recv` gives.
abbrev pub read : Result Text → Result Text
read = received

-- `write`, with what `sock_sendall` gives.
abbrev pub write : Result (Unit {0}) → Result (Unit {0})
write = delivered

-- What `resize` sends on the control channel, and what the sending comes to.
unfoldable pub resize_message : ℕ → ℕ → Text
resize_message width height =
    codes "resize " ++ decimal width ++ (b' ' ∷ (decimal height ++ 10 ∷ []))

abbrev pub resize : Result (Unit {0}) → Result (Unit {0})
resize = delivered
