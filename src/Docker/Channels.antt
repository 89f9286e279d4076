-- ===== src/Docker/Channels.antt =====
-- What goes through a room's socket: `read`, `write` and `resize` of `DockerRoom`, and the calls without a
-- container.
use keycard.Prelude.{Text, Result, ok, err}
use keycard.Rooms.{received, delivered}
use keycard.Docker.{Answer, raises, as_result}

-- `read`, with what `sock_recv` gives.
abbrev pub read : Result Text → Result Text
read = received

-- `write`, with what `sock_sendall` gives.
abbrev pub write : Result (Unit {0}) → Result (Unit {0})
write = delivered

-- `resize`: a refusal is swallowed.
abbrev pub resize : Answer → Result (Unit {0})
resize (raises e) = err e
resize _ = ok tt

-- `DockerBackend.close`
abbrev pub close : Answer → Result (Unit {0})
close answer = as_result answer
