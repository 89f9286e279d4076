-- ===== src/Session/Tasks/Channel.antt =====
-- The callbacks of the channel that await nothing, and the feeder.
use keycard.Prelude.{ℕ, true, none, some, [], ◌∷◌, ◌++◌, Text, ltb, ◌==◌, if◌then◌else◌, length}
use keycard.Session.Types.{Session, Effect, Output, writes, resizes, chunk}

abbrev pub input_backlog : ℕ
input_backlog = 512

abbrev pub call : Effect → Session → Session
call e s = record s { effects = e ∷ s.effects }

abbrev pub say : Output → Session → Session
say o s = record s { outputs = o ∷ s.outputs }

abbrev pub say_if_open : Output → Session → Session
say_if_open o s = if s.closing then s else say o s

-- Python's `a or b` on numbers
abbrev pub or_else : ℕ → ℕ → ℕ
or_else a b = if a == 0 then b else a

unfoldable pub connection_made : Session → Session
connection_made s = record s { active = true }

unfoldable pub pty_requested : ℕ → ℕ → Session → Session
pty_requested width height s = record s { size = (or_else width 80, or_else height 24) }

unfoldable pub terminal_size_changed : ℕ → ℕ → Session → Session
terminal_size_changed width height s =
    let s' = record s { size = (or_else width s.size.0, or_else height s.size.1) } in
    elim s.room [ none ↦ s' | some r ↦ call (resizes r width height) s' ]

unfoldable pub data_received : ℕ → Text → Session → Session
data_received now bytes s =
    let s' = record s { last_activity = now } in
    if ltb (length s.input) input_backlog then record s' { input = s.input ++ bytes ∷ [] } else s'

-- One turn of the loop of `_feed`.
unfoldable pub feed : Session → Session
feed s = elim s.feeder [
  | none ↦ s
  | some r ↦ elim s.input [
    | [] ↦ s
    | bytes ∷ rest ↦ call (writes r bytes) (record s { input = rest })
  ]
]

unfoldable pub stop_feeder : Session → Session
stop_feeder s = record s { feeder = none }

unfoldable pub notify_shutdown : Text → Session → Session
notify_shutdown message s = say_if_open (chunk message) s
