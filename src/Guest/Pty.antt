-- ===== src/Guest/Pty.antt =====
-- The bytes of one shell: `Session::start` and `Session::attach` of guest-agent/src/session.rs. The host's
-- input goes from a reader task through a bounded queue to the pty; the pty's output goes to the
-- connection that is attached, and nowhere if none is. A chunk is what one read returned.
pub mod Thinned
pub mod Typed
use keycard.Prelude.{
  ℕ, Bool, true, false, Option, none, some, List, [], ◌∷◌, ◌++◌, Text, length, ltb, if◌then◌else◌,
}

-- `INPUT_QUEUE`
abbrev pub input_queue : ℕ
input_queue = 64

-- The task that reads a data connection: it waits for bytes, waits to send them on, or is over.
pub data Reader : Type 0 where
  absent reading : Reader
  sending : Text → Reader
  over : Reader

pub record Pty : Type 0 where
  pub reader : Reader
  pub queue : List Text
  -- whether the task that types into the pty goes on
  pub open' : Bool
  pub slot : Option ℕ
  -- the chunks that a reader has read, and those that were typed into the pty, latest first
  pub taken : List Text
  pub typed : List Text
  -- what was written to a connection, latest first
  pub shown : List (ℕ × Text)

-- `start`
abbrev pub start_pty : Pty
start_pty = record {
  reader = absent;
  queue = [];
  open' = true;
  slot = none;
  taken = [];
  typed = [];
  shown = [];
}

pub data Step : Type 0 where
  -- `attach`
  attaches : ℕ → Step
  -- the reader reads bytes, or the end or an error; its `send` is over
  reads : Text → Step
  ends : Step
  enqueues : Step
  -- the task behind the queue writes a chunk, or fails to
  types breaks : Step
  -- the shell prints, and the write to a connection succeeds or not
  prints : Text → Bool → Step
  -- the shell has ended: `detach`
  closes : Step

-- `attach`: the reader of the connection before is aborted, with what it holds.
unfoldable pub attach_pty : ℕ → Pty → Pty
attach_pty connection p = record p { reader = reading; slot = some connection }

unfoldable pub detach_pty : Pty → Pty
detach_pty p = record p { reader = absent; slot = none }

-- `data_r.read`
unfoldable pub read_chunk : Text → Pty → Pty
read_chunk bytes p = elim p.reader [
  | reading ↦ record p { reader = sending bytes; taken = bytes ∷ p.taken }
  | _ ↦ p
]

unfoldable pub end_reader : Pty → Pty
end_reader p = elim p.reader [ reading ↦ record p { reader = over } | _ ↦ p ]

-- `input.send`: it waits while the queue is full, and fails if nothing takes from it any more.
unfoldable pub enqueue : Pty → Pty
enqueue p = elim p.reader [
  | sending bytes ↦
      if p.open'
      then (if ltb (length p.queue) input_queue
          then record p { reader = reading; queue = p.queue ++ bytes ∷ [] }
          else p)
      else record p { reader = over }
  | _ ↦ p
]

-- `rx.recv` and `pty_w.write_all`
unfoldable pub type_chunk : Pty → Pty
type_chunk p = elim p.queue [
  | [] ↦ p
  | bytes ∷ rest ↦ record p { queue = rest; typed = bytes ∷ p.typed }
]

-- A write that fails ends the task, and the queue goes with it.
unfoldable pub break_pty : Pty → Pty
break_pty p = elim p.queue [ [] ↦ p | bytes ∷ rest ↦ record p { queue = []; open' = false } ]

-- `pump_out`
unfoldable pub print_chunk : Text → Bool → Pty → Pty
print_chunk bytes written p = elim p.slot [
  | none ↦ p
  | some connection ↦
      if written
      then record p { shown = (connection, bytes) ∷ p.shown }
      else record p { slot = none }
]

unfoldable pub step : Step → Pty → Pty
unfolding attach_pty detach_pty read_chunk end_reader enqueue type_chunk break_pty print_chunk
step (attaches connection) p = attach_pty connection p
step (reads bytes) p = read_chunk bytes p
step ends p = end_reader p
step enqueues p = enqueue p
step types p = type_chunk p
step breaks p = break_pty p
step (prints bytes written) p = print_chunk bytes written p
step closes p = detach_pty p

unfoldable pub run : List Step → Pty → Pty
unfolding step
run [] p = p
run (s ∷ ss) p = run ss (step s p)
