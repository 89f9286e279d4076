-- ===== src/Guest/Agent.antt =====
-- The agent's sessions: `serve` of guest-agent/src/main.rs and `Session` of guest-agent/src/session.rs. A shell
-- and a connection are numbers; the bytes that a shell reads and writes are in Guest/Pty.
use keycard.Prelude.{
  ℕ, suc, Bool, true, false, ◌==◌, Option, none, some, List, [], ◌∷◌, ◌++◌, Text, if◌then◌else◌,
}
use keycard.Guest.{ExitStatus, exit_code, exit_message}

pub record Session : Type 0 where
  pub shell : ℕ
  pub running : Bool
  -- the connection whose write halves are in the slots, and those of the reader tasks
  pub data_out : Option ℕ
  pub ctrl_out : Option ℕ
  pub readers : List ℕ
  -- whether the task that waits for the shell has told the host
  pub reported : Bool
  -- what went out on the control channel of a connection, latest first
  pub sent : List (ℕ × Text)

-- `Session::start`
abbrev pub start : ℕ → Session
start shell = record {
  shell = shell;
  running = true;
  data_out = none;
  ctrl_out = none;
  readers = [];
  reported = false;
  sent = [];
}

-- `detach`
unfoldable pub detach : Session → Session
detach s = record s { readers = []; data_out = none; ctrl_out = none }

-- The parts of `attach`, each behind an await: those of `detach`, the two slots, and the readers.
pub data AttachStep : Type 0 where
  aborts_readers clears_data clears_ctrl : AttachStep
  sets_data sets_ctrl extends_readers : ℕ → AttachStep

unfoldable pub attach_step : AttachStep → Session → Session
attach_step aborts_readers s = record s { readers = [] }
attach_step clears_data s = record s { data_out = none }
attach_step clears_ctrl s = record s { ctrl_out = none }
attach_step (sets_data connection) s = record s { data_out = some connection }
attach_step (sets_ctrl connection) s = record s { ctrl_out = some connection }
attach_step (extends_readers connection) s = record s {
  readers = s.readers ++ connection ∷ connection ∷ [];
}

-- A task reads each of the two channels.
abbrev pub attach_steps : ℕ → List AttachStep
attach_steps connection =
    aborts_readers
    ∷ clears_data
    ∷ clears_ctrl
    ∷ sets_data connection
    ∷ sets_ctrl connection
    ∷ extends_readers connection
    ∷ []

-- The message of a shell that has ended, on the control channel that is attached, if one is.
abbrev tell : Text → Option ℕ → List (ℕ × Text) → List (ℕ × Text)
tell message none sent = sent
tell message (some connection) sent = (connection, message) ∷ sent

-- The task that waits for the shell, behind the grace period: its message and its `detach`, in one step.
unfoldable pub report : ExitStatus → Session → Session
unfolding detach exit_message
report status s =
    if s.running
    then s
    else if s.reported
    then s
    else detach (record s {
      reported = true;
      sent = tell (exit_message (exit_code status)) s.ctrl_out s.sent;
    })

-- `drop`: the readers are aborted; the tasks of the shell have handles of their own on the slots.
abbrev pub drop : Session → Session
drop s = record s { readers = [] }

unfoldable pub on_session : ℕ → (Session → Session) → List Session → List Session
on_session shell f [] = []
on_session shell f (s ∷ ss) =
    let rest = on_session shell f ss in (if s.shell == shell then f s else s) ∷ rest

-- What the other tasks do: a shell ends; its task has waited out the grace period; a write of its output
-- fails.
pub data Task : Type 0 where
  exits : ℕ → Task
  reports : ℕ → ExitStatus → Task
  write_fails : ℕ → Task

unfoldable pub on_task : Task → List Session → List Session
unfolding on_session report
on_task (exits shell) ss = on_session shell (λ s. record s { running = false }) ss
on_task (reports shell status) ss = on_session shell (report status) ss
on_task (write_fails shell) ss = on_session shell (λ s. record s { data_out = none }) ss

unfoldable pub on_tasks : List Task → List Session → List Session
unfolding on_task
on_tasks [] ss = ss
on_tasks (x ∷ xs) ss = on_tasks xs (on_task x ss)

unfoldable pub on_first : (Session → Session) → List Session → List Session
on_first f [] = []
on_first f (s ∷ ss) = f s ∷ ss

-- Steps on the session that `serve` holds. `moments` is what the other tasks do while each is awaited.
unfoldable pub perform : List AttachStep → List (List Task) → List Session → List Session
unfolding on_first on_tasks attach_step
perform [] moments ss = ss
perform (x ∷ xs) [] ss = perform xs [] (on_first (attach_step x) ss)
perform (x ∷ xs) (m ∷ moments) ss = perform xs moments (on_first (attach_step x) (on_tasks m ss))

-- `attach`
unfoldable pub attach : ℕ → List (List Task) → List Session → List Session
unfolding perform
attach connection moments ss = perform (attach_steps connection) moments ss

-- All sessions that were started, latest first: the first is the one that `serve` holds.
pub record Agent : Type 0 where
  pub sessions : List Session
  pub started : ℕ
  -- a shell that cannot be started ends the agent
  pub failed : Bool

abbrev pub boot : Agent
boot = record { sessions = []; started = 0; failed = false }

-- `serve` without a session to hand the connection to; `starts` tells whether the shell starts.
unfoldable pub serve_new : Bool → ℕ → List (List Task) → List Session → Agent → Agent
unfolding attach
serve_new starts connection moments dropped a =
    if starts
    then record a {
      sessions = attach connection moments (start a.started ∷ dropped);
      started = suc a.started;
    }
    else record a { failed = true; sessions = dropped }

-- `serve`
unfoldable pub serve : Bool → ℕ → List (List Task) → Agent → Agent
unfolding serve_new
serve starts connection moments a = elim a.sessions [
  | [] ↦ serve_new starts connection moments [] a
  | s ∷ ss ↦
      if s.running
      then record a { sessions = attach connection moments (s ∷ ss) }
      else serve_new starts connection moments (drop s ∷ ss) a
]

-- The loop that accepts connections awaits `serve` before it accepts the next.
pub data Event : Type 0 where
  connects : Bool → ℕ → List (List Task) → Event
  meanwhile : Task → Event

unfoldable pub act : Event → Agent → Agent
unfolding serve on_task
act (connects starts connection moments) a = serve starts connection moments a
act (meanwhile task) a = record a { sessions = on_task task a.sessions }

unfoldable pub step : Event → Agent → Agent
unfolding act
step e a = if a.failed then a else act e a

unfoldable pub run : List Event → Agent → Agent
unfolding step
run [] a = a
run (e ∷ es) a = run es (step e a)
