-- ===== src/Session/Types.antt =====
-- The state of a session: the fields of the object, where each of its tasks stands, and what it
-- has asked of its room and its channel.
use keycard.Prelude.{ℕ, String, Bool, false, Option, none, List, [], Text, ℤ}
use keycard.Kept.{KeptRooms}

-- Calls on the backend and its rooms, in the order in which they start.
pub data Effect : Type 0 where
  opens : Effect
  resumes : ℕ → Effect
  destroys_kept : ℕ → Effect
  pauses : ℕ → Effect
  destroys : ℕ → Effect
  writes : ℕ → Text → Effect
  resizes : ℕ → ℕ → ℕ → Effect

pub data Reason : Type 0 where
  checked_out idle_timeout shutting_down : Reason

-- Calls on the SSH channel.
pub data Output : Type 0 where
  accepted resumed no_room : Output
  destroyed : Reason → Output
  chunk : Text → Output
  exit : ℤ → Output
  close : Output

-- `self._teardown`: unset, or a task and where it stands. `created` carries `allow_keep`.
pub data Teardown : Type 0 where
  unset : Teardown
  created : Bool → Teardown
  pausing : ℕ → Teardown
  destroying : ℕ → Teardown
  finished : Teardown
  cancelled : Teardown

-- `self._pump`. `opening` carries what `take` gave, `awaiting` whether the pump began the teardown.
pub data Pump : Type 0 where
  unstarted : Pump
  scheduled : Pump
  opening : Option ℕ → Pump
  dropping_kept : ℕ → Pump
  late_checkout : ℕ → Pump
  reading : ℕ → Pump
  awaiting : Bool → Pump
  done : Pump

-- A task that only waits for the teardown: the watchdog, and a call of `force_close`.
pub data Waiter : Type 0 where
  absent : Waiter
  sleeping : Waiter
  waiting : Waiter
  ended : Waiter

pub record Session : Type 0 where
  pub idle_seconds : ℕ
  pub username : String
  pub kept : Option KeptRooms
  -- whether the session is in the registry that a drain waits on
  pub active : Bool
  -- how often the session has called `discard` on that registry
  pub discards : ℕ
  pub room : Option ℕ
  pub pump : Pump
  pub pump_cancelled : Bool
  pub feeder : Option ℕ
  pub watchdog : Waiter
  pub watchdog_cancelled : Bool
  pub closer : Waiter
  pub teardown : Teardown
  -- a `cancel` that has reached the teardown task and is not yet delivered
  pub teardown_cancelled : Bool
  pub status : Option ℤ
  pub input : List Text
  pub size : ℕ × ℕ
  pub last_activity : ℕ
  pub closing : Bool
  -- both latest first
  pub effects : List Effect
  pub outputs : List Output

-- `RoomSession.__init__` at the time `now`.
unfoldable pub new_session : ℕ → String → Option KeptRooms → ℕ → Session
new_session idle_seconds username kept now = record {
  idle_seconds = idle_seconds;
  username = username;
  kept = kept;
  active = false;
  discards = 0;
  room = none;
  pump = unstarted;
  pump_cancelled = false;
  feeder = none;
  watchdog = absent;
  watchdog_cancelled = false;
  closer = absent;
  teardown = unset;
  teardown_cancelled = false;
  status = none;
  input = [];
  size = (80, 24);
  last_activity = now;
  closing = false;
  effects = [];
  outputs = [];
}
