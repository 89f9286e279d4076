-- ===== src/Docker.antt =====
-- src/keycard/backends/docker.py: rooms as containers. What the Docker SDK answers is a parameter of
-- each call: it succeeds, is refused by an exception of the SDK, or raises another exception.
pub mod Arguments
pub mod Channels
pub mod Interface
pub mod Destroy
pub mod Once
pub mod Stranded
mod Examples
use keycard.Prelude.{
  ℕ, suc, not, Bool, true, false, ◌||◌, Option, none, some, List, [], ◌∷◌, ◌+◌, ℤ, pos, Result, ok,
  err, Error, docker_error, leb, if◌then◌else◌,
}
use keycard.Prelude.Polling.{poll_until}

pub data Answer : Type 0 where
  done : Answer
  -- a `DockerException`, of which `NotFound` is one
  refused : Answer
  -- an exception of another class
  raises : Error → Answer

-- What the state of the container looks like to one round of the loop in `_destroy`.
pub data Poll : Type 0 where
  running : Poll
  exited : Option ℤ → Poll
  unreadable : Poll
  broken : Error → Poll

-- What the host answers during one call of `destroy`, and the clock after each round.
pub record Host : Type 0 where
  pub poll : ℕ → Poll
  pub now : ℕ → ℕ
  pub kill : Answer
  pub remove : Answer

-- What `_destroy` has done.
pub record Report : Type 0 where
  pub result : Result ℤ
  pub kills : ℕ
  pub removes : ℕ

-- `int(state.get("ExitCode") or 0)`
abbrev pub exit_code : Option ℤ → ℤ
exit_code none = pos 0
exit_code (some code) = code

abbrev pub is_running : Poll → Bool
is_running running = true
is_running _ = false

-- The end of the loop in the round that ends it: the status or an exception that nothing catches,
-- and the number of kills.
unfoldable pub last_round : Answer → Poll → Result ℤ × ℕ
last_round kill running = elim kill [
  | done ↦ (ok (pos 0), 1)
  | refused ↦ (ok (pos 0), 1)
  | raises e ↦ (err e, 1)
]
last_round kill (exited code) = (ok (exit_code code), 0)
last_round kill unreadable = (ok (pos 0), 0)
last_round kill (broken e) = (err e, 0)

-- `self._container.remove(force=True)` behind the loop.
unfoldable pub remove_container : Answer → Result ℤ × ℕ → Report
remove_container remove (err e, kills) = record { result = err e; kills = kills; removes = 0 }
remove_container remove (ok status, kills) = elim remove [
  | raises e ↦ record { result = err e; kills = kills; removes = 1 }
  | _ ↦ record { result = ok status; kills = kills; removes = 1 }
]

-- `_destroy`, with fuel for the loop; the deadline is `EXIT_GRACE` behind the start.
unfoldable pub destroy_container : Host → ℕ → ℕ → Option Report
unfolding last_round remove_container
destroy_container host deadline fuel =
    elim (poll_until (λ n. leb deadline (host.now n) || not (is_running (host.poll n)))
      (λ n. last_round host.kill (host.poll n)) fuel 0) [
        | none ↦ none
        | some r ↦ some (remove_container host.remove r)
      ]

pub record DockerRoom : Type 0 where
  pub attached : Bool
  pub destroyed : Bool
  -- the calls of `_destroy` and of `container.pause`
  pub teardowns : ℕ
  pub pauses : ℕ

-- `_close_attachment`: what the two closes raise is swallowed.
abbrev pub close_attachment : DockerRoom → DockerRoom
close_attachment room = record room { attached = false }

-- `destroy`; `report` is what `_destroy` returns or raises on the executor.
unfoldable pub destroy : Result ℤ → DockerRoom → Result ℤ × DockerRoom
destroy report room = if room.destroyed then (ok (pos 0), room) else (
  report,
  record (close_attachment room) { destroyed = true; teardowns = suc room.teardowns },
)

-- `pause`: a refusal is swallowed.
unfoldable pub pause : Answer → DockerRoom → Result (Unit {0}) × DockerRoom
pause answer room = (
  elim answer [ raises e ↦ err e | _ ↦ ok tt ],
  record (close_attachment room) { pauses = suc room.pauses },
)

-- What `attach_socket` and the calls before it answer in `_attach`: a refused resize is swallowed.
unfoldable pub attach : Answer → Answer → Result DockerRoom
attach resize socket = elim resize [
  | raises e ↦ err e
  | _ ↦ elim socket [
    | done ↦ ok (record { attached = true; destroyed = false; teardowns = 0; pauses = 0 })
    | refused ↦ err docker_error
    | raises e ↦ err e
  ]
]

abbrev pub as_result : Answer → Result (Unit {0})
as_result done = ok tt
as_result refused = err docker_error
as_result (raises e) = err e

-- One container on the host.
pub data Container : Type 0 where
  absent active frozen : Container

-- `_open` of `open`
unfoldable pub open_room : Answer → Answer → Answer → Result DockerRoom × Container
unfolding attach
open_room run resize socket = elim run [
  | done ↦ (attach resize socket, active)
  | refused ↦ (err docker_error, absent)
  | raises e ↦ (err e, absent)
]

-- `_resume` of `resume`; `unpause` is the answer for a container that is there.
unfoldable pub resume_room : Answer → Answer → Answer → Container → Result DockerRoom × Container
unfolding attach
resume_room unpause resize socket absent = (err docker_error, absent)
resume_room unpause resize socket container = elim (as_result unpause) [
  | err e ↦ (err e, container)
  | ok _ ↦ (attach resize socket, active)
]

-- `_destroy` of `destroy_kept`
unfoldable pub destroy_kept : Answer → Container → Result (Unit {0}) × Container
destroy_kept remove absent = (ok tt, absent)
destroy_kept remove container = elim remove [
  | done ↦ (ok tt, absent)
  | refused ↦ (ok tt, container)
  | raises e ↦ (err e, container)
]
