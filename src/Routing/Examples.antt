-- ===== src/Routing/Examples.antt =====
-- The theorems at a registry of two backends.
use keycard.Prelude.{
  All, ◌%◌, ◌==◌, pos, arith, ℕ, ◌≡◌, refl, none, some, List, [], ◌∷◌, ok, err, os_error,
  if◌then◌else◌,
}
use keycard.Prelude.Dict.{get, put}
use keycard.Config.Types.{is_known_backend}
use keycard.Config.Examples.{cfg, dev_room}
use keycard.Config.Load.{sub_table, with_rooms, or_builtin, top_backend}
use keycard.Config.Toml.{Table, table, entry, end, integer, find}
use keycard.Routing.{
  Routed, Routing, Call, constructs, opens, resumes, destroys_kept, Factories, name_for,
  new_routing, open_room, resume_room, destroy_kept, pause_routed, get_all, get_backend, note,
  sorted, names_in_use,
}
use keycard.Routing.Startup.{Builds}
use keycard.Config.Warnings.{warned_rooms}
use keycard.Routing.Pauses.{IsNoMicrovm, microvm_is_never_paused}
use keycard.Routing.{routed_can_pause}
use keycard.Session.Machine
use keycard.Session.Machine.{starts, pump_begins, room_opened, hangs_up, teardown_begins}
use keycard.Session.Types.{new_session}
use keycard.Session.Tasks.Channel.{connection_made}
use keycard.Kept.{init}
use keycard.Routing.Home.{Op, opening, dropping, run, kept_goes_home}

-- Both backends exist and can be built.
abbrev two_backends : Factories
two_backends = record { factory = λ name. if is_known_backend name then some none else none }

abbrev ready : Routing
ready = record {
  config = cfg;
  backends = ("docker", 0) ∷ ("firecracker", 1) ∷ [];
  constructed = 2;
  calls = constructs "firecracker" 1 ∷ constructs "docker" 0 ∷ [];
}

ready-new : new_routing two_backends cfg ≡ ok ready
unfolding new_routing get_all get_backend sorted names_in_use with_rooms or_builtin top_backend find
    is_known_backend get put
ready-new = refl

abbrev dev_handle : Routed ℕ
dev_handle = record { backend_name = "firecracker"; inner = 7 }

abbrev opened : Routing
opened = record ready { calls = opens 1 "dev" ∷ ready.calls }

opened-open : open_room two_backends dev_room (ok 7) ready ≡ (ok dev_handle, opened)
unfolding open_room get_backend name_for note get
opened-open = refl

-- Another room is opened and dropped, and a third cannot be.
abbrev others : List Op
others =
    opening (record dev_room { backend = "" }) (ok 8)
    ∷ dropping (record { backend_name = "docker"; inner = 80 })
    ∷ opening dev_room (err os_error)
    ∷ []

kept_goes_home_example :
    let t = run two_backends opened others in
    let kept = pause_routed dev_handle 70 in
    (b : ℕ) × (c : List Call) × (opened.calls ≡ opens b "dev" ∷ c)
    × ((resume_room two_backends kept (ok 9) t).1.calls ≡ resumes b 70 ∷ t.calls)
    × ((destroy_kept two_backends kept t).1.calls ≡ destroys_kept b 70 ∷ t.calls)
kept_goes_home_example =
    kept_goes_home two_backends ready opened dev_room 7 70 dev_handle others (ok 9) opened-open

two_backends-Builds : Builds two_backends
two_backends-Builds name h = ground arith

-- A file that limits the processes of the room.
abbrev limited : Table
limited =
    entry "rooms" (table (entry "dev" (table (entry "pids_limit" (integer (pos 100)) end)) end)) end

limited-warns : warned_rooms cfg limited ≡ "dev" ∷ []
unfolding warned_rooms sub_table find with_rooms or_builtin get
limited-warns = refl

-- Odd rooms are containers, even ones are microVMs.
abbrev mixed_rooms : ℕ → Routed ℕ
mixed_rooms r = record { backend_name = if r % 2 == 0 then "firecracker" else "docker"; inner = r }

microvm_is_never_paused_example :
    All
      (IsNoMicrovm mixed_rooms)
      (Machine.run
        (λ r. routed_can_pause (mixed_rooms r))
        (starts ∷ pump_begins ∷ room_opened 8 ∷ hangs_up ∷ teardown_begins ∷ [])
        (connection_made (new_session 60 "ada" (some (init 300)) 0))).effects
microvm_is_never_paused_example =
    microvm_is_never_paused mixed_rooms 60 0 "ada" (some (init 300))
      (starts ∷ pump_begins ∷ room_opened 8 ∷ hangs_up ∷ teardown_begins ∷ [])
