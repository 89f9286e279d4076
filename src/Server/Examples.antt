-- ===== src/Server/Examples.antt =====
-- The theorems at concrete registries and files.
use keycard.Prelude.{
  false, ℕ, ◌*◌, Bool, true, false, ◌≡◌, refl, none, some, [], ◌∷◌, arith, ◌==◌, pos, negsuc, ok,
  err, os_error, same_text, if◌then◌else◌,
}
use keycard.Prelude.Numbers.{strip, strip_left, strip_right, signed, str_to_int}
use keycard.Config.Types.{is_known_backend}
use keycard.Config.Toml.{find}
use keycard.Config.Load.{with_rooms, str_key}
use keycard.Config.Listen.{host, port, last_cut}
use keycard.Config.Durations.{
  Floats, parse_duration, parse_stripped, as_float, split_last, unit_seconds,
}
use keycard.Config.Examples.{host_python, toml_file, cfg, toml_file-loads}
use keycard.Routing.{Factories}
use keycard.Routing.Startup.{Builds}
use keycard.Prelude.Dict.{get, has}
use keycard.Config.Types.{RoomConfig}
use keycard.Config.Durations.{idle_timeout_seconds}
use keycard.Kept.{init}
use keycard.Session.Types.{new_session}
use keycard.Server.Connection.{
  new_connection, authenticate, session_requested, requested_session_is_made,
}
use keycard.Server.Serve.{
  create_server, port_for, Site, Serving, Ending, check_authorized_keys, ensure_host_key,
}
use keycard.Server.Startup.{IsDuration}

abbrev is_one : ℕ → Bool
is_one a = a == 1

abbrev is_two : ℕ → Bool
is_two a = a == 2

-- Both backends exist and can be built; keys are there, and any address can be bound.
abbrev pub buildable : Factories
buildable = record { factory = λ name. if is_known_backend name then some none else none }

pub buildable-Builds : Builds buildable
buildable-Builds name h = ground arith

abbrev pub host_site : Site
host_site = record {
  keys_exist = true;
  host_key_exists = true;
  generates = err os_error;
  binds = λ h p. ok tt;
}

-- Durations in whole seconds.
abbrev pub seconds : Floats ℕ
seconds = record {
  zero = 0;
  times = λ n u. n * u;
  to_float = λ text. elim (str_to_int text) [
    | none ↦ none
    | some (pos n) ↦ some n
    | some (negsuc n) ↦ some 0
  ];
}

pub cfg-durations :
    IsDuration seconds cfg.idle_timeout
    × IsDuration seconds cfg.shutdown_grace
    × IsDuration seconds cfg.keep_window
unfolding with_rooms find str_key parse_duration parse_stripped as_float split_last unit_seconds
    strip strip_left strip_right str_to_int signed same_text
cfg-durations = ((900, refl), (30, refl), (0, refl))

pub cfg-port : port cfg.listen ≡ some (pos 2222)
unfolding with_rooms find str_key port last_cut str_to_int strip strip_left strip_right signed
cfg-port = refl

pub host_site-ready :
    (check_authorized_keys host_site ≡ ok tt) × (ensure_host_key host_site ≡ ok tt)
unfolding check_authorized_keys ensure_host_key
host_site-ready = (refl, refl)

-- Two sessions and two paused rooms; the second of these cannot be destroyed.
abbrev serving : Serving
serving = record {
  address = ([], pos 2222);
  listening = true;
  grace = 30;
  active = record { sessions = 1 ∷ 2 ∷ []; empty = false };
  kept = record {
    window_seconds = 600;
    by_username = ("ada", 4) ∷ ("bob", 5) ∷ [];
    timers = [];
    destroyed = [];
  };
  routing = record { config = cfg; backends = ("docker", 0) ∷ []; constructed = 1; calls = [] };
}

abbrev pub ending : Ending
ending = record {
  leaves = is_one;
  ends = is_two;
  grace_cut = none;
  interrupted = none;
  closing_cut = none;
  raises = λ k. k == 5;
  raised = os_error;
  cancels = λ b. false;
}

cfg-created : create_server seconds host_site cfg none none ≡ ok (host cfg.listen, pos 2222)
unfolding create_server port_for check_authorized_keys ensure_host_key with_rooms find str_key
    parse_duration parse_stripped as_float split_last unit_seconds strip strip_left strip_right
    str_to_int signed same_text port last_cut
cfg-created = refl

-- A client that first tries as `root`.
requested_session_is_made_example :
    (room : RoomConfig) × ((x : ℕ) × (session_requested seconds
          (λ n. n)
          0
          (authenticate ("root" ∷ "dev" ∷ []) (new_connection cfg (some (init 600))))
        ≡ ok (room, new_session x "dev" (some (init 600)) 0))
      × (idle_timeout_seconds seconds cfg ≡ ok x)
      × (get (if has "dev" cfg.rooms then "dev" else cfg.default_room) cfg.rooms ≡ some room)
      × (room.name ≡ (if has "dev" cfg.rooms then "dev" else cfg.default_room)))
requested_session_is_made_example =
    requested_session_is_made seconds host_site host_python (some toml_file) cfg none none
      (host cfg.listen, pos 2222) (λ n. n) (some (init 600)) 0 ("root" ∷ []) "dev" toml_file-loads
      cfg-created
