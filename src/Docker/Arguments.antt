-- ===== src/Docker/Arguments.antt =====
-- `ROOM_DEFAULTS` and `_room_overrides` of src/keycard/backends/docker.py: the keyword arguments with which
-- a room's container is run.
use keycard.Prelude.{
  ◌*◌, suc, zero, ◌-◌, String, Bool, true, false, ◌≡◌, some, List, [], ◌∷◌, arith, ℤ, pos, negsuc,
  str_eq, if◌then◌else◌,
}
use keycard.Prelude.Dict.{Dict, get, put}
use keycard.Config.Types.{RoomConfig}

pub data Argument : Type 0 where
  text : String → Argument
  texts : List String → Argument
  pairs : Dict String → Argument
  flag : Bool → Argument
  number : ℤ → Argument

-- `ROOM_DEFAULTS`
unfoldable pub room_defaults : Dict Argument
room_defaults =
    ("entrypoint", texts [])
    ∷ ("command", texts ("/bin/bash" ∷ "--login" ∷ []))
    ∷ ("environment", pairs (("TERM", "xterm-256color") ∷ ("PS1", "\\u@\\h:\\w# ") ∷ []))
    ∷ ("tty", flag true)
    ∷ ("stdin_open", flag true)
    ∷ ("detach", flag true)
    ∷ ("network_disabled", flag false)
    ∷ ("cap_drop", texts ("ALL" ∷ []))
    ∷ ("security_opt", texts ("no-new-privileges:true" ∷ []))
    ∷ ("mem_limit", text "1g")
    ∷ ("pids_limit", number (pos 512))
    ∷ []

-- `int(cpus * 1_000_000_000)`
unfoldable pub nano : ℤ → ℤ
nano (pos n) = pos (n * 1000000000)
nano (negsuc n) = negsuc (suc n * 1000000000 - 1)

abbrev is_zero : ℤ → Bool
is_zero (pos zero) = true
is_zero _ = false

-- `{**args, …}` with the keys of `_room_overrides`, in its order.
unfoldable pub room_overrides : RoomConfig → Dict Argument → Dict Argument
unfolding nano
room_overrides room args =
    let with_pids = put "pids_limit" (number room.pids_limit) args in
    let with_memory =
      if str_eq room.memory "" then with_pids else put "mem_limit" (text room.memory) with_pids in
    let with_cpus =
      if is_zero room.cpus
      then with_memory
      else put "nano_cpus" (number (nano room.cpus)) with_memory in
    if str_eq room.network "" then with_cpus else put "network_mode" (text room.network) with_cpus

-- `run_kwargs` of `open`
unfoldable pub run_arguments : RoomConfig → Dict Argument
unfolding room_overrides room_defaults
run_arguments room = room_overrides room room_defaults

-- Whatever the room asks for, its container runs without capabilities and cannot gain privileges,
-- its processes are limited as configured, and its memory is limited: as configured, or to 1g.
pub run_arguments_confine :
    (room : RoomConfig)
    → let args = run_arguments room in
      (get "cap_drop" args ≡ some (texts ("ALL" ∷ [])))
      × (get "security_opt" args ≡ some (texts ("no-new-privileges:true" ∷ [])))
      × (get "pids_limit" args ≡ some (number room.pids_limit))
      × (get "mem_limit" args ≡ some (text (if str_eq room.memory "" then "1g" else room.memory)))
unfolding run_arguments get put
run_arguments_confine room = ground arith
