-- ===== src/Config/Warnings.antt =====
-- `_warn_ignored_room_keys` of src/keycard/config.py, as the list of the rooms that it warns about.
use keycard.Prelude.{String, Bool, true, false, none, some, List, [], ◌∷◌, str_eq, if◌then◌else◌}
use keycard.Prelude.Dict.{get}
use keycard.Config.Toml.{Value, table, Table, end, entry, find}
use keycard.Config.Types.{Config}
use keycard.Config.Load.{sub_table}

-- Whether the entry sets `pids_limit`.
unfoldable pub sets_pids_limit : Value → Bool
sets_pids_limit (table t) = elim (find "pids_limit" t) [ none ↦ false | some v ↦ true ]
sets_pids_limit _ = false

-- Whether the room of that name is one that ends up on Firecracker.
unfoldable pub is_on_firecracker : Config → String → Bool
is_on_firecracker cfg name = elim (get name cfg.rooms) [
  | none ↦ false
  | some room ↦ str_eq (if str_eq room.backend "" then cfg.backend else room.backend) "firecracker"
]

-- The loop.
unfoldable pub warned_entries : Config → Table → List String
unfolding sets_pids_limit is_on_firecracker
warned_entries cfg end = []
warned_entries cfg (entry name val rest) =
    let more = warned_entries cfg rest in
    if sets_pids_limit val then (if is_on_firecracker cfg name then name ∷ more else more) else more

-- `_warn_ignored_room_keys`
unfoldable pub warned_rooms : Config → Table → List String
unfolding warned_entries
warned_rooms cfg raw = elim (sub_table "rooms" raw) [ none ↦ [] | some t ↦ warned_entries cfg t ]
