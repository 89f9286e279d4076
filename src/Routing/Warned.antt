-- ===== src/Routing/Warned.antt =====
-- The rooms that the configuration warns about, and where the registry routes them.
use keycard.Prelude.{
  String, true, ◌≡◌, Option, none, some, [], arith, All, Option-cases, Bool-cases, inl, inr, eq_iff,
}
use keycard.Prelude.Dict.{get}
use keycard.Config.Toml.{Table, end, entry}
use keycard.Config.Types.{Config, RoomConfig}
use keycard.Config.Load.{sub_table}
use keycard.Config.Warnings.{sets_pids_limit, is_on_firecracker, warned_entries, warned_rooms}
use keycard.Routing.{name_for}

-- The configured room of that name is routed to Firecracker.
abbrev pub IsIgnored : Config → String → Type 0
IsIgnored cfg name =
    (room : RoomConfig) × (get name cfg.rooms ≡ some room) × (name_for cfg room ≡ "firecracker")

is_on_firecracker-IsIgnored :
    (cfg : Config) (name : String) → is_on_firecracker cfg name ≡ true → IsIgnored cfg name
unfolding is_on_firecracker name_for
is_on_firecracker-IsIgnored cfg name h = elim (Option-cases (get name cfg.rooms)) [
  | inl missing ↦ absurd (ground arith)
  | inr (room, found) ↦ (room, found, ground (arith, eq_iff (name_for cfg room) "firecracker"))
]

entries-IsIgnored : (cfg : Config) (t : Table) → All (IsIgnored cfg) (warned_entries cfg t)
unfolding warned_entries
entries-IsIgnored cfg end = tt
entries-IsIgnored cfg (entry name val rest) = elim (Bool-cases (sets_pids_limit val)) [
  | inr unset' ↦ rw (unset', warned_entries) (entries-IsIgnored cfg rest)
  | inl set' ↦ elim (Bool-cases (is_on_firecracker cfg name)) [
    | inr elsewhere ↦ rw (set', elsewhere, warned_entries) (entries-IsIgnored cfg rest)
    | inl there ↦
        rw (set', there, warned_entries)
          (is_on_firecracker-IsIgnored cfg name there, entries-IsIgnored cfg rest)
  ]
]

-- The warning about a limit that has no effect names only configured rooms that the registry
-- routes to the Firecracker backend, by their own key or by the top level's.
pub warned_rooms_run_on_firecracker :
    (cfg : Config) (raw : Table) → All (IsIgnored cfg) (warned_rooms cfg raw)
unfolding warned_rooms
warned_rooms_run_on_firecracker cfg raw = go (sub_table "rooms" raw)
  where
    go :
        (t : Option Table)
        → All (IsIgnored cfg) (elim t [ none ↦ [] | some t ↦ warned_entries cfg t ])
    go none = tt
    go (some t) = entries-IsIgnored cfg t
