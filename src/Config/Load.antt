-- ===== src/Config/Load.antt =====
-- `load` of src/keycard/config.py and the functions that it calls. Of the log lines, those of
-- `_warn_ignored_room_keys` are modelled, in Config/Warnings.
use keycard.Prelude.{
  codes, String, ◌||◌, Option, none, some, [], ◌∷◌, ℤ, pos, Result, ok, ◌>>=◌, str_eq,
  if◌then◌else◌,
}
use keycard.Prelude.Dict.{Dict, put, has}
use keycard.Config.Toml.{Value, text, table, Table, end, entry, find, Python}
use keycard.Config.Types.{
  RoomConfig, FirecrackerConfig, Config, is_known_backend, default_backend, is_confinement_mode,
  default_confinement, plain_room, default_firecracker, default_config, default_room_name,
}

-- `_valid_backend`
unfoldable pub valid_backend : String → String
valid_backend name = if str_eq name "" || is_known_backend name then name else default_backend

-- `_confinement`
unfoldable pub confinement_mode : String → String
confinement_mode mode = if is_confinement_mode mode then mode else default_confinement

-- `raw.get(key, {})` where it is a table.
unfoldable pub sub_table : String → Table → Option Table
sub_table key raw = elim (find key raw) [
  | none ↦ some end
  | some v ↦ elim v [ table t ↦ some t | _ ↦ none ]
]

-- `_builtin_rooms`
unfoldable pub builtin_rooms : Dict RoomConfig
unfolding plain_room
builtin_rooms =
    ("ubuntu", plain_room "ubuntu" "ubuntu:24.04")
    ∷ ("python", plain_room "python" "python:3.12-slim")
    ∷ ("node", plain_room "node" "node:22-slim")
    ∷ []

-- The image of an entry: `none` where the loop of `_parse_rooms` goes on to the next one.
unfoldable pub room_image : Value → Option (String × Table)
room_image (table val) = elim (find "image" val) [
  | none ↦ none
  | some v ↦ elim v [ text image ↦ some (image, val) | _ ↦ none ]
]
room_image _ = none

-- `if not cfg.rooms: cfg.rooms = _builtin_rooms()`
unfoldable pub or_builtin : Dict RoomConfig → Dict RoomConfig
or_builtin [] = builtin_rooms
or_builtin (e ∷ rooms) = e ∷ rooms

-- `next(iter(cfg.rooms))` where the default is no room.
unfoldable pub settle_default : String → Dict RoomConfig → String
settle_default name [] = name
settle_default name (e ∷ rooms) = if has name (e ∷ rooms) then name else e.0

module _ (py : Python) where
  -- `str(val.get(key, default))`
  unfoldable pub str_key : String → String → Table → String
  str_key key default t = elim (find key t) [ none ↦ default | some v ↦ py.str_of v ]

  -- `int(val.get(key, default))`
  unfoldable pub int_key : String → ℤ → Table → Result ℤ
  int_key key default t = elim (find key t) [ none ↦ ok default | some v ↦ py.int_of v ]

  -- The path at a key, expanded, where the key is there.
  unfoldable pub path_key : String → String → Table → String
  path_key key default t = elim (find key t) [
    | none ↦ default
    | some v ↦ py.expand_user (py.str_of v)
  ]

  -- The `RoomConfig` of one entry that has an image.
  unfoldable pub parse_room : String → String → Table → Result RoomConfig
  unfolding str_key int_key
  parse_room name image val = do
    cpus ← int_key "cpus" (pos 0) val
    pids_limit ← int_key "pids_limit" (pos 512) val
    ok (record {
      name = name;
      image = image;
      memory = str_key "memory" "" val;
      cpus = cpus;
      pids_limit = pids_limit;
      network = str_key "network" "" val;
      backend = valid_backend (str_key "backend" "" val);
      rootfs = str_key "rootfs" "" val;
    })

  -- The loop of `_parse_rooms`.
  unfoldable pub parse_entries : Table → Dict RoomConfig → Result (Dict RoomConfig)
  unfolding room_image
  parse_entries end rooms = ok rooms
  parse_entries (entry name val rest) rooms =
      let skip = parse_entries rest rooms in
      elim (room_image val) [
        | none ↦ skip
        | some (image, t) ↦
            (parse_room name image t) >>= λ room. parse_entries rest (put name room rooms)
      ]

  -- `_parse_rooms`
  unfoldable pub parse_rooms : Table → Result (Dict RoomConfig)
  unfolding parse_entries sub_table
  parse_rooms raw = elim (sub_table "rooms" raw) [ none ↦ ok [] | some t ↦ parse_entries t [] ]

  -- `_parse_firecracker`
  unfoldable pub parse_firecracker : Table → FirecrackerConfig
  unfolding sub_table str_key path_key default_firecracker
  parse_firecracker raw =
      let fc = default_firecracker py in
      elim (sub_table "firecracker" raw) [
        | none ↦ fc
        | some t ↦ record {
          binary = str_key "binary" fc.binary t;
          kernel = elim (find "kernel" t) [
            | none ↦ fc.kernel
            | some v ↦ some (py.expand_user (py.str_of v))
          ];
          rootfs_dir = path_key "rootfs_dir" fc.rootfs_dir t;
          runtime_dir = path_key "runtime_dir" fc.runtime_dir t;
          boot_args = str_key "boot_args" fc.boot_args t;
          boot_timeout = str_key "boot_timeout" fc.boot_timeout t;
          confinement = elim (find "confinement" t) [
            | none ↦ fc.confinement
            | some v ↦ confinement_mode (py.str_of v)
          ];
        }
      ]

  -- `_builtin_config`
  unfoldable pub builtin_config : Config
  unfolding default_config builtin_rooms
  builtin_config = record (default_config py) {
    rooms = builtin_rooms;
    default_room = default_room_name;
  }

  -- `_valid_backend(str(raw["backend"]), …) or DEFAULT_BACKEND`
  unfoldable pub top_backend : Table → String
  unfolding valid_backend
  top_backend raw = elim (find "backend" raw) [
    | none ↦ default_backend
    | some v ↦
        let name = valid_backend (py.str_of v) in if str_eq name "" then default_backend else name
  ]

  -- The fields of the configuration, once the rooms have been parsed.
  unfoldable pub with_rooms : Table → Dict RoomConfig → Config
  unfolding default_config str_key path_key
  with_rooms raw parsed =
      let cfg = default_config py in
      let rooms = or_builtin parsed in
      record {
        listen = elim (find "listen" raw) [ none ↦ cfg.listen | some v ↦ codes (py.str_of v) ];
        authorized_keys = path_key "authorized_keys" cfg.authorized_keys raw;
        host_key = path_key "host_key" cfg.host_key raw;
        idle_timeout = str_key "idle_timeout" cfg.idle_timeout raw;
        shutdown_grace = str_key "shutdown_grace" cfg.shutdown_grace raw;
        keep_window = str_key "keep_window" cfg.keep_window raw;
        default_room = settle_default (str_key "default_room" cfg.default_room raw) rooms;
        backend = top_backend raw;
        rooms = rooms;
        firecracker = parse_firecracker raw;
      }

  -- The rest of `load`, where the file exists.
  unfoldable pub from_table : Table → Result Config
  unfolding with_rooms
  from_table raw = do parsed ← parse_rooms raw; ok (with_rooms raw parsed)

  -- `load`: `none` is a file that does not exist.
  unfoldable pub load : Option Table → Result Config
  load none = ok builtin_config
  load (some raw) = from_table raw
