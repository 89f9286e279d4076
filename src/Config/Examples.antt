-- ===== src/Config/Examples.antt =====
-- The theorems at a concrete file.
use keycard.Prelude.{◌≡◌, refl, [], ◌∷◌, some, pos, ℤ, Result, ok, err, type_error, String}
use keycard.Prelude.Dict.{get, put}
use keycard.Config.Toml.{find, Value, text, integer, table, Table, end, entry, Python}
use keycard.Config.Types.{Config, RoomConfig, is_known_backend}
use keycard.Config.Load.{
  load, from_table, with_rooms, parse_rooms, parse_entries, parse_room, int_key, str_key, sub_table,
  room_image, valid_backend, top_backend, settle_default, or_builtin,
}

abbrev str_of_value : Value → String
str_of_value (text s) = s
str_of_value _ = "?"

abbrev int_of_value : Value → Result ℤ
int_of_value (integer n) = ok n
int_of_value _ = err type_error

abbrev pub host_python : Python
host_python = record {
  str_of = str_of_value;
  int_of = int_of_value;
  expand_user = λ s. s;
  config_dir = "/home/ada/.config/keycard";
  temp_dir = "/tmp";
  str_of_text = λ s. refl;
  int_of_integer = λ n. refl;
}

-- A default that names no room, a backend that does not exist, and one room of its own.
abbrev pub toml_file : Table
toml_file = entry "default_room" (text "missing") (
    entry "backend" (text "podman") (
      entry "rooms"
        (table (
          entry "dev"
            (table (
              entry "image" (text "debian:12")
                (entry "cpus" (integer (pos 2)) (entry "backend" (text "firecracker") end))))
            end))
        end))

abbrev pub dev_room : RoomConfig
dev_room = record {
  name = "dev";
  image = "debian:12";
  memory = "";
  cpus = pos 2;
  pids_limit = pos 512;
  network = "";
  backend = "firecracker";
  rootfs = "";
}

-- What the file gives.
abbrev pub cfg : Config
cfg = with_rooms host_python toml_file (("dev", dev_room) ∷ [])

pub toml_file-loads : load host_python (some toml_file) ≡ ok cfg
unfolding load from_table parse_rooms parse_entries parse_room int_key str_key sub_table room_image
    find put valid_backend is_known_backend
toml_file-loads = refl

cfg-settles : (cfg.default_room ≡ "dev") × (cfg.backend ≡ "docker")
unfolding with_rooms find str_key top_backend valid_backend is_known_backend settle_default
    or_builtin get
cfg-settles = (refl, refl)

pub cfg-dev : get "dev" cfg.rooms ≡ some dev_room
unfolding with_rooms get or_builtin
cfg-dev = refl
