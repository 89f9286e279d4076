-- ===== src/Config/Types.antt =====
-- The dataclasses of src/keycard/config.py. A path is its text.
use Prim.Native.String.{◌++◌}
use keycard.Prelude.{Text, codes, String, Bool, ◌||◌, Option, none, some, ℤ, pos, str_eq, []}
use keycard.Prelude.Dict.{Dict, get}
use keycard.Config.Toml.{Python}

abbrev pub default_backend : String
default_backend = "docker"

abbrev pub default_room_name : String
default_room_name = "ubuntu"

-- `KNOWN_BACKENDS`
unfoldable pub is_known_backend : String → Bool
is_known_backend name = str_eq name "docker" || str_eq name "firecracker"

abbrev pub default_confinement : String
default_confinement = "best-effort"

-- `CONFINEMENT_MODES`
unfoldable pub is_confinement_mode : String → Bool
is_confinement_mode mode =
    str_eq mode "required" || (str_eq mode "best-effort" || str_eq mode "off")

pub record RoomConfig : Type 0 where
  pub name : String
  pub image : String
  pub memory : String
  pub cpus : ℤ
  pub pids_limit : ℤ
  pub network : String
  pub backend : String
  pub rootfs : String

-- `RoomConfig(name=…, image=…)`
unfoldable pub plain_room : String → String → RoomConfig
plain_room name image = record {
  name = name;
  image = image;
  memory = "";
  cpus = pos 0;
  pids_limit = pos 512;
  network = "";
  backend = "";
  rootfs = "";
}

pub record FirecrackerConfig : Type 0 where
  pub binary : String
  pub kernel : Option String
  pub rootfs_dir : String
  pub runtime_dir : String
  pub boot_args : String
  pub boot_timeout : String
  pub confinement : String

pub record Config : Type 0 where
  -- kept as its code points, since the program takes it apart
  pub listen : Text
  pub authorized_keys : String
  pub host_key : String
  pub idle_timeout : String
  pub shutdown_grace : String
  pub keep_window : String
  pub default_room : String
  pub backend : String
  pub rooms : Dict RoomConfig
  pub firecracker : FirecrackerConfig

abbrev pub default_boot_args : String
default_boot_args = "init=/usr/sbin/keycard-init console=ttyS0 reboot=k panic=1 pci=off"

-- `FirecrackerConfig()`
unfoldable pub default_firecracker : Python → FirecrackerConfig
default_firecracker py = record {
  binary = "firecracker";
  kernel = none;
  rootfs_dir = "/var/lib/keycard/rootfs";
  runtime_dir = py.temp_dir ++ "/keycard";
  boot_args = default_boot_args;
  boot_timeout = "30s";
  confinement = default_confinement;
}

-- `Config()`
unfoldable pub default_config : Python → Config
default_config py = record {
  listen = codes ":2222";
  authorized_keys = py.config_dir ++ "/authorized_keys";
  host_key = py.config_dir ++ "/host_key";
  idle_timeout = "15m";
  shutdown_grace = "30s";
  keep_window = "0";
  default_room = default_room_name;
  backend = default_backend;
  rooms = [];
  firecracker = default_firecracker py;
}

-- `Config.resolve`; a `RoomConfig` is never false.
unfoldable pub resolve : Config → String → Option RoomConfig
resolve cfg username = elim (get username cfg.rooms) [
  | some room ↦ some room
  | none ↦ get cfg.default_room cfg.rooms
]
