-- ===== src/Firecracker/Api.antt =====
-- What Firecracker is told: the paths of an instance, the command line, and the calls of the API that boot,
-- pause and resume a microVM, in their order.
pub mod Granted
use Prim.Native.String.{◌++◌ as join}
use keycard.Prelude.{ℕ, String, Bool, true, false, Option, none, some, List, [], ◌∷◌, ◌++◌, map}
use keycard.Config.Types.{FirecrackerConfig, RoomConfig}

-- `Instance`: a microVM's directory.
pub record Instance : Type 0 where
  pub id : String
  pub dir : String

-- `Instance.create`, up to what it does on the disk; `suffix` is the start of a UUID.
unfoldable pub new_instance : String → String → String → Instance
new_instance runtime_dir room_name suffix =
    let id = join room_name (join "-" suffix) in
    record { id = id; dir = join runtime_dir (join "/" id) }

-- `self.dir / name`
abbrev pub within : Instance → String → String
within instance' name = join instance'.dir (join "/" name)

abbrev pub owner_pid : Instance → String
owner_pid i = within i "owner.pid"

abbrev pub vmm_pid : Instance → String
vmm_pid i = within i "vmm.pid"

abbrev pub api_sock : Instance → String
api_sock i = within i "api.sock"

abbrev pub vsock_sock : Instance → String
vsock_sock i = within i "vsock.sock"

abbrev pub rootfs : Instance → String
rootfs i = within i "rootfs.ext4"

abbrev pub snapshot : Instance → String
snapshot i = within i "snapshot"

abbrev pub mem_file : Instance → String
mem_file i = within i "memory"

abbrev pub console_log : Instance → String
console_log i = within i "console.log"

-- A body, before `json.dumps`.
mutual
  pub data Value : Type 0 where
    text : String → Value
    number : ℕ → Value
    flag : Bool → Value
    object : Fields → Value

  pub data Fields : Type 0 where
    end : Fields
    field : String → Value → Fields → Fields

pub data Method : Type 0 where
  put patch : Method

pub record ApiCall : Type 0 where
  pub method : Method
  pub path : String
  pub body : Fields

-- `firecracker_argv`
unfoldable pub firecracker_argv : String → String → List String
firecracker_argv binary socket = binary ∷ "--api-sock" ∷ socket ∷ []

abbrev pub guest_cid : ℕ
guest_cid = 3

-- The body that `machine_config` gives.
abbrev pub machine_fields : ℕ → ℕ → Fields
machine_fields vcpus mem_mib =
    field "vcpu_count" (number vcpus) (field "mem_size_mib" (number mem_mib) end)

-- The calls of `_configure`, with the guest kernel of the configuration.
unfoldable pub configure_calls : String → String → Instance → Fields → List ApiCall
configure_calls kernel boot_args i machine =
    record {
      method = put;
      path = "/boot-source";
      body = field "kernel_image_path" (text kernel) (field "boot_args" (text boot_args) end);
    }
    ∷ record {
      method = put;
      path = "/drives/rootfs";
      body = field "drive_id" (text "rootfs") (
          field "path_on_host" (text (rootfs i))
            (field "is_root_device" (flag true) (field "is_read_only" (flag false) end)));
    }
    ∷ record { method = put; path = "/machine-config"; body = machine }
    ∷ record {
      method = put;
      path = "/vsock";
      body = field "guest_cid" (number guest_cid) (field "uds_path" (text (vsock_sock i)) end);
    }
    ∷ []

-- The calls of `open`.
unfoldable pub boot_calls : String → String → Instance → Fields → List ApiCall
unfolding configure_calls
boot_calls kernel boot_args i machine =
    configure_calls kernel boot_args i machine
    ++ record {
      method = put;
      path = "/actions";
      body = field "action_type" (text "InstanceStart") end;
    }
      ∷ []

-- The calls of `pause`.
unfoldable pub pause_calls : Instance → List ApiCall
pause_calls i =
    record { method = patch; path = "/vm"; body = field "state" (text "Paused") end }
    ∷ record {
      method = put;
      path = "/snapshot/create";
      body = field "snapshot_type" (text "Full") (
          field "snapshot_path" (text (snapshot i))
            (field "mem_file_path" (text (mem_file i)) end));
    }
    ∷ []

-- The call of `resume`.
unfoldable pub resume_calls : Instance → List ApiCall
resume_calls i =
    record {
      method = put;
      path = "/snapshot/load";
      body = field "snapshot_path" (text (snapshot i)) (
          field "mem_backend"
            (object
              (field "backend_path" (text (mem_file i)) (field "backend_type" (text "File") end)))
            (field "enable_diff_snapshots" (flag false) (field "resume_vm" (flag true) end)));
    }
    ∷ []
