-- ===== src/Firecracker/Host.antt =====
-- What one room has on the host, and actions that change it and may raise. The environment of an
-- action is what each of its awaits gives: nothing, or the exception that it raises there.
use keycard.Prelude.{Bool, false, Option, none, some, Result, ok, err, Error}

pub record Host : Type 0 where
  -- the instance directory, the firecracker process, and the handles that keycard holds open
  pub dir : Bool
  pub process : Bool
  pub console : Bool
  pub ruleset_fd : Bool
  pub data_sock : Bool
  pub ctrl_sock : Bool

abbrev pub empty_host : Host
empty_host = record {
  dir = false;
  process = false;
  console = false;
  ruleset_fd = false;
  data_sock = false;
  ctrl_sock = false;
}

-- The places at which opening, resuming, pausing or destroying a room can raise.
pub data Stage : Type 0 where
  create_dir write_owner await_create copy_rootfs size_files unlink_sockets open_console
        build_ruleset exec write_vmm_pid wait_ready :
      Stage
  put_boot_source put_drive put_machine_config put_vsock put_start load_snapshot : Stage
  connect_data connect_ctrl send_size : Stage
  pause_vm create_snapshot stop_vm remove_instance : Stage
  -- not an await: what `rmtree` comes upon while it ignores errors, and leaves on the disk
  rmtree : Stage

abbrev pub Faults : Type 0
Faults = Stage → Option Error

abbrev pub Act : Type 0 → Type 0
Act A = Host → Result A × Host

infixl 5 ◌>>=◌ ◌>>◌
abbrev pub ◌>>=◌ : {A B : Type 0} → Act A → (A → Act B) → Act B
◌>>=◌ m f h = let (r, h') = m h in elim r [ err e ↦ (err e, h') | ok a ↦ f a h' ]

abbrev pub ◌>>◌ : {A B : Type 0} → Act A → Act B → Act B
m >> k = m >>= λ _. k

abbrev pub pure : {A : Type 0} → A → Act A
pure a h = (ok a, h)

abbrev pub raise : {A : Type 0} → Error → Act A
raise e h = (err e, h)

abbrev pub change : (Host → Host) → Act (Unit {0})
change f h = (ok tt, f h)

-- An await that raises what the environment says.
abbrev pub await : Faults → Stage → Act (Unit {0})
await faults stage = elim (faults stage) [ none ↦ pure tt | some e ↦ raise e ]

-- `try: m except BaseException: handler; raise`, where the handler may itself raise.
abbrev pub on_error : {A : Type 0} → Act (Unit {0}) → Act A → Act A
on_error handler m h =
    let (r, h') = m h in elim r [ err e ↦ (handler >> raise e) h' | ok a ↦ (ok a, h') ]

-- `try: m finally: handler`
abbrev pub finally : {A : Type 0} → (Host → Host) → Act A → Act A
finally handler m h = let (r, h') = m h in (r, handler h')
