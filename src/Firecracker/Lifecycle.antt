-- ===== src/Firecracker/Lifecycle.antt =====
-- Opening, resuming and destroying a room: `_spawn`, `_attach`, `_configure`, `_cleanup`, `open`, `resume`,
-- `destroy_kept`, and `_stop`, of which only the outcome is here (Stop has its signals).
pub mod Unwind
use keycard.Prelude.{
  ℕ, Bool, true, false, Option, none, some, Error, timeout_error, vsock_error, firecracker_error,
  Result, ok, err, if◌then◌else◌,
}
use keycard.Firecracker.Host.{
  Host, Stage, Faults, Act, ◌>>=◌, ◌>>◌, pure, raise, change, await, on_error, finally, create_dir,
  write_owner, copy_rootfs, open_console, build_ruleset, exec, write_vmm_pid, wait_ready,
  put_boot_source, put_drive, put_machine_config, put_vsock, put_start, load_snapshot, connect_data,
  connect_ctrl, send_size, await_create, size_files, unlink_sockets, stop_vm, remove_instance,
  rmtree,
}

abbrev pub stop : Host → Host
stop h = record h { process = false }

abbrev pub remove_dir : Host → Host
remove_dir h = record h { dir = false }

-- `_stop`, as its callers see it: it ends the process, or its wait raises.
unfoldable pub stop_vmm : Faults → Act (Unit {0})
stop_vmm faults = do await faults stop_vm; change stop

-- `_remove_dir`: a thread does it, and goes on if the await raises. `rmtree` raises nothing, but may
-- leave the directory.
unfoldable pub remove_vm_dir : Faults → Act (Unit {0})
remove_vm_dir faults = do
  change (λ h. elim (faults rmtree) [ none ↦ remove_dir h | some e ↦ h ])
  await faults remove_instance

-- `_cleanup`; the flag tells whether `vm` is set.
unfoldable pub cleanup : Faults → Bool → Act (Unit {0})
unfolding stop_vmm remove_vm_dir
cleanup faults vm = if vm then (do stop_vmm faults; remove_vm_dir faults) else remove_vm_dir faults

-- `Instance.create` in a thread: the directory is made even where the await of the thread raises.
unfoldable pub create_instance : Faults → Act (Unit {0})
create_instance faults = do
  await faults create_dir
  change (λ h. record h { dir = true })
  await faults write_owner
  await faults await_create

-- The wait for the API socket: a timeout stops the process and becomes a `FirecrackerError`; any
-- other exception passes.
unfoldable pub await_ready : Faults → Act (Unit {0})
unfolding stop_vmm
await_ready faults h = elim (faults wait_ready) [
  | none ↦ (ok tt, h)
  | some e ↦ elim e [
    | timeout_error ↦ (stop_vmm faults >> raise firecracker_error) h
    | x ↦ (err x, h)
  ]
]

-- `_spawn`
unfoldable pub spawn : Faults → Act (Unit {0})
unfolding await_ready
spawn faults = do
  await faults open_console
  change (λ h. record h { console = true })
  await faults build_ruleset
  change (λ h. record h { ruleset_fd = true })
  finally (λ h. record h { console = false; ruleset_fd = false })
      (do await faults exec; change (λ h. record h { process = true }))
  await faults write_vmm_pid
  await_ready faults

-- `_configure`
unfoldable pub configure : Faults → Act (Unit {0})
configure faults = do
  await faults put_boot_source
  await faults put_drive
  await faults put_machine_config
  await faults put_vsock

-- The control connection: a `VsockError` closes the data connection, and any other exception passes.
unfoldable pub connect_control : Faults → Act (Unit {0})
connect_control faults h = elim (faults connect_ctrl) [
  | none ↦ (ok tt, record h { ctrl_sock = true })
  | some e ↦ elim e [
    | vsock_error ↦ (err vsock_error, record h { data_sock = false })
    | x ↦ (err x, h)
  ]
]

-- `_attach`
unfoldable pub attach : Faults → Act (Unit {0})
unfolding connect_control
attach faults = do
  await faults connect_data
  change (λ h. record h { data_sock = true })
  connect_control faults
  await faults send_size

-- `open`; the flag tells whether the room's image is a file. The exception handler covers the body
-- in two parts, before and after `vm` is set.
unfoldable pub open_vm : Faults → Bool → Act (Unit {0})
unfolding cleanup create_instance spawn configure attach
open_vm faults image =
    if image
    then (do
      create_instance faults
      on_error (cleanup faults false)
          (do await faults copy_rootfs; await faults size_files; spawn faults)
      on_error (cleanup faults true) (do configure faults; await faults put_start; attach faults))
    else raise firecracker_error

-- `resume`
unfoldable pub resume_vm : Faults → Act (Unit {0})
unfolding stop_vmm spawn attach
resume_vm faults = do
  await faults unlink_sockets
  await faults size_files
  spawn faults
  on_error (stop_vmm faults) (do await faults load_snapshot; attach faults)

-- `destroy_kept`
unfoldable pub destroy_kept_vm : Faults → Act (Unit {0})
unfolding remove_vm_dir
destroy_kept_vm faults = remove_vm_dir faults
