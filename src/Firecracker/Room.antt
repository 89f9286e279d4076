-- ===== src/Firecracker/Room.antt =====
-- `FirecrackerRoom`: destroying and pausing a microVM that `open` or `resume` has attached to.
pub mod Channels
pub mod Interface
pub mod Leaves
pub mod Once
mod Examples
use keycard.Prelude.{
  ℕ, suc, Bool, true, false, Option, none, some, ℤ, pos, Result, ok, err, Error, if◌then◌else◌,
}
use keycard.Firecracker.Host.{
  Host, Faults, Act, ◌>>=◌, ◌>>◌, pure, change, await, raise, pause_vm, create_snapshot, stop_vm,
  remove_instance,
}
use keycard.Firecracker.Lifecycle.{stop_vmm, remove_vm_dir}

pub record FirecrackerRoom : Type 0 where
  pub host : Host
  pub exit_status : Option ℤ
  pub destroyed : Bool
  -- how often a call of `destroy` got past the lock
  pub teardowns : ℕ

-- `FirecrackerRoom(vm, data, ctrl)`
abbrev pub new_room : Host → FirecrackerRoom
new_room host = record { host = host; exit_status = none; destroyed = false; teardowns = 0 }

-- `_close_attachment`: what the closes raise is swallowed.
abbrev pub close_attachment : Host → Host
close_attachment h = record h { data_sock = false; ctrl_sock = false }

-- `destroy` behind the wait for the exit message; an interrupted `_stop` is one whose wait raises.
unfoldable pub tear_down : Faults → Act (Unit {0})
unfolding stop_vmm remove_vm_dir
tear_down faults = do change close_attachment; stop_vmm faults; remove_vm_dir faults

-- The status that the exit message gives: the one that has been heard already, or the one that is
-- heard while `destroy` waits. The wait swallows its timeout and a cancel.
abbrev pub known_status : Option ℤ → Option ℤ → Option ℤ
known_status none heard = heard
known_status (some status) heard = some status

abbrev pub status_or_zero : Option ℤ → ℤ
status_or_zero none = pos 0
status_or_zero (some status) = status

-- `destroy`
unfoldable pub destroy : Faults × Option ℤ → FirecrackerRoom → Result ℤ × FirecrackerRoom
unfolding tear_down
destroy (faults, heard) room =
    if room.destroyed
    then (ok (pos 0), room)
    else (let (r, h) = tear_down faults room.host in
        let status = known_status room.exit_status heard in
        (
          elim r [ err e ↦ err e | ok _ ↦ ok (status_or_zero status) ],
          record {
            host = h;
            exit_status = status;
            destroyed = true;
            teardowns = suc room.teardowns;
          },
        ))

-- `pause`, on what the room has on the host.
unfoldable pub pause : Faults → Act (Unit {0})
unfolding stop_vmm
pause faults = do
  change close_attachment
  await faults pause_vm
  await faults create_snapshot
  stop_vmm faults
