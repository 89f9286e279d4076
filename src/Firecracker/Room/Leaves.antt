-- ===== src/Firecracker/Room/Leaves.antt =====
-- What a microVM leaves on the host.
use keycard.Prelude.{◌≡◌, Bool, Option, none, arith, ℤ, ok, err}
use keycard.Firecracker.Host.{Host, Faults, empty_host, stop_vm, remove_instance, rmtree}
use keycard.Firecracker.Lifecycle.{open_vm, destroy_kept_vm}
use keycard.Firecracker.Room.{new_room, destroy, pause}

-- A room whose opening succeeded, and whose destruction is not cut off and gets the directory off the
-- disk, leaves nothing: no directory, no process, no connection and no handle.
pub destroy-open_vm :
    (faults : Faults) (image : Bool) (host : Host) (later : Faults) (heard : Option ℤ)
    → open_vm faults image empty_host ≡ (ok tt, host)
    → later stop_vm ≡ none
    → later remove_instance ≡ none
    → later rmtree ≡ none
    → (destroy (later, heard) (new_room host)).1.host ≡ empty_host
unfolding open_vm destroy
destroy-open_vm faults image host later heard e s r c = ground arith

-- Pausing such a room, wherever it fails, leaves the directory to one holder that removes the rest:
-- a pause that succeeds to `destroy_kept`, and a pause that raises to `destroy`.
pub pause-open_vm :
    (faults : Faults) (image : Bool) (host : Host) (pausing later : Faults) (heard : Option ℤ)
    → open_vm faults image empty_host ≡ (ok tt, host)
    → later stop_vm ≡ none
    → later remove_instance ≡ none
    → later rmtree ≡ none
    → let (r, paused) = pause pausing host in
      (elim r [
        | ok _ ↦ (destroy_kept_vm later paused).1
        | err e ↦ (destroy (later, heard) (new_room paused)).1.host
      ])
      ≡ empty_host
unfolding open_vm destroy pause destroy_kept_vm
pause-open_vm faults image host pausing later heard e s r c = ground arith
