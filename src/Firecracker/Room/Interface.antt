-- ===== src/Firecracker/Room/Interface.antt =====
-- `FirecrackerRoom` as a `Room`.
use keycard.Prelude.{ℕ, Bool, false, Option, ℤ, Result, ok, err}
use keycard.Rooms.{Room, Backend}
use keycard.Firecracker.Host.{Host, Faults}
use keycard.Firecracker.Lifecycle.{open_vm, resume_vm, destroy_kept_vm}
use keycard.Firecracker.Room.{FirecrackerRoom, new_room, destroy, pause}
use keycard.Firecracker.Room.Channels.{read, write, resize}

-- `pause`: the handle holds the instance.
unfoldable pub pause_room : ℕ → Faults → FirecrackerRoom → Result ℕ × FirecrackerRoom
pause_room instance' faults room =
    let (r, h) = pause faults room.host in
    (elim r [ err e ↦ err e | ok _ ↦ ok instance' ], record room { host = h })

unfoldable pub microvm_room :
    ℕ → Room FirecrackerRoom ℕ (Result (Unit {0})) (Faults × Option ℤ) Faults
microvm_room instance' = record {
  can_pause = false;
  read = read;
  write = write;
  resize = resize;
  destroy = destroy;
  pause = pause_room instance';
}

-- A room that attached holds what it has on the host.
abbrev pub attached : Result (Unit {0}) × Host → Result FirecrackerRoom × Host
attached (r, h) = (elim r [ err e ↦ err e | ok _ ↦ ok (new_room h) ], h)

-- `FirecrackerBackend` as a `Backend`: the flag of `open` tells whether the room's image is a file.
unfoldable pub microvm_backend :
    Backend Host FirecrackerRoom (Faults × Bool) Faults Faults (Unit {0})
microvm_backend = record {
  can_pause = false;
  open' = λ (faults, image) h. attached (open_vm faults image h);
  resume = λ faults h. attached (resume_vm faults h);
  destroy_kept = destroy_kept_vm;
  close = λ _. ok tt;
}
