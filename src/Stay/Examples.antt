-- ===== src/Stay/Examples.antt =====
-- The theorem at one stay: a client opens a microVM, and hangs up.
use keycard.Prelude.{true, ◌≡◌, refl, none, ok}
use keycard.Session.Machine.Examples.{registry, hang_up, hang_up-ended}
use keycard.Session.Machine.Release.{lived}
use keycard.Routing.Wrapped.{routed_room}
use keycard.Firecracker.Host.{Host, Faults, empty_host}
use keycard.Firecracker.Lifecycle.{open_vm}
use keycard.Firecracker.Room.{new_room}
use keycard.Firecracker.Room.Interface.{microvm_room, microvm_backend}
use keycard.Stay.{carried_out, microvm_stay_leaves_nothing}

abbrev no_fault : Faults
no_fault = λ call. none

abbrev full_host : Host
full_host = (open_vm no_fault true empty_host).1

full_host-opened :
    microvm_backend.open' (no_fault, true) empty_host ≡ (ok (new_room full_host), full_host)
unfolding microvm_backend open_vm
full_host-opened = refl

microvm_stay_leaves_nothing_example :
    let room = routed_room "firecracker" (microvm_room 0) in
    let s = lived (λ r. room.can_pause) 60 0 "ada" registry hang_up in
    (carried_out room (no_fault, none) no_fault s.effects (new_room full_host)).host ≡ empty_host
unfolding microvm_room
microvm_stay_leaves_nothing_example =
    microvm_stay_leaves_nothing no_fault true full_host (new_room full_host) no_fault no_fault none
      0 60 0 "ada" registry hang_up full_host-opened refl refl refl hang_up-ended.0 hang_up-ended.1
      hang_up-ended.2
