-- ===== src/Firecracker/Room/Examples.antt =====
-- The theorems about one microVM at concrete faults.
use keycard.Prelude.{true, ◌≡◌, refl, none, some, [], ◌∷◌, pos, ok, err, cancelled_error}
use keycard.Rooms.{destroy_all}
use keycard.Firecracker.Host.{Host, Faults, empty_host, stop_vm}
use keycard.Firecracker.Lifecycle.{open_vm}
use keycard.Firecracker.Room.{new_room, destroy}
use keycard.Firecracker.Room.Once.{interrupted_destroy_is_final}

abbrev no_faults : Faults
no_faults _ = none

abbrev cancelled_stop : Faults
cancelled_stop stop_vm = some cancelled_error
cancelled_stop _ = none

abbrev opened : Host
opened = (open_vm no_faults true empty_host).1

opened-ok : open_vm no_faults true empty_host ≡ (ok tt, opened)
unfolding open_vm
opened-ok = refl

interrupted_destroy_is_final_example :
    let (rs, after) =
      destroy_all destroy ((cancelled_stop, none) ∷ (no_faults, none) ∷ []) (new_room opened) in
    (rs ≡ err cancelled_error ∷ ok (pos 0) ∷ []) × (after.host.dir ≡ opened.dir)
interrupted_destroy_is_final_example =
    interrupted_destroy_is_final cancelled_stop none cancelled_error ((no_faults, none) ∷ [])
      (new_room opened) refl refl
