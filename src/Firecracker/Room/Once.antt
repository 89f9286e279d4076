-- ===== src/Firecracker/Room/Once.antt =====
-- A Firecracker room meets the contract of `destroy`, and what that means for a call that is cut off.
use keycard.Prelude.{
  suc, true, false, ◌≡◌, refl, Option, some, List, ◌∷◌, arith, ℤ, pos, ok, err, Error, map,
  if◌then◌else◌,
}
use keycard.Rooms.{Life, alive, gone, IsRoom, destroy_all, destroy_all-refines}
use keycard.Firecracker.Host.{Faults, stop_vm}
use keycard.Firecracker.Room.{FirecrackerRoom, destroy}

abbrev pub life : FirecrackerRoom → Life
life room = if room.destroyed then gone else alive

destroy-IsRoom : IsRoom destroy life (λ room. room.teardowns)
unfolding destroy
destroy-IsRoom = record {
  ends = λ o s. ground arith;
  first = λ o s h. ground arith;
  again = λ o s h. ground arith;
}

-- However often a microVM that has not been destroyed is destroyed, and whatever is raised in the
-- calls, the first call alone tears it down; the later ones return 0 and change nothing.
pub firecracker_destroyed_once :
    (o : Faults × Option ℤ) (os : List (Faults × Option ℤ)) (room : FirecrackerRoom)
    → room.destroyed ≡ false
    → let (rs, after) = destroy_all destroy (o ∷ os) room in
      (after ≡ (destroy o room).1)
      × (rs ≡ (destroy o room).0 ∷ map (λ _. ok (pos 0)) os)
      × (after.destroyed ≡ true)
      × (after.teardowns ≡ suc room.teardowns)
firecracker_destroyed_once o os room fresh =
    let (same, results, ended, count) =
      destroy_all-refines destroy life (λ r. r.teardowns) destroy-IsRoom o os room
        (rw fresh refl) in
    (same, results, ground arith, count)

-- The first call of `destroy` on a room, cut off while it stops the process, leaves the instance
-- directory, and the room counts as destroyed all the same: no later call of `destroy` removes the
-- directory, and each of them returns 0.
pub interrupted_destroy_is_final :
    (faults : Faults) (heard : Option ℤ) (e : Error) (os : List (Faults × Option ℤ))
    (room : FirecrackerRoom)
    → room.destroyed ≡ false
    → faults stop_vm ≡ some e
    → let (rs, after) = destroy_all destroy ((faults, heard) ∷ os) room in
      (rs ≡ err e ∷ map (λ _. ok (pos 0)) os) × (after.host.dir ≡ room.host.dir)
interrupted_destroy_is_final faults heard e os room fresh cut_off =
    let (same, results, ended, count) = firecracker_destroyed_once (faults, heard) os room fresh in
    unfold destroy in ground (arith, same, results)
