-- ===== src/Docker/Once.antt =====
-- A Docker room meets the contract of `destroy`.
use keycard.Prelude.{
  suc, false, ◌≡◌, refl, List, ◌∷◌, arith, ℤ, pos, Result, ok, map, if◌then◌else◌,
}
use keycard.Rooms.{Life, alive, gone, IsRoom, destroy_all, destroy_all-refines}
use keycard.Docker.{DockerRoom, destroy}

abbrev pub life : DockerRoom → Life
life room = if room.destroyed then gone else alive

destroy-IsRoom : IsRoom destroy life (λ room. room.teardowns)
unfolding destroy
destroy-IsRoom = record {
  ends = λ o s. ground arith;
  first = λ o s h. ground arith;
  again = λ o s h. ground arith;
}

-- However often a room that has not been destroyed is destroyed, and whatever Docker answers, the
-- container is torn down by the first call alone; the later ones return 0 and change nothing.
pub docker_destroyed_once :
    (o : Result ℤ) (os : List (Result ℤ)) (room : DockerRoom)
    → room.destroyed ≡ false
    → let (rs, after) = destroy_all destroy (o ∷ os) room in
      (after ≡ (destroy o room).1)
      × (rs ≡ o ∷ map (λ _. ok (pos 0)) os)
      × (after.attached ≡ false)
      × (after.teardowns ≡ suc room.teardowns)
docker_destroyed_once o os room fresh =
    let (same, results, ended, count) =
      destroy_all-refines destroy life (λ r. r.teardowns) destroy-IsRoom o os room
        (rw fresh refl) in
    unfold destroy in ground (arith, same, results, count)
