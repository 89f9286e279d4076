-- ===== src/Docker/Destroy.antt =====
-- The loop of `_destroy` ends, and what it has done by then.
use keycard.Prelude.{ℕ, suc, ◌+◌, ◌*◌, ◌≤◌, ◌≡◌, refl, false, ◌||◌, not, ◌⊎◌, some, arith, leb}
use keycard.Prelude.Polling.{Advances, poll_until-ends}
use keycard.Docker.{Host, is_running, last_round, remove_container, destroy_container}

-- If the clock advances by at least `delay` from one round of its loop to the next, and there is fuel
-- for `grace / delay` rounds and one more, `_destroy` ends, whatever Docker answers. What it
-- reports is what it makes of one round `k`, in which the container does not count as running or the
-- deadline has come, and of the removal.
pub destroy_container_ends :
    (host : Host) (start delay grace fuel : ℕ)
    → Advances start delay host.now
    → grace ≤ fuel * delay
    → (k : ℕ) × (destroy_container host (start + grace) (suc fuel)
        ≡ some (remove_container host.remove (last_round host.kill (host.poll k))))
      × ((is_running (host.poll k) ≡ false) ⊎ (start + grace ≤ host.now k))
unfolding destroy_container
destroy_container_ends host start delay grace fuel adv h =
    let (k, ends, stops) =
      poll_until-ends (λ n. leb (start + grace) (host.now n) || not (is_running (host.poll n)))
        (λ n. last_round host.kill (host.poll n)) host.now start delay grace fuel 0 adv
        (λ k late. ground arith) (omega (arith, h)) in
    (k, rw (ends, destroy_container) refl, ground arith)
