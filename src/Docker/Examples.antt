-- ===== src/Docker/Examples.antt =====
-- The theorems about Docker rooms at concrete hosts.
use keycard.Prelude.{
  ℕ, ◌*◌, ◌+◌, ◌≤◌, false, ◌≡◌, ◌⊎◌, refl, some, arith, pos, ok, leb, if◌then◌else◌,
}
use keycard.Prelude.Polling.{poll_until}
use keycard.Docker.{
  Host, running, exited, done, refused, is_running, last_round, remove_container, destroy_container,
}
use keycard.Docker.Destroy.{destroy_container_ends}

-- A shell that goes on for two rounds and then exits with status 3.
abbrev leaving : Host
leaving = record {
  poll = λ n. if leb 2 n then exited (some (pos 3)) else running;
  now = λ n. 100 + n * 50;
  kill = done;
  remove = done;
}

-- A shell that never exits.
abbrev staying : Host
staying = record leaving { poll = λ _. running; remove = refused }

leaving-reported :
    destroy_container leaving 1100 21
    ≡ some (record { result = ok (pos 3); kills = 0; removes = 1 })
unfolding destroy_container poll_until last_round remove_container
leaving-reported = refl

staying-killed :
    destroy_container staying 1100 21
    ≡ some (record { result = ok (pos 0); kills = 1; removes = 1 })
unfolding destroy_container poll_until last_round remove_container
staying-killed = refl

destroy_container_ends_example :
    (k : ℕ) × (destroy_container leaving 1100 21
      ≡ some (remove_container done (last_round done (leaving.poll k))))
    × ((is_running (leaving.poll k) ≡ false) ⊎ (1100 ≤ leaving.now k))
destroy_container_ends_example =
    destroy_container_ends leaving 100 50 1000 20 (λ n. omega arith) (omega arith)
