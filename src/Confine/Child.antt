-- ===== src/Confine/Child.antt =====
-- The child between fork and exec.
use keycard.Prelude.{ℕ, Bool, true, not, ◌&&◌, ◌≡◌, ◌⊎◌, [], ◌∷◌, arith, ok, if◌then◌else◌}
use keycard.Confine.{
  limits_fsize, limits_nofile, forbids_privileges, restricts, closes_ruleset, nofile, setup,
}

-- A child that goes on to exec has its two limits set, and where there is a ruleset it has given up
-- new privileges and then restricted itself; if either of these fails it does not go on.
pub setup_restricts :
    (has_ruleset prctl_ok restrict_ok : Bool) (fsize : ℕ)
    → let (r, calls) = setup has_ruleset fsize prctl_ok restrict_ok in
      ((r ≡ ok tt)
        × (calls
            ≡ limits_fsize fsize
              ∷ limits_nofile nofile
              ∷ (if has_ruleset then forbids_privileges ∷ restricts ∷ closes_ruleset ∷ [] else [])))
      ⊎ (has_ruleset && not (prctl_ok && restrict_ok) ≡ true)
unfolding setup
setup_restricts has_ruleset prctl_ok restrict_ok fsize = ground arith
