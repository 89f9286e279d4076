-- ===== src/Active/Examples.antt =====
-- The registry at a concrete history.
use keycard.Prelude.{false, ◌≡◌, refl}
use keycard.Active.{init, add, discard, remove}

two_come_one_goes : (discard 1 (add 1 (add 2 (add 1 init)))).empty ≡ false
unfolding add discard remove
two_come_one_goes = refl
