-- ===== src/Kept/Examples.antt =====
-- The theorems at concrete registries.
use keycard.Prelude.{◌≡◌, refl, List, [], ◌∷◌}
use keycard.Prelude.Dict.{get, put, remove}
use keycard.Kept.{init, keep, take, expire}
use keycard.Kept.Ledger.{Event, takes, keeps, expires, open_ledger, step, run, held}

abbrev history : List Event
history =
    keeps "ada" 1
    ∷ keeps "bob" 2
    ∷ takes "ada"
    ∷ keeps "ada" 3
    ∷ expires "ada" 1
    ∷ expires "bob" 2
    ∷ []

-- The second room of the first username outlives the timer of the first.
history-ends : let m = run (open_ledger 300) history in (m.taken ≡ 1 ∷ []) × (held m ≡ 3 ∷ [])
unfolding run step init keep get put remove take expire
history-ends = (refl, refl)
