-- ===== src/Routing/Pauses.antt =====
-- Which rooms may be paused, through the wrapper that routes them.
use keycard.Prelude.{ℕ, String, false, ◌≡◌, Option, List, [], ◌∷◌, arith, All, str_eq}
use keycard.Kept.{KeptRooms}
use keycard.Session.Types.{
  Effect, pauses, opens, resumes, destroys_kept, destroys, writes, resizes, new_session,
}
use keycard.Session.Tasks.Channel.{connection_made}
use keycard.Session.Machine.{Event, run}
use keycard.Session.Machine.Pause.{IsAllowed, paused-IsAllowed}
use keycard.Routing.{Routed, can_pause, routed_can_pause}

-- A room that is paused is not a microVM.
abbrev pub IsNoMicrovm : (ℕ → Routed ℕ) → Effect → Type 0
IsNoMicrovm rooms (pauses r) = str_eq (rooms r).backend_name "firecracker" ≡ false
IsNoMicrovm rooms _ = Unit

allowed-IsNoMicrovm :
    (rooms : ℕ → Routed ℕ) (effects : List Effect)
    → All (IsAllowed (λ r. routed_can_pause (rooms r))) effects
    → All (IsNoMicrovm rooms) effects
unfolding routed_can_pause can_pause
allowed-IsNoMicrovm rooms [] h = tt
allowed-IsNoMicrovm rooms (pauses r ∷ effects) h =
    (ground (arith, h.0), allowed-IsNoMicrovm rooms effects h.1)
allowed-IsNoMicrovm rooms (opens ∷ effects) h = (tt, allowed-IsNoMicrovm rooms effects h.1)
allowed-IsNoMicrovm rooms (resumes k ∷ effects) h = (tt, allowed-IsNoMicrovm rooms effects h.1)
allowed-IsNoMicrovm rooms (destroys_kept k ∷ effects) h =
    (tt, allowed-IsNoMicrovm rooms effects h.1)
allowed-IsNoMicrovm rooms (destroys r ∷ effects) h = (tt, allowed-IsNoMicrovm rooms effects h.1)
allowed-IsNoMicrovm rooms (writes r t ∷ effects) h = (tt, allowed-IsNoMicrovm rooms effects h.1)
allowed-IsNoMicrovm rooms (resizes r w t ∷ effects) h = (tt, allowed-IsNoMicrovm rooms effects h.1)

-- Whichever rooms a session gets from the registry of backends, and whatever happens to it, it never
-- pauses a room that the Firecracker backend made.
pub microvm_is_never_paused :
    (rooms : ℕ → Routed ℕ) (idle now : ℕ) (username : String) (kept : Option KeptRooms)
    (es : List Event)
    → All
        (IsNoMicrovm rooms)
        (run
          (λ r. routed_can_pause (rooms r))
          es
          (connection_made (new_session idle username kept now))).effects
microvm_is_never_paused rooms idle now username kept es =
    allowed-IsNoMicrovm rooms _
      (paused-IsAllowed (λ r. routed_can_pause (rooms r)) idle now username kept es)
