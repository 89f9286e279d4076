-- ===== src/Stay.antt =====
-- One stay: a session, and the room on the host that a backend has given it. The calls that the session
-- makes on the room are carried out on it, one behind the other.
mod Examples
use keycard.Prelude.{
  ℕ, zero, suc, ◌+◌, ◌≤◌, String, Bool, true, false, false≢true, ◌≡◌, ◌⊎◌, inl, inr, refl, ◌∙◌, ap,
  Option, none, some, List, [], ◌∷◌, arith, All, count_if, length, ℤ, Result, ok, err, subst,
}
use keycard.Rooms.{Room}
use keycard.Kept.{KeptRooms}
use keycard.Session.Types.{
  Effect, Pump, Teardown, finished, late_checkout, reading, awaiting, destroys, pauses, opens,
  resumes, destroys_kept, writes, resizes, new_session, unstarted, scheduled, opening,
  dropping_kept,
}
use keycard.Session.Tasks.Channel.{connection_made}
use keycard.Session.Machine.{Event}
use keycard.Session.Machine.Pause.{IsAllowed, paused-IsAllowed}
use keycard.Session.Machine.Room.{
  Life, over, closing, life, room_calls, LeadsTo, is_complete, session_keeps_to_life,
}
use keycard.Session.Machine.Once.{is_destroys}
use keycard.Session.Machine.Release.{rooms_got, is_ending, lived, released_is_torn_down}
use keycard.Routing.Wrapped.{routed_room}
use keycard.Firecracker.Host.{Host, Faults, empty_host, stop_vm, remove_instance, rmtree}
use keycard.Firecracker.Lifecycle.{open_vm}
use keycard.Firecracker.Room.{FirecrackerRoom, new_room, destroy}
use keycard.Firecracker.Room.Interface.{microvm_room, microvm_backend, attached}
use keycard.Firecracker.Room.Leaves.{destroy-open_vm}

module _ {S K R D P : Type 0} (room : Room S K R D P) (d : D) (p : P) where
  -- The effects of a session, latest first, on the room; each call is answered alike.
  unfoldable pub carried_out : List Effect → S → S
  carried_out [] s = s
  carried_out (destroys r ∷ es) s = (room.destroy d (carried_out es s)).1
  carried_out (pauses r ∷ es) s = (room.pause p (carried_out es s)).1
  carried_out (opens ∷ es) s = carried_out es s
  carried_out (resumes k ∷ es) s = carried_out es s
  carried_out (destroys_kept k ∷ es) s = carried_out es s
  carried_out (writes r bytes ∷ es) s = carried_out es s
  carried_out (resizes r w h ∷ es) s = carried_out es s

  carried_out-room_calls :
      (es : List Effect) (s : S) → carried_out es s ≡ carried_out (room_calls es) s
  unfolding carried_out
  carried_out-room_calls [] s = refl
  carried_out-room_calls (destroys r ∷ es) s =
      ap (λ t. (room.destroy d t).1) (carried_out-room_calls es s)
  carried_out-room_calls (pauses r ∷ es) s =
      ap (λ t. (room.pause p t).1) (carried_out-room_calls es s)
  carried_out-room_calls (opens ∷ es) s = carried_out-room_calls es s
  carried_out-room_calls (resumes k ∷ es) s = carried_out-room_calls es s
  carried_out-room_calls (destroys_kept k ∷ es) s = carried_out-room_calls es s
  carried_out-room_calls (writes r bytes ∷ es) s = carried_out-room_calls es s
  carried_out-room_calls (resizes r w h ∷ es) s = carried_out-room_calls es s

endings-room_calls : (es : List Effect) → count_if is_ending es ≡ length (room_calls es)
endings-room_calls [] = refl
endings-room_calls (e ∷ es) = ground (arith, endings-room_calls es)

-- Calls of `destroy`, and no others.
abbrev AllDestroy : List Effect → Type 0
AllDestroy = All (λ e. is_destroys e ≡ true)

-- Where no room can be paused, the calls are destroys.
unpaused-AllDestroy :
    (es : List Effect) → All (IsAllowed (λ r. false)) es → AllDestroy (room_calls es)
unpaused-AllDestroy [] h = tt
unpaused-AllDestroy (destroys r ∷ es) h = (refl, unpaused-AllDestroy es h.1)
unpaused-AllDestroy (pauses r ∷ es) h = absurd (cc (h.0))
unpaused-AllDestroy (opens ∷ es) h = unpaused-AllDestroy es h.1
unpaused-AllDestroy (resumes k ∷ es) h = unpaused-AllDestroy es h.1
unpaused-AllDestroy (destroys_kept k ∷ es) h = unpaused-AllDestroy es h.1
unpaused-AllDestroy (writes r bytes ∷ es) h = unpaused-AllDestroy es h.1
unpaused-AllDestroy (resizes r w t ∷ es) h = unpaused-AllDestroy es h.1

-- Of the calls of a life that is over, if they are destroys, there is one at most.
complete_alone :
    (calls : List Effect)
    → is_complete calls ≡ true
    → 1 ≤ length calls
    → AllDestroy calls
    → (r : ℕ) × (calls ≡ destroys r ∷ [])
complete_alone [] done some_call h = absurd (omega arith)
complete_alone (destroys r ∷ []) done some_call h = (r, refl)
complete_alone (destroys r ∷ destroys q ∷ calls) done some_call h = absurd (cc (done))
complete_alone (destroys r ∷ e ∷ calls) done some_call h = absurd (false≢true h.1.0)
complete_alone (e ∷ calls) done some_call h = absurd (false≢true h.0)

-- The calls of a session that is over, if it has made one on a room.
ended_alone :
    (pump : Pump) (calls : List Effect)
    → LeadsTo (life pump finished none) calls
    → 1 ≤ length calls
    → AllDestroy calls
    → (r : ℕ) × (calls ≡ destroys r ∷ [])
ended_alone (late_checkout r) calls (inl alone) some_call h = (r, alone)
ended_alone (late_checkout r) calls (inr both) some_call h =
    absurd (false≢true ((subst AllDestroy both h).1.0))
ended_alone unstarted calls done some_call h = absurd (ground (arith, done))
ended_alone scheduled calls done some_call h = absurd (ground (arith, done))
ended_alone (opening found) calls done some_call h = absurd (ground (arith, done))
ended_alone (dropping_kept k) calls done some_call h = complete_alone calls done some_call h
ended_alone (reading r) calls done some_call h = complete_alone calls done some_call h
ended_alone (awaiting ours) calls done some_call h = complete_alone calls done some_call h
ended_alone Pump.done calls done some_call h = complete_alone calls done some_call h

module _ {S K R D P : Type 0} (room : Room S K R D P) (never : room.can_pause ≡ false) where
  -- A session that is over, that no cancel has cut off, and that has got a room which cannot be
  -- paused, has called `destroy` on a room and nothing else: carried out, its calls leave the room
  -- as that one `destroy` leaves it.
  pub stay_ends_by_destroy :
      (idle now : ℕ) (username : String) (kept : Option KeptRooms) (es : List Event) (d : D) (p : P)
      (start : S)
      → let s = lived (λ r. room.can_pause) idle now username kept es in
        s.active ≡ false
        → s.teardown_cancelled ≡ false
        → rooms_got (λ r. room.can_pause) es (connection_made (new_session idle username kept now))
          ≡ 1
        → carried_out room d p s.effects start ≡ (room.destroy d start).1
  unfolding carried_out
  stay_ends_by_destroy idle now username kept es d p start gone clean got =
      let s = lived (λ r. room.can_pause) idle now username kept es in
      let (over', empty, torn) =
        released_is_torn_down (λ r. room.can_pause) idle now username kept es gone clean in
      let unpaused = unpaused-AllDestroy s.effects (
        subst (λ b. All (IsAllowed (λ r. b)) s.effects) never
          (paused-IsAllowed (λ r. room.can_pause) idle now username kept es)) in
      let leads =
        subst (λ t. LeadsTo (life s.pump t s.room) (room_calls s.effects)) over'
          (session_keeps_to_life (λ r. room.can_pause) idle now username kept es) in
      let (r, alone) =
        ended_alone s.pump (room_calls s.effects)
          (subst (λ q. LeadsTo (life s.pump finished q) (room_calls s.effects)) empty leads)
          (omega (arith, endings-room_calls s.effects, torn, got)) unpaused in
      carried_out-room_calls room d p s.effects start
      ∙ ap (λ calls. carried_out room d p calls start) alone

-- A microVM that was opened is a new room on the host that `open` has left.
opened-new_room :
    (faults : Faults) (image : Bool) (host : Host) (start : FirecrackerRoom)
    → microvm_backend.open' (faults, image) empty_host ≡ (ok start, host)
    → (open_vm faults image empty_host ≡ (ok tt, host)) × (start ≡ new_room host)
unfolding microvm_backend
opened-new_room faults image host start opened = go (open_vm faults image empty_host) refl opened
  where
    go :
        (o : Result (Unit {0}) × Host)
        → open_vm faults image empty_host ≡ o
        → attached o ≡ (ok start, host)
        → (open_vm faults image empty_host ≡ (ok tt, host)) × (start ≡ new_room host)
    go (err e, h) o a = absurd (cc (a))
    go (ok done, h) o a = ground (arith, o, a)

-- A session whose room is a microVM that `open` made, behind the wrapper that routes it, leaves nothing
-- on the host: once the session has got that room and left the registry, and if no cancel has
-- reached its teardown, the calls that it has made on the room, carried out on the host, have left
-- no directory, no process, no connection and no open handle, whatever happened to the session in
-- between, if neither stopping the process nor removing the directory raises, and `rmtree` gets it
-- off the disk.
pub microvm_stay_leaves_nothing :
    (faults : Faults) (image : Bool) (host : Host) (start : FirecrackerRoom)
    (later pausing : Faults) (heard : Option ℤ) (instance' idle now : ℕ) (username : String)
    (kept : Option KeptRooms) (es : List Event)
    → microvm_backend.open' (faults, image) empty_host ≡ (ok start, host)
    → later stop_vm ≡ none
    → later remove_instance ≡ none
    → later rmtree ≡ none
    → let room = routed_room "firecracker" (microvm_room instance') in
      let s = lived (λ r. room.can_pause) idle now username kept es in
      s.active ≡ false
      → s.teardown_cancelled ≡ false
      → rooms_got (λ r. room.can_pause) es (connection_made (new_session idle username kept now))
        ≡ 1
      → (carried_out room (later, heard) pausing s.effects start).host ≡ empty_host
unfolding microvm_room
microvm_stay_leaves_nothing faults image host start later pausing heard instance' idle now username
      kept es opened stops removes cleared gone clean got =
    let room = routed_room "firecracker" (microvm_room instance') in
    let (made, fresh) = opened-new_room faults image host start opened in
    ap (λ s. s.host)
      (stay_ends_by_destroy room refl idle now username kept es (later, heard) pausing start gone
          clean got
        ∙ ap (λ s. (destroy (later, heard) s).1) fresh)
    ∙ destroy-open_vm faults image host later heard made stops removes cleared
