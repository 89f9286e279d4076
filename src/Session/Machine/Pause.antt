-- ===== src/Session/Machine/Pause.antt =====
-- When a session pauses its room instead of destroying it.
use keycard.Prelude.{
  ℕ, String, Bool, true, false, ◌≡◌, inl, inr, refl, Option, List, [], ◌∷◌, arith, count_if, All,
  Option-cases, ◌∙◌,
}
use keycard.Kept
use keycard.Kept.Ledger
use keycard.Kept.{KeptRooms}
use keycard.Session.Types.{Session, Effect, Teardown, pauses, created, pausing, new_session}
use keycard.Session.Tasks.Channel.{connection_made}
use keycard.Session.Tasks.Teardown.{keep_enabled}
use keycard.Session.Machine.{Event, step, run, others, registry_step}
use keycard.Session.Machine.Frame.{Frame, is_waiting, is_hang_up, step_keeps, run_keeps}

abbrev pub is_pauses : Effect → Bool
is_pauses (pauses r) = true
is_pauses _ = false

-- A room that is paused is one that allows it.
abbrev pub IsAllowed : (ℕ → Bool) → Effect → Type 0
IsAllowed can_pause (pauses r) = can_pause r ≡ true
IsAllowed can_pause _ = Unit

abbrev keeps_room : Teardown → Bool
keeps_room (created true) = true
keeps_room (pausing r) = true
keeps_room _ = false

-- Neither a pause nor a teardown that may lead to one.
record NoPause (s : Session) : Type 0 where
  never : count_if is_pauses s.effects ≡ 0
  none_begun : keeps_room s.teardown ≡ false

record KeepOff (s : Session) : Type 0 where
  never : count_if is_pauses s.effects ≡ 0
  off : keep_enabled s ≡ false

Frame-IsAllowed :
    (can_pause : ℕ → Bool) (k : Bool) (s t : Session)
    → Frame k s t
    → All (IsAllowed can_pause) s.effects
    → All (IsAllowed can_pause) t.effects
Frame-IsAllowed can_pause k s t f h = rw f.effects h

Frame-NoPause : (k : Bool) (s t : Session) → k ≡ false → Frame k s t → NoPause s → NoPause t
Frame-NoPause k s t off f h = ground (arith, f.effects, f.teardown)

Frame-KeepOff : (k : Bool) (s t : Session) → Frame k s t → KeepOff s → KeepOff t
Frame-KeepOff k s t f h = ground (arith, f.effects, f.kept)

registry_off :
    (move : Ledger.Event) (k : KeptRooms) → Kept.enabled (registry_step move k) ≡ Kept.enabled k
unfolding Kept.enabled Kept.take Kept.keep Kept.expire
registry_off (Ledger.takes u) k = refl
registry_off (Ledger.keeps u handle) k = refl
registry_off (Ledger.expires u handle) k = ground arith

module _ (can_pause : ℕ → Bool) where
  other-IsAllowed :
      (e : Event)
      → is_waiting e ≡ false
      → (s : Session) → All (IsAllowed can_pause) s.effects
      → All (IsAllowed can_pause) (step can_pause e s).effects
  unfolding step
  other-IsAllowed (others move) w s h = h
  other-IsAllowed _ w s h = ground arith

  other-NoPause :
      (e : Event) → is_waiting e ≡ false → (s : Session) → NoPause s → NoPause (step can_pause e s)
  unfolding step
  other-NoPause (others move) w s h = record { never = h.never; none_begun = h.none_begun }
  other-NoPause _ w s h = ground arith

  other-KeepOff :
      (e : Event) → is_waiting e ≡ false → (s : Session) → KeepOff s → KeepOff (step can_pause e s)
  unfolding step Kept.enabled Kept.take Kept.keep
  other-KeepOff (others move) w s h = elim (Option-cases s.kept) [
    | inl e ↦ record { never = h.never; off = rw e }
    | inr (k, e) ↦ record { never = h.never; off = rw e (registry_off move k ∙ (rw e at h.off)) }
  ]
  other-KeepOff _ w s h = ground arith

  -- A session calls `pause` only on a room whose backend allows it.
  pub paused-IsAllowed :
      (idle now : ℕ) (username : String) (kept : Option KeptRooms) (es : List Event)
      → All
          (IsAllowed can_pause)
          (run can_pause es (connection_made (new_session idle username kept now))).effects
  unfolding connection_made new_session
  paused-IsAllowed idle now username kept es =
      run_keeps can_pause (λ s. All (IsAllowed can_pause) s.effects)
        (λ e.
          step_keeps can_pause (λ s. All (IsAllowed can_pause) s.effects) e
            (Frame-IsAllowed can_pause (is_hang_up e)) (other-IsAllowed e))
        es (connection_made (new_session idle username kept now)) tt

  run-NoPause :
      (es : List Event) (s : Session)
      → All (λ e. is_hang_up e ≡ false) es
      → NoPause s
      → NoPause (run can_pause es s)
  unfolding run
  run-NoPause [] s quiet h = h
  run-NoPause (e ∷ es) s quiet h = run-NoPause es (step can_pause e s) quiet.1 (
      step_keeps can_pause NoPause e (λ s t. Frame-NoPause (is_hang_up e) s t quiet.0)
        (other-NoPause e) s h)

  -- While the client has not hung up the session never pauses its room: neither a shell that exits
  -- nor the idle reaper nor a shutdown leads to a call of `pause`.
  pub paused_needs_hang_up :
      (idle now : ℕ) (username : String) (kept : Option KeptRooms) (es : List Event)
      → All (λ e. is_hang_up e ≡ false) es
      → count_if is_pauses
          (run can_pause es (connection_made (new_session idle username kept now))).effects
        ≡ 0
  unfolding connection_made new_session
  paused_needs_hang_up idle now username kept es quiet =
      (run-NoPause es (connection_made (new_session idle username kept now)) quiet
        (ground arith)).never

  -- A session that began with no registry of kept rooms, or with one whose window is zero, never
  -- pauses a room, whatever happens to it and whatever other sessions do with the registry.
  pub paused_needs_keep :
      (idle now : ℕ) (username : String) (kept : Option KeptRooms) (es : List Event)
      → keep_enabled (new_session idle username kept now) ≡ false
      → count_if is_pauses
          (run can_pause es (connection_made (new_session idle username kept now))).effects
        ≡ 0
  unfolding connection_made new_session
  paused_needs_keep idle now username kept es off =
      (run_keeps can_pause KeepOff
        (λ e. step_keeps can_pause KeepOff e (Frame-KeepOff (is_hang_up e)) (other-KeepOff e)) es
        (connection_made (new_session idle username kept now))
        (record { never = refl; off = off })).never
