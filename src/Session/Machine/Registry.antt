-- ===== src/Session/Machine/Registry.antt =====
-- What a session does to the registry it shares with others: each of its steps is one of the moves of
-- the registry, or none.
use keycard.Prelude.{
  ℕ, ◌+◌, ◌==◌, Bool, true, false, ◌≡◌, ◌∙◌, Option, none, some, arith, count, count_if, Bool-cases,
  inl, inr, to_list, count-append, if◌then◌else◌,
}
use keycard.Prelude.Dict.{get}
use keycard.Kept.{take, keep}
use keycard.Kept.Ledger as ledger
use keycard.Kept.Ledger.{Ledger, takes, keeps}
use keycard.Session.Types.{Session, Effect, resumes, scheduled, pausing}
use keycard.Session.Machine.{Event, step, others, pump_begins, room_paused}
use keycard.Session.Machine.Frame.{is_waiting, step-Frame}

-- An event of the session itself.
abbrev pub is_own : Event → Bool
is_own (others move) = false
is_own _ = true

-- What an event of a session does to the registry.
abbrev pub move_of : Event → Session → Option ledger.Event
move_of pump_begins s = elim s.pump [
  | scheduled ↦ if s.pump_cancelled then none else some (takes s.username)
  | _ ↦ none
]
move_of (room_paused (some handle)) s = elim s.teardown [
  | pausing r ↦ some (keeps s.username handle)
  | _ ↦ none
]
move_of _ s = none

abbrev pub moved : Ledger → Option ledger.Event → Ledger
moved l none = l
moved l (some e) = ledger.step l e

abbrev is_resume_of : ℕ → Effect → Bool
is_resume_of a (resumes b) = b == a
is_resume_of a _ = false

-- How often a session has resumed a handle.
abbrev pub resumes_of : ℕ → Session → ℕ
resumes_of a s = count_if (is_resume_of a) s.effects

pub record Follows (a : ℕ) (l l' : Ledger) (s t : Session) : Type 0 where
  pub rooms : t.kept ≡ some l'.rooms
  pub resumed : resumes_of a t + count a l.taken ≡ count a l'.taken + resumes_of a s

module _ (can_pause : ℕ → Bool) (a : ℕ) where
  other-Follows :
      (e : Event)
      → is_waiting e ≡ false
      → is_own e ≡ true
      → (l : Ledger) (s : Session) → s.kept ≡ some l.rooms
      → Follows a l (moved l (move_of e s)) s (step can_pause e s)
  unfolding step ledger.step take keep
  other-Follows pump_begins w own l s h =
      ground (arith, count-append a (to_list (get s.username l.rooms.by_username)) l.taken)
  other-Follows _ w own l s h = ground arith

  waiting_moves_nothing : (e : Event) (s : Session) → is_waiting e ≡ true → move_of e s ≡ none
  waiting_moves_nothing e s w = ground arith

  -- The registry is where the ledger has it, and a handle is resumed as often as it is taken.
  pub step-Follows :
      (e : Event)
      → is_own e ≡ true
      → (l : Ledger) (s : Session) → s.kept ≡ some l.rooms
      → Follows a l (moved l (move_of e s)) s (step can_pause e s)
  step-Follows e own l s h = elim (Bool-cases (is_waiting e)) [
    | inl w ↦
        let f = step-Frame can_pause e s w in
        rw (waiting_moves_nothing e s w)
          (record { rooms = f.kept ∙ h; resumed = rw f.effects (omega arith) })
    | inr w ↦ other-Follows e w own l s h
  ]

-- A session that has been released stays so.
module _ (can_pause : ℕ → Bool) where
  other-stays_released :
      (e : Event)
      → is_waiting e ≡ false
      → (s : Session) → s.active ≡ false
      → (step can_pause e s).active ≡ false
  unfolding step
  other-stays_released (others move) w s h = h
  other-stays_released _ w s h = ground arith

  pub step-stays_released :
      (e : Event) (s : Session) → s.active ≡ false → (step can_pause e s).active ≡ false
  step-stays_released e s h = elim (Bool-cases (is_waiting e)) [
    | inl w ↦ (step-Frame can_pause e s w).active ∙ h
    | inr w ↦ other-stays_released e w s h
  ]
