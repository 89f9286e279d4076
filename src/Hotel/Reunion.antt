-- ===== src/Hotel/Reunion.antt =====
-- Where the rooms are that the sessions of a server have kept.
use keycard.Prelude.{
  ℕ, ◌+◌, ◌==◌, length, Bool, true, ◌≡◌, inl, inr, refl, Option, none, some, List, [], ◌∷◌, arith,
  count, Bool-cases, if◌then◌else◌,
}
use keycard.Prelude.Dict.{values}
use keycard.Kept.{KeptRooms, init}
use keycard.Kept.Ledger as ledger
use keycard.Kept.Ledger.{Ledger, expires, Balanced, step-Balanced, open_ledger}
use keycard.Session.Types.{Session, new_session}
use keycard.Session.Tasks.Channel.{connection_made}
use keycard.Session.Machine.{Event}
use keycard.Session.Machine.Registry.{is_own, move_of, moved, resumes_of, step-Follows}
use keycard.Hotel.{
  Hotel, Happening, arrives, session, timer, seeing, step_nth, happen, run, open_hotel,
}

-- How often the sessions have resumed a handle.
abbrev pub resumed_by : ℕ → List Session → ℕ
resumed_by a [] = 0
resumed_by a (s ∷ ss) = resumes_of a s + resumed_by a ss

-- The move on the registry of the session of that number.
abbrev move_nth : ℕ → Event → KeptRooms → List Session → Option ledger.Event
move_nth i e k [] = none
move_nth i e k (s ∷ ss) =
    let rest = move_nth i e k ss in if i == length ss then move_of e (seeing k s) else rest

abbrev move_in : Happening → Hotel → Option ledger.Event
move_in (arrives idle username now) h = none
move_in (session i e) h = if is_own e then move_nth i e h.kept h.sessions else none
move_in (timer username handle) h = some (expires username handle)

module _ (can_pause : ℕ → Bool) where
  -- The ledger that is kept along the way.
  pub accounts : List Happening → Hotel → Ledger → Ledger
  accounts [] h l = l
  accounts (x ∷ xs) h l = accounts xs (happen can_pause x h) (moved l (move_in x h))

  module _ (a : ℕ) where
    record InStep (h : Hotel) (l : Ledger) : Type 0 where
      rooms : h.kept ≡ l.rooms
      resumed : resumed_by a h.sessions ≡ count a l.taken

    step_nth-Follows :
        (i : ℕ) (e : Event)
        → is_own e ≡ true
        → (l : Ledger) (ss : List Session)
        → let r = step_nth can_pause i e l.rooms ss in
          let l' = moved l (move_nth i e l.rooms ss) in
          (r.0 ≡ l'.rooms)
          × (resumed_by a r.1 + count a l.taken ≡ count a l'.taken + resumed_by a ss)
    unfolding step_nth
    step_nth-Follows i e own l [] = (refl, omega arith)
    step_nth-Follows i e own l (s ∷ ss) =
        let f = step-Follows can_pause a e own l (seeing l.rooms s) refl in
        let (same, resumed) = step_nth-Follows i e own l ss in
        elim (Bool-cases (i == length ss)) [
          | inl here ↦ rw (here, step_nth) (rw f.rooms refl, omega (arith, f.resumed))
          | inr further ↦ rw (further, step_nth) (same, omega (arith, resumed))
        ]

    happen-InStep :
        (x : Happening) (h : Hotel) (l : Ledger)
        → InStep h l
        → InStep (happen can_pause x h) (moved l (move_in x h))
    unfolding happen ledger.step connection_made new_session
    happen-InStep (arrives idle username now) h l i = ground arith
    happen-InStep (timer username handle) h l i = record {
      rooms = rw i.rooms refl;
      resumed = i.resumed;
    }
    happen-InStep (session n e) h l i = elim (Bool-cases (is_own e)) [
      | inr no' ↦ rw (no', happen) i
      | inl own ↦
          let (same, resumed) = step_nth-Follows n e own l h.sessions in
          rw (own, i.rooms, happen)
            (record { rooms = same; resumed = omega (arith, resumed, i.resumed) })
    ]

    moved-Balanced : (l : Ledger) (m : Option ledger.Event) → Balanced a l → Balanced a (moved l m)
    moved-Balanced l none b = b
    moved-Balanced l (some e) b = step-Balanced a l e b

    record Kept (h : Hotel) (l : Ledger) : Type 0 where
      in_step : InStep h l
      balanced : Balanced a l

    accounts-Kept :
        (xs : List Happening) (h : Hotel) (l : Ledger)
        → Kept h l
        → Kept (run can_pause xs h) (accounts xs h l)
    unfolding run accounts
    accounts-Kept [] h l k = k
    accounts-Kept (x ∷ xs) h l k =
        accounts-Kept xs (happen can_pause x h) (moved l (move_in x h)) (record {
          in_step = happen-InStep x h l k.in_step;
          balanced = moved-Balanced l (move_in x h) k.balanced;
        })

  -- Whatever connections arrive at a server, and however their sessions and the expiry timers
  -- interleave: of the times a handle has been kept by a session on a disconnect, each is accounted for once, as a
  -- room that is held, that a session has resumed or tried to, that has been destroyed, or whose
  -- entry a later disconnect under the same username has overwritten.
  pub kept_rooms_accounted_for :
      (window a : ℕ) (xs : List Happening)
      → let h = run can_pause xs (open_hotel window) in
        let l = accounts xs (open_hotel window) (open_ledger window) in
        count a l.given
        ≡ count a (values h.kept.by_username)
          + resumed_by a h.sessions
          + count a h.kept.destroyed
          + count a l.overwritten
  unfolding init
  kept_rooms_accounted_for window a xs =
      let k =
        accounts-Kept a xs (open_hotel window) (open_ledger window)
          (record { in_step = record { rooms = refl; resumed = refl }; balanced = refl }) in
      let same = k.in_step.rooms in rw (same, k.in_step.resumed) k.balanced
