-- ===== src/Hotel/Registered.antt =====
-- Which sessions are registered as active.
use keycard.Prelude.{
  All, Bool-cases, inl, inr, if-cases, true, ◌+◌, ◌<◌, not, Option, none, some, subst, sym, ℕ, ◌==◌,
  ◌≤◌, ◌&&◌, length, Bool, false, ◌≡◌, refl, List, [], ◌∷◌, arith, count, if◌then◌else◌,
}
use keycard.Active.{ActiveSessions, discard}
use keycard.Active.Flag.{count-add, count-remove}
use keycard.Kept.{KeptRooms}
use keycard.Session.Types.{Session, new_session}
use keycard.Session.Tasks.Channel.{connection_made}
use keycard.Session.Machine.{Event, step, is_finished}
use keycard.Session.Machine.Release.{IsSettled, step-IsSettled, got_room, is_cancelled}
use keycard.Session.Machine.Registry.{is_own, step-stays_released}
use keycard.Hotel.{
  Hotel, Happening, arrives, session, timer, seeing, is_active, discards_of, leave, step_nth,
  happen, run, open_hotel,
}

not_arrived : (i : ℕ) (ss : List Session) → length ss ≤ i → is_active i ss ≡ false
not_arrived i [] h = refl
not_arrived i (s ∷ ss) h = ground (arith, not_arrived i ss)

-- The session of that number.
abbrev pub session_at : ℕ → List Session → Option Session
session_at i [] = none
session_at i (s ∷ ss) = if i == length ss then some s else session_at i ss

module _ (can_pause : ℕ → Bool) where
  length-step_nth :
      (i : ℕ) (e : Event) (k : KeptRooms) (ss : List Session)
      → length (step_nth can_pause i e k ss).1 ≡ length ss
  unfolding step_nth
  length-step_nth i e k [] = refl
  length-step_nth i e k (s ∷ ss) = ground (arith, length-step_nth i e k ss)

  -- A session that goes on may leave, and no other does.
  step_nth-is_active :
      (i j : ℕ) (e : Event) (k : KeptRooms) (ss : List Session)
      → let after = (step_nth can_pause i e k ss).1 in
        is_active j after ≡ (if i == j then is_active j ss && is_active j after else is_active j ss)
  unfolding step_nth
  step_nth-is_active i j e k [] = ground arith
  step_nth-is_active i j e k (s ∷ ss) =
      let still = step-stays_released can_pause e (seeing k s) in
      ground (arith, step_nth-is_active i j e k ss, length-step_nth i e k ss, still)

  -- A session that has arrived, wherever it stands.
  abbrev IsGuest : Session → Type 0
  IsGuest s = (n : ℕ) × IsSettled n s

  seeing-IsGuest : (k : KeptRooms) (s : Session) → IsGuest s → IsGuest (seeing k s)
  seeing-IsGuest k s (n, h) = (
    n,
    record {
      released = h.released;
      ended = h.ended;
      holder = h.holder;
      by_cancel = h.by_cancel;
      early = h.early;
      accounted = h.accounted;
      honest = h.honest;
      quiet = h.quiet;
    },
  )

  step_nth-AreGuests :
      (i : ℕ) (e : Event) (k : KeptRooms) (ss : List Session)
      → All IsGuest ss
      → All IsGuest (step_nth can_pause i e k ss).1
  unfolding step_nth
  step_nth-AreGuests i e k [] h = tt
  step_nth-AreGuests i e k (s ∷ ss) h =
      let (n, settled) = seeing-IsGuest k s h.0 in
      let moved : IsGuest (step can_pause e (seeing k s)) =
        (n + got_room e s.pump, step-IsSettled can_pause n e (seeing k s) settled) in
      elim (Bool-cases (i == length ss)) [
        | inl it ↦ rw (it, step_nth) (moved, h.1)
        | inr other ↦ rw (other, step_nth) (h.0, step_nth-AreGuests i e k ss h.1)
      ]

  -- Who is registered has not called `discard`, and who has left has.
  abbrev IsCounted : ℕ → List Session → Type 0
  IsCounted i ss =
      (is_active i ss ≡ true → discards_of i ss ≡ 0)
      × (is_active i ss ≡ false → i < length ss → 1 ≤ discards_of i ss)
      × (length ss ≤ i → discards_of i ss ≡ 0)

  guests-IsCounted : (i : ℕ) (ss : List Session) → All IsGuest ss → IsCounted i ss
  guests-IsCounted i [] h = (λ a. refl, λ a b. absurd (omega (arith, b)), λ a. refl)
  guests-IsCounted i (s ∷ ss) h =
      let (n, settled) = h.0 in
      ground (arith, settled.quiet, settled.honest, guests-IsCounted i ss h.1)

  record IsRegistered (h : Hotel) : Type 0 where
    counted : (a : ℕ) → count a h.active.sessions ≡ (if is_active a h.sessions then 1 else 0)
    guests : All IsGuest h.sessions

  leave-counted :
      (i a : ℕ) (before after : List Session) (active : ActiveSessions)
      → IsCounted i before
      → IsCounted i after
      → length after ≡ length before
      → is_active a after
        ≡ (if i == a then is_active a before && is_active a after else is_active a before)
      → count a active.sessions ≡ (if is_active a before then 1 else 0)
      → count a (leave i before after active).sessions ≡ (if is_active a after then 1 else 0)
  unfolding discard
  leave-counted i a before after active b c same moved counted = ground (
    arith,
    count-remove a i active.sessions,
    not_arrived i before,
    not_arrived i after,
    b,
    c,
    same,
    moved,
    counted,
  )

  happen-IsRegistered :
      (x : Happening) (h : Hotel) → IsRegistered h → IsRegistered (happen can_pause x h)
  unfolding happen connection_made new_session
  happen-IsRegistered (arrives idle username now) h r =
      let n = length h.sessions in
      let new = not_arrived n h.sessions (omega arith) in
      record {
        counted = λ a. ground (arith, count-add a n h.active, r.counted n, r.counted a, new);
        guests = ((0, ground arith), r.guests);
      }
  happen-IsRegistered (timer username handle) h r = record {
    counted = r.counted;
    guests = r.guests;
  }
  happen-IsRegistered (session i e) h r =
      if-cases IsRegistered (is_own e) _ _
        (λ own.
          let after = (step_nth can_pause i e h.kept h.sessions).1 in
          let guests = step_nth-AreGuests i e h.kept h.sessions r.guests in
          record {
            counted = λ a.
                leave-counted i a h.sessions after h.active (guests-IsCounted i h.sessions r.guests)
                  (guests-IsCounted i after guests) (length-step_nth i e h.kept h.sessions)
                  (step_nth-is_active i a e h.kept h.sessions) (r.counted a);
            guests = guests;
          })
        (λ other. r)

  run-IsRegistered :
      (xs : List Happening) (h : Hotel) → IsRegistered h → IsRegistered (run can_pause xs h)
  unfolding run
  run-IsRegistered [] h r = r
  run-IsRegistered (x ∷ xs) h r =
      run-IsRegistered xs (happen can_pause x h) (happen-IsRegistered x h r)

  -- Whatever connections arrive, and however their sessions go on, the registry has each session that
  -- has not been released, once, and no other.
  pub registry_is_exact :
      (window a : ℕ) (xs : List Happening)
      → let h = run can_pause xs (open_hotel window) in
        count a h.active.sessions ≡ (if is_active a h.sessions then 1 else 0)
  registry_is_exact window a xs =
      (run-IsRegistered xs (open_hotel window)
          (record { counted = λ b. refl; guests = tt })).counted
        a

  -- Of a guest whose teardown no cancel has ended.
  guest-is_active :
      (a : ℕ) (ss : List Session) (s : Session)
      → All IsGuest ss
      → session_at a ss ≡ some s
      → is_cancelled s.teardown ≡ false
      → is_active a ss ≡ not (is_finished s.teardown)
  guest-is_active a [] s h found uncut = absurd (ground (arith, found))
  guest-is_active a (t ∷ ss) s h found uncut =
      let (n, settled) = h.0 in
      elim (Bool-cases (a == length ss)) [
        | inl it ↦
            let same : t ≡ s = ground (arith, it, found) in
            rw it (
              subst (λ u. t.active ≡ not (is_finished u.teardown)) same
                (ground (
                  arith,
                  settled.released,
                  settled.ended,
                  subst (λ u. is_cancelled u.teardown ≡ false) (sym same) uncut,
                )))
        | inr other ↦ rw other (guest-is_active a ss s h.1 (ground (arith, other, found)) uncut)
      ]

  -- Whatever connections arrive, and however their sessions go on: a session whose teardown has not been
  -- ended by a cancel is in the registry that a drain waits on, once, up to the end of its teardown,
  -- and is not in it from then on.
  pub registered_until_torn_down :
      (window a : ℕ) (xs : List Happening) (s : Session)
      → session_at a (run can_pause xs (open_hotel window)).sessions ≡ some s
      → is_cancelled s.teardown ≡ false
      → count a (run can_pause xs (open_hotel window)).active.sessions
        ≡ (if is_finished s.teardown then 0 else 1)
  registered_until_torn_down window a xs s found uncut =
      let h = run can_pause xs (open_hotel window) in
      let r =
        run-IsRegistered xs (open_hotel window) (record { counted = λ b. refl; guests = tt }) in
      ground (arith, r.counted a, guest-is_active a h.sessions s r.guests found uncut)
