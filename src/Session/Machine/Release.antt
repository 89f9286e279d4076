-- ===== src/Session/Machine/Release.antt =====
-- What a drain may conclude from a session that has left the registry.
use keycard.Prelude.{
  ℕ, ◌+◌, ◌≤◌, String, Bool, true, false, ◌≡◌, ◌⊎◌, Option, none, some, List, [], ◌∷◌, arith,
  count_if, Bool-cases, subst, inl, inr,
}
use keycard.Kept.{KeptRooms}
use keycard.Session.Types.{
  Session, Effect, Pump, Teardown, pauses, destroys, unstarted, scheduled, opening, unset, created,
  finished, cancelled, new_session,
}
use keycard.Session.Tasks.Channel.{connection_made}
use keycard.Session.Machine.{Event, step, run, others, is_finished, room_opened, banner_fails}
use keycard.Session.Machine.Frame.{Frame, is_waiting, is_hang_up, step-Frame}

-- A call that ends a room's time in this session.
abbrev pub is_ending : Effect → Bool
is_ending (pauses r) = true
is_ending (destroys r) = true
is_ending _ = false

-- The pump has no room yet.
abbrev pub is_early : Pump → Bool
is_early unstarted = true
is_early scheduled = true
is_early (opening found) = true
is_early _ = false

-- The rooms that the backend gives the pump with an event.
abbrev pub got_room : Event → Pump → ℕ
got_room (room_opened r) (opening found) = 1
got_room (banner_fails r) (opening found) = 1
got_room _ _ = 0

abbrev pub may_hold : Teardown → Bool
may_hold unset = true
may_hold (created allow_keep) = true
may_hold cancelled = true
may_hold _ = false

abbrev pub is_cancelled : Teardown → Bool
is_cancelled cancelled = true
is_cancelled _ = false

abbrev pub room_count : Option ℕ → ℕ
room_count none = 0
room_count (some r) = 1

-- `n` is the number of rooms that the pump has got.
pub record IsSettled (n : ℕ) (s : Session) : Type 0 where
  pub released :
      s.active ≡ false → (is_finished s.teardown ≡ true) ⊎ (is_cancelled s.teardown ≡ true)
  pub ended : is_finished s.teardown ≡ true → s.active ≡ false
  pub holder : may_hold s.teardown ≡ false → s.room ≡ none
  pub by_cancel : is_cancelled s.teardown ≡ true → s.teardown_cancelled ≡ true
  pub early : is_early s.pump ≡ true → s.room ≡ none
  pub accounted : n ≤ room_count s.room + count_if is_ending s.effects
  pub honest : s.active ≡ false → 1 ≤ s.discards
  pub quiet : s.active ≡ true → s.discards ≡ 0

Frame-IsSettled : (n : ℕ) (k : Bool) (s t : Session) → Frame k s t → IsSettled n s → IsSettled n t
Frame-IsSettled n k s t f h =
    ground (arith, f.effects, f.pump, f.room, f.active, f.teardown, f.cancelled, f.discards)

-- A session from the connection on, after the events `es`.
abbrev pub lived : (ℕ → Bool) → ℕ → ℕ → String → Option KeptRooms → List Event → Session
lived can_pause idle now username kept es =
    run can_pause es (connection_made (new_session idle username kept now))

module _ (can_pause : ℕ → Bool) where
  -- The rooms that the backend has given the pump in a run.
  unfoldable pub rooms_got : List Event → Session → ℕ
  rooms_got [] s = 0
  rooms_got (e ∷ es) s = got_room e s.pump + rooms_got es (step can_pause e s)

  waiting-none : (e : Event) (p : Pump) → is_waiting e ≡ true → got_room e p ≡ 0
  waiting-none e p w = ground arith

  other-IsSettled :
      (n : ℕ) (e : Event)
      → is_waiting e ≡ false
      → (s : Session) → IsSettled n s
      → IsSettled (n + got_room e s.pump) (step can_pause e s)
  unfolding step
  other-IsSettled n (others move) w s h = record {
    released = h.released;
    ended = h.ended;
    holder = h.holder;
    by_cancel = h.by_cancel;
    early = h.early;
    accounted = omega (arith, h.accounted);
    honest = h.honest;
    quiet = h.quiet;
  }
  other-IsSettled n _ w s h = ground arith

  pub step-IsSettled :
      (n : ℕ) (e : Event) (s : Session)
      → IsSettled n s
      → IsSettled (n + got_room e s.pump) (step can_pause e s)
  step-IsSettled n e s h = elim (Bool-cases (is_waiting e)) [
    | inl w ↦
        Frame-IsSettled _ (is_hang_up e) s _ (step-Frame can_pause e s w)
          (subst (λ m. IsSettled m s) (omega (arith, waiting-none e s.pump w)) h)
    | inr w ↦ other-IsSettled n e w s h
  ]

  run-IsSettled :
      (es : List Event) (n : ℕ) (s : Session)
      → IsSettled n s
      → IsSettled (n + rooms_got es s) (run can_pause es s)
  unfolding rooms_got run
  run-IsSettled [] n s h = subst (λ m. IsSettled m s) (omega arith) h
  run-IsSettled (e ∷ es) n s h =
      subst (λ m. IsSettled m (run can_pause es (step can_pause e s))) (omega arith)
        (run-IsSettled es (n + got_room e s.pump) (step can_pause e s) (step-IsSettled n e s h))

  -- Once a session has left the registry that a drain waits on, and no cancel has reached its
  -- teardown, the teardown has run to its end: the session holds no room, and for each room that
  -- the backend has given its pump it has called `destroy` or `pause`.
  pub released_is_torn_down :
      (idle now : ℕ) (username : String) (kept : Option KeptRooms) (es : List Event)
      → (lived can_pause idle now username kept es).active ≡ false
      → (lived can_pause idle now username kept es).teardown_cancelled ≡ false
      → let s = lived can_pause idle now username kept es in
        (s.teardown ≡ finished)
        × (s.room ≡ none)
        × (rooms_got es (connection_made (new_session idle username kept now))
            ≤ count_if is_ending s.effects)
  unfolding connection_made new_session
  released_is_torn_down idle now username kept es gone clean =
      let s₀ = connection_made (new_session idle username kept now) in
      let h : IsSettled (0 + rooms_got es s₀) (run can_pause es s₀) =
        run-IsSettled es 0 s₀ (ground arith) in
      ground (arith, h.released gone, h.holder, h.by_cancel, h.accounted)
