-- ===== src/Session/Machine/Liveness.antt =====
-- A teardown that has begun comes to its end, on every schedule that goes on with it.
use keycard.Prelude.{
  ℕ, zero, suc, ◌+◌, Bool, true, false, ◌≡◌, ◌⊎◌, inl, inr, refl, subst, false≢true, Option, ℤ,
  arith, Bool-cases,
}
use keycard.Session.Types.{Session, Teardown, created, pausing, destroying}
use keycard.Session.Tasks.Teardown.{is_running, begin_teardown}
use keycard.Session.Tasks.Reaper.{
  idle_watchdog, idle_watchdog_end, hang_up_channel, force_close, force_close_end,
}
use keycard.Session.Machine.{
  Event, step, others, teardown_begins, room_paused, room_destroyed, hangs_up, drain_gives_up,
  is_finished,
}
use keycard.Session.Machine.Frame.{is_waiting, step-Frame}

-- An event that cancels no task: neither a hang-up nor the end of the drain's patience.
abbrev pub is_calm : Event → Bool
is_calm hangs_up = false
is_calm drain_gives_up = false
is_calm _ = true

abbrev is_created : Teardown → Bool
is_created (created allow_keep) = true
is_created _ = false

abbrev is_pausing : Teardown → Bool
is_pausing (pausing r) = true
is_pausing _ = false

abbrev is_destroying : Teardown → Bool
is_destroying (destroying r) = true
is_destroying _ = false

abbrev pub is_begin : Event → Bool
is_begin teardown_begins = true
is_begin _ = false

abbrev pub is_paused : Event → Bool
is_paused (room_paused outcome) = true
is_paused _ = false

abbrev pub is_destroyed : Event → Bool
is_destroyed (room_destroyed outcome) = true
is_destroyed _ = false

-- The teardown is over and the session has left the registry.
abbrev pub IsOver : Session → Type 0
IsOver s = (is_finished s.teardown ≡ true) × (s.active ≡ false)

record At (test : Teardown → Bool) (s : Session) : Type 0 where
  clean : s.teardown_cancelled ≡ false
  place : test s.teardown ≡ true

running_places :
    (t : Teardown)
    → is_running t ≡ true
    → (is_created t ≡ true) ⊎ ((is_pausing t ≡ true) ⊎ (is_destroying t ≡ true))
running_places t up = ground arith

module _ (can_pause : ℕ → Bool) where
  step-clean :
      (e : Event) (s : Session)
      → is_calm e ≡ true
      → s.teardown_cancelled ≡ false
      → (step can_pause e s).teardown_cancelled ≡ false
  unfolding step idle_watchdog idle_watchdog_end hang_up_channel force_close force_close_end
      begin_teardown
  step-clean (others move) s calm h = h
  step-clean hangs_up s calm h = absurd (cc)
  step-clean drain_gives_up s calm h = absurd (cc)
  step-clean _ s calm h = ground arith

  -- The channel, the watchdog and the drain leave a running teardown where it is.
  waiting-teardown :
      (e : Event) (s : Session)
      → is_waiting e ≡ true
      → is_running s.teardown ≡ true
      → (step can_pause e s).teardown ≡ s.teardown
  waiting-teardown e s w up = ground (arith, (step-Frame can_pause e s w).teardown)

  other-created :
      (e : Event) (s : Session)
      → is_waiting e ≡ false
      → s.teardown_cancelled ≡ false
      → is_created s.teardown ≡ true
      → is_begin e ≡ false
      → is_created (step can_pause e s).teardown ≡ true
  unfolding step
  other-created (others move) s w clean p b = p
  other-created _ s w clean p b = ground arith

  begin-created :
      (s : Session)
      → s.teardown_cancelled ≡ false
      → is_created s.teardown ≡ true
      → let t = step can_pause teardown_begins s in
        (is_pausing t.teardown ≡ true) ⊎ ((is_destroying t.teardown ≡ true) ⊎ IsOver t)
  unfolding step
  begin-created s clean p = ground arith

  other-pausing :
      (e : Event) (s : Session)
      → is_waiting e ≡ false
      → s.teardown_cancelled ≡ false
      → is_pausing s.teardown ≡ true
      → is_paused e ≡ false
      → is_pausing (step can_pause e s).teardown ≡ true
  unfolding step
  other-pausing (others move) s w clean p b = p
  other-pausing _ s w clean p b = ground arith

  paused-pausing :
      (outcome : Option ℕ) (s : Session)
      → is_pausing s.teardown ≡ true
      → let t = step can_pause (room_paused outcome) s in
        (is_destroying t.teardown ≡ true) ⊎ IsOver t
  unfolding step
  paused-pausing outcome s p = ground arith

  other-destroying :
      (e : Event) (s : Session)
      → is_waiting e ≡ false
      → s.teardown_cancelled ≡ false
      → is_destroying s.teardown ≡ true
      → is_destroyed e ≡ false
      → is_destroying (step can_pause e s).teardown ≡ true
  unfolding step
  other-destroying (others move) s w clean p b = p
  other-destroying _ s w clean p b = ground arith

  destroyed-destroying :
      (outcome : Option ℤ) (s : Session)
      → is_destroying s.teardown ≡ true
      → IsOver (step can_pause (room_destroyed outcome) s)
  unfolding step
  destroyed-destroying outcome s p = ground arith

  -- The event that a place waits for moves the teardown on.
  fires-created :
      (e : Event) (s : Session)
      → is_calm e ≡ true
      → is_begin e ≡ true
      → At is_created s
      → At is_pausing (step can_pause e s)
        ⊎ (At is_destroying (step can_pause e s) ⊎ IsOver (step can_pause e s))
  fires-created teardown_begins s calm b h =
      let clean = step-clean teardown_begins s calm h.clean in
      elim (begin-created s h.clean h.place) [
        | inl p ↦ inl (record { clean = clean; place = p })
        | inr (inl p) ↦ inr (inl (record { clean = clean; place = p }))
        | inr (inr over) ↦ inr (inr over)
      ]
  fires-created _ s calm b h = absurd (false≢true b)

  fires-pausing :
      (e : Event) (s : Session)
      → is_calm e ≡ true
      → is_paused e ≡ true
      → At is_pausing s
      → At is_destroying (step can_pause e s) ⊎ IsOver (step can_pause e s)
  fires-pausing (room_paused outcome) s calm b h = elim (paused-pausing outcome s h.place) [
    | inl p ↦ inl (record { clean = step-clean (room_paused outcome) s calm h.clean; place = p })
    | inr over ↦ inr over
  ]
  fires-pausing _ s calm b h = absurd (false≢true b)

  fires-destroying :
      (e : Event) (s : Session)
      → is_calm e ≡ true
      → is_destroyed e ≡ true
      → At is_destroying s
      → IsOver (step can_pause e s)
  fires-destroying (room_destroyed outcome) s calm b h = destroyed-destroying outcome s h.place
  fires-destroying _ s calm b h = absurd (false≢true b)

  -- A place that events other than `ends` leave alone is left alone by all of them.
  stays-At :
      (test : Teardown → Bool) (ends : Event → Bool)
      → ((t : Teardown) → test t ≡ true → is_running t ≡ true)
      → ((e : Event) (s : Session)
          → is_waiting e ≡ false
          → s.teardown_cancelled ≡ false
          → test s.teardown ≡ true
          → ends e ≡ false
          → test (step can_pause e s).teardown ≡ true)
      → (e : Event) (s : Session) → is_calm e ≡ true
      → ends e ≡ false
      → At test s
      → At test (step can_pause e s)
  stays-At test ends runs other e s calm not_yet h = record {
    clean = step-clean e s calm h.clean;
    place = elim (Bool-cases (is_waiting e)) [
      | inl w ↦ rw (waiting-teardown e s w (runs s.teardown h.place)) h.place
      | inr w ↦ other e s w h.clean h.place not_yet
    ];
  }

  -- The session on a schedule.
  pub after : (ℕ → Event) → Session → ℕ → Session
  after schedule s zero = s
  after schedule s (suc n) = step can_pause (schedule n) (after schedule s n)

  module _ (schedule : ℕ → Event) (s : Session) (calm : (n : ℕ) → is_calm (schedule n) ≡ true) where
    eventually :
        (P Q : Session → Type 0) (ends : Event → Bool)
        → ((e : Event) (t : Session)
            → is_calm e ≡ true
            → ends e ≡ false
            → P t
            → P (step can_pause e t))
        → ((e : Event) (t : Session)
            → is_calm e ≡ true
            → ends e ≡ true
            → P t
            → Q (step can_pause e t))
        → (d n m : ℕ) → m ≡ n + d
        → ends (schedule m) ≡ true
        → P (after schedule s n)
        → (k : ℕ) × Q (after schedule s k)
    unfolding after
    eventually P Q ends keeps fires zero n m e ending h =
        let same : m ≡ n = omega (arith, e) in
        (
          suc n,
          fires (schedule n) (after schedule s n) (calm n)
              (subst (λ i. ends (schedule i) ≡ true) same ending) h,
        )
    eventually P Q ends keeps fires (suc d) n m e ending h = elim (Bool-cases (ends (schedule n))) [
      | inl now ↦ (suc n, fires (schedule n) (after schedule s n) (calm n) now h)
      | inr not_yet ↦
          eventually P Q ends keeps fires d (suc n) m (omega (arith, e)) ending
            (keeps (schedule n) (after schedule s n) (calm n) not_yet h)
    ]

    -- Behind any moment there is one at which the test holds.
    abbrev pub Recurs : (Event → Bool) → Type 0
    Recurs test = (n : ℕ) → (d : ℕ) × (test (schedule (n + d)) ≡ true)

    module _ (begins : Recurs is_begin) (pauses : Recurs is_paused)
        (destroys : Recurs is_destroyed) where
      destroying-IsOver :
          (n : ℕ) → At is_destroying (after schedule s n) → (k : ℕ) × IsOver (after schedule s k)
      destroying-IsOver n h =
          let (d, ending) = destroys n in
          eventually (At is_destroying) IsOver is_destroyed
            (stays-At is_destroying is_destroyed (λ x y. ground arith) other-destroying)
            fires-destroying d n (n + d) refl ending h

      pausing-IsOver :
          (n : ℕ) → At is_pausing (after schedule s n) → (k : ℕ) × IsOver (after schedule s k)
      pausing-IsOver n h =
          let (d, ending) = pauses n in
          let (k, reached) =
            eventually (At is_pausing) (λ t. At is_destroying t ⊎ IsOver t) is_paused
              (stays-At is_pausing is_paused (λ x y. ground arith) other-pausing) fires-pausing d n
              (n + d) refl ending h in
          elim reached [ inl p ↦ destroying-IsOver k p | inr over ↦ (k, over) ]

      created-IsOver :
          (n : ℕ) → At is_created (after schedule s n) → (k : ℕ) × IsOver (after schedule s k)
      created-IsOver n h =
          let (d, ending) = begins n in
          let (k, reached) =
            eventually (At is_created) (λ t. At is_pausing t ⊎ (At is_destroying t ⊎ IsOver t))
              is_begin (stays-At is_created is_begin (λ x y. ground arith) other-created)
              fires-created d n (n + d) refl ending h in
          elim reached [
            | inl p ↦ pausing-IsOver k p
            | inr (inl p) ↦ destroying-IsOver k p
            | inr (inr over) ↦ (k, over)
          ]

      -- A teardown that has begun and that nothing cancels comes to its end: on every endless schedule
      -- without a hang-up and without the end of the drain's patience, if the teardown task is
      -- resumed again and again and each call of `pause` and `destroy` returns or raises at
      -- some time, there is a moment at which the teardown is over and the session is not
      -- registered any more.
      pub teardown_ends :
          is_running s.teardown ≡ true
          → s.teardown_cancelled ≡ false
          → (k : ℕ) × IsOver (after schedule s k)
      unfolding after
      teardown_ends up clean = elim (running_places s.teardown up) [
        | inl p ↦ created-IsOver 0 (record { clean = clean; place = p })
        | inr (inl p) ↦ pausing-IsOver 0 (record { clean = clean; place = p })
        | inr (inr p) ↦ destroying-IsOver 0 (record { clean = clean; place = p })
      ]
