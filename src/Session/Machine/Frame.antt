-- ===== src/Session/Machine/Frame.antt =====
-- What the callbacks, the watchdog and the drain leave alone: they reach the room through the
-- teardown task only.
use keycard.Prelude.{
  false≢true, Bool-cases, List, [], ◌∷◌, ℕ, Bool, true, false, ◌≡◌, ◌∙◌, ◌⊎◌, inl, inr, arith, ℤ,
  sym,
}
use keycard.Session.Types.{Session, Output, Teardown, unset, created}
use keycard.Session.Tasks.Channel.{say_if_open, stop_feeder}
use keycard.Session.Tasks.Teardown.{begin_teardown, cancel_teardown}
use keycard.Session.Machine.{
  Event, watchdog_wakes, watchdog_resumes, drain_closes, closer_resumes, drain_gives_up, hangs_up,
  step, run,
}
use keycard.Session.Tasks.Reaper.{
  idle_watchdog, hang_up_channel, idle_watchdog_end, force_close, force_close_end,
  force_close_timeout, cancel_pump, cancel_watchdog, connection_lost,
}

-- The teardown stands where it stood, or has just been created with this `allow_keep`.
abbrev pub Begins : Bool → Teardown → Teardown → Type 0
Begins allow_keep before after =
    (after ≡ before) ⊎ ((before ≡ unset) × (after ≡ created allow_keep))

pub record Frame (allow_keep : Bool) (s t : Session) : Type 0 where
  pub effects : t.effects ≡ s.effects
  pub room : t.room ≡ s.room
  pub active : t.active ≡ s.active
  pub discards : t.discards ≡ s.discards
  pub kept : t.kept ≡ s.kept
  pub pump : t.pump ≡ s.pump
  pub status : t.status ≡ s.status
  pub input : t.input ≡ s.input
  pub cancelled : s.teardown_cancelled ≡ true → t.teardown_cancelled ≡ true
  pub teardown : Begins allow_keep s.teardown t.teardown

module _ (k : Bool) where
  Begins-trans : (a b c : Teardown) → Begins k a b → Begins k b c → Begins k a c
  Begins-trans a b c (inl e) (inl f) = inl (f ∙ e)
  Begins-trans a b c (inl e) (inr (u, f)) = inr (sym e ∙ u, f)
  Begins-trans a b c (inr (u, e)) (inl f) = inr (u, f ∙ e)
  Begins-trans a b c (inr (u, e)) (inr (v, f)) = cc

  Frame-trans : (s t u : Session) → Frame k s t → Frame k t u → Frame k s u
  Frame-trans s t u f g = record {
    effects = g.effects ∙ f.effects;
    room = g.room ∙ f.room;
    active = g.active ∙ f.active;
    discards = g.discards ∙ f.discards;
    kept = g.kept ∙ f.kept;
    pump = g.pump ∙ f.pump;
    status = g.status ∙ f.status;
    input = g.input ∙ f.input;
    cancelled = λ h. g.cancelled (f.cancelled h);
    teardown = Begins-trans s.teardown t.teardown u.teardown f.teardown g.teardown;
  }

begin_teardown-Frame :
    (allow_keep : Bool) (s : Session) → Frame allow_keep s (begin_teardown allow_keep s)
unfolding begin_teardown
begin_teardown-Frame allow_keep s = ground arith

say_if_open-Frame : (o : Output) (k : Bool) (s : Session) → Frame k s (say_if_open o s)
say_if_open-Frame o k s = ground arith

cancel_teardown-Frame : (k : Bool) (s : Session) → Frame k s (cancel_teardown s)
unfolding cancel_teardown
cancel_teardown-Frame k s = ground arith

cancel_pump-Frame : (k : Bool) (s : Session) → Frame k s (cancel_pump s)
unfolding cancel_pump
cancel_pump-Frame k s = ground arith

cancel_watchdog-Frame : (k : Bool) (s : Session) → Frame k s (cancel_watchdog s)
unfolding cancel_watchdog
cancel_watchdog-Frame k s = ground arith

stop_feeder-Frame : (k : Bool) (s : Session) → Frame k s (stop_feeder s)
unfolding stop_feeder
stop_feeder-Frame k s = ground arith

connection_lost-Frame : (s : Session) → Frame true s (connection_lost s)
unfolding connection_lost
connection_lost-Frame s =
    let s₁ = cancel_pump s in
    let s₂ = stop_feeder s₁ in
    let s₃ = cancel_watchdog s₂ in
    Frame-trans true s s₁ _ (cancel_pump-Frame true s) (
      Frame-trans true s₁ s₂ _ (stop_feeder-Frame true s₁)
        (Frame-trans true s₂ s₃ _ (cancel_watchdog-Frame true s₂) (begin_teardown-Frame true s₃)))

idle_watchdog-Frame : (now : ℕ) (s : Session) → Frame false s (idle_watchdog now s)
unfolding idle_watchdog
idle_watchdog-Frame now s = ground arith

force_close-Frame : (s : Session) → Frame false s (force_close s)
unfolding force_close
force_close-Frame s = ground arith

hang_up_channel-Frame : (code : ℤ) (k : Bool) (s : Session) → Frame k s (hang_up_channel code s)
unfolding hang_up_channel
hang_up_channel-Frame code k s = ground arith

idle_watchdog_end-Frame : (k : Bool) (s : Session) → Frame k s (idle_watchdog_end s)
unfolding idle_watchdog_end
idle_watchdog_end-Frame k s = ground arith

force_close_end-Frame : (k : Bool) (s : Session) → Frame k s (force_close_end s)
unfolding force_close_end
force_close_end-Frame k s = ground arith

force_close_timeout-Frame : (k : Bool) (s : Session) → Frame k s (force_close_timeout s)
unfolding force_close_timeout
force_close_timeout-Frame k s = ground arith

-- The events of the watchdog, the drain and the channel's end.
abbrev pub is_waiting : Event → Bool
is_waiting (watchdog_wakes now) = true
is_waiting watchdog_resumes = true
is_waiting drain_closes = true
is_waiting closer_resumes = true
is_waiting drain_gives_up = true
is_waiting hangs_up = true
is_waiting _ = false

-- Only a hang-up begins a teardown that may keep the room.
abbrev pub is_hang_up : Event → Bool
is_hang_up hangs_up = true
is_hang_up _ = false

module _ (can_pause : ℕ → Bool) where
  pub step-Frame :
      (e : Event) (s : Session) → is_waiting e ≡ true → Frame (is_hang_up e) s (step can_pause e s)
  unfolding step
  step-Frame (watchdog_wakes now) s w = ground (arith, idle_watchdog-Frame now s)
  step-Frame watchdog_resumes s w = ground (arith, idle_watchdog_end-Frame false s)
  step-Frame drain_closes s w = ground (arith, force_close-Frame s)
  step-Frame closer_resumes s w = ground (arith, force_close_end-Frame false s)
  step-Frame drain_gives_up s w = ground (arith, force_close_timeout-Frame false s)
  step-Frame hangs_up s w = connection_lost-Frame s
  step-Frame _ s w = absurd (false≢true w)

  -- An invariant is proved for frames, and for each event that is not of these.
  pub step_keeps {ℓ} :
      (P : Session → Type ℓ) (e : Event)
      → ((s t : Session) → Frame (is_hang_up e) s t → P s → P t)
      → (is_waiting e ≡ false → (s : Session) → P s → P (step can_pause e s))
      → (s : Session) → P s
      → P (step can_pause e s)
  step_keeps P e frame other s h = elim (Bool-cases (is_waiting e)) [
    | inl w ↦ frame s _ (step-Frame e s w) h
    | inr w ↦ other w s h
  ]

  pub run_keeps {ℓ} :
      (P : Session → Type ℓ)
      → ((e : Event) (s : Session) → P s → P (step can_pause e s))
      → (es : List Event) (s : Session) → P s
      → P (run can_pause es s)
  unfolding run
  run_keeps P keeps [] s h = h
  run_keeps P keeps (e ∷ es) s h = run_keeps P keeps es (step can_pause e s) (keeps e s h)
