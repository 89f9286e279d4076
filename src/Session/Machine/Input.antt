-- ===== src/Session/Machine/Input.antt =====
-- The client's input on its way to the room, and the terminal's size.
use keycard.Prelude.{
  false≢true, ℕ, ◌+◌, ◌≤◌, Bool, true, false, ◌≡◌, refl, sym, ap, ◌∙◌, Option, none, some, List, [],
  ◌∷◌, ◌++◌, append-nil, append_assoc, arith, Text, length, length-append, lt→ltb, Bool-cases, inl,
  inr,
}
use keycard.Session.Types.{Session, Effect, writes}
use keycard.Session.Tasks.Channel.{input_backlog, data_received, feed}
use keycard.Session.Machine.{Event, step, run, receives, feeds, others}
use keycard.Session.Machine.Frame.{Frame, is_waiting, is_hang_up, step_keeps, run_keeps, step-Frame}

-- The chunks written to the room, oldest first, from the calls, latest first.
abbrev pub written : List Effect → List Text
written [] = []
written (writes r bytes ∷ es) = written es ++ bytes ∷ []
written (_ ∷ es) = written es

-- The chunks that the client sends.
abbrev pub sent : List Event → List Text
sent [] = []
sent (receives now bytes ∷ es) = bytes ∷ sent es
sent (_ ∷ es) = sent es

abbrev pub stream : Session → List Text
stream s = written s.effects ++ s.input

record Fits (s : Session) : Type 0 where
  within : length s.input ≤ input_backlog

Frame-Fits : (k : Bool) (s t : Session) → Frame k s t → Fits s → Fits t
Frame-Fits k s t f h = record { within = rw f.input h.within }

data_received-Fits :
    (now : ℕ) (bytes : Text) (s : Session) → Fits s → Fits (data_received now bytes s)
unfolding data_received
data_received-Fits now bytes s h = ground (arith, length-append s.input (bytes ∷ []))

module _ (can_pause : ℕ → Bool) where
  other-Fits :
      (e : Event) → is_waiting e ≡ false → (s : Session) → Fits s → Fits (step can_pause e s)
  unfolding step
  other-Fits (receives now bytes) w s h = data_received-Fits now bytes s h
  other-Fits (others move) w s h = record { within = h.within }
  other-Fits _ w s h = ground arith

  -- However fast the client sends, at most 512 chunks wait for the room.
  pub input_is_bounded :
      (s : Session) (es : List Event)
      → length s.input ≤ input_backlog
      → length (run can_pause es s).input ≤ input_backlog
  input_is_bounded s es h =
      (run_keeps can_pause Fits
        (λ e. step_keeps can_pause Fits e (Frame-Fits (is_hang_up e)) (other-Fits e)) es s
        (record { within = h })).within

abbrev is_receives : Event → Bool
is_receives (receives now bytes) = true
is_receives _ = false

sent-cons : (e : Event) (es : List Event) → sent (e ∷ es) ≡ sent (e ∷ []) ++ sent es
sent-cons (receives now bytes) es = refl
sent-cons _ es = refl

-- The stream grows by what the event brings, and so does the room that the queue needs.
abbrev Grows : Event → Session → Session → Type 0
Grows e s t =
    (stream t ≡ stream s ++ sent (e ∷ []))
    × (length t.input ≤ length s.input + length (sent (e ∷ [])))

feed-Grows : (s : Session) → Grows feeds s (feed s)
unfolding feed
feed-Grows s = go s.feeder s.input refl refl
  where
    go : (f : Option ℕ) (i : List Text) → s.feeder ≡ f → s.input ≡ i → Grows feeds s (feed s)
    go none i e p = ground (arith, append-nil (stream s))
    go (some r) [] e p = ground (arith, append-nil (stream s))
    go (some r) (bytes ∷ rest) e p =
        ground (arith, append_assoc (written s.effects) (bytes ∷ []) rest, append-nil (stream s))

data_received-Grows :
    (now : ℕ) (bytes : Text) (s : Session)
    → length s.input + 1 ≤ input_backlog
    → Grows (receives now bytes) s (data_received now bytes s)
unfolding data_received
data_received-Grows now bytes s h =
    rw (lt→ltb (length s.input) input_backlog (omega arith), data_received)
      (
        sym (append_assoc (written s.effects) s.input (bytes ∷ [])),
        omega (arith, length-append s.input (bytes ∷ [])),
      )

module _ (can_pause : ℕ → Bool) where
  other-same :
      (e : Event)
      → is_waiting e ≡ false
      → is_receives e ≡ false
      → (s : Session) → Grows e s (step can_pause e s)
  unfolding step
  other-same feeds w r s = feed-Grows s
  other-same (others move) w r s = (sym (append-nil (stream s)), omega arith)
  other-same _ w r s = ground (arith, append-nil (stream s))

  Frame-Grows :
      (e : Event) (k : Bool) (s t : Session) → sent (e ∷ []) ≡ [] → Frame k s t → Grows e s t
  Frame-Grows e k s t quiet f = ground (arith, f.effects, f.input, append-nil (stream s), quiet)

  sent-waiting : (e : Event) → is_waiting e ≡ true → sent (e ∷ []) ≡ []
  sent-waiting (receives now bytes) w = absurd (false≢true w)
  sent-waiting _ w = refl

  step-Grows :
      (e : Event) (s : Session)
      → length s.input + length (sent (e ∷ [])) ≤ input_backlog
      → Grows e s (step can_pause e s)
  step-Grows e s h = elim (Bool-cases (is_waiting e)) [
    | inl w ↦ Frame-Grows e (is_hang_up e) s _ (sent-waiting e w) (step-Frame can_pause e s w)
    | inr w ↦ not_waiting e w h
  ]
    where
      not_waiting :
          (e : Event)
          → is_waiting e ≡ false
          → length s.input + length (sent (e ∷ [])) ≤ input_backlog
          → Grows e s (step can_pause e s)
      not_waiting (receives now bytes) w h =
          unfold step in data_received-Grows now bytes s (omega arith)
      not_waiting e w h = other-same e w (ground arith) s

  -- The bytes reach the room in the order in which they were sent: what has been written to the
  -- room, followed by what still waits, is what was there before followed by all that the client
  -- has sent since, as long as that leaves at most 512 chunks in the queue.
  pub input_keeps_order :
      (s : Session) (es : List Event)
      → length s.input + length (sent es) ≤ input_backlog
      → let t = run can_pause es s in
        written t.effects ++ t.input ≡ (written s.effects ++ s.input) ++ sent es
  unfolding run
  input_keeps_order s [] h = sym (append-nil (stream s))
  input_keeps_order s (e ∷ es) h =
      let split = sent-cons e es in
      let grown =
        step-Grows e s (omega (arith, ap length split, length-append (sent (e ∷ [])) (sent es))) in
      let ih =
        input_keeps_order (step can_pause e s) es
          (omega (arith, ap length split, length-append (sent (e ∷ [])) (sent es), grown.1)) in
      ih
      ∙ (ap (λ l. l ++ sent es) grown.0
          ∙ (append_assoc (stream s) (sent (e ∷ [])) (sent es) ∙ ap (◌++◌ (stream s)) (sym split)))
