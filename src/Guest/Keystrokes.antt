-- ===== src/Guest/Keystrokes.antt =====
-- From the client's keyboard to the shell in a microVM: the session, the room's data channel and the agent.
use mathlib.Core.List.{flatten, reverse-append}
use keycard.Prelude.{
  ℕ, ◌+◌, ◌≤◌, Bool, false, ◌≡◌, refl, sym, ◌∙◌, ap, List, [], ◌∷◌, ◌++◌, append_assoc, reverse,
  Text, All, length,
}
use keycard.Session.Types.{Session}
use keycard.Session.Tasks.Channel.{input_backlog}
use keycard.Session.Machine
use keycard.Session.Machine.Input.{written, sent, input_keeps_order}
use keycard.Guest.Pty.{Step, start_pty, attach_pty, run}
use keycard.Guest.Pty.Typed.{is_break, drops_all, held, typed_over_one}

flatten-append : (xs ys : List Text) → flatten (xs ++ ys) ≡ flatten xs ++ flatten ys
unfolding flatten
flatten-append [] ys = refl
flatten-append (x ∷ xs) ys =
    ap (λ l. x ++ l) (flatten-append xs ys) ∙ sym (append_assoc x (flatten xs) (flatten ys))

-- What was typed is the beginning of what was read.
typed_begins_taken :
    (front typed taken : List Text)
    → front ++ typed ≡ taken
    → flatten (reverse typed) ++ flatten (reverse front) ≡ flatten (reverse taken)
typed_begins_taken front typed taken e =
    sym (flatten-append (reverse typed) (reverse front))
    ∙ ap flatten (sym (reverse-append front typed) ∙ ap reverse e)

-- A client's keystrokes reach the shell in a microVM in the order in which they were typed: over one
-- connection, whatever else happens to the session and however the agent's tasks take turns, what
-- the agent has typed into the pty is the beginning of what the client has sent, if the data
-- channel gives the agent a beginning of what was written to it, writing to the pty does not
-- fail, and no more than 512 chunks were sent.
pub keystrokes_reach_shell :
    (can_pause : ℕ → Bool) (s : Session) (es : List Machine.Event) (connection : ℕ) (ss : List Step)
    (under_way : Text)
    → written s.effects ++ s.input ≡ []
    → length s.input + length (sent es) ≤ input_backlog
    → All (λ x. is_break x ≡ false) ss
    → drops_all ss ≡ 0
    → let t = Machine.run can_pause es s in
      let p = run ss (attach_pty connection start_pty) in
      flatten (reverse p.taken) ++ under_way ≡ flatten (written t.effects)
      → (later : Text) × (flatten (reverse p.typed) ++ later ≡ flatten (sent es))
keystrokes_reach_shell can_pause s es connection ss under_way fresh short calm quiet stream =
    let t = Machine.run can_pause es s in
    let p = run ss (attach_pty connection start_pty) in
    let front = held p.reader ++ reverse p.queue in
    let unread = flatten (reverse front) in
    let waiting = flatten t.input in
    let begun = typed_begins_taken front p.typed p.taken (
      append_assoc (held p.reader) (reverse p.queue) p.typed
      ∙ typed_over_one connection ss calm quiet) in
    let sent_all =
      sym (flatten-append (written t.effects) t.input)
      ∙ ap flatten (input_keeps_order can_pause s es short ∙ ap (λ l. l ++ sent es) fresh) in
    (
      unread ++ (under_way ++ waiting),
      sym (append_assoc (flatten (reverse p.typed)) unread (under_way ++ waiting))
          ∙ (ap (λ l. l ++ (under_way ++ waiting)) begun
              ∙ (sym (append_assoc (flatten (reverse p.taken)) under_way waiting)
                  ∙ (ap (λ l. l ++ waiting) stream ∙ sent_all))),
    )
