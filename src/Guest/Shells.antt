-- ===== src/Guest/Shells.antt =====
-- One shell at a time, and what is left of one that has ended.
use keycard.Prelude.{
  ℕ, ◌≤◌, Bool, true, false, ◌==◌, ◌≡◌, ◌⊎◌, inl, inr, refl, none, List, [], ◌∷◌, arith, All,
  count_if, length, Bool-cases, if-cases,
}
use keycard.Guest.{ExitStatus}
use keycard.Guest.Agent.{
  act, Session, Agent, Task, AttachStep, boot, start, attach, attach_step, attach_steps, perform,
  on_first, on_task, on_tasks, drop, report, detach, serve, serve_new, on_session, Event, connects,
  meanwhile, exits, reports, write_fails, step, run,
}

-- A session has told nobody yet, or its shell has ended, and it has told one connection at most.
abbrev pub IsSettled : Session → Type 0
IsSettled s =
    ((s.reported ≡ false) × (s.sent ≡ []))
    ⊎ ((s.reported ≡ true) × (s.running ≡ false) × (length s.sent ≤ 1))

abbrev HasEnded : Session → Type 0
HasEnded s = s.running ≡ false

abbrev EndedBehind : List Session → Type 0
EndedBehind [] = Unit
EndedBehind (s ∷ ss) = All HasEnded ss

-- What may happen to one session: it ends no less, and stays settled.
record Keeps (f : Session → Session) : Type 0 where
  ended : (s : Session) → HasEnded s → HasEnded (f s)
  settled : (s : Session) → IsSettled s → IsSettled (f s)

module _ (f : Session → Session) (keeps : Keeps f) (shell : ℕ) where
  on_session-HasEnded : (ss : List Session) → All HasEnded ss → All HasEnded (on_session shell f ss)
  unfolding on_session
  on_session-HasEnded [] h = tt
  on_session-HasEnded (s ∷ ss) h = elim (Bool-cases (s.shell == shell)) [
    | inl it ↦ (rw it (keeps.ended s h.0), on_session-HasEnded ss h.1)
    | inr other ↦ (rw other h.0, on_session-HasEnded ss h.1)
  ]

  on_session-IsSettled :
      (ss : List Session) → All IsSettled ss → All IsSettled (on_session shell f ss)
  unfolding on_session
  on_session-IsSettled [] h = tt
  on_session-IsSettled (s ∷ ss) h = elim (Bool-cases (s.shell == shell)) [
    | inl it ↦ (rw it (keeps.settled s h.0), on_session-IsSettled ss h.1)
    | inr other ↦ (rw other h.0, on_session-IsSettled ss h.1)
  ]

  on_session-EndedBehind :
      (ss : List Session) → EndedBehind ss → EndedBehind (on_session shell f ss)
  unfolding on_session
  on_session-EndedBehind [] h = tt
  on_session-EndedBehind (s ∷ ss) h = on_session-HasEnded ss h

record IsOrderly (ss : List Session) : Type 0 where
  behind : EndedBehind ss
  settled : All IsSettled ss

exits-Keeps : Keeps (λ s. record s { running = false })
exits-Keeps = record { ended = λ s h. refl; settled = λ s h. ground arith }

write_fails-Keeps : Keeps (λ s. record s { data_out = none })
write_fails-Keeps = record { ended = λ s h. h; settled = λ s h. ground arith }

report-Keeps : (status : ExitStatus) → Keeps (report status)
unfolding report detach
report-Keeps status = record { ended = λ s h. ground arith; settled = λ s h. ground arith }

on_session-IsOrderly :
    (f : Session → Session) (shell : ℕ) (ss : List Session)
    → Keeps f
    → IsOrderly ss
    → IsOrderly (on_session shell f ss)
on_session-IsOrderly f shell ss keeps h = record {
  behind = on_session-EndedBehind f keeps shell ss h.behind;
  settled = on_session-IsSettled f keeps shell ss h.settled;
}

on_task-IsOrderly : (x : Task) (ss : List Session) → IsOrderly ss → IsOrderly (on_task x ss)
unfolding on_task
on_task-IsOrderly (exits shell) ss h = on_session-IsOrderly _ shell ss exits-Keeps h
on_task-IsOrderly (reports shell status) ss h =
    on_session-IsOrderly _ shell ss (report-Keeps status) h
on_task-IsOrderly (write_fails shell) ss h = on_session-IsOrderly _ shell ss write_fails-Keeps h

on_tasks-IsOrderly :
    (xs : List Task) (ss : List Session) → IsOrderly ss → IsOrderly (on_tasks xs ss)
unfolding on_tasks
on_tasks-IsOrderly [] ss h = h
on_tasks-IsOrderly (x ∷ xs) ss h = on_tasks-IsOrderly xs (on_task x ss) (on_task-IsOrderly x ss h)

attach_step-IsSettled : (x : AttachStep) (s : Session) → IsSettled s → IsSettled (attach_step x s)
unfolding attach_step
attach_step-IsSettled x s h = ground arith

on_first-IsOrderly :
    (x : AttachStep) (ss : List Session) → IsOrderly ss → IsOrderly (on_first (attach_step x) ss)
unfolding on_first
on_first-IsOrderly x [] h = h
on_first-IsOrderly x (s ∷ ss) h = record {
  behind = h.behind;
  settled = (attach_step-IsSettled x s h.settled.0, h.settled.1);
}

perform-IsOrderly :
    (xs : List AttachStep) (moments : List (List Task)) (ss : List Session)
    → IsOrderly ss
    → IsOrderly (perform xs moments ss)
unfolding perform
perform-IsOrderly [] moments ss h = h
perform-IsOrderly (x ∷ xs) [] ss h = perform-IsOrderly xs [] _ (on_first-IsOrderly x ss h)
perform-IsOrderly (x ∷ xs) (m ∷ moments) ss h =
    perform-IsOrderly xs moments _
      (on_first-IsOrderly x (on_tasks m ss) (on_tasks-IsOrderly m ss h))

attach-IsOrderly :
    (connection : ℕ) (moments : List (List Task)) (ss : List Session)
    → IsOrderly ss
    → IsOrderly (attach connection moments ss)
unfolding attach
attach-IsOrderly connection moments ss h = perform-IsOrderly (attach_steps connection) moments ss h

serve_new-IsOrderly :
    (starts : Bool) (connection : ℕ) (moments : List (List Task)) (dropped : List Session)
    (a : Agent)
    → All HasEnded dropped
    → All IsSettled dropped
    → IsOrderly (serve_new starts connection moments dropped a).sessions
unfolding serve_new
serve_new-IsOrderly true connection moments dropped a ended settled =
    attach-IsOrderly connection moments (start a.started ∷ dropped)
      (record { behind = ended; settled = (inl (refl, refl), settled) })
serve_new-IsOrderly false connection moments [] a ended settled = record {
  behind = tt;
  settled = tt;
}
serve_new-IsOrderly false connection moments (s ∷ dropped) a ended settled = record {
  behind = ended.1;
  settled = settled;
}

drop-IsSettled : (s : Session) → IsSettled s → IsSettled (drop s)
drop-IsSettled s h = ground arith

serve-IsOrderly :
    (starts : Bool) (connection : ℕ) (moments : List (List Task)) (a : Agent)
    → IsOrderly a.sessions
    → IsOrderly (serve starts connection moments a).sessions
unfolding serve
serve-IsOrderly starts connection moments a h = go a.sessions refl h
  where
    go :
        (ss : List Session)
        → a.sessions ≡ ss
        → IsOrderly ss
        → IsOrderly (serve starts connection moments a).sessions
    go [] e k = rw (e, serve) (serve_new-IsOrderly starts connection moments [] a tt tt)
    go (s ∷ ss) e k =
        rw (e, serve)
          (if-cases (λ (b : Agent). IsOrderly b.sessions) s.running _ _
            (λ up. attach-IsOrderly connection moments (s ∷ ss) k)
            (λ down.
              serve_new-IsOrderly starts connection moments (drop s ∷ ss) a (down, k.behind)
                (drop-IsSettled s k.settled.0, k.settled.1)))

act-IsOrderly : (e : Event) (a : Agent) → IsOrderly a.sessions → IsOrderly (act e a).sessions
unfolding act
act-IsOrderly (connects starts connection moments) a h =
    serve-IsOrderly starts connection moments a h
act-IsOrderly (meanwhile task) a h = on_task-IsOrderly task a.sessions h

run-IsOrderly : (es : List Event) (a : Agent) → IsOrderly a.sessions → IsOrderly (run es a).sessions
unfolding run step
run-IsOrderly [] a h = h
run-IsOrderly (e ∷ es) a h = run-IsOrderly es (step e a) (
    if-cases (λ (b : Agent). IsOrderly b.sessions) a.failed a (act e a) (λ over. h)
      (λ going. act-IsOrderly e a h))

ended_count : (ss : List Session) → All HasEnded ss → count_if (λ s. s.running) ss ≡ 0
ended_count [] h = refl
ended_count (s ∷ ss) h = ground (arith, h.0, ended_count ss h.1)

-- However connections come and go and shells end, also while a connection is being attached: at most one
-- shell runs in the guest, and a session tells the end of its shell only when it has ended, and to
-- one connection at most.
pub one_shell_runs :
    (es : List Event)
    → let a = run es boot in (count_if (λ s. s.running) a.sessions ≤ 1) × All IsSettled a.sessions
one_shell_runs es =
    let h = run-IsOrderly es boot (record { behind = tt; settled = tt }) in
    (at_most_one (run es boot).sessions h.behind, h.settled)
  where
    at_most_one : (ss : List Session) → EndedBehind ss → count_if (λ s. s.running) ss ≤ 1
    at_most_one [] b = omega arith
    at_most_one (s ∷ ss) b = ground (arith, ended_count ss b)
