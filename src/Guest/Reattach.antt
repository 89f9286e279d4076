-- ===== src/Guest/Reattach.antt =====
-- A shell that goes on is given to every connection that comes.
use keycard.Prelude.{
  ℕ, ◌==◌, ◌||◌, Bool, true, false, ◌≡◌, refl, some, List, [], ◌∷◌, All, if-cases, if◌then◌else◌,
  arith, Option,
}
use keycard.Guest.{ExitStatus}
use keycard.Guest.Agent.{
  Session, Agent, Task, AttachStep, boot, start, attach, attach_step, attach_steps, perform,
  on_first, on_task, on_tasks, report, serve, serve_new, on_session, Event, connects, meanwhile,
  exits, reports, write_fails, act, step, run,
}

-- A shell ends.
abbrev pub is_exit_task : Task → Bool
is_exit_task (exits shell) = true
is_exit_task _ = false

abbrev pub some_exit : List Task → Bool
some_exit [] = false
some_exit (x ∷ xs) = is_exit_task x || some_exit xs

abbrev pub some_moment_exits : List (List Task) → Bool
some_moment_exits [] = false
some_moment_exits (m ∷ moments) = some_exit m || some_moment_exits moments

-- A shell ends, by itself or while a connection is attached.
abbrev pub is_exit : Event → Bool
is_exit (meanwhile task) = is_exit_task task
is_exit (connects starts connection moments) = some_moment_exits moments

-- Who has the channels behind an event, and behind a list of events.
abbrev pub given_to : Event → ℕ → ℕ
given_to (connects starts c moments) connection = c
given_to _ connection = connection

unfoldable pub latest : List Event → ℕ → ℕ
latest [] connection = connection
latest (e ∷ es) connection = latest es (given_to e connection)

-- The first shell runs, and one connection has both its channels.
pub record HasShell (connection : ℕ) (s : Session) : Type 0 where
  pub shell : s.shell ≡ 0
  pub running : s.running ≡ true
  pub controlled : s.ctrl_out ≡ some connection
  pub read : s.readers ≡ connection ∷ connection ∷ []

-- The first shell runs, with this control channel and these readers.
record IsLike (ctrl : Option ℕ) (readers : List ℕ) (s : Session) : Type 0 where
  shell : s.shell ≡ 0
  running : s.running ≡ true
  controlled : s.ctrl_out ≡ ctrl
  read : s.readers ≡ readers

-- There is one session, and it is like that.
abbrev IsAlone : Option ℕ → List ℕ → List Session → Type 0
IsAlone ctrl readers ss = (s : Session) × (ss ≡ s ∷ []) × IsLike ctrl readers s

ctrl_after : AttachStep → Option ℕ → Option ℕ
ctrl_after x c = (attach_step x (record (start 0) { ctrl_out = c })).ctrl_out

readers_after : AttachStep → List ℕ → List ℕ
readers_after x l = (attach_step x (record (start 0) { readers = l })).readers

attach_step-IsLike :
    (x : AttachStep) (c : Option ℕ) (l : List ℕ) (s : Session)
    → IsLike c l s
    → IsLike (ctrl_after x c) (readers_after x l) (attach_step x s)
unfolding attach_step ctrl_after readers_after
attach_step-IsLike x c l s h = ground arith

on_session-IsAlone :
    (f : Session → Session) (shell : ℕ) (c : Option ℕ) (l : List ℕ) (ss : List Session)
    → ((s : Session) → IsLike c l s → IsLike c l (f s))
    → IsAlone c l ss
    → IsAlone c l (on_session shell f ss)
unfolding on_session
on_session-IsAlone f shell c l ss keeps (s, e, h) = (
  if s.shell == shell then f s else s,
  rw e refl,
  if-cases (IsLike c l) (s.shell == shell) (f s) s (λ it. keeps s h) (λ other. h),
)

report-IsLike :
    (status : ExitStatus) (c : Option ℕ) (l : List ℕ) (s : Session)
    → IsLike c l s
    → IsLike c l (report status s)
unfolding report
report-IsLike status c l s h =
    if-cases (IsLike c l) s.running s _ (λ up. h) (λ down. absurd (cc (down, h.running)))

on_task-IsAlone :
    (x : Task) (c : Option ℕ) (l : List ℕ) (ss : List Session)
    → is_exit_task x ≡ false
    → IsAlone c l ss
    → IsAlone c l (on_task x ss)
unfolding on_task
on_task-IsAlone (exits shell) c l ss calm h = absurd (cc (calm))
on_task-IsAlone (reports shell status) c l ss calm h =
    on_session-IsAlone (report status) shell c l ss (report-IsLike status c l) h
on_task-IsAlone (write_fails shell) c l ss calm h =
    on_session-IsAlone _ shell c l ss
      (λ s k. record {
        shell = k.shell;
        running = k.running;
        controlled = k.controlled;
        read = k.read;
      })
      h

on_tasks-IsAlone :
    (xs : List Task) (c : Option ℕ) (l : List ℕ) (ss : List Session)
    → some_exit xs ≡ false
    → IsAlone c l ss
    → IsAlone c l (on_tasks xs ss)
unfolding on_tasks
on_tasks-IsAlone [] c l ss calm h = h
on_tasks-IsAlone (x ∷ xs) c l ss calm h =
    on_tasks-IsAlone xs c l (on_task x ss) (ground (arith, calm))
      (on_task-IsAlone x c l ss (ground (arith, calm)) h)

on_first-IsAlone :
    (x : AttachStep) (c : Option ℕ) (l : List ℕ) (ss : List Session)
    → IsAlone c l ss
    → IsAlone (ctrl_after x c) (readers_after x l) (on_first (attach_step x) ss)
unfolding on_first
on_first-IsAlone x c l ss (s, e, h) = (attach_step x s, rw e refl, attach_step-IsLike x c l s h)

ctrl_in_the_end : List AttachStep → Option ℕ → Option ℕ
ctrl_in_the_end [] c = c
ctrl_in_the_end (x ∷ xs) c = ctrl_in_the_end xs (ctrl_after x c)

readers_in_the_end : List AttachStep → List ℕ → List ℕ
readers_in_the_end [] l = l
readers_in_the_end (x ∷ xs) l = readers_in_the_end xs (readers_after x l)

perform-IsAlone :
    (xs : List AttachStep) (moments : List (List Task)) (c : Option ℕ) (l : List ℕ)
    (ss : List Session)
    → some_moment_exits moments ≡ false
    → IsAlone c l ss
    → IsAlone (ctrl_in_the_end xs c) (readers_in_the_end xs l) (perform xs moments ss)
unfolding perform ctrl_in_the_end readers_in_the_end
perform-IsAlone [] moments c l ss calm h = h
perform-IsAlone (x ∷ xs) [] c l ss calm h =
    perform-IsAlone xs [] (ctrl_after x c) (readers_after x l) _ refl (on_first-IsAlone x c l ss h)
perform-IsAlone (x ∷ xs) (m ∷ moments) c l ss calm h =
    perform-IsAlone xs moments (ctrl_after x c) (readers_after x l) _ (ground (arith, calm))
      (on_first-IsAlone x c l (on_tasks m ss) (on_tasks-IsAlone m c l ss (ground (arith, calm)) h))

abbrev IsServed : ℕ → List Session → Type 0
IsServed connection = IsAlone (some connection) (connection ∷ connection ∷ [])

attach-IsServed :
    (connection : ℕ) (moments : List (List Task)) (c : Option ℕ) (l : List ℕ) (ss : List Session)
    → some_moment_exits moments ≡ false
    → IsAlone c l ss
    → IsServed connection (attach connection moments ss)
unfolding attach ctrl_in_the_end readers_in_the_end ctrl_after readers_after attach_step
attach-IsServed connection moments c l ss calm h =
    perform-IsAlone (attach_steps connection) moments c l ss calm h

record IsHeld (connection : ℕ) (a : Agent) : Type 0 where
  going : a.failed ≡ false
  alone : IsServed connection a.sessions

serve-IsHeld :
    (starts : Bool) (old new : ℕ) (moments : List (List Task)) (a : Agent)
    → some_moment_exits moments ≡ false
    → IsHeld old a
    → IsHeld new (serve starts new moments a)
unfolding serve
serve-IsHeld starts old new moments a calm h =
    let (s, e, like) = h.alone in
    rw (e, serve)
      (if-cases (IsHeld new) s.running _ _
        (λ up. record {
          going = h.going;
          alone = attach-IsServed new moments _ _ (s ∷ []) calm (s, refl, like);
        })
        (λ down. absurd (cc (down, like.running))))

act-IsHeld :
    (e : Event) (c : ℕ) (a : Agent)
    → is_exit e ≡ false
    → IsHeld c a
    → IsHeld (given_to e c) (act e a)
unfolding act
act-IsHeld (connects starts d moments) c a calm h = serve-IsHeld starts c d moments a calm h
act-IsHeld (meanwhile task) c a calm h = record {
  going = h.going;
  alone = on_task-IsAlone task _ _ a.sessions calm h.alone;
}

run-IsHeld :
    (es : List Event) (c : ℕ) (a : Agent)
    → All (λ e. is_exit e ≡ false) es
    → IsHeld c a
    → IsHeld (latest es c) (run es a)
unfolding run step latest
run-IsHeld [] c a calm h = h
run-IsHeld (e ∷ es) c a calm h = run-IsHeld es (given_to e c) (step e a) calm.1 (
    if-cases (IsHeld (given_to e c)) a.failed a (act e a) (λ over. absurd (cc (over, h.going)))
      (λ going. act-IsHeld e c a calm.0 h))

-- Once a first connection has started the shell, and as long as that shell does not end: however many
-- connections come and whatever writes fail, also while a connection is being attached, there is
-- that one shell and no other, it runs, and the connection that came last has its control channel
-- and is the only one that is read.
pub reconnects_keep_shell :
    (es : List Event) (connection : ℕ) (moments : List (List Task))
    → some_moment_exits moments ≡ false
    → All (λ e. is_exit e ≡ false) es
    → (s : Session) × ((run (connects true connection moments ∷ es) boot).sessions ≡ s ∷ [])
      × HasShell (latest es connection) s
unfolding run step act serve serve_new
reconnects_keep_shell es connection moments calm₀ calm =
    let (s, e, like) =
      (run-IsHeld es connection (serve true connection moments boot) calm (record {
        going = refl;
        alone = attach-IsServed connection moments _ _ (start 0 ∷ []) calm₀ (
          start 0,
          refl,
          record { shell = refl; running = refl; controlled = refl; read = refl },
        );
      })).alone in
    (
      s,
      e,
      record {
        shell = like.shell;
        running = like.running;
        controlled = like.controlled;
        read = like.read;
      },
    )
