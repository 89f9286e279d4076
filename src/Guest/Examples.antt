-- ===== src/Guest/Examples.antt =====
-- The theorems at concrete messages and histories.
use mathlib.Core.List.{flatten, foldl}
use keycard.Prelude.{
  length, false, ℕ, ◌≤◌, ◌≡◌, refl, some, true, List, [], ◌∷◌, ◌++◌, map, All, count_if, arith,
  codes, append-nil, pos,
}
use keycard.Prelude.Decimals.{show_int, decimal}
use keycard.Firecracker.Exit.{watch_exit, parse_exit}
use keycard.Firecracker.Room.Channels.{resize_message}
use keycard.Guest.{ctrl_reader, signal, code, exit_code, exit_message}
use keycard.Guest.Wire.{resized, ctrl_reader-resize_messages, watch_exit-exit_message}
use keycard.Guest.Reattach.{HasShell, latest, reconnects_keep_shell}
use keycard.Guest.Agent.{
  Session, Event, write_fails, boot, run, connects, meanwhile, exits, reports,
}
use keycard.Guest.Pty
use keycard.Guest.Pty.{Step, attaches, reads, enqueues, types, start_pty, input_queue}
use keycard.Guest.Pty.Thinned.{Thinned}
use keycard.Guest.Pty.Typed.{in_transit, drops_all, typed_keeps_order}
use keycard.Guest.Shells.{IsSettled, one_shell_runs}

-- The second size does not fit into 16 bits.
abbrev three_sizes : List (ℕ × ℕ)
three_sizes = (80, 24) ∷ (70000, 24) ∷ (132, 43) ∷ []

ctrl_reader-resize_messages_example :
    ctrl_reader (flatten (map (λ s. resize_message s.0 s.1) three_sizes)) (1, 1)
    ≡ foldl (λ old new. resized new old) (1, 1) three_sizes
ctrl_reader-resize_messages_example = ctrl_reader-resize_messages three_sizes (1, 1)

signal_message : exit_message (exit_code (signal 1)) ≡ codes "exit 129" ++ 10 ∷ []
unfolding exit_message exit_code show_int decimal
signal_message = refl

-- A shell that SIGHUP ended, told in two pieces.
watch_exit-exit_message_example :
    watch_exit parse_exit [] (codes "exit 12" ∷ (codes "9" ++ 10 ∷ []) ∷ [])
    ≡ some (exit_code (signal 1))
watch_exit-exit_message_example =
    watch_exit-exit_message (signal 1) (codes "exit 12" ∷ (codes "9" ++ 10 ∷ []) ∷ []) []
      (unfold exit_code in omega arith) (ground arith)
      (rw (signal_message, append-nil) (unfold flatten in refl))

-- A shell ends while a connection is being attached; a later connection starts another.
abbrev shells : List Event
shells =
    connects true 1 []
    ∷ connects true 2 ([] ∷ (exits 0 ∷ reports 0 (code (pos 3)) ∷ []) ∷ [])
    ∷ connects true 3 []
    ∷ []

one_shell_runs_example :
    let a = run shells boot in (count_if (λ s. s.running) a.sessions ≤ 1) × All IsSettled a.sessions
one_shell_runs_example = one_shell_runs shells

-- The host goes away, two writes fail, and it comes back twice.
abbrev comings : List Event
comings =
    meanwhile (write_fails 0)
    ∷ connects true 5 ((write_fails 0 ∷ []) ∷ [])
    ∷ connects false 9 []
    ∷ []

reconnects_keep_shell_example :
    (s : Session) × ((run (connects true 1 [] ∷ comings) boot).sessions ≡ s ∷ [])
    × HasShell (latest comings 1) s
reconnects_keep_shell_example = reconnects_keep_shell comings 1 [] refl (refl, (refl, (refl, tt)))

comings-last : latest comings 1 ≡ 9
unfolding latest
comings-last = refl

-- A chunk is typed, another is held when a second connection comes, and a third is queued.
abbrev two_connections : List Step
two_connections =
    attaches 1
    ∷ reads (codes "ls")
    ∷ enqueues
    ∷ types
    ∷ reads (codes "pw")
    ∷ attaches 2
    ∷ reads (codes "id")
    ∷ enqueues
    ∷ []

typed_keeps_order_example :
    let p = Pty.run two_connections start_pty in
    (length p.queue ≤ input_queue)
    × (k : ℕ) × (k ≤ drops_all two_connections)
    × Thinned (in_transit p) p.taken k
typed_keeps_order_example =
    typed_keeps_order two_connections
      (refl, (refl, (refl, (refl, (refl, (refl, (refl, (refl, tt))))))))
