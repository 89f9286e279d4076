-- ===== src/Server/Wait.antt =====
-- The signal handlers and the wait of `serve`, and the shutdown behind it.
use keycard.Prelude.{Bool, true, false, ◌≡◌, List, [], ◌∷◌, ◌++◌, arith, Result, if◌then◌else◌}
use keycard.Server.Serve.{Serving, Ending, shutdown}
use keycard.Server.Shutdown.{shutdown_closes}

pub data Signal : Type 0 where
  sigint sigterm : Signal

-- What ends the wait: the listener closed, a signal came, or the task was cancelled.
pub data Wake : Type 0 where
  closed requested cancelled : Wake

abbrev same_signal : Signal → Signal → Bool
same_signal sigint sigint = true
same_signal sigterm sigterm = true
same_signal _ _ = false

-- Whether the platform is Windows, and for which signals `add_signal_handler` is implemented.
pub record Loop : Type 0 where
  pub is_windows : Bool
  pub adds : Signal → Bool

-- `registered_signals`
unfoldable pub register : Loop → List Signal
register loop =
    if loop.is_windows
    then []
    else (if loop.adds sigint then sigint ∷ [] else [])
      ++ (if loop.adds sigterm then sigterm ∷ [] else [])

unfoldable pub remove_handler : Signal → List Signal → List Signal
remove_handler s [] = []
remove_handler s (h ∷ hs) =
    let rest = remove_handler s hs in if same_signal s h then rest else h ∷ rest

-- `loop.remove_signal_handler` for each.
unfoldable pub remove_handlers : List Signal → List Signal → List Signal
unfolding remove_handler
remove_handlers [] handlers = handlers
remove_handlers (s ∷ ss) handlers = remove_handlers ss (remove_handler s handlers)

-- `serve` from the signal handlers on: what it gives, the server that is left, and the handlers that
-- are left in the loop. However the wait ends, the `finally` is the same.
unfoldable pub serve_until :
    Loop → Wake → Ending → Serving → (Result (Unit {0}) × Serving) × List Signal
unfolding register remove_handlers
serve_until loop wake ending s =
    let registered = register loop in
    let handlers = remove_handlers registered registered in
    elim wake [
      | closed ↦ (shutdown ending s, handlers)
      | requested ↦ (shutdown ending s, handlers)
      | cancelled ↦ (shutdown ending s, handlers)
    ]

-- However the wait of a server ends, and even if an exception cuts the shutdown short, the listener
-- is closed and no signal handler is left behind.
pub serve_until_leaves_nothing :
    (loop : Loop) (wake : Wake) (ending : Ending) (s : Serving)
    → let ((r, t), handlers) = serve_until loop wake ending s in
      (t.listening ≡ false) × (handlers ≡ [])
unfolding serve_until register remove_handlers remove_handler
serve_until_leaves_nothing loop wake ending s = ground (arith, (shutdown_closes 0 ending s).0)
