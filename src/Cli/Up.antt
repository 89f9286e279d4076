-- ===== src/Cli/Up.antt =====
-- `up` of src/keycard/cli.py: the configuration with its overrides, the server, and what the operator sees
-- at the end.
use keycard.Prelude.{
  ℕ, ◌<◌, String, Bool, true, false, ◌≡◌, refl, ◌∙◌, ap, Option, some, List, ℤ, Text, Result, ok,
  err, Error, ◌>>=◌, if◌then◌else◌,
}
use keycard.Prelude.Decimals.{magnitude, pow10}
use keycard.Kept.{init}
use keycard.Config.Toml.{Python, Table}
use keycard.Config.Types.{Config}
use keycard.Config.Load.{load}
use keycard.Config.Resolve.{load-IsLoaded}
use keycard.Config.Backed.{load-IsBacked}
use keycard.Config.Listen.{host, port, or_given, override_listen, override_listen-gives}
use keycard.Config.Durations.{Floats}
use keycard.Routing.{Factories}
use keycard.Routing.Startup.{Builds}
use keycard.Server.Serve.{Site, Serving, Ending, check_authorized_keys, ensure_host_key, serve}
use keycard.Server.Startup.{IsDuration, known_server_starts}
use keycard.Server.Wait.{Loop, Wake, serve_until}

-- What was given on the command line.
pub record Options : Type 0 where
  pub host : Option Text
  pub port : Option ℤ
  pub keep_window : Option String

-- The configuration that `up` serves.
unfoldable pub configured : Python → Option Table → Options → Result Config
configured py file options = do
  config ← load py file
  listen ← override_listen options.host options.port config.listen
  ok (record config {
    listen = listen;
    keep_window = or_given options.keep_window config.keep_window;
  })

configured-ok :
    (py : Python) (file : Option Table) (options : Options) (config : Config) (listen : Text)
    → load py file ≡ ok config
    → override_listen options.host options.port config.listen ≡ ok listen
    → configured py file options
      ≡ ok (record config {
        listen = listen;
        keep_window = or_given options.keep_window config.keep_window;
      })
unfolding configured
configured-ok py file options config listen e overridden = rw (e, overridden, configured) refl

-- How `up` ends: in order, with an error that click reports, with the message of an interrupt, or with
-- an exception that it does not catch.
pub data Outcome : Type 0 where
  finishes : Outcome
  reports : Error → Outcome
  interrupts : Outcome
  crashes : Error → Outcome

-- `except (FileNotFoundError, ValueError)`
abbrev pub is_reported : Error → Bool
is_reported Error.file_not_found = true
is_reported Error.value_error = true
is_reported _ = false

unfoldable pub outcome : Result (Unit {0}) → Outcome
outcome (ok done) = finishes
outcome (err e) = if is_reported e then reports e else crashes e

-- A run of the server: what happens to it while it waits, what ends the wait, and the shutdown, unless
-- the interpreter is interrupted.
pub record Course : Type 0 where
  pub loop : Loop
  pub during : Serving → Serving
  pub wake : Wake
  pub ending : Ending
  pub is_interrupted : Bool

unfoldable pub run_server : Course → Serving → Outcome
unfolding outcome
run_server course s =
    if course.is_interrupted
    then interrupts
    else outcome (serve_until course.loop course.wake course.ending (course.during s)).0.0

module _ {F : Type 0} (floats : Floats F) (site : Site) (f : Factories) where
  -- `up`: an exception out of `load`, or out of an override, is not in its `try`.
  unfoldable pub up : Python → Option Table → Options → (F → ℕ) → (ℕ → Bool) → Course → Outcome
  unfolding run_server
  up py file options amount can_pause course = elim (configured py file options) [
    | err e ↦ crashes e
    | ok config ↦ elim (serve floats site amount f can_pause config) [
      | err e ↦ outcome (err e)
      | ok (names, s) ↦ run_server course s
    ]
  ]

  up-run_server :
      (py : Python) (file : Option Table) (options : Options) (amount : F → ℕ)
      (can_pause : ℕ → Bool) (course : Course) (config : Config) (names : List String) (s : Serving)
      → configured py file options ≡ ok config
      → serve floats site amount f can_pause config ≡ ok (names, s)
      → up py file options amount can_pause course ≡ run_server course s
  unfolding up
  up-run_server py file options amount can_pause course config names s e started =
      rw (e, started, up) refl

  module _ (builds : Builds f) where
    -- From a configuration that loads, `keycard up` comes to serve: on the host and the port that
    -- were given on the command line, or else on the configured ones, and with the keep window
    -- that was given, or else the configured one, if the durations and the port can be read,
    -- there are authorised keys, a host key can be had, the address can be bound and the
    -- backends can be built. What the operator sees is then what that run comes to.
    pub up_serves :
        (py : Python) (file : Option Table) (options : Options) (config : Config) (p : ℤ)
        (amount : F → ℕ) (can_pause : ℕ → Bool) (course : Course)
        → load py file ≡ ok config
        → port config.listen ≡ some p
        → magnitude p < pow10 19
        → magnitude (or_given options.port p) < pow10 19
        → IsDuration floats config.idle_timeout
        → IsDuration floats config.shutdown_grace
        → (window : IsDuration floats (or_given options.keep_window config.keep_window))
        → check_authorized_keys site ≡ ok tt
        → ensure_host_key site ≡ ok tt
        → site.binds (or_given options.host (host config.listen)) (or_given options.port p) ≡ ok tt
        → (s : Serving) × (up py file options amount can_pause course ≡ run_server course s)
          × (s.address ≡ (or_given options.host (host config.listen), or_given options.port p))
          × (s.listening ≡ true)
          × (s.kept ≡ init (amount window.0))
    up_serves py file options config p amount can_pause course e e_port small small' idle grace
          window keys key bind =
        let (listen, overridden, same_host, same_port) =
          override_listen-gives options.host options.port config.listen p e_port small small' in
        let config' : Config = record config {
          listen = listen;
          keep_window = or_given options.keep_window config.keep_window;
        } in
        let (names, (s, started, address, listening, rooms)) =
          known_server_starts floats site f builds config' (or_given options.port p) amount
            can_pause (load-IsLoaded py file config e).backend_known
            (load-IsBacked py file config e) idle grace window same_port keys key
            (rw same_host bind) in
        (
          s,
          up-run_server py file options amount can_pause course config' names s
              (configured-ok py file options config listen e overridden) started,
          address ∙ ap (λ h. (h, or_given options.port p)) same_host,
          listening,
          rooms,
        )
