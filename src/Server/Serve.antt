-- ===== src/Server/Serve.antt =====
-- `create_server` and `serve` of src/keycard/server.py: the order of the start, and that of the shutdown.
use keycard.Prelude.{
  ℕ, String, Bool, true, false, Option, none, some, List, [], ◌∷◌, ℤ, Text, Result, ok, err, Error,
  file_not_found, value_error, cancelled_error, ltb, ◌>>=◌, if◌then◌else◌,
}
use keycard.Active as active
use keycard.Active.{ActiveSessions}
use keycard.Kept as kept
use keycard.Kept.{KeptRooms, destroy_all}
use keycard.Config.Types.{Config}
use keycard.Config.Listen.{host, port, or_given}
use keycard.Config.Durations.{
  Floats, idle_timeout_seconds, shutdown_grace_seconds, keep_window_seconds,
}
use keycard.Routing.{Routing, Factories, new_routing, rooms_without_keep, close_all}
use keycard.Server.{drain, release_each}

-- What the file system and asyncssh answer at the start.
pub record Site : Type 0 where
  pub keys_exist : Bool
  pub host_key_exists : Bool
  pub generates : Result (Unit {0})
  pub binds : Text → ℤ → Result (Unit {0})

-- A server that listens, or has closed its listener.
pub record Serving : Type 0 where
  pub address : Text × ℤ
  pub listening : Bool
  pub grace : ℕ
  pub active : ActiveSessions
  pub kept : KeptRooms
  pub routing : Routing

-- `check_authorized_keys`
unfoldable pub check_authorized_keys : Site → Result (Unit {0})
check_authorized_keys site = if site.keys_exist then ok tt else err file_not_found

-- `ensure_host_key`
unfoldable pub ensure_host_key : Site → Result (Unit {0})
ensure_host_key site = if site.host_key_exists then ok tt else site.generates

-- `port_override if port_override is not None else config.port`
unfoldable pub port_for : Option ℤ → Text → Result ℤ
port_for (some p) listen = ok p
port_for none listen = elim (port listen) [ none ↦ err value_error | some p ↦ ok p ]

-- `if kept.enabled` of `serve`; `can_pause` is the backend's.
unfoldable pub warn_no_keep :
    Factories → (ℕ → Bool) → KeptRooms → Routing → Result (List String × Routing)
warn_no_keep f can_pause rooms routing =
    if kept.enabled rooms then rooms_without_keep f can_pause routing else ok ([], routing)

module _ {F : Type 0} (floats : Floats F) (site : Site) where
  -- `create_server` with a backend, and with the overrides that it was given.
  unfoldable pub create_server : Config → Option Text → Option ℤ → Result (Text × ℤ)
  unfolding check_authorized_keys ensure_host_key port_for
  create_server config host_override port_override = do
    _ ← check_authorized_keys site
    _ ← ensure_host_key site
    _ ← idle_timeout_seconds floats config
    _ ← shutdown_grace_seconds floats config
    _ ← keep_window_seconds floats config
    let h = or_given host_override (host config.listen)
    p ← port_for port_override config.listen
    _ ← site.binds h p
    ok (h, p)

  -- `serve` up to the wait; `amount` is a duration in whole units, 0 for what is not positive. The
  -- names are those of the warning that `--keep` does not apply to them.
  -- The grace period, which the source reads again at the shutdown, is read here.
  unfoldable pub serve : (F → ℕ) → Factories → (ℕ → Bool) → Config → Result (List String × Serving)
  unfolding warn_no_keep
  serve amount f can_pause config = do
    routing ← new_routing f config
    window ← keep_window_seconds floats config
    let rooms = kept.init (amount window)
    address ← create_server config none none
    (names, routing') ← warn_no_keep f can_pause rooms routing
    grace ← shutdown_grace_seconds floats config
    ok (
      names,
      record {
        address = address;
        listening = true;
        grace = amount grace;
        active = active.init;
        kept = rooms;
        routing = routing';
      },
    )

-- What happens during the shutdown.
pub record Ending : Type 0 where
  -- the sessions that end within the grace period, and those whose `force_close` is over in time
  pub leaves : ℕ → Bool
  pub ends : ℕ → Bool
  -- the exceptions other than a timeout, such as a cancel by a second Ctrl-C, that come out of the wait
  -- of the grace period, out of the `force_close` calls, and out of `server.wait_closed()`
  pub grace_cut : Option Error
  pub interrupted : Option Error
  pub closing_cut : Option Error
  -- what `destroy_kept` raises for a handle
  pub raises : ℕ → Bool
  pub raised : Error
  -- the backends in whose `close` a cancel arrives
  pub cancels : ℕ → Bool

-- What the wait of the grace period raises: nothing if there is no such wait.
unfoldable pub grace_raises : ℕ → List ℕ → Option Error → Option Error
grace_raises grace [] cut = none
grace_raises grace (a ∷ as') cut = if ltb 0 grace then cut else none

-- What the gather of the `force_close` calls raises: nothing if there are none.
unfoldable pub gather_raises : List ℕ → Option Error → Option Error
gather_raises [] interrupted = none
gather_raises (a ∷ as') interrupted = interrupted

-- `kept.destroy_all()` and `backend.close()`
unfoldable pub sweep_and_close : Ending → Serving → Result (Unit {0}) × Serving
sweep_and_close ending s =
    let (finished, rooms) = destroy_all ending.raises s.kept in
    let swept = record s { kept = rooms } in
    if finished
    then (let (closed, routing) = close_all ending.cancels s.routing in
        ((if closed then ok tt else err cancelled_error), record swept { routing = routing }))
    else (err ending.raised, swept)

-- The `finally` of `serve`, from `server.close()`.
unfoldable pub shutdown : Ending → Serving → Result (Unit {0}) × Serving
unfolding grace_raises gather_raises sweep_and_close
shutdown ending s = elim (grace_raises s.grace s.active.sessions ending.grace_cut) [
  | some e ↦ (
    err e,
    record s { listening = false; active = release_each ending.leaves s.active.sessions s.active },
  )
  | none ↦
      let d = drain ending.leaves ending.ends s.grace s.active in
      let drained = record s { listening = false; active = d.active } in
      elim (gather_raises d.closed ending.interrupted) [
        | some e ↦ (err e, drained)
        | none ↦ elim ending.closing_cut [
          | some e ↦ (err e, drained)
          | none ↦ sweep_and_close ending drained
        ]
      ]
]
