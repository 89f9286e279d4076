-- ===== src/Server/Startup.antt =====
-- A configuration that loads gives a server.
use keycard.Prelude.{
  ℕ, String, Bool, true, ◌≡◌, refl, Option, some, List, [], ◌∷◌, arith, ℤ, codes, ok, All,
  Bool-cases, inl, inr, eq_iff, if◌then◌else◌,
}
use keycard.Prelude.Dict.{values}
use keycard.Config.Toml.{Python, Table}
use keycard.Config.Types.{Config, RoomConfig, is_known_backend}
use keycard.Config.Load.{load}
use keycard.Config.Resolve.{IsValidBackend, load-IsLoaded}
use keycard.Config.Backed.{load-IsBacked}
use keycard.Config.Listen.{host, port}
use keycard.Config.Durations.{Floats, parse_duration}
use keycard.Routing.{Routing, Factories, name_for, names_without_keep, rooms_without_keep, sorted}
use keycard.Routing.Ready.{new_routing-config, get_backend-Extends}
use keycard.Routing.Startup.{Builds, get_backend-succeeds, known_config_starts}
use keycard.Active as active
use keycard.Kept as kept
use keycard.Server.Serve.{
  Site, Serving, check_authorized_keys, ensure_host_key, port_for, create_server, warn_no_keep,
  serve,
}

name_for-known :
    (config : Config) (room : RoomConfig)
    → is_known_backend config.backend ≡ true
    → IsValidBackend room.backend
    → is_known_backend (name_for config room) ≡ true
unfolding name_for
name_for-known config room known valid = ground (arith, eq_iff room.backend "")

module _ (f : Factories) (builds : Builds f) (can_pause : ℕ → Bool) where
  names_without_keep-succeeds :
      (rooms : List RoomConfig) (s : Routing)
      → is_known_backend s.config.backend ≡ true
      → All (λ room. IsValidBackend room.backend) rooms
      → (r : List String × Routing) × (names_without_keep f can_pause rooms s ≡ ok r)
  unfolding names_without_keep
  names_without_keep-succeeds [] s known h = (([], s), refl)
  names_without_keep-succeeds (room ∷ rooms) s known h =
      let ((b, s₁), found) =
        get_backend-succeeds f builds (name_for s.config room) s
          (name_for-known s.config room known h.0) in
      let same = (get_backend-Extends f (name_for s.config room) b s s₁ found).config in
      let ((names, s₂), rest) = names_without_keep-succeeds rooms s₁ (rw same known) h.1 in
      (
        ((if can_pause b then names else room.name ∷ names), s₂),
        rw (found, rest, names_without_keep) refl,
      )

  warn_no_keep-succeeds :
      (rooms : kept.KeptRooms) (s : Routing)
      → is_known_backend s.config.backend ≡ true
      → All (λ room. IsValidBackend room.backend) (values s.config.rooms)
      → (r : List String × Routing) × (warn_no_keep f can_pause rooms s ≡ ok r)
  unfolding warn_no_keep rooms_without_keep
  warn_no_keep-succeeds rooms s known h = elim (Bool-cases (kept.enabled rooms)) [
    | inl on ↦
        let ((names, s'), e) = names_without_keep-succeeds (values s.config.rooms) s known h in
        ((sorted names, s'), rw (on, e, warn_no_keep, rooms_without_keep) refl)
    | inr off ↦ (([], s), rw (off, warn_no_keep) refl)
  ]

-- A duration that `parse_duration` takes.
abbrev pub IsDuration : {F : Type 0} → Floats F → String → Type 0
IsDuration {F} floats spec = (x : F) × (parse_duration floats (codes spec) ≡ ok x)

module _ {F : Type 0} (floats : Floats F) (site : Site) (f : Factories) (builds : Builds f) where
  -- A server whose backends exist starts, with an empty registry of kept rooms.
  pub known_server_starts :
      (config : Config) (p : ℤ) (amount : F → ℕ) (can_pause : ℕ → Bool)
      → is_known_backend config.backend ≡ true
      → All (λ room. IsValidBackend room.backend) (values config.rooms)
      → IsDuration floats config.idle_timeout
      → IsDuration floats config.shutdown_grace
      → (window : IsDuration floats config.keep_window) → port config.listen ≡ some p
      → check_authorized_keys site ≡ ok tt
      → ensure_host_key site ≡ ok tt
      → site.binds (host config.listen) p ≡ ok tt
      → (names : List String) × ((s : Serving) × (serve floats site amount f can_pause config
            ≡ ok (names, s))
          × (s.address ≡ (host config.listen, p))
          × (s.listening ≡ true)
          × (s.kept ≡ kept.init (amount window.0)))
  unfolding serve create_server port_for
  known_server_starts config p amount can_pause known backed (i, idle) (g, grace) (w, window) e_port
        keys key bind =
      let (routing, built) = known_config_starts f builds config known backed in
      let same = new_routing-config f config routing built in
      let ((names, routing'), warned) =
        warn_no_keep-succeeds f builds can_pause (kept.init (amount w)) routing (rw same known)
          (rw same backed) in
      let s : Serving = record {
        address = (host config.listen, p);
        listening = true;
        grace = amount g;
        active = active.init;
        kept = kept.init (amount w);
        routing = routing';
      } in
      (
        names,
        (
          s,
          rw
              (
                built, window, keys, key, idle, grace, e_port, bind, warned, serve, create_server,
                port_for,
              )
              refl,
          refl,
          refl,
          refl,
        ),
      )

  -- A configuration that loads, whose three durations and whose port can be read, gives a server
  -- that listens on its address, if there are authorised keys, a host key can be had, the address
  -- can be bound and both backends can be built: the warning about `--keep` never keeps it from
  -- starting.
  pub serve_starts :
      (py : Python) (file : Option Table) (config : Config) (p : ℤ) (amount : F → ℕ)
      (can_pause : ℕ → Bool)
      → load py file ≡ ok config
      → IsDuration floats config.idle_timeout
      → IsDuration floats config.shutdown_grace
      → IsDuration floats config.keep_window
      → port config.listen ≡ some p
      → check_authorized_keys site ≡ ok tt
      → ensure_host_key site ≡ ok tt
      → site.binds (host config.listen) p ≡ ok tt
      → (names : List String) × ((s : Serving) × (serve floats site amount f can_pause config
            ≡ ok (names, s))
          × (s.address ≡ (host config.listen, p))
          × (s.listening ≡ true))
  serve_starts py file config p amount can_pause e idle grace window e_port keys key bind =
      let (names, (s, started, address, listening, _)) =
        known_server_starts config p amount can_pause (load-IsLoaded py file config e).backend_known
          (load-IsBacked py file config e) idle grace window e_port keys key bind in
      (names, (s, started, address, listening))
