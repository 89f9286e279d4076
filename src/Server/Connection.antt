-- ===== src/Server/Connection.antt =====
-- `KeycardServer` of src/keycard/server.py: one connection, up to the session that it asks for.
use keycard.Prelude.{
  arith, ℕ, String, Bool, true, false, ◌≡◌, refl, sym, ◌∙◌, Option, some, List, [], ◌∷◌, ◌++◌, ℤ,
  Text, Result, ok, ◌>>=◌, >>=-eq-ok, if◌then◌else◌,
}
use keycard.Prelude.Dict.{get, has}
use keycard.Kept.{KeptRooms}
use keycard.Session.Types.{Session, new_session}
use keycard.Config.Toml.{Python, Table}
use keycard.Config.Types.{Config, RoomConfig, resolve}
use keycard.Config.Load.{load}
use keycard.Config.Resolve.{load_resolves}
use keycard.Config.Durations.{Floats, idle_timeout_seconds}
use keycard.Server.{session_room}
use keycard.Server.Serve.{Site, check_authorized_keys, ensure_host_key, create_server}

pub record KeycardServer : Type 0 where
  pub config : Config
  pub kept_rooms : Option KeptRooms
  pub username : String

-- `__init__`
abbrev pub new_connection : Config → Option KeptRooms → KeycardServer
new_connection config kept = record { config = config; kept_rooms = kept; username = "" }

-- `begin_auth`: that the client has to authenticate, and for whom.
unfoldable pub begin_auth : String → KeycardServer → Bool × KeycardServer
begin_auth username s = (true, record s { username = username })

abbrev password_auth_supported : KeycardServer → Bool
password_auth_supported s = false

abbrev public_key_auth_supported : KeycardServer → Bool
public_key_auth_supported s = true

-- A client may begin again with another username.
unfoldable pub authenticate : List String → KeycardServer → KeycardServer
unfolding begin_auth
authenticate [] s = s
authenticate (username ∷ more) s = authenticate more (begin_auth username s).1

-- `session_requested` at the time `now`: the room, and the session that is made; `amount` is a
-- duration in whole units, 0 for what is not positive.
unfoldable pub session_requested :
    {F : Type 0} → Floats F → (F → ℕ) → ℕ → KeycardServer → Result (RoomConfig × Session)
session_requested floats amount now s = do
  idle ← idle_timeout_seconds floats s.config
  ok (session_room s.config s.username, new_session (amount idle) s.username s.kept_rooms now)

authenticate-last :
    (names : List String) (username : String) (s : KeycardServer)
    → authenticate (names ++ username ∷ []) s ≡ record s { username = username }
unfolding authenticate begin_auth
authenticate-last [] username s = refl
authenticate-last (name ∷ names) username s =
    authenticate-last names username (record s { username = name })

resolve-get :
    (config : Config) (username : String)
    → resolve config username
      ≡ get (if has username config.rooms then username else config.default_room) config.rooms
unfolding resolve
resolve-get config username = ground arith

session_room-resolve :
    (config : Config) (username : String) (room : RoomConfig)
    → resolve config username ≡ some room
    → session_room config username ≡ room
unfolding session_room
session_room-resolve config username room e = rw (e, session_room) refl

module _ {F : Type 0} (floats : Floats F) (site : Site) where
  -- A server that was made has read the idle timeout.
  created-idle :
      (config : Config) (host_override : Option Text) (port_override : Option ℤ)
      (address : Text × ℤ)
      → create_server floats site config host_override port_override ≡ ok address
      → (x : F) × (idle_timeout_seconds floats config ≡ ok x)
  unfolding create_server
  created-idle config host_override port_override address created =
      let (_, _, keyed) = >>=-eq-ok (check_authorized_keys site) _ created in
      let (_, _, timed) = >>=-eq-ok (ensure_host_key site) _ keyed in
      let (x, idle, _) = >>=-eq-ok (idle_timeout_seconds floats config) _ timed in (x, idle)

  -- Once a server of a loaded configuration was made, no session that a client asks for fails for
  -- its configuration: whatever usernames a client has begun with, the session is made for
  -- the last one, with the configured room of that name where there is one and otherwise with the
  -- configured default room, in all its fields, never with the fallback, and with that username's claim on the kept rooms.
  pub requested_session_is_made :
      (py : Python) (file : Option Table) (config : Config) (host_override : Option Text)
      (port_override : Option ℤ) (address : Text × ℤ) (amount : F → ℕ) (kept : Option KeptRooms)
      (now : ℕ) (names : List String) (username : String)
      → load py file ≡ ok config
      → create_server floats site config host_override port_override ≡ ok address
      → (room : RoomConfig) × ((x : F) × (session_requested floats amount now
              (authenticate (names ++ username ∷ []) (new_connection config kept))
            ≡ ok (room, new_session (amount x) username kept now))
          × (idle_timeout_seconds floats config ≡ ok x)
          × (get (if has username config.rooms then username else config.default_room) config.rooms
              ≡ some room)
          × (room.name ≡ (if has username config.rooms then username else config.default_room)))
  unfolding session_requested
  requested_session_is_made py file config host_override port_override address amount kept now names
        username e created =
      let (x, idle) = created-idle config host_override port_override address created in
      let (room, resolved, named) = load_resolves py file config username e in
      (
        room,
        (
          x,
          rw
              (
                authenticate-last names username (new_connection config kept),
                idle,
                session_room-resolve config username room resolved,
              )
              refl,
          idle,
          sym (resolve-get config username) ∙ resolved,
          named,
        ),
      )
