-- ===== src/Config/Resolve.antt =====
-- What a loaded configuration guarantees to the server: every username has a room, and every
-- backend that a room or the top level names is one that exists.
use keycard.Prelude.{
  String, true, ◌≡◌, ◌⊎◌, inl, inr, refl, subst, Option, none, some, [], ◌∷◌, arith, Result, ok,
  err, >>=-eq-ok, str_eq, eq_iff, eq_refl, if◌then◌else◌, Bool-cases, Option-cases,
}
use keycard.Prelude.Dict.{Dict, get, put, has, get-put}
use keycard.Config.Toml.{Table, entry, end, find, Python}
use keycard.Config.Types.{
  RoomConfig, Config, resolve, is_known_backend, plain_room, is_confinement_mode,
  default_firecracker, default_backend, default_config, default_confinement,
}
use keycard.Config.Load.{
  valid_backend, str_key, builtin_rooms, parse_room, room_image, parse_entries, parse_rooms,
  sub_table, builtin_config, top_backend, or_builtin, settle_default, from_table, with_rooms, load,
  confinement_mode, parse_firecracker,
}

-- A backend key that leaves the choice to the top level, or names a backend.
abbrev pub IsValidBackend : String → Type 0
IsValidBackend name = (name ≡ "") ⊎ (is_known_backend name ≡ true)

-- A room under its own name, with a usable backend key.
pub record IsSound (name : String) (room : RoomConfig) : Type 0 where
  pub named : room.name ≡ name
  pub backed : IsValidBackend room.backend

pub record AreSound (rooms : Dict RoomConfig) : Type 0 where
  pub at_key : (name : String) (room : RoomConfig) → get name rooms ≡ some room → IsSound name room

is_known_default : is_known_backend default_backend ≡ true
unfolding is_known_backend
is_known_default = refl

valid_backend-IsValidBackend : (name : String) → IsValidBackend (valid_backend name)
unfolding valid_backend
valid_backend-IsValidBackend name = ground (arith, eq_iff name "", is_known_default)

put-AreSound :
    (name : String) (room : RoomConfig) (rooms : Dict RoomConfig)
    → IsSound name room
    → AreSound rooms
    → AreSound (put name room rooms)
put-AreSound name room rooms h hs = record {
  at_key = λ k r e. elim (Bool-cases (str_eq name k)) [
    | inl same ↦ ground (arith, get-put name k room rooms, eq_iff name k)
    | inr other ↦ hs.at_key k r (ground (arith, get-put name k room rooms))
  ];
}

builtin-AreSound : AreSound builtin_rooms
unfolding builtin_rooms plain_room get
builtin-AreSound = record {
  at_key = λ k r e. ground (arith, eq_iff "ubuntu" k, eq_iff "python" k, eq_iff "node" k);
}

or_builtin-AreSound : (rooms : Dict RoomConfig) → AreSound rooms → AreSound (or_builtin rooms)
unfolding or_builtin
or_builtin-AreSound [] h = builtin-AreSound
or_builtin-AreSound (e ∷ rooms) h = h

module _ (py : Python) where
  pub parse_room-IsSound :
      (name image : String) (val : Table) (room : RoomConfig)
      → parse_room py name image val ≡ ok room
      → IsSound name room
  unfolding parse_room
  parse_room-IsSound name image val room e = record {
    named = ground arith;
    backed = ground (arith, valid_backend-IsValidBackend (str_key py "backend" "" val));
  }

  parse_entries-AreSound :
      (t : Table) (rooms found : Dict RoomConfig)
      → AreSound rooms
      → parse_entries py t rooms ≡ ok found
      → AreSound found
  unfolding parse_entries
  parse_entries-AreSound end rooms found h e = ground arith
  parse_entries-AreSound (entry name val rest) rooms found h e =
      elim (Option-cases (room_image val)) [
        | inl skip ↦ parse_entries-AreSound rest rooms found h (rw (skip, parse_entries) at e)
        | inr ((image, t), image_is) ↦
            let (room, room_is, e') = >>=-eq-ok _ _ (rw (image_is, parse_entries) at e) in
            parse_entries-AreSound rest (put name room rooms) found
              (put-AreSound name room rooms (parse_room-IsSound name image t room room_is) h) e'
      ]

  parse_rooms-AreSound :
      (raw : Table) (rooms : Dict RoomConfig) → parse_rooms py raw ≡ ok rooms → AreSound rooms
  unfolding parse_rooms
  parse_rooms-AreSound raw rooms e = go (sub_table "rooms" raw) e
    where
      empty : AreSound []
      empty = record { at_key = λ k r found. (unfold get in cc found) }

      go :
          (t : Option Table)
          → (elim t [ none ↦ ok [] | some t ↦ parse_entries py t [] ]) ≡ ok rooms
          → AreSound rooms
      go none e' = subst AreSound (ground arith) empty
      go (some t) e' = parse_entries-AreSound t [] rooms empty e'

-- The fields of a loaded configuration that its users rely on.
pub record IsLoaded (cfg : Config) : Type 0 where
  pub sound : AreSound cfg.rooms
  pub has_default : (room : RoomConfig) × (get cfg.default_room cfg.rooms ≡ some room)
  pub backend_known : is_known_backend cfg.backend ≡ true
  pub mode_known : is_confinement_mode cfg.firecracker.confinement ≡ true

get_first :
    (k : String) (room : RoomConfig) (rooms : Dict RoomConfig)
    → get k ((k, room) ∷ rooms) ≡ some room
unfolding get
get_first k room rooms = rw (eq_refl k)

settle_missing :
    (name k : String) (room : RoomConfig) (rooms : Dict RoomConfig)
    → get name ((k, room) ∷ rooms) ≡ none
    → settle_default name ((k, room) ∷ rooms) ≡ k
unfolding settle_default
settle_missing name k room rooms e = ground arith

settle_found :
    (name k : String) (room r : RoomConfig) (rooms : Dict RoomConfig)
    → get name ((k, room) ∷ rooms) ≡ some r
    → settle_default name ((k, room) ∷ rooms) ≡ name
unfolding settle_default
settle_found name k room r rooms e = ground arith

settled_first :
    (name k : String) (room : RoomConfig) (rooms : Dict RoomConfig)
    → let d = (k, room) ∷ rooms in (r : RoomConfig) × (get (settle_default name d) d ≡ some r)
settled_first name k room rooms = elim (Option-cases (get name ((k, room) ∷ rooms))) [
  | inl e ↦ (room, rw (settle_missing name k room rooms e) (get_first k room rooms))
  | inr (r, e) ↦ (r, rw (settle_found name k room r rooms e) e)
]

settled_is_there :
    (name : String) (parsed : Dict RoomConfig)
    → (r : RoomConfig) × (get (settle_default name (or_builtin parsed)) (or_builtin parsed)
        ≡ some r)
unfolding or_builtin builtin_rooms
settled_is_there name [] = settled_first name _ _ _
settled_is_there name ((k, room) ∷ rooms) = settled_first name k room rooms

known_default_mode : is_confinement_mode default_confinement ≡ true
unfolding is_confinement_mode
known_default_mode = refl

known_mode : (mode : String) → is_confinement_mode (confinement_mode mode) ≡ true
unfolding confinement_mode
known_mode mode = ground (arith, known_default_mode)

module _ (py : Python) where
  given_backend : Table → String
  given_backend raw = elim (find "backend" raw) [ none ↦ "" | some v ↦ py.str_of v ]

  top_backend_known : (raw : Table) → is_known_backend (top_backend py raw) ≡ true
  unfolding top_backend given_backend
  top_backend_known raw = ground (
    arith,
    is_known_default,
    valid_backend-IsValidBackend (given_backend raw),
    eq_iff (valid_backend (given_backend raw)) "",
  )

  confinement_known :
      (raw : Table) → is_confinement_mode (parse_firecracker py raw).confinement ≡ true
  unfolding parse_firecracker
  confinement_known raw = grind (arith, known_mode, known_default_mode)

  builtin-IsLoaded : IsLoaded (builtin_config py)
  unfolding builtin_config default_config default_firecracker
  builtin-IsLoaded = record {
    sound = builtin-AreSound;
    has_default = unfold builtin_rooms in (_, get_first "ubuntu" _ _);
    backend_known = is_known_default;
    mode_known = known_default_mode;
  }

  pub load-IsLoaded : (file : Option Table) (cfg : Config) → load py file ≡ ok cfg → IsLoaded cfg
  unfolding load from_table
  load-IsLoaded none cfg e = subst IsLoaded (cc) builtin-IsLoaded
  load-IsLoaded (some raw) cfg e = go (parse_rooms py raw) refl
    where
      loaded :
          (parsed : Dict RoomConfig)
          → parse_rooms py raw ≡ ok parsed
          → with_rooms py raw parsed ≡ cfg
      loaded parsed p = ground arith

      go : (parsed : Result (Dict RoomConfig)) → parse_rooms py raw ≡ parsed → IsLoaded cfg
      go (err x) p = absurd (ground arith)
      go (ok parsed) p = subst IsLoaded (loaded parsed p) (
          unfold with_rooms in
          record {
            sound = or_builtin-AreSound parsed (parse_rooms-AreSound py raw parsed p);
            has_default = settled_is_there (str_key py "default_room" "ubuntu" raw) parsed;
            backend_known = top_backend_known raw;
            mode_known = confinement_known raw;
          })

  -- A configuration that loads gives every username a room: the room of that name where there is
  -- one, and otherwise the default room, which is one of the rooms.
  pub load_resolves :
      (file : Option Table) (cfg : Config) (username : String)
      → load py file ≡ ok cfg
      → (room : RoomConfig) × (resolve cfg username ≡ some room)
        × (room.name ≡ (if has username cfg.rooms then username else cfg.default_room))
  unfolding resolve
  load_resolves file cfg username e =
      let h = load-IsLoaded file cfg e in
      elim (Option-cases (get username cfg.rooms)) [
        | inl missing ↦
            let (room, found) = h.has_default in
            (room, rw (missing, resolve) found, ground (arith, (h.sound.at_key _ room found).named))
        | inr (room, found) ↦
            (room, rw (found, resolve) refl, ground (arith, (h.sound.at_key _ room found).named))
      ]

  -- Every backend that a loaded configuration names exists, at the top level and on each room that
  -- names one, and the confinement mode is one of the three.
  pub load_names_known :
      (file : Option Table) (cfg : Config) (name : String) (room : RoomConfig)
      → load py file ≡ ok cfg
      → get name cfg.rooms ≡ some room
      → (is_known_backend cfg.backend ≡ true)
        × IsValidBackend room.backend
        × (is_confinement_mode cfg.firecracker.confinement ≡ true)
  load_names_known file cfg name room e found =
      let h = load-IsLoaded file cfg e in
      (h.backend_known, (h.sound.at_key name room found).backed, h.mode_known)
