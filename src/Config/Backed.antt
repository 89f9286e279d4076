-- ===== src/Config/Backed.antt =====
-- Every entry of the rooms that `load` gives, whether `resolve` finds it or not, has a backend that
-- exists or none of its own.
use keycard.Prelude.{
  String, ◌≡◌, refl, Option, none, some, [], ◌∷◌, arith, ok, err, Result, >>=-eq-ok, All,
  Option-cases, inl, inr, Bool-cases, subst, str_eq,
}
use keycard.Prelude.Dict.{Dict, put, values}
use keycard.Config.Toml.{Table, end, entry, Python}
use keycard.Config.Types.{RoomConfig, Config, plain_room, default_config}
use keycard.Config.Load.{
  load, from_table, with_rooms, parse_rooms, parse_entries, room_image, sub_table, or_builtin,
  builtin_rooms, builtin_config,
}
use keycard.Config.Resolve.{IsValidBackend, parse_room-IsSound}

record IsBacked (rooms : Dict RoomConfig) : Type 0 where
  all : All (λ room. IsValidBackend room.backend) (values rooms)

put-IsBacked :
    (name : String) (room : RoomConfig) (rooms : Dict RoomConfig)
    → IsValidBackend room.backend
    → All (λ r. IsValidBackend r.backend) (values rooms)
    → All (λ r. IsValidBackend r.backend) (values (put name room rooms))
unfolding put
put-IsBacked name room [] h hs = (h, tt)
put-IsBacked name room ((k, r) ∷ rooms) h hs = elim (Bool-cases (str_eq k name)) [
  | inl same ↦ rw (same, put) (h, hs.1)
  | inr other ↦ rw (other, put) (hs.0, put-IsBacked name room rooms h hs.1)
]

builtin-IsBacked : IsBacked builtin_rooms
unfolding builtin_rooms plain_room
builtin-IsBacked = record { all = (inl refl, (inl refl, (inl refl, tt))) }

or_builtin-IsBacked : (rooms : Dict RoomConfig) → IsBacked rooms → IsBacked (or_builtin rooms)
unfolding or_builtin
or_builtin-IsBacked [] h = builtin-IsBacked
or_builtin-IsBacked (e ∷ rooms) h = h

module _ (py : Python) where
  parse_entries-IsBacked :
      (t : Table) (rooms found : Dict RoomConfig)
      → IsBacked rooms
      → parse_entries py t rooms ≡ ok found
      → IsBacked found
  unfolding parse_entries
  parse_entries-IsBacked end rooms found h e = subst IsBacked (ground arith) h
  parse_entries-IsBacked (entry name val rest) rooms found h e =
      elim (Option-cases (room_image val)) [
        | inl skip ↦ parse_entries-IsBacked rest rooms found h (rw (skip, parse_entries) at e)
        | inr ((image, t), image_is) ↦
            let (room, room_is, e') = >>=-eq-ok _ _ (rw (image_is, parse_entries) at e) in
            parse_entries-IsBacked rest (put name room rooms) found
              (record {
                all =
                    put-IsBacked name room rooms
                      (parse_room-IsSound py name image t room room_is).backed h.all;
              })
              e'
      ]

  parse_rooms-IsBacked :
      (raw : Table) (rooms : Dict RoomConfig) → parse_rooms py raw ≡ ok rooms → IsBacked rooms
  unfolding parse_rooms
  parse_rooms-IsBacked raw rooms e = go (sub_table "rooms" raw) e
    where
      empty : IsBacked []
      empty = record { all = tt }

      go :
          (t : Option Table)
          → (elim t [ none ↦ ok [] | some t ↦ parse_entries py t [] ]) ≡ ok rooms
          → IsBacked rooms
      go none e' = subst IsBacked (ground arith) empty
      go (some t) e' = parse_entries-IsBacked t [] rooms empty e'

  builtin_config-IsBacked : IsBacked (builtin_config py).rooms
  unfolding builtin_config default_config
  builtin_config-IsBacked = builtin-IsBacked

  pub load-IsBacked :
      (file : Option Table) (cfg : Config)
      → load py file ≡ ok cfg
      → All (λ room. IsValidBackend room.backend) (values cfg.rooms)
  unfolding load from_table
  load-IsBacked none cfg e =
      let same : builtin_config py ≡ cfg = cc in
      (subst (λ c. IsBacked c.rooms) same builtin_config-IsBacked).all
  load-IsBacked (some raw) cfg e = go (parse_rooms py raw) refl
    where
      loaded :
          (parsed : Dict RoomConfig)
          → parse_rooms py raw ≡ ok parsed
          → with_rooms py raw parsed ≡ cfg
      loaded parsed p = ground arith

      go :
          (parsed : Result (Dict RoomConfig))
          → parse_rooms py raw ≡ parsed
          → All (λ room. IsValidBackend room.backend) (values cfg.rooms)
      go (err x) p = absurd (ground arith)
      go (ok parsed) p =
          (subst (λ c. IsBacked c.rooms) (loaded parsed p)
            (unfold with_rooms in
              or_builtin-IsBacked parsed (parse_rooms-IsBacked raw parsed p))).all
