-- ===== src/Routing/Startup.antt =====
-- The registry over a configuration that loads.
use keycard.Prelude.{
  ℕ, suc, eq_iff, String, true, ◌≡◌, refl, Option, none, some, List, [], ◌∷◌, ◌++◌, arith, ok, All,
  Option-cases, Bool-cases, inl, inr, str_eq,
}
use Prim.Native.String.{compare}
use text.Mathlib.Text.{is_le}
use keycard.Prelude.Dict.{get, put, values}
use keycard.Config.Toml.{Table, Python}
use keycard.Config.Types.{Config, RoomConfig, is_known_backend}
use keycard.Config.Load.{load}
use keycard.Config.Resolve.{IsValidBackend, load-IsLoaded}
use keycard.Config.Backed.{load-IsBacked}
use keycard.Routing.{
  Routing, constructs, Factories, contains, add, add_backends, insert_sorted, sorted, names_in_use,
  get_backend, get_all, new_routing,
}

abbrev AllKnown : List String → Type 0
AllKnown = All (λ name. is_known_backend name ≡ true)

snoc-AllKnown :
    (ns : List String) (a : String)
    → is_known_backend a ≡ true
    → AllKnown ns
    → AllKnown (ns ++ a ∷ [])
snoc-AllKnown [] a h hs = (h, tt)
snoc-AllKnown (n ∷ ns) a h hs = (hs.0, snoc-AllKnown ns a h hs.1)

add-AllKnown :
    (ns : List String) (a : String) → is_known_backend a ≡ true → AllKnown ns → AllKnown (add a ns)
unfolding add
add-AllKnown ns a h hs = elim (Bool-cases (contains a ns)) [
  | inl there ↦ rw (there, add) hs
  | inr missing ↦ rw (missing, add) (snoc-AllKnown ns a h hs)
]

add_backends-AllKnown :
    (rooms : List RoomConfig) (ns : List String)
    → All (λ room. IsValidBackend room.backend) rooms
    → AllKnown ns
    → AllKnown (add_backends rooms ns)
unfolding add_backends
add_backends-AllKnown [] ns valid h = h
add_backends-AllKnown (room ∷ rooms) ns valid h = elim (Bool-cases (str_eq room.backend "")) [
  | inl none_named ↦ rw (none_named, add_backends) (add_backends-AllKnown rooms ns valid.1 h)
  | inr named ↦
      rw (named, add_backends)
        (add_backends-AllKnown rooms (add room.backend ns) valid.1
          (add-AllKnown ns room.backend (ground (arith, valid.0, eq_iff room.backend "")) h))
]

insert_sorted-AllKnown :
    (a : String) (ns : List String)
    → is_known_backend a ≡ true
    → AllKnown ns
    → AllKnown (insert_sorted a ns)
unfolding insert_sorted
insert_sorted-AllKnown a [] h hs = (h, tt)
insert_sorted-AllKnown a (n ∷ ns) h hs = elim (Bool-cases (is_le (compare a n))) [
  | inl first ↦ rw (first, insert_sorted) (h, hs)
  | inr later ↦ rw (later, insert_sorted) (hs.0, insert_sorted-AllKnown a ns h hs.1)
]

sorted-AllKnown : (ns : List String) → AllKnown ns → AllKnown (sorted ns)
unfolding sorted
sorted-AllKnown [] h = tt
sorted-AllKnown (n ∷ ns) h = insert_sorted-AllKnown n (sorted ns) h.0 (sorted-AllKnown ns h.1)

-- Each backend that a configuration may name has a constructor, and it does not raise.
abbrev pub Builds : Factories → Type 0
Builds f = (name : String) → is_known_backend name ≡ true → f.factory name ≡ some none

module _ (f : Factories) (builds : Builds f) where
  pub get_backend-succeeds :
      (name : String) (s : Routing)
      → is_known_backend name ≡ true
      → (r : ℕ × Routing) × (get_backend f name s ≡ ok r)
  unfolding get_backend
  get_backend-succeeds name s h = elim (Option-cases (get name s.backends)) [
    | inl missing ↦
        let t : Routing = record s {
          backends = put name s.constructed s.backends;
          constructed = suc s.constructed;
          calls = constructs name s.constructed ∷ s.calls;
        } in
        ((s.constructed, t), rw (missing, builds name h, get_backend) refl)
    | inr (b, there) ↦ ((b, s), rw (there, get_backend) refl)
  ]

  get_all-succeeds :
      (names : List String) (s : Routing)
      → AllKnown names
      → (t : Routing) × (get_all f names s ≡ ok t)
  unfolding get_all
  get_all-succeeds [] s h = (s, refl)
  get_all-succeeds (n ∷ names) s h =
      let (r, found) = get_backend-succeeds n s h.0 in
      let (t, rest) = get_all-succeeds names r.1 h.1 in (t, rw (found, get_all) rest)

  pub known_config_starts :
      (cfg : Config)
      → is_known_backend cfg.backend ≡ true
      → All (λ room. IsValidBackend room.backend) (values cfg.rooms)
      → (s : Routing) × (new_routing f cfg ≡ ok s)
  unfolding new_routing names_in_use
  known_config_starts cfg known backed = get_all-succeeds (sorted (names_in_use cfg)) _ (
      sorted-AllKnown (names_in_use cfg)
        (add_backends-AllKnown (values cfg.rooms) (cfg.backend ∷ []) backed (known, tt)))

  -- With a configuration that loads, whatever backends its file names, the registry can be
  -- constructed if the two known backends can.
  pub loaded_config_starts :
      (py : Python) (file : Option Table) (cfg : Config)
      → load py file ≡ ok cfg
      → (s : Routing) × (new_routing f cfg ≡ ok s)
  loaded_config_starts py file cfg e =
      known_config_starts cfg (load-IsLoaded py file cfg e).backend_known
        (load-IsBacked py file cfg e)
