-- ===== src/Routing.antt =====
-- src/keycard/backends/routing.py: the registry of backends that is itself a backend. A backend
-- object is the number of its construction; what its methods give back is an argument, and the
-- calls made on it are a list, latest first.
pub mod Home
pub mod Pauses
pub mod Ready
pub mod Startup
pub mod Warned
pub mod Wrapped
mod Examples
use Prim.Native.String.{compare}
use text.Mathlib.Text.{is_le}
use keycard.Prelude.{
  ℕ, suc, String, Bool, true, false, not, ◌||◌, Option, none, some, List, [], ◌∷◌, ◌++◌, map,
  Result, ok, err, Error, value_error, ◌>>=◌, str_eq, if◌then◌else◌,
}
use keycard.Prelude.Dict.{Dict, get, put, values}
use keycard.Config.Types.{Config, RoomConfig}

-- A handle of a room, or of a paused room, with the name of the backend that made it:
-- `RoutedRoom` and `RoutedKept`. The class `Kept` is opaque, so the inner handle is any type.
pub record Routed (A : Type 0) : Type 0 where
  pub backend_name : String
  pub inner : A

pub data Call : Type 0 where
  constructs : String → ℕ → Call
  opens : ℕ → String → Call
  resumes : ℕ → ℕ → Call
  destroys_kept : ℕ → ℕ → Call
  closes : ℕ → Call

pub record Routing : Type 0 where
  pub config : Config
  pub backends : Dict ℕ
  pub constructed : ℕ
  pub calls : List Call

-- `FACTORIES`: the constructors that exist, and which of them raise.
pub record Factories : Type 0 where
  pub factory : String → Option (Option Error)

unfoldable pub note : Call → Routing → Routing
note c s = record s { calls = c ∷ s.calls }

-- `can_pause` of the rooms of each backend: the default of `Room`, and what `FirecrackerRoom` says.
unfoldable pub can_pause : String → Bool
can_pause name = if str_eq name "firecracker" then false else true

-- `RoutedRoom.can_pause`
unfoldable pub routed_can_pause : Routed ℕ → Bool
unfolding can_pause
routed_can_pause room = can_pause room.backend_name

-- `RoutedRoom.pause`, with what the inner room's `pause` returned.
unfoldable pub pause_routed : Routed ℕ → ℕ → Routed ℕ
pause_routed room handle = record { backend_name = room.backend_name; inner = handle }

-- Python's `a or b` on strings
abbrev pub or_text : String → String → String
or_text a b = if str_eq a "" then b else a

unfoldable pub name_for : Config → RoomConfig → String
name_for config room = or_text room.backend config.backend

-- A set of names, as a list with none twice, and `sorted`.
unfoldable pub contains : String → List String → Bool
contains name [] = false
contains name (n ∷ ns) = str_eq n name || contains name ns

unfoldable pub add : String → List String → List String
unfolding contains
add name ns = if contains name ns then ns else ns ++ name ∷ []

unfoldable pub insert_sorted : String → List String → List String
insert_sorted a [] = a ∷ []
insert_sorted a (b ∷ bs) = if is_le (compare a b) then a ∷ b ∷ bs else b ∷ insert_sorted a bs

unfoldable pub sorted : List String → List String
unfolding insert_sorted
sorted [] = []
sorted (a ∷ as') = insert_sorted a (sorted as')

-- The loop of `names.update(…)`.
unfoldable pub add_backends : List RoomConfig → List String → List String
unfolding add
add_backends [] names = names
add_backends (room ∷ rooms) names =
    add_backends rooms (if str_eq room.backend "" then names else add room.backend names)

-- `_names_in_use`
unfoldable pub names_in_use : Config → List String
unfolding add_backends
names_in_use config = add_backends (values config.rooms) (config.backend ∷ [])

module _ (f : Factories) where
  -- The construction in `_get`.
  unfoldable pub construct : String → Option (Option Error) → Routing → Result (ℕ × Routing)
  construct name none s = err value_error
  construct name (some (some e)) s = err e
  construct name (some none) s = ok (
    s.constructed,
    record s {
      backends = put name s.constructed s.backends;
      constructed = suc s.constructed;
      calls = constructs name s.constructed ∷ s.calls;
    },
  )

  -- `_get`
  unfoldable pub get_backend : String → Routing → Result (ℕ × Routing)
  unfolding construct
  get_backend name s = elim (get name s.backends) [
    | some backend ↦ ok (backend, s)
    | none ↦ construct name (f.factory name) s
  ]

  -- The loop of `__init__`.
  unfoldable pub get_all : List String → Routing → Result Routing
  get_all [] s = ok s
  get_all (name ∷ names) s = get_backend name s >>= λ r. get_all names r.1

  -- `RoutingBackend.__init__`
  unfoldable pub new_routing : Config → Result Routing
  unfolding get_all
  new_routing config =
      get_all (sorted (names_in_use config))
        (record { config = config; backends = []; constructed = 0; calls = [] })

  -- `open`; `opened` is what the backend's own `open` gives.
  unfoldable pub open_room : RoomConfig → Result ℕ → Routing → Result (Routed ℕ) × Routing
  open_room room opened s =
      let name = name_for s.config room in
      elim (get_backend name s) [
        | err e ↦ (err e, s)
        | ok (b, s') ↦ (
          opened >>= (λ r. ok (record { backend_name = name; inner = r })),
          note (opens b room.name) s',
        )
      ]

  -- `resume`
  unfoldable pub resume_room : Routed ℕ → Result ℕ → Routing → Result (Routed ℕ) × Routing
  resume_room kept resumed s = elim (get_backend kept.backend_name s) [
    | err e ↦ (err e, s)
    | ok (b, s') ↦ (
      resumed >>= (λ r. ok (record { backend_name = kept.backend_name; inner = r })),
      note (resumes b kept.inner) s',
    )
  ]

  -- `destroy_kept`
  unfoldable pub destroy_kept : Routed ℕ → Routing → Result (Unit {0}) × Routing
  destroy_kept kept s = elim (get_backend kept.backend_name s) [
    | err e ↦ (err e, s)
    | ok (b, s') ↦ (ok tt, note (destroys_kept b kept.inner) s')
  ]

  -- The generator of `rooms_without_keep`; `can_pause` is the backend's.
  unfoldable pub names_without_keep :
      (ℕ → Bool) → List RoomConfig → Routing → Result (List String × Routing)
  names_without_keep can_pause [] s = ok ([], s)
  names_without_keep can_pause (room ∷ rooms) s = do
    (b, s₁) ← get_backend (name_for s.config room) s
    (names, s₂) ← names_without_keep can_pause rooms s₁
    ok ((if can_pause b then names else room.name ∷ names), s₂)

  -- `rooms_without_keep`
  unfoldable pub rooms_without_keep : (ℕ → Bool) → Routing → Result (List String × Routing)
  unfolding names_without_keep
  rooms_without_keep can_pause s = do
    (names, s') ← names_without_keep can_pause (values s.config.rooms) s
    ok (sorted names, s')

-- `close`: an exception of one backend is caught, and the loop goes on; a cancel while a backend closes
-- is not caught. The flag tells whether the loop came to its end.
unfoldable pub close_each : (ℕ → Bool) → List ℕ → Routing → Bool × Routing
close_each cancels [] s = (true, s)
close_each cancels (b ∷ bs) s =
    let noted = note (closes b) s in
    let rest = close_each cancels bs noted in if cancels b then (false, noted) else rest

unfoldable pub close_all : (ℕ → Bool) → Routing → Bool × Routing
unfolding close_each
close_all cancels s = close_each cancels (values s.backends) s
