-- ===== src/Cli.antt =====
-- `rooms` of src/keycard/cli.py: the list of the configured rooms, a line for each. A string is its code
-- points.
pub mod Up
mod Examples
use Prim.Native.Nat.{max}
use keycard.Prelude.{
  ℕ, zero, suc, ◌-◌, ◌≤◌, String, Bool, true, false, not, ◌&&◌, ◌≡◌, refl, List, [], ◌∷◌, ◌++◌, map,
  arith, ℤ, Text, codes, length, length-append, str_eq, All, if◌then◌else◌,
}
use keycard.Prelude.Dict.{values}
use keycard.Prelude.Decimals.{show_int}
use keycard.Config.Types.{Config, RoomConfig}
use keycard.Banner.{repeat, length-repeat}

-- `f"{name:<{n}}"`
unfoldable pub pad_right : ℕ → Text → Text
unfolding repeat
pad_right n name = name ++ repeat (n - length name) 32

-- `max(len(r.name) for r in …)`
unfoldable pub longest : List RoomConfig → ℕ
longest [] = 0
longest (room ∷ rooms) = max (length (codes room.name)) (longest rooms)

abbrev only_if : Bool → List Text → List Text
only_if b extras = if b then extras else []

abbrev is_nonzero : ℤ → Bool
is_nonzero (ℤ.pos zero) = false
is_nonzero _ = true

-- The notes behind a room.
unfoldable pub extras : Config → RoomConfig → List Text
extras config room =
    only_if (not (str_eq room.memory "")) ((codes "mem=" ++ codes room.memory) ∷ [])
    ++ (only_if (is_nonzero room.cpus) ((codes "cpus=" ++ show_int room.cpus) ∷ [])
        ++ (only_if (str_eq room.network "none") (codes "offline" ∷ [])
            ++ only_if (not (str_eq room.backend "") && not (str_eq room.backend config.backend))
                (codes room.backend ∷ [])))

-- `", ".join`
unfoldable pub join_commas : List Text → Text
join_commas [] = []
join_commas (t ∷ []) = t
join_commas (t ∷ u ∷ ts) = t ++ b',' ∷ 32 ∷ join_commas (u ∷ ts)

abbrev bracketed : List Text → Text
bracketed [] = []
bracketed (t ∷ ts) = codes "  [" ++ join_commas (t ∷ ts) ++ codes "]"

unfoldable pub room_line : Config → ℕ → RoomConfig → Text
unfolding pad_right extras join_commas
room_line config n room =
    codes "  "
    ++ pad_right n (codes room.name)
    ++ codes "  "
    ++ codes room.image
    ++ (if str_eq room.name config.default_room then codes " (default)" else [])
    ++ bracketed (extras config room)

-- What `rooms` prints.
unfoldable pub rooms : Config → List Text
unfolding longest room_line
rooms config = elim (values config.rooms) [
  | [] ↦ codes "No rooms configured." ∷ []
  | r ∷ rs ↦ map (room_line config (longest (r ∷ rs))) (r ∷ rs)
]

-- The name of each room comes out as wide as the longest.
abbrev AreAligned : ℕ → List RoomConfig → Type 0
AreAligned n = All (λ room. length (pad_right n (codes room.name)) ≡ n)

pad_right-AreAligned : (n : ℕ) (rs : List RoomConfig) → longest rs ≤ n → AreAligned n rs
unfolding longest pad_right
pad_right-AreAligned n [] h = tt
pad_right-AreAligned n (room ∷ rs) h = (
  ground (
    arith,
    length-append (codes room.name) (repeat (n - length (codes room.name)) 32),
    length-repeat (n - length (codes room.name)) 32,
  ),
  pad_right-AreAligned n rs (omega (arith, h)),
)

-- The lines of `rooms` have the rooms' images in one column: each name is filled up to the length of
-- the longest one, in whatever order they come and however many there are.
pub names_fill_column :
    (config : Config) → AreAligned (longest (values config.rooms)) (values config.rooms)
names_fill_column config = pad_right-AreAligned _ (values config.rooms) (omega arith)
