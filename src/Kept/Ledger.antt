-- ===== src/Kept/Ledger.antt =====
-- Where every handle that was given to the registry is now.
use keycard.Prelude.{
  ℕ, ◌+◌, String, true, ◌≡◌, refl, some, List, [], ◌∷◌, ◌++◌, arith, count, count-append, to_list,
  Bool-cases, inl, inr,
}
use keycard.Prelude.Dict.{get, values, count-remove, count-put}
use keycard.Kept.{KeptRooms, init, take, keep, holds, expire}

-- What can happen to the registry: a reconnect, a disconnect, an expiry timer that wakes.
pub data Event : Type 0 where
  takes : String → Event
  keeps : String → ℕ → Event
  expires : String → ℕ → Event

-- The registry with what its clients gave it, got from it, and overwrote in it.
pub record Ledger : Type 0 where
  pub rooms : KeptRooms
  pub given : List ℕ
  pub taken : List ℕ
  pub overwritten : List ℕ

abbrev pub open_ledger : ℕ → Ledger
open_ledger window = record { rooms = init window; given = []; taken = []; overwritten = [] }

unfoldable pub step : Ledger → Event → Ledger
step l (takes u) =
    let (found, rooms) = take u l.rooms in
    record l { rooms = rooms; taken = to_list found ++ l.taken }
step l (keeps u k) = record l {
  rooms = keep u k l.rooms;
  given = k ∷ l.given;
  overwritten = to_list (get u l.rooms.by_username) ++ l.overwritten;
}
step l (expires u k) = record l { rooms = expire u k l.rooms }

unfoldable pub run : Ledger → List Event → Ledger
run l [] = l
run l (e ∷ es) = run (step l e) es

abbrev pub held : Ledger → List ℕ
held l = values l.rooms.by_username

-- The four places in which a handle may be.
abbrev pub Balanced : ℕ → Ledger → Type 0
Balanced a l =
    count a l.given
    ≡ count a (held l) + count a l.taken + count a l.rooms.destroyed + count a l.overwritten

pub held_value :
    (u : String) (k : ℕ) (s : KeptRooms) → holds u k s ≡ true → get u s.by_username ≡ some k
unfolding holds
held_value u k s h = ground arith

pub step-Balanced : (a : ℕ) (l : Ledger) (e : Event) → Balanced a l → Balanced a (step l e)
unfolding step take keep expire
step-Balanced a l (takes u) h = omega (
  arith,
  count-remove a u l.rooms.by_username,
  count-append a (to_list (get u l.rooms.by_username)) l.taken,
)
step-Balanced a l (keeps u k) h = omega (
  arith,
  count-put a u k l.rooms.by_username,
  count-append a (to_list (get u l.rooms.by_username)) l.overwritten,
)
step-Balanced a l (expires u k) h = elim (Bool-cases (holds u k l.rooms)) [
  | inl yes' ↦
      rw (yes', expire)
        (ground (arith, count-remove a u l.rooms.by_username, held_value u k l.rooms yes'))
  | inr no' ↦ rw (no', expire) h
]

run-Balanced : (a : ℕ) (l : Ledger) (es : List Event) → Balanced a l → Balanced a (run l es)
unfolding run
run-Balanced a l [] h = h
run-Balanced a l (e ∷ es) h = run-Balanced a (step l e) es (step-Balanced a l e h)

-- After any history of disconnects, reconnects and expiries, each handle that was given to the
-- registry is, as often as it was given, held, handed out, destroyed, or overwritten by a later
-- disconnect under its username: none is lost in another way and none is made up.
pub given-run :
    (window a : ℕ) (es : List Event)
    → let l = run (open_ledger window) es in
      count a l.given
      ≡ count a (held l) + count a l.taken + count a l.rooms.destroyed + count a l.overwritten
unfolding init
given-run window a es = run-Balanced a (open_ledger window) es refl
