-- ===== src/Kept.antt =====
-- `KeptRooms` of src/keycard/session.py: rooms paused on disconnect, held by username for a keep
-- window. A `Kept` handle is a number that stands for its identity (the source compares by `is`).
-- The clock enters as the choice of when a sleeping `_expire` task wakes.
pub mod Ledger
pub mod Overwrite
pub mod Sweep
mod Examples
use keycard.Prelude.{
  ℕ, String, Bool, true, false, Option, none, some, List, [], ◌∷◌, ◌++◌, ltb, ◌==◌, if◌then◌else◌,
}
use keycard.Prelude.Dict.{Dict, get, put, remove}

pub record KeptRooms : Type 0 where
  -- zero disables the registry; the unit is immaterial
  pub window_seconds : ℕ
  pub by_username : Dict ℕ
  -- the `_expire` tasks that still sleep
  pub timers : List (String × ℕ)
  -- the calls of `backend.destroy_kept`, latest first
  pub destroyed : List ℕ

unfoldable pub init : ℕ → KeptRooms
init window = record { window_seconds = window; by_username = []; timers = []; destroyed = [] }

unfoldable pub enabled : KeptRooms → Bool
enabled s = ltb 0 s.window_seconds

-- `dict.pop(username, None)`
unfoldable pub take : String → KeptRooms → Option ℕ × KeptRooms
take username s =
    (get username s.by_username, record s { by_username = remove username s.by_username })

-- What `keep` does once `room.pause()` has returned `kept`.
unfoldable pub keep : String → ℕ → KeptRooms → KeptRooms
keep username kept s = record s {
  by_username = put username kept s.by_username;
  timers = (username, kept) ∷ s.timers;
}

-- `self._by_username.get(username) is kept`
unfoldable pub holds : String → ℕ → KeptRooms → Bool
holds username kept s = elim (get username s.by_username) [
  | none ↦ false
  | some held ↦ held == kept
]

-- The guarded removal that `_expire` and `destroy_all` share.
unfoldable pub drop_kept : String → ℕ → KeptRooms → KeptRooms
drop_kept username kept s = record s {
  by_username = remove username s.by_username;
  destroyed = kept ∷ s.destroyed;
}

-- `_expire` after its sleep.
unfoldable pub expire : String → ℕ → KeptRooms → KeptRooms
unfolding holds drop_kept
expire username kept s = if holds username kept s then drop_kept username kept s else s

-- The loop of `destroy_all` over its snapshot of the items. `raises` tells which calls of
-- `destroy_kept` raise: such a call ends the loop, and the result is `false`.
pub sweep : (ℕ → Bool) → List (String × ℕ) → KeptRooms → Bool × KeptRooms
sweep raises [] s = (true, s)
sweep raises ((username, kept) ∷ items) s =
    let rest = sweep raises items (drop_kept username kept s) in
    let skipped = sweep raises items s in
    if holds username kept s
    then (if raises kept then (false, drop_kept username kept s) else rest)
    else skipped

pub destroy_all : (ℕ → Bool) → KeptRooms → Bool × KeptRooms
unfolding sweep
destroy_all raises s = sweep raises s.by_username s
