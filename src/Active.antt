-- ===== src/Active.antt =====
-- `ActiveSessions` of src/keycard/session.py. A session is the number of its identity, and `empty`
-- whether the event is set on which `wait_empty` blocks.
pub mod Flag
mod Examples
use keycard.Prelude.{ℕ, Bool, true, false, List, [], ◌∷◌, ◌==◌, length, if◌then◌else◌}

pub record ActiveSessions : Type 0 where
  pub sessions : List ℕ
  pub empty : Bool

-- `__init__`
abbrev pub init : ActiveSessions
init = record { sessions = []; empty = true }

-- `__contains__`
unfoldable pub member : ℕ → List ℕ → Bool
member a [] = false
member a (b ∷ bs) = if b == a then true else member a bs

unfoldable pub remove : ℕ → List ℕ → List ℕ
remove a [] = []
remove a (b ∷ bs) = if b == a then bs else b ∷ remove a bs

-- `add`
unfoldable pub add : ℕ → ActiveSessions → ActiveSessions
unfolding member
add a s = record {
  sessions = if member a s.sessions then s.sessions else a ∷ s.sessions;
  empty = false;
}

-- `if not self._sessions: self._empty.set()`
abbrev pub set_if_empty : List ℕ → Bool → Bool
set_if_empty [] empty = true
set_if_empty (a ∷ as') empty = empty

-- `discard`
unfoldable pub discard : ℕ → ActiveSessions → ActiveSessions
unfolding remove
discard a s =
    let sessions = remove a s.sessions in
    record { sessions = sessions; empty = set_if_empty sessions s.empty }

-- `__len__`
abbrev pub len : ActiveSessions → ℕ
len s = length s.sessions

-- Whether `wait_empty` returns.
abbrev pub wait_empty : ActiveSessions → Bool
wait_empty s = s.empty
