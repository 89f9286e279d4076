-- ===== src/Server/Drained.antt =====
-- No session escapes the drain.
use keycard.Prelude.{
  ℕ, ◌-◌, String, Bool, ◌≡◌, ap, refl, some, Option, List, [], ◌∷◌, arith, count, ltb,
  if◌then◌else◌, Bool-cases, inl, inr, ok,
}
use keycard.Active.Flag.{count-remove}
use keycard.Active.{ActiveSessions, discard}
use keycard.Config.Toml.{Python, Table}
use keycard.Config.Types.{Config, resolve}
use keycard.Config.Load.{load}
use keycard.Config.Resolve.{load_resolves}
use keycard.Prelude.Dict.{has}
use keycard.Server.{session_room, release_each, force_close_rest, drain}

count-release :
    (ends : ℕ → Bool) (a : ℕ) (l : List ℕ) (s : ActiveSessions)
    → count a (release_each ends l s).sessions
      ≡ count a s.sessions - (if ends a then count a l else 0)
unfolding release_each discard
count-release ends a [] s = ground arith
count-release ends a (b ∷ bs) s = elim (Bool-cases (ends b)) [
  | inl gone ↦
      ground (arith, count-release ends a bs (discard b s), count-remove a b s.sessions, ap ends)
  | inr stays ↦ ground (arith, count-release ends a bs s)
]

rest_facts :
    (ends : ℕ → Bool) (notified : List ℕ) (a : ℕ) (s : ActiveSessions)
    → let d = force_close_rest ends notified s in
      (d.notified ≡ notified)
      × (d.closed ≡ s.sessions)
      × (count a d.active.sessions ≡ (if ends a then 0 else count a s.sessions))
unfolding force_close_rest
rest_facts ends notified a s = go s.sessions refl
  where
    go :
        (l : List ℕ)
        → s.sessions ≡ l
        → let d = force_close_rest ends notified s in
          (d.notified ≡ notified)
          × (d.closed ≡ s.sessions)
          × (count a d.active.sessions ≡ (if ends a then 0 else count a s.sessions))
    go [] e = ground arith
    go (b ∷ bs) e = ground (arith, count-release ends a (b ∷ bs) s)

-- Of the sessions that were registered when the drain began, each was warned if there is a grace
-- period, and each that did not leave within it was force-closed; what is registered at the end
-- is what was force-closed and did not end in time.
pub drain_reaches_all :
    (leaves ends : ℕ → Bool) (grace a : ℕ) (s : ActiveSessions)
    → let d = drain leaves ends grace s in
      (count a d.notified ≡ (if ltb 0 grace then count a s.sessions else 0))
      × (count a d.closed ≡ (
          if ltb 0 grace then (if leaves a then 0 else count a s.sessions) else count a s.sessions))
      × (count a d.active.sessions ≡ (if ends a then 0 else count a d.closed))
unfolding drain
drain_reaches_all leaves ends grace a s = go s.sessions refl
  where
    go :
        (l : List ℕ)
        → s.sessions ≡ l
        → let d = drain leaves ends grace s in
          (count a d.notified ≡ (if ltb 0 grace then count a s.sessions else 0))
          × (count a d.closed ≡ (
              if ltb 0 grace
              then (if leaves a then 0 else count a s.sessions)
              else count a s.sessions))
          × (count a d.active.sessions ≡ (if ends a then 0 else count a d.closed))
    go [] e = ground arith
    go (b ∷ bs) e =
        let t = release_each leaves (b ∷ bs) s in
        ground (
          arith,
          count-release leaves a (b ∷ bs) s,
          rest_facts ends (b ∷ bs) a t,
          rest_facts ends [] a s,
        )

-- With a configuration that loads, the room of a connection is that of its username, or else the
-- default room; the fallback image of `session_requested` is never used.
pub session_gets_configured_room :
    (py : Python) (file : Option Table) (config : Config) (username : String)
    → load py file ≡ ok config
    → (resolve config username ≡ some (session_room config username))
      × ((session_room config username).name
          ≡ (if has username config.rooms then username else config.default_room))
unfolding session_room
session_gets_configured_room py file config username e =
    let (room, found, named) = load_resolves py file config username e in
    ground (arith, found, named)
