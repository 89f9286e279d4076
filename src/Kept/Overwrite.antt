-- ===== src/Kept/Overwrite.antt =====
-- A room that a later disconnect overwrites in the registry, and an expiry timer that outlives
-- its room.
use keycard.Prelude.{
  ℕ, String, ◌≡◌, ◌≢◌, refl, some, List, [], ◌∷◌, arith, count, count-append, to_list, Bool-cases,
  inl, inr, All, eq_iff,
}
use keycard.Prelude.Dict.{get, remove, count-remove, count-put, get-put}
use keycard.Kept.{KeptRooms, take, keep, holds, expire}
use keycard.Kept.Ledger.{Event, takes, keeps, expires, Ledger, step, run, held, held_value}

-- `a` is not given to the registry by this event.
abbrev pub Spares : ℕ → Event → Type 0
Spares a (takes u) = Unit
Spares a (keeps u k) = k ≢ a
Spares a (expires u k) = Unit

-- `a` has left the registry, and the two lists that clean-up or a reconnect would enter it in
-- have not changed.
record IsLost (a : ℕ) (l m : Ledger) : Type 0 where
  gone : count a (held m) ≡ 0
  not_taken : count a m.taken ≡ count a l.taken
  not_destroyed : count a m.rooms.destroyed ≡ count a l.rooms.destroyed

step-IsLost : (a : ℕ) (l m : Ledger) (e : Event) → Spares a e → IsLost a l m → IsLost a l (step m e)
unfolding step take keep expire
step-IsLost a l m (takes u) sp h = record {
  gone = omega (arith, count-remove a u m.rooms.by_username, h.gone);
  not_taken = omega (
    arith,
    count-remove a u m.rooms.by_username,
    h.gone,
    h.not_taken,
    count-append a (to_list (get u m.rooms.by_username)) m.taken,
  );
  not_destroyed = h.not_destroyed;
}
step-IsLost a l m (keeps u k) sp h = record {
  gone = ground (arith, count-put a u k m.rooms.by_username, h.gone);
  not_taken = h.not_taken;
  not_destroyed = h.not_destroyed;
}
step-IsLost a l m (expires u k) sp h = elim (Bool-cases (holds u k m.rooms)) [
  | inl there ↦
      rw (there, expire)
        (ground (arith, count-remove a u m.rooms.by_username, held_value u k m.rooms there, h))
  | inr not_there ↦ rw (not_there, expire) h
]

run-IsLost :
    (a : ℕ) (l m : Ledger) (es : List Event)
    → All (Spares a) es
    → IsLost a l m
    → IsLost a l (run m es)
unfolding run
run-IsLost a l m [] sp h = h
run-IsLost a l m (e ∷ es) sp h = run-IsLost a l (step m e) es sp.1 (step-IsLost a l m e sp.0 h)

overwrite-IsLost :
    (l : Ledger) (u : String) (a k : ℕ)
    → get u l.rooms.by_username ≡ some a
    → count a (held l) ≡ 1
    → k ≢ a
    → IsLost a l (step l (keeps u k))
unfolding step keep
overwrite-IsLost l u a k found once other = record {
  gone = ground (arith, count-put a u k l.rooms.by_username);
  not_taken = refl;
  not_destroyed = refl;
}

-- A room `a` is held under a username, and a second session of that username disconnects and
-- keeps another room: whatever happens from then on, as long as nothing gives `a` to the registry
-- again, `a` is never destroyed and never handed out for a reconnect.
pub overwritten_is_lost :
    (l : Ledger) (u : String) (a k : ℕ) (es : List Event)
    → get u l.rooms.by_username ≡ some a
    → count a (held l) ≡ 1
    → k ≢ a
    → All (Spares a) es
    → let m = run (step l (keeps u k)) es in
      (count a (held m) ≡ 0)
      × (count a m.taken ≡ count a l.taken)
      × (count a m.rooms.destroyed ≡ count a l.rooms.destroyed)
overwritten_is_lost l u a k es found once other sp =
    let h = run-IsLost a l (step l (keeps u k)) es sp (overwrite-IsLost l u a k found once other) in
    (h.gone, h.not_taken, h.not_destroyed)

-- A reconnect that claims a room and disconnects again, keeping it under a new handle, is not cut
-- short by the timer of the first disconnect: that timer wakes and changes nothing.
pub stale_timer_spares :
    (u : String) (old new : ℕ) (s : KeptRooms)
    → old ≢ new
    → let rejoined = keep u new (take u s).1 in
      (expire u old rejoined ≡ rejoined) × (get u rejoined.by_username ≡ some new)
unfolding expire keep take
stale_timer_spares u old new s other =
    ground (arith, get-put u u new (remove u s.by_username), eq_iff u u)
