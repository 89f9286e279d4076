-- ===== src/Rooms.antt =====
-- The contract of src/keycard/backends/base.py for `Room.destroy`: it "must be safe to call more than
-- once". A backend's room is any state with a `destroy`.
use keycard.Prelude.{
  ℕ, suc, ◌≡◌, refl, Bool, true, false, ◌||◌, List, [], ◌∷◌, ℤ, pos, Text, Result, ok, err, Error,
  map, if◌then◌else◌,
}

-- The exceptions of the model that are an `OSError`.
abbrev pub is_os_error : Error → Bool
is_os_error Error.os_error = true
is_os_error Error.file_not_found = true
is_os_error Error.timeout_error = true
is_os_error _ = false

abbrev pub is_cancelled : Error → Bool
is_cancelled Error.cancelled_error = true
is_cancelled _ = false

-- A read of a room with what the socket gives: empty bytes mean that the room ended, and so do an
-- `OSError` and a cancel.
unfoldable pub received : Result Text → Result Text
received (ok bytes) = ok bytes
received (err e) = if is_os_error e || is_cancelled e then ok [] else err e

-- A write to a room with what the socket gives: an `OSError` is swallowed.
unfoldable pub delivered : Result (Unit {0}) → Result (Unit {0})
delivered (ok done) = ok done
delivered (err e) = if is_os_error e then ok tt else err e

-- The class `Room`, over what the host answers: a state `S` of the room, the handle `K` that a pause
-- gives, and the answers during one resize, one destroy and one pause.
pub record Room (S K R D P : Type 0) : Type 0 where
  pub can_pause : Bool
  pub read : Result Text → Result Text
  pub write : Result (Unit {0}) → Result (Unit {0})
  pub resize : R → Result (Unit {0})
  pub destroy : D → S → Result ℤ × S
  pub pause : P → S → Result K × S

-- The class `Backend`, over what the host answers: `W` is what one room has on the host.
pub record Backend (W S O U X C : Type 0) : Type 0 where
  pub can_pause : Bool
  pub open' : O → W → Result S × W
  pub resume : U → W → Result S × W
  pub destroy_kept : X → W → Result (Unit {0}) × W
  pub close : C → Result (Unit {0})

-- What the contract sees of a room.
pub data Life : Type 0 where
  alive gone : Life

module _ {S O : Type 0} (destroy : O → S → Result ℤ × S) where
  -- An implementation: `view` is the abstract room that a state stands for, `torn_down` counts the
  -- teardowns that it has begun. An `O` is what the host answers during one call.
  pub record IsRoom (view : S → Life) (torn_down : S → ℕ) : Type 0 where
    pub ends : (o : O) (s : S) → view (destroy o s).1 ≡ gone
    pub first : (o : O) (s : S) → view s ≡ alive → torn_down (destroy o s).1 ≡ suc (torn_down s)
    pub again : (o : O) (s : S) → view s ≡ gone → destroy o s ≡ (ok (pos 0), s)

  -- Calls one behind the other: what each returned, and the state.
  pub destroy_all : List O → S → List (Result ℤ) × S
  destroy_all [] s = ([], s)
  destroy_all (o ∷ os) s =
      let (r, s') = destroy o s in let (rs, t) = destroy_all os s' in (r ∷ rs, t)

  module _ (view : S → Life) (torn_down : S → ℕ) (room : IsRoom view torn_down) where
    gone-destroy_all :
        (os : List O) (s : S) → view s ≡ gone → destroy_all os s ≡ (map (λ _. ok (pos 0)) os, s)
    unfolding destroy_all
    gone-destroy_all [] s h = refl
    gone-destroy_all (o ∷ os) s h = rw (room.again o s h, gone-destroy_all os s h) refl

    -- Whatever the host answers, of any number of calls the first one tears the room down and the
    -- others return 0 and change nothing.
    pub destroy_all-refines :
        (o : O) (os : List O) (s : S)
        → view s ≡ alive
        → let (rs, t) = destroy_all (o ∷ os) s in
          (t ≡ (destroy o s).1)
          × (rs ≡ (destroy o s).0 ∷ map (λ _. ok (pos 0)) os)
          × (view t ≡ gone)
          × (torn_down t ≡ suc (torn_down s))
    unfolding destroy_all
    destroy_all-refines o os s h =
        rw (gone-destroy_all os (destroy o s).1 (room.ends o s))
          (refl, refl, room.ends o s, room.first o s h)
