-- ===== src/Routing/Home.antt =====
-- A paused room finds its way home.
use keycard.Prelude.{ℕ, String, ◌≡◌, refl, some, List, [], ◌∷◌, arith, Result, ok, err}
use keycard.Prelude.Dict.{get}
use keycard.Config.Types.{RoomConfig}
use keycard.Routing.{
  Routed, Call, opens, resumes, destroys_kept, Routing, Factories, note, pause_routed, name_for,
  get_backend, open_room, resume_room, destroy_kept,
}
use keycard.Routing.Ready.{
  Extends, Extends-refl, Extends-trans, get_backend-Extends, get_backend-found,
}

-- What the sessions of a server ask of the registry, with what the backend gave back.
pub data Op : Type 0 where
  opening : RoomConfig → Result ℕ → Op
  resuming : Routed ℕ → Result ℕ → Op
  dropping : Routed ℕ → Op

module _ (f : Factories) where
  pub step : Routing → Op → Routing
  step s (opening room opened) = (open_room f room opened s).1
  step s (resuming kept resumed) = (resume_room f kept resumed s).1
  step s (dropping kept) = (destroy_kept f kept s).1

  pub run : Routing → List Op → Routing
  run s [] = s
  run s (op ∷ ops) = run (step s op) ops

note-Extends : (c : Call) (s t : Routing) → Extends s t → Extends s (note c t)
unfolding note
note-Extends c s t h = record { config = h.config; keeps = h.keeps }

module _ (f : Factories) where
  step-Extends : (s : Routing) (op : Op) → Extends s (step f s op)
  unfolding step open_room resume_room destroy_kept
  step-Extends s (opening room opened) = go (get_backend f (name_for s.config room) s) refl
    where
      go :
          (r : Result (ℕ × Routing))
          → get_backend f (name_for s.config room) s ≡ r
          → Extends s (open_room f room opened s).1
      go (err e) p = rw (p, open_room) (Extends-refl s)
      go (ok (b, t)) p = rw (p, open_room) (note-Extends _ s t (get_backend-Extends f _ b s t p))
  step-Extends s (resuming kept resumed) = go (get_backend f kept.backend_name s) refl
    where
      go :
          (r : Result (ℕ × Routing))
          → get_backend f kept.backend_name s ≡ r
          → Extends s (resume_room f kept resumed s).1
      go (err e) p = rw (p, resume_room) (Extends-refl s)
      go (ok (b, t)) p = rw (p, resume_room) (note-Extends _ s t (get_backend-Extends f _ b s t p))
  step-Extends s (dropping kept) = go (get_backend f kept.backend_name s) refl
    where
      go :
          (r : Result (ℕ × Routing))
          → get_backend f kept.backend_name s ≡ r
          → Extends s (destroy_kept f kept s).1
      go (err e) p = rw (p, destroy_kept) (Extends-refl s)
      go (ok (b, t)) p = rw (p, destroy_kept) (note-Extends _ s t (get_backend-Extends f _ b s t p))

  run-Extends : (s : Routing) (ops : List Op) → Extends s (run f s ops)
  unfolding run
  run-Extends s [] = Extends-refl s
  run-Extends s (op ∷ ops) = Extends-trans s _ _ (step-Extends s op) (run-Extends (step f s op) ops)

  -- The backend that opened the room, as the registry has it from then on.
  open_room-found :
      (s s₁ : Routing) (room : RoomConfig) (r : ℕ) (routed : Routed ℕ)
      → open_room f room (ok r) s ≡ (ok routed, s₁)
      → (b : ℕ) × (c : List Call) × (s₁.calls ≡ opens b room.name ∷ c)
        × (get routed.backend_name s₁.backends ≡ some b)
  open_room-found s s₁ room r routed e = go (get_backend f (name_for s.config room) s) refl
    where
      go :
          (g : Result (ℕ × Routing))
          → get_backend f (name_for s.config room) s ≡ g
          → (b : ℕ) × (c : List Call) × (s₁.calls ≡ opens b room.name ∷ c)
            × (get routed.backend_name s₁.backends ≡ some b)
      go (err x) p = absurd (unfold open_room in ground arith)
      go (ok (b, t)) p = (
        b,
        t.calls,
        (unfold open_room note in ground arith),
        (unfold open_room note in ground (arith, get_backend-found f _ b s t p)),
      )

  resumes_there :
      (name : String) (b h : ℕ) (resumed : Result ℕ) (t : Routing)
      → get name t.backends ≡ some b
      → let kept : Routed ℕ = record { backend_name = name; inner = h } in
        ((resume_room f kept resumed t).1.calls ≡ resumes b h ∷ t.calls)
        × ((destroy_kept f kept t).1.calls ≡ destroys_kept b h ∷ t.calls)
  unfolding resume_room destroy_kept get_backend note
  resumes_there name b h resumed t e = ground arith

  -- A room that was opened through the registry and paused goes back to the very backend object
  -- that opened it, for a resume as for its destruction, whatever other rooms were opened,
  -- resumed and dropped in between.
  pub kept_goes_home :
      (s s₁ : Routing) (room : RoomConfig) (r h : ℕ) (routed : Routed ℕ) (ops : List Op)
      (resumed : Result ℕ)
      → open_room f room (ok r) s ≡ (ok routed, s₁)
      → let t = run f s₁ ops in
        let kept = pause_routed routed h in
        (b : ℕ) × (c : List Call) × (s₁.calls ≡ opens b room.name ∷ c)
        × ((resume_room f kept resumed t).1.calls ≡ resumes b h ∷ t.calls)
        × ((destroy_kept f kept t).1.calls ≡ destroys_kept b h ∷ t.calls)
  unfolding pause_routed
  kept_goes_home s s₁ room r h routed ops resumed e =
      let (b, c, called, found) = open_room-found s s₁ room r routed e in
      let still = (run-Extends s₁ ops).keeps routed.backend_name b found in
      let (a, d) = resumes_there routed.backend_name b h resumed (run f s₁ ops) still in
      (b, c, called, a, d)
