-- ===== src/Server/Shutdown.antt =====
-- What a shutdown leaves.
use keycard.Prelude.{
  ℕ, ◌+◌, Bool, true, false, ◌≡◌, ◌⊎◌, sym, inl, inr, refl, some, none, List, [], ◌∷◌, arith, ok,
  err, Error, cancelled_error, count, Bool-cases, Option, Result,
}
use keycard.Prelude.Dict.{values}
use keycard.Kept.Sweep.{destroy_all_sweeps}
use keycard.Routing.{Routing, Call, closes, note, close_each, close_all}
use keycard.Active.{ActiveSessions}
use keycard.Server.{drain, release_each}
use keycard.Server.Serve.{Serving, Ending, gather_raises, grace_raises, sweep_and_close, shutdown}

-- The calls that close the backends, latest first.
abbrev pub closings : List ℕ → List Call → List Call
closings [] calls = calls
closings (b ∷ bs) calls = closings bs (closes b ∷ calls)

-- All backends have been closed, or a cancel has come while one of them was.
abbrev ClosesEach : (ℕ → Bool) → List ℕ → Routing → Bool × Routing → Type 0
ClosesEach cancels bs s (finished, t) =
    ((finished ≡ true) × (t.calls ≡ closings bs s.calls))
    ⊎ ((finished ≡ false) × ((b : ℕ) × (cancels b ≡ true)))

close_each-ClosesEach :
    (cancels : ℕ → Bool) (bs : List ℕ) (s : Routing)
    → ClosesEach cancels bs s (close_each cancels bs s)
unfolding close_each note
close_each-ClosesEach cancels [] s = inl (refl, refl)
close_each-ClosesEach cancels (b ∷ bs) s = elim (Bool-cases (cancels b)) [
  | inl cut ↦ rw (cut, close_each) (inr (refl, (b, cut)))
  | inr quiet ↦ rw (quiet, close_each) (close_each-ClosesEach cancels bs (note (closes b) s))
]

-- All paused rooms have been destroyed, and all backends closed.
abbrev pub IsClean : ℕ → Serving → Result (Unit {0}) × Serving → Type 0
IsClean a s (r, t) =
    (r ≡ ok tt)
    × (t.kept.by_username ≡ [])
    × (count a t.kept.destroyed ≡ count a (values s.kept.by_username) + count a s.kept.destroyed)
    × (t.routing.calls ≡ closings (values s.routing.backends) s.routing.calls)

-- An exception has cut the shutdown short before the sweep, in it, or behind it.
abbrev pub IsCutShort : Ending → Serving → Result (Unit {0}) × Serving → Type 0
IsCutShort ending s (r, t) =
    ((e : Error) × (r ≡ err e)
      × (t.kept ≡ s.kept)
      × (t.routing ≡ s.routing)
      × ((ending.grace_cut ≡ some e)
          ⊎ ((ending.interrupted ≡ some e) ⊎ (ending.closing_cut ≡ some e))))
    ⊎ (((r ≡ err ending.raised) × (t.routing ≡ s.routing) × ((k : ℕ) × (ending.raises k ≡ true)))
        ⊎ ((r ≡ err cancelled_error)
            × (t.kept.by_username ≡ [])
            × ((b : ℕ) × (ending.cancels b ≡ true))))

sweep_and_close-ends :
    (a : ℕ) (ending : Ending) (s : Serving)
    → ((sweep_and_close ending s).1.listening ≡ s.listening)
      × (IsClean a s (sweep_and_close ending s) ⊎ IsCutShort ending s (sweep_and_close ending s))
unfolding sweep_and_close close_all
sweep_and_close-ends a ending s =
    let sweep = destroy_all_sweeps ending.raises a s.kept in
    let close = close_each-ClosesEach ending.cancels (values s.routing.backends) s.routing in
    ground (arith, sweep, close)

abbrev Ends : ℕ → Ending → Serving → Result (Unit {0}) × Serving → Type 0
Ends a ending s x = (x.1.listening ≡ false) × (IsClean a s x ⊎ IsCutShort ending s x)

grace_raises-cut :
    (grace : ℕ) (l : List ℕ) (cut : Option Error) (e : Error)
    → grace_raises grace l cut ≡ some e
    → cut ≡ some e
unfolding grace_raises
grace_raises-cut grace l cut e h = ground arith

gather_raises-interrupted :
    (l : List ℕ) (interrupted : Option Error) (e : Error)
    → gather_raises l interrupted ≡ some e
    → interrupted ≡ some e
unfolding gather_raises
gather_raises-interrupted l interrupted e h = ground arith

module _ (a : ℕ) (ending : Ending) (s : Serving) where
  -- Behind the drain, which has left `sessions` registered.
  drained-Ends :
      (sessions : ActiveSessions) (gathered closing_cut : Option Error)
      → ((e : Error) → gathered ≡ some e → ending.interrupted ≡ some e)
      → closing_cut ≡ ending.closing_cut
      → let drained = record s { listening = false; active = sessions } in
        Ends a ending s (elim gathered [
          | some e ↦ (err e, drained)
          | none ↦ elim closing_cut [
            | some e ↦ (err e, drained)
            | none ↦ sweep_and_close ending drained
          ]
        ])
  drained-Ends sessions (some e) cut g c =
      (refl, inr (inl (e, refl, refl, refl, inr (inl (g e refl)))))
  drained-Ends sessions none (some e) g c =
      (refl, inr (inl (e, refl, refl, refl, inr (inr (sym c)))))
  drained-Ends sessions none none g c =
      sweep_and_close-ends a ending (record s { listening = false; active = sessions })

pub shutdown_closes :
    (a : ℕ) (ending : Ending) (s : Serving)
    → let x = shutdown ending s in (x.1.listening ≡ false) × (IsClean a s x ⊎ IsCutShort ending s x)
unfolding shutdown
shutdown_closes a ending s =
    go (grace_raises s.grace s.active.sessions ending.grace_cut)
      (grace_raises-cut s.grace s.active.sessions ending.grace_cut)
  where
    go :
        (cut : Option Error)
        → ((e : Error) → cut ≡ some e → ending.grace_cut ≡ some e)
        → Ends a ending s (elim cut [
          | some e ↦ (
            err e,
            record s {
              listening = false;
              active = release_each ending.leaves s.active.sessions s.active;
            },
          )
          | none ↦
              let d = drain ending.leaves ending.ends s.grace s.active in
              let drained = record s { listening = false; active = d.active } in
              elim (gather_raises d.closed ending.interrupted) [
                | some e ↦ (err e, drained)
                | none ↦ elim ending.closing_cut [
                  | some e ↦ (err e, drained)
                  | none ↦ sweep_and_close ending drained
                ]
              ]
        ])
    go (some e) g = (refl, inr (inl (e, refl, refl, refl, inl (g e refl))))
    go none g =
        let d = drain ending.leaves ending.ends s.grace s.active in
        drained-Ends a ending s d.active (gather_raises d.closed ending.interrupted)
          ending.closing_cut (gather_raises-interrupted d.closed ending.interrupted) refl
