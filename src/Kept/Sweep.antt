-- ===== src/Kept/Sweep.antt =====
-- `destroy_all`, the sweep at shutdown.
use keycard.Prelude.{
  ℕ, ◌+◌, String, Bool, true, false, ◌≡◌, ◌⊎◌, refl, [], ◌∷◌, arith, count, eq_iff, Bool-cases, inl,
  inr,
}
use keycard.Prelude.Dict.{Dict, get, remove, values}
use keycard.Kept.{KeptRooms, holds, drop_kept, sweep, destroy_all}

abbrev total : ℕ → KeptRooms → ℕ
total a s = count a (values s.by_username) + count a s.destroyed

holds_first :
    (u : String) (k : ℕ) (d : Dict ℕ) (s : KeptRooms)
    → s.by_username ≡ (u, k) ∷ d
    → (holds u k s ≡ true) × ((drop_kept u k s).by_username ≡ d)
unfolding holds drop_kept get remove
holds_first u k d s e = ground (arith, eq_iff u u)

record Swept (raises : ℕ → Bool) (a : ℕ) (s : KeptRooms) (r : Bool × KeptRooms) : Type 0 where
  kept_count : total a r.1 ≡ total a s
  finished :
      ((r.0 ≡ true) × (r.1.by_username ≡ [])) ⊎ ((r.0 ≡ false) × ((k : ℕ) × (raises k ≡ true)))

sweep-Swept :
    (raises : ℕ → Bool) (a : ℕ) (items : Dict ℕ) (s : KeptRooms)
    → s.by_username ≡ items
    → Swept raises a s (sweep raises items s)
unfolding sweep
sweep-Swept raises a [] s e = record { kept_count = refl; finished = inl (refl, e) }
sweep-Swept raises a ((u, k) ∷ items) s e =
    let (there, rest) = holds_first u k items s e in
    let ih = sweep-Swept raises a items (drop_kept u k s) rest in
    let same : total a (drop_kept u k s) ≡ total a s =
      rw (rest, e) (unfold drop_kept in omega arith) in
    elim (Bool-cases (raises k)) [
      | inl r ↦ rw (there, r, sweep) (record { kept_count = same; finished = inr (refl, (k, r)) })
      | inr r ↦
          rw (there, r, sweep)
            (record { kept_count = omega (arith, ih.kept_count, same); finished = ih.finished })
    ]

-- Whichever calls of `destroy_kept` raise, the sweep moves handles from the registry to the
-- destroyed ones and neither loses nor repeats one. It runs to its end and leaves the registry
-- empty, or it was cut short by a call that raises.
pub destroy_all_sweeps :
    (raises : ℕ → Bool) (a : ℕ) (s : KeptRooms)
    → let r = destroy_all raises s in
      (count a (values r.1.by_username) + count a r.1.destroyed
        ≡ count a (values s.by_username) + count a s.destroyed)
      × (((r.0 ≡ true) × (r.1.by_username ≡ [])) ⊎ ((r.0 ≡ false) × ((k : ℕ) × (raises k ≡ true))))
unfolding destroy_all
destroy_all_sweeps raises a s =
    let h = sweep-Swept raises a s.by_username s refl in (h.kept_count, h.finished)
