-- ===== src/Firecracker/Debris/Spared.antt =====
-- Whom the sweep spares.
use keycard.Prelude.{
  ◌+◌, Bool, true, false, ◌≡◌, ◌⊎◌, refl, ◌∙◌, List, [], ◌∷◌, arith, All, count_if, codes,
  if◌then◌else◌, length,
}
use keycard.Firecracker.Debris.{
  Entry, Proc, pid_is_alive, process_is, instance_is_debris, reap_each, insert_by_name,
  sort_by_name, reap_debris,
}

module _ (proc : Proc) where
  -- The instance is in use: its keycard is alive, or a firecracker runs under its VMM's pid.
  abbrev pub IsLive : Entry → Type 0
  IsLive e =
      (pid_is_alive proc e.owner_pid ≡ true)
      ⊎ (process_is proc e.vmm_pid (codes "firecracker") ≡ true)

  live_is_no_debris : (e : Entry) → IsLive e → instance_is_debris proc e ≡ false
  unfolding instance_is_debris
  live_is_no_debris e h = ground arith

  count_insert :
      (p : Entry → Bool) (e : Entry) (es : List Entry)
      → count_if p (insert_by_name proc e es) ≡ (if p e then 1 else 0) + count_if p es
  unfolding insert_by_name
  count_insert p e [] = refl
  count_insert p e (f ∷ fs) = ground (arith, count_insert p e fs)

  count_sort :
      (p : Entry → Bool) (es : List Entry) → count_if p (sort_by_name proc es) ≡ count_if p es
  unfolding sort_by_name
  count_sort p [] = refl
  count_sort p (e ∷ es) = ground (arith, count_insert p e (sort_by_name proc es), count_sort p es)

  -- A test that finds live instances only.
  abbrev pub FindsLive : (Entry → Bool) → List Entry → Type 0
  FindsLive p = All (λ e. (p e ≡ false) ⊎ IsLive e)

  All-insert :
      (P : Entry → Type 0) (e : Entry) (es : List Entry)
      → P e
      → All P es
      → All P (insert_by_name proc e es)
  unfolding insert_by_name
  All-insert P e [] h hs = (h, tt)
  All-insert P e (f ∷ fs) h hs = ground (arith, All-insert P e fs h hs.1)

  All-sort : (P : Entry → Type 0) (es : List Entry) → All P es → All P (sort_by_name proc es)
  unfolding sort_by_name
  All-sort P [] hs = tt
  All-sort P (e ∷ es) hs = All-insert P e (sort_by_name proc es) hs.0 (All-sort P es hs.1)

  each_spares :
      (p : Entry → Bool) (es : List Entry)
      → FindsLive p es
      → count_if p (reap_each proc es).1 ≡ count_if p es
  unfolding reap_each
  each_spares p [] h = refl
  each_spares p (e ∷ es) h = ground (arith, each_spares p es h.1, live_is_no_debris e, h.0)

  each_leaves :
      (es : List Entry)
      → count_if
          (λ e. if instance_is_debris proc e then e.removable else false)
          (reap_each proc es).1
        ≡ 0
  unfolding reap_each
  each_leaves [] = refl
  each_leaves (e ∷ es) = ground (arith, each_leaves es)

  abbrev pub is_removable_debris : Entry → Bool
  is_removable_debris e = if instance_is_debris proc e then e.removable else false

  pub reap_leaves_none :
      (listable : Bool) (entries : List Entry)
      → count_if is_removable_debris (reap_debris proc listable entries).1
        ≡ (if listable then 0 else count_if is_removable_debris entries)
  unfolding reap_debris
  reap_leaves_none false entries = refl
  reap_leaves_none true entries = each_leaves (sort_by_name proc entries)

  each_reaped :
      (es : List Entry) → length (reap_each proc es).0 ≡ count_if (instance_is_debris proc) es
  unfolding reap_each
  each_reaped [] = refl
  each_reaped (e ∷ es) = ground (arith, each_reaped es)

  -- The sweep of a directory that can be listed takes no instance that is in use, whichever of them
  -- one asks for: of the instances
  -- that a test finds, if it finds live ones only, as many are on the disk after it as before. No
  -- debris that can be removed is left, and as many names are reported as there was debris.
  pub reap_spares_live :
      (p : Entry → Bool) (entries : List Entry)
      → FindsLive p entries
      → let (reaped, left) = reap_debris proc true entries in
        (count_if p left ≡ count_if p entries)
        × (count_if (λ e. if instance_is_debris proc e then e.removable else false) left ≡ 0)
        × (length reaped ≡ count_if (instance_is_debris proc) entries)
  unfolding reap_debris
  reap_spares_live p entries h =
      let es = sort_by_name proc entries in
      (
        each_spares p es (All-sort (λ e. (p e ≡ false) ⊎ IsLive e) entries h)
            ∙ count_sort p entries,
        each_leaves es,
        each_reaped es ∙ count_sort (instance_is_debris proc) entries,
      )
