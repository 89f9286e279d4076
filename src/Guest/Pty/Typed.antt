-- ===== src/Guest/Pty/Typed.antt =====
-- What is typed into a shell, across all its connections.
use mathlib.Core.List.{reverse-append, reverse-cons}
use keycard.Prelude.{
  ℕ, suc, ◌+◌, ◌≤◌, Bool, true, false, ◌≡◌, refl, sym, ◌∙◌, Option, none, some, List, [], ◌∷◌, ◌++◌,
  append_assoc, reverse, arith, Text, All, length, length-append, ltb, if-cases, subst, false≢true,
  if◌then◌else◌,
}
use keycard.Guest.Pty.Thinned.{Thinned, ends', keeps, Thinned-drop, Thinned-zero}
use keycard.Guest.Pty.{
  Pty, Reader, absent, reading, sending, over, Step, attaches, reads, ends, enqueues, types, breaks,
  prints, closes, step, run, start_pty, input_queue, attach_pty, detach_pty, read_chunk, end_reader,
  enqueue, type_chunk, print_chunk,
}

abbrev pub held : Reader → List Text
held (sending bytes) = bytes ∷ []
held _ = []

-- All that was read and not dropped, latest first.
abbrev pub in_transit : Pty → List Text
in_transit p = held p.reader ++ (reverse p.queue ++ p.typed)

-- At most one chunk is dropped by an event.
abbrev pub drops : Step → ℕ
drops (attaches connection) = 1
drops closes = 1
drops _ = 0

abbrev pub is_break : Step → Bool
is_break breaks = true
is_break _ = false

-- The task that types goes on, the queue is bounded, and all but `lost` chunks at most are in transit or
-- typed, in their order.
abbrev IsSound : ℕ → Pty → Type 0
IsSound lost p =
    (p.open' ≡ true)
    × (length p.queue ≤ input_queue)
    × (k : ℕ) × (k ≤ lost)
    × Thinned (in_transit p) p.taken k

reverse-snoc : (q : List Text) (x : Text) → reverse (q ++ x ∷ []) ≡ x ∷ reverse q
reverse-snoc q x = reverse-append q (x ∷ [])

-- Of what a reader holds, an abort drops one chunk at most.
released :
    (r : Reader) (xs ys : List Text) (lost k : ℕ)
    → k ≤ lost
    → Thinned (held r ++ xs) ys k
    → (j : ℕ) × (j ≤ lost + 1) × Thinned xs ys j
released (sending bytes) xs ys lost k h t = (suc k, omega arith, Thinned-drop bytes xs ys k t)
released absent xs ys lost k h t = (k, omega arith, t)
released reading xs ys lost k h t = (k, omega arith, t)
released over xs ys lost k h t = (k, omega arith, t)

IsSound-weaken : (lost more : ℕ) (p : Pty) → lost ≤ more → IsSound lost p → IsSound more p
IsSound-weaken lost more p h (up, fits, k, small, t) = (up, fits, k, omega arith, t)

module _ (lost : ℕ) where
  detach-IsSound : (p : Pty) → IsSound lost p → IsSound (lost + 1) (detach_pty p)
  unfolding detach_pty
  detach-IsSound p (up, fits, k, small, t) =
      let (j, small', t') = released p.reader (reverse p.queue ++ p.typed) p.taken lost k small t in
      (up, fits, j, small', t')

  attach-IsSound : (c : ℕ) (p : Pty) → IsSound lost p → IsSound (lost + 1) (attach_pty c p)
  unfolding attach_pty
  attach-IsSound c p (up, fits, k, small, t) =
      let (j, small', t') = released p.reader (reverse p.queue ++ p.typed) p.taken lost k small t in
      (up, fits, j, small', t')

  module _ (open' : Bool) (slot : Option ℕ) (taken : List Text) (shown : List (ℕ × Text)) where
    -- A pty with a given reader, queue and typed chunks.
    abbrev pty : Reader → List Text → List Text → Pty
    pty reader queue typed = record {
      reader = reader;
      queue = queue;
      open' = open';
      slot = slot;
      taken = taken;
      typed = typed;
      shown = shown;
    }

    read-IsSound :
        (bytes : Text) (reader : Reader) (queue typed : List Text)
        → IsSound lost (pty reader queue typed)
        → IsSound lost (read_chunk bytes (pty reader queue typed))
    unfolding read_chunk
    read-IsSound bytes reading queue typed (up, fits, k, small, t) =
        (up, fits, k, small, keeps bytes t)
    read-IsSound bytes absent queue typed h = h
    read-IsSound bytes (sending held') queue typed h = h
    read-IsSound bytes over queue typed h = h

    end-IsSound :
        (reader : Reader) (queue typed : List Text)
        → IsSound lost (pty reader queue typed)
        → IsSound lost (end_reader (pty reader queue typed))
    unfolding end_reader
    end-IsSound reading queue typed h = h
    end-IsSound absent queue typed h = h
    end-IsSound (sending held') queue typed h = h
    end-IsSound over queue typed h = h

    type-IsSound :
        (reader : Reader) (queue typed : List Text)
        → IsSound lost (pty reader queue typed)
        → IsSound lost (type_chunk (pty reader queue typed))
    unfolding type_chunk
    type-IsSound reader [] typed h = h
    type-IsSound reader (bytes ∷ queue) typed (up, fits, k, small, t) = (
      up,
      omega arith,
      k,
      small,
      rw (← append_assoc (reverse queue) (bytes ∷ []) typed) (rw (← reverse-cons bytes queue) t),
    )

    enqueue-IsSound :
        (reader : Reader) (queue typed : List Text)
        → IsSound lost (pty reader queue typed)
        → IsSound lost (enqueue (pty reader queue typed))
    unfolding enqueue
    enqueue-IsSound (sending bytes) queue typed (up, fits, k, small, t) =
        if-cases (IsSound lost) open' _ _
          (λ _.
            if-cases (IsSound lost) (ltb (length queue) input_queue) _ _
              (λ room. (
                up,
                ground (arith, room, length-append queue (bytes ∷ [])),
                k,
                small,
                rw (reverse-snoc queue bytes) t,
              ))
              (λ full. (up, fits, k, small, t)))
          (λ shut. absurd (false≢true (sym shut ∙ up)))
    enqueue-IsSound absent queue typed h = h
    enqueue-IsSound reading queue typed h = h
    enqueue-IsSound over queue typed h = h

  print-IsSound :
      (bytes : Text) (written : Bool) (p : Pty)
      → IsSound lost p
      → IsSound lost (print_chunk bytes written p)
  unfolding print_chunk
  print-IsSound bytes written p h = go p.slot
    where
      go :
          (slot : Option ℕ)
          → IsSound lost (elim slot [
            | none ↦ p
            | some connection ↦
                if written
                then record p { shown = (connection, bytes) ∷ p.shown }
                else record p { slot = none }
          ])
      go none = h
      go (some connection) = if-cases (IsSound lost) written _ _ (λ _. h) (λ _. h)

  step-IsSound :
      (s : Step) (p : Pty)
      → is_break s ≡ false
      → IsSound lost p
      → IsSound (lost + drops s) (step s p)
  unfolding step
  step-IsSound (attaches c) p calm h = attach-IsSound c p h
  step-IsSound closes p calm h = detach-IsSound p h
  step-IsSound breaks p calm h = absurd (cc (calm))
  step-IsSound (reads bytes) p calm h =
      IsSound-weaken lost (lost + 0) (read_chunk bytes p) (omega arith)
        (read-IsSound p.open' p.slot p.taken p.shown bytes p.reader p.queue p.typed h)
  step-IsSound ends p calm h =
      IsSound-weaken lost (lost + 0) (end_reader p) (omega arith)
        (end-IsSound p.open' p.slot p.taken p.shown p.reader p.queue p.typed h)
  step-IsSound enqueues p calm h =
      IsSound-weaken lost (lost + 0) (enqueue p) (omega arith)
        (enqueue-IsSound p.open' p.slot p.taken p.shown p.reader p.queue p.typed h)
  step-IsSound types p calm h =
      IsSound-weaken lost (lost + 0) (type_chunk p) (omega arith)
        (type-IsSound p.open' p.slot p.taken p.shown p.reader p.queue p.typed h)
  step-IsSound (prints bytes written) p calm h =
      IsSound-weaken lost (lost + 0) (print_chunk bytes written p) (omega arith)
        (print-IsSound bytes written p h)

-- How many chunks a list of steps may drop.
abbrev pub drops_all : List Step → ℕ
drops_all [] = 0
drops_all (s ∷ ss) = drops s + drops_all ss

run-IsSound :
    (ss : List Step) (lost : ℕ) (p : Pty)
    → All (λ s. is_break s ≡ false) ss
    → IsSound lost p
    → IsSound (lost + drops_all ss) (run ss p)
unfolding run
run-IsSound [] lost p calm h = IsSound-weaken lost (lost + 0) p (omega arith) h
run-IsSound (s ∷ ss) lost p calm h =
    IsSound-weaken ((lost + drops s) + drops_all ss) _ (run ss (step s p)) (omega arith)
      (run-IsSound ss (lost + drops s) (step s p) calm.1 (step-IsSound lost s p calm.0 h))

-- However connections come and go, and however the tasks take turns, while writing to the pty does not
-- fail: what was typed into the shell, what waits in the queue and what a reader still holds are,
-- in this order, all that was read from the connections but for one chunk at most for each time
-- that a connection came or the end of the shell closed one; and at most 64 chunks wait.
pub typed_keeps_order :
    (ss : List Step)
    → All (λ s. is_break s ≡ false) ss
    → let p = run ss start_pty in
      (length p.queue ≤ input_queue)
      × (k : ℕ) × (k ≤ drops_all ss)
      × Thinned (in_transit p) p.taken k
typed_keeps_order ss calm =
    let (up, fits, k, small, t) =
      run-IsSound ss 0 start_pty calm (refl, omega arith, 0, omega arith, ends') in
    (fits, k, omega (arith, small), t)

-- Over one connection nothing is dropped.
pub typed_over_one :
    (connection : ℕ) (ss : List Step)
    → All (λ s. is_break s ≡ false) ss
    → drops_all ss ≡ 0
    → let p = run ss (attach_pty connection start_pty) in in_transit p ≡ p.taken
unfolding attach_pty
typed_over_one connection ss calm quiet =
    let start = attach_pty connection start_pty in
    let (up, fits, k, small, t) =
      run-IsSound ss 0 start calm (refl, omega arith, 0, omega arith, ends') in
    let none_lost : k ≡ 0 = omega (arith, small, quiet) in
    Thinned-zero (in_transit (run ss start)) (run ss start).taken (subst (Thinned _ _) none_lost t)
