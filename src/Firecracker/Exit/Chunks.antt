-- ===== src/Firecracker/Exit/Chunks.antt =====
-- The status that is read does not depend on how the stream is cut into chunks.
use mathlib.Core.List.{flatten}
use keycard.Prelude.{
  ℕ, zero, suc, length, ◌<◌, false, ◌≡◌, ◌≢◌, refl, ◌∙◌, ap, sym, subst, Option, none, some, List,
  [], ◌∷◌, ◌++◌, append_assoc, append-nil, ℤ, Text, ◌==◌, if◌then◌else◌, arith, Option-cases, inl,
  inr, Bool-cases, All, ◌⊎◌,
}
use keycard.Firecracker.Exit.{split_line, Scan, found, waiting, take_lines, watch_exit, parse_exit}

-- One pass over the bytes: `line` is the unfinished line.
unfoldable pub scan : (Text → Option ℤ) → Text → Text → Scan
scan parse line [] = waiting line
scan parse line (c ∷ cs) =
    let more = scan parse (line ++ c ∷ []) cs in
    let next = scan parse [] cs in
    if c == 10 then (elim (parse line) [ none ↦ next | some status ↦ found status ]) else more

-- The status of the first line that has one, if any.
abbrev pub outcome : Scan → Option ℤ
outcome (found status) = some status
outcome (waiting rest) = none

module _ (parse : Text → Option ℤ) where
  abbrev Rest : Text → Option (Text × Text) → Text → Scan
  Rest line none cs = waiting (line ++ cs)
  Rest line (some (l, rest)) cs = elim (parse (line ++ l)) [
    | none ↦ scan parse [] rest
    | some status ↦ found status
  ]

  scan_by_lines : (line cs : Text) → scan parse line cs ≡ Rest line (split_line cs) cs
  unfolding scan split_line
  scan_by_lines line [] = ap waiting (sym (append-nil line))
  scan_by_lines line (c ∷ cs) = elim (Bool-cases (c == 10)) [
    | inl newline ↦ ground (arith, append-nil line)
    | inr other ↦ elim (Option-cases (split_line cs)) [
      | inl e ↦ ground (arith, scan_by_lines (line ++ c ∷ []) cs, append_assoc line (c ∷ []) cs)
      | inr ((l, rest), e) ↦
          ground (arith, scan_by_lines (line ++ c ∷ []) cs, append_assoc line (c ∷ []) l)
    ]
  ]

  split_line_shorter : (cs l rest : Text) → split_line cs ≡ some (l, rest) → length rest < length cs
  unfolding split_line
  split_line_shorter [] l rest e = absurd (ground arith)
  split_line_shorter (c ∷ cs) l rest e = elim (Option-cases (split_line cs)) [
    | inl missing ↦ ground arith
    | inr ((l', rest'), there) ↦ ground (arith, split_line_shorter cs l' rest' there)
  ]

  take_lines-scan :
      (fuel : ℕ) (buffer : Text)
      → length buffer < fuel
      → take_lines parse fuel buffer ≡ scan parse [] buffer
  unfolding take_lines
  take_lines-scan zero buffer h = absurd (omega arith)
  take_lines-scan (suc fuel) buffer h = elim (Option-cases (split_line buffer)) [
    | inl e ↦ ground (arith, scan_by_lines [] buffer)
    | inr ((l, rest), e) ↦ ground (
      arith,
      scan_by_lines [] buffer,
      split_line_shorter buffer l rest e,
      take_lines-scan fuel rest,
    )
  ]

  abbrev Then : Scan → Text → Scan
  Then (found status) ys = found status
  Then (waiting w) ys = scan parse w ys

  scan-append : (line xs ys : Text) → scan parse line (xs ++ ys) ≡ Then (scan parse line xs) ys
  unfolding scan
  scan-append line [] ys = refl
  scan-append line (c ∷ cs) ys =
      ground (arith, scan-append (line ++ c ∷ []) cs ys, scan-append [] cs ys)

  -- What waits holds no newline, so to read it again changes nothing.
  abbrev IsClean : Text → Type 0
  IsClean w = (ys : Text) → scan parse [] (w ++ ys) ≡ scan parse w ys

  IsClean-cons : (line : Text) (c : ℕ) → (c == 10) ≡ false → IsClean line → IsClean (line ++ c ∷ [])
  unfolding scan
  IsClean-cons line c h clean ys =
      rw (append_assoc line (c ∷ []) ys) (clean (c ∷ ys) ∙ ground arith)

  waiting-IsClean : (line xs w : Text) → IsClean line → scan parse line xs ≡ waiting w → IsClean w
  unfolding scan
  waiting-IsClean line [] w clean e = subst IsClean (ground arith) clean
  waiting-IsClean line (c ∷ cs) w clean e = elim (Bool-cases (c == 10)) [
    | inl newline ↦ elim (Option-cases (parse line)) [
      | inl more ↦ waiting-IsClean [] cs w (λ ys. refl) (ground arith)
      | inr (status, here) ↦ absurd (ground arith)
    ]
    | inr other ↦
        waiting-IsClean (line ++ c ∷ []) cs w (IsClean-cons line c other clean) (ground arith)
  ]

  Scan-cases : (s : Scan) → ((status : ℤ) × (s ≡ found status)) ⊎ ((w : Text) × (s ≡ waiting w))
  Scan-cases (found status) = inl (status, refl)
  Scan-cases (waiting w) = inr (w, refl)

  watch-scan :
      (buffer : Text) (chunks : List Text)
      → IsClean buffer
      → All (λ chunk. chunk ≢ []) chunks
      → watch_exit parse buffer chunks ≡ outcome (scan parse [] (buffer ++ flatten chunks))
  unfolding watch_exit flatten
  watch-scan buffer [] clean full = sym (ap outcome (clean []) ∙ unfold scan in refl)
  watch-scan buffer ([] ∷ chunks) clean full = absurd (full.0 refl)
  watch-scan buffer ((c ∷ cs) ∷ chunks) clean full =
      let buffer' = buffer ++ c ∷ cs in
      let taken = take_lines-scan (suc (length buffer')) buffer' (omega arith) in
      let joined : scan parse [] (buffer ++ flatten ((c ∷ cs) ∷ chunks))
          ≡ Then (scan parse [] buffer') (flatten chunks) =
        ap (scan parse []) (sym (append_assoc buffer (c ∷ cs) (flatten chunks)))
        ∙ scan-append [] buffer' (flatten chunks) in
      elim (Scan-cases (scan parse [] buffer')) [
        | inl (status, e) ↦
            rw (taken, e, watch_exit)
              (sym (ap outcome (joined ∙ ap (λ s. Then s (flatten chunks)) e)))
        | inr (w, e) ↦
            let clean_w = waiting-IsClean [] buffer' w (λ ys. refl) e in
            rw (taken, e, watch_exit)
              (watch-scan w chunks clean_w full.1
                ∙ ap outcome
                    (clean_w (flatten chunks) ∙ sym (joined ∙ ap (λ s. Then s (flatten chunks)) e)))
      ]

-- The exit status that the task records is that of the first line of the stream that is an exit
-- message, however the socket cuts the stream into chunks.
pub watch_exit_ignores_chunks :
    (chunks : List Text)
    → All (λ chunk. chunk ≢ []) chunks
    → watch_exit parse_exit [] chunks ≡ outcome (scan parse_exit [] (flatten chunks))
watch_exit_ignores_chunks chunks full = watch-scan parse_exit [] chunks (λ ys. refl) full
