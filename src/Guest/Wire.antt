-- ===== src/Guest/Wire.antt =====
-- What one end of the control channel writes, the other reads.
use mathlib.Core.List.{flatten, foldl, reverse-cons, reverse-reverse}
use keycard.Prelude.{
  ℕ, suc, ◌+◌, ◌*◌, ◌-◌, ◌<◌, Bool, true, false, ◌≡◌, ◌≢◌, refl, ◌∙◌, ap, Option, none, some, List,
  [], ◌∷◌, ◌++◌, append_assoc, append-nil, map, arith, ◌==◌, leb, ◌&&◌, ℤ, pos, negsuc, Text, codes,
  All, All-append, All-snoc, All-weaken, reverse, same_text, if◌then◌else◌,
}
use keycard.Prelude.Numbers.{words, digits_value, is_space}
use keycard.Prelude.Decimals.{
  decimal, IsDigit, decimal-AllDigits, digits-decimal, show_int, magnitude, pow10, to_int-show_int,
  digit-IsNoSpace,
}
use keycard.Prelude.Words.{IsWord, words-cons, words-single}
use keycard.Firecracker.Exit.{parse_exit, exit_words, watch_exit, found}
use keycard.Firecracker.Exit.Chunks.{scan, outcome, watch_exit_ignores_chunks}
use keycard.Firecracker.Room.Channels.{resize_message}
use keycard.Guest.{
  is_white, digits_from, unsigned, max_u16, parse_unsigned, parse_u16, parse_resize, resize_words,
  lines_from, end_line, follow, ctrl_reader, exit_message, ExitStatus, exit_code,
}

digits_from-AllDigits :
    (acc : ℕ) (after : Bool) (l : Text)
    → All IsDigit l
    → l ≢ []
    → digits_from acc l ≡ digits_value acc after l
unfolding digits_from digits_value
digits_from-AllDigits acc after [] h ne = absurd (ne refl)
digits_from-AllDigits acc after (c ∷ []) h ne = ground arith
digits_from-AllDigits acc after (c ∷ d ∷ l) h ne =
    ground (arith, digits_from-AllDigits (acc * 10 + (c - b'0')) true (d ∷ l) h.1 (λ e. cc))

-- A number is read if it is not too large.
pub parse_unsigned-decimal :
    (max n : ℕ) → parse_unsigned max (decimal n) ≡ (if leb n max then some n else none)
parse_unsigned-decimal max n = go (decimal n) (decimal-AllDigits n) (digits-decimal n)
  where
    go :
        (l : Text)
        → All IsDigit l
        → digits_value 0 false l ≡ some n
        → parse_unsigned max l ≡ (if leb n max then some n else none)
    go [] h e = absurd (unfold digits_value in cc)
    go (c ∷ l) h e =
        let same = digits_from-AllDigits 0 false (c ∷ l) h (λ x. cc) in
        unfold parse_unsigned unsigned in ground (arith, same, h.0)

parse_u16-decimal : (n : ℕ) → parse_u16 (decimal n) ≡ (if leb n max_u16 then some n else none)
unfolding parse_u16
parse_u16-decimal n = parse_unsigned-decimal max_u16 n

digit-IsNoWhite : (c : ℕ) → IsDigit c → is_white c ≡ false
digit-IsNoWhite c h = ground arith

decimal-IsWord : (n : ℕ) → IsWord is_white (decimal n)
decimal-IsWord n = All-weaken IsDigit _ (decimal n) digit-IsNoWhite (decimal-AllDigits n)

decimal-ne-nil : (n : ℕ) → decimal n ≢ []
unfolding digits_value
decimal-ne-nil n e = cc (ap (digits_value 0 false) e, digits-decimal n)

-- The line of a resize, without its newline.
abbrev resize_line : ℕ → ℕ → Text
resize_line width height = codes "resize" ++ (b' ' ∷ (decimal width ++ (b' ' ∷ decimal height)))

-- A size that fits into 16 bits replaces the one before.
abbrev pub resized : ℕ × ℕ → ℕ × ℕ → ℕ × ℕ
resized (width, height) size =
    if leb width max_u16 && leb height max_u16 then (width, height) else size

parse_resize-resize_line :
    (width height : ℕ)
    → parse_resize (resize_line width height)
      ≡ (if leb width max_u16 && leb height max_u16 then some (width, height) else none)
unfolding parse_resize
parse_resize-resize_line width height =
    rw
      (
        words-cons is_white (codes "resize") b' ' (decimal width ++ (b' ' ∷ decimal height))
            (ground arith) (λ e. cc) refl,
        words-cons is_white (decimal width) b' ' (decimal height) (decimal-IsWord width)
            (decimal-ne-nil width) refl,
        words-single is_white (decimal height) (decimal-IsWord height) (decimal-ne-nil height),
      )
      (unfold resize_words same_text in
        ground (arith, parse_u16-decimal width, parse_u16-decimal height))

-- No newline, and no return that would go with it.
abbrev IsInLine : ℕ → Type 0
IsInLine c = ((c == 10) ≡ false) × ((c == 13) ≡ false)

abbrev IsLine : Text → Type 0
IsLine = All IsInLine

lines_from-append :
    (l before rest : Text)
    → IsLine l
    → lines_from before (l ++ rest) ≡ lines_from (reverse l ++ before) rest
unfolding lines_from
lines_from-append [] before rest h = refl
lines_from-append (c ∷ l) before rest h =
    rw (h.0.0, lines_from, lines_from-append l (c ∷ before) rest h.1, reverse-cons, append_assoc)
      refl

reverse-IsLine : (l : Text) → IsLine l → IsLine (reverse l)
reverse-IsLine [] h = tt
reverse-IsLine (c ∷ l) h =
    rw reverse-cons (All-snoc IsInLine (reverse l) (reverse-IsLine l h.1) h.0)

end_line-reverse : (l : Text) → IsLine l → end_line (reverse l) ≡ l
end_line-reverse l h = go (reverse l) (reverse-IsLine l h) ∙ reverse-reverse l
  where
    go : (w : Text) → IsLine w → end_line w ≡ reverse w
    go [] h = refl
    go (c ∷ w) h = rw h.0.1 refl

lines_from-line :
    (l rest : Text) → IsLine l → lines_from [] (l ++ 10 ∷ rest) ≡ l ∷ lines_from [] rest
lines_from-line l rest h =
    lines_from-append l [] (10 ∷ rest) h
    ∙ ap (λ w. lines_from w (10 ∷ rest)) (append-nil (reverse l))
    ∙ unfold lines_from in ended (reverse l) (end_line-reverse l h)
  where
    ended : (w : Text) → end_line w ≡ l → lines_from w (10 ∷ rest) ≡ l ∷ lines_from [] rest
    ended [] e = unfold lines_from in rw e refl
    ended (c ∷ w) e = unfold lines_from in rw e refl

decimal-IsLine : (n : ℕ) → IsLine (decimal n)
decimal-IsLine n =
    All-weaken IsDigit IsInLine (decimal n) (λ c h. ground arith) (decimal-AllDigits n)

resize_line-IsLine : (width height : ℕ) → IsLine (resize_line width height)
resize_line-IsLine width height =
    All-append IsInLine (codes "resize") (b' ' ∷ (decimal width ++ (b' ' ∷ decimal height)))
      (ground arith)
      (
        (refl, refl),
        All-append IsInLine (decimal width) _ (decimal-IsLine width)
            ((refl, refl), decimal-IsLine height),
      )

-- However often the host resizes a room, the pty of the guest has the last size that fits into 16
-- bits, or the one that it had: each message is read as it was meant, and those that do not fit
-- are passed over.
pub ctrl_reader-resize_messages :
    (sizes : List (ℕ × ℕ)) (size : ℕ × ℕ)
    → ctrl_reader (flatten (map (λ s. resize_message s.0 s.1) sizes)) size
      ≡ foldl (λ old new. resized new old) size sizes
unfolding ctrl_reader flatten
ctrl_reader-resize_messages [] size = unfold lines_from follow in refl
ctrl_reader-resize_messages ((width, height) ∷ sizes) size =
    let rest = flatten (map (λ s. resize_message s.0 s.1) sizes) in
    let joined : resize_message width height ++ rest ≡ resize_line width height ++ 10 ∷ rest =
      unfold resize_message in simp append_assoc in
    rw (joined, lines_from-line (resize_line width height) rest (resize_line-IsLine width height))
      (unfold follow in
        ground (
          arith,
          parse_resize-resize_line width height,
          ctrl_reader-resize_messages sizes (resized (width, height) size),
        ))

show_int-IsWord : (status : ℤ) → IsWord is_space (show_int status)
unfolding show_int
show_int-IsWord (pos n) = All-weaken IsDigit _ (decimal n) digit-IsNoSpace (decimal-AllDigits n)
show_int-IsWord (negsuc n) =
    (refl, All-weaken IsDigit _ (decimal (suc n)) digit-IsNoSpace (decimal-AllDigits (suc n)))

show_int-IsUnbroken : (status : ℤ) → All (λ c. (c == 10) ≡ false) (show_int status)
show_int-IsUnbroken status =
    All-weaken (λ c. is_space c ≡ false) (λ c. (c == 10) ≡ false) (show_int status)
      (λ c h. ground arith) (show_int-IsWord status)

show_int-ne-nil : (status : ℤ) → show_int status ≢ []
unfolding show_int
show_int-ne-nil (pos n) = decimal-ne-nil n
show_int-ne-nil (negsuc n) = λ e. cc

exit_line-IsWords :
    (status : ℤ)
    → words is_space (codes "exit " ++ show_int status) ≡ codes "exit" ∷ show_int status ∷ []
exit_line-IsWords status =
    words-cons is_space (codes "exit") b' ' (show_int status) (ground arith) (λ e. cc) refl
    ∙ ap (λ ws. codes "exit" ∷ ws)
        (words-single is_space (show_int status) (show_int-IsWord status) (show_int-ne-nil status))

parse_exit-exit_line :
    (status : ℤ)
    → magnitude status < pow10 19
    → parse_exit (codes "exit " ++ show_int status) ≡ some status
unfolding parse_exit exit_words same_text
parse_exit-exit_line status h = rw (exit_line-IsWords status) (to_int-show_int status h)

-- No newline.
abbrev IsUnbroken : Text → Type 0
IsUnbroken = All (λ c. (c == 10) ≡ false)

scan-line :
    (parse : Text → Option ℤ) (l line rest : Text)
    → IsUnbroken l
    → scan parse line (l ++ 10 ∷ rest)
      ≡ (elim (parse (line ++ l)) [ none ↦ scan parse [] rest | some status ↦ found status ])
unfolding scan
scan-line parse [] line rest h = rw append-nil refl
scan-line parse (c ∷ l) line rest h =
    rw (h.0, scan, scan-line parse l (line ++ c ∷ []) rest h.1, append_assoc) refl

-- The guest reports that its shell has ended, and the host hears it: in whatever chunks the message
-- arrives, and whatever comes behind it, the status that `_watch_exit` finds is the exit code,
-- which for a shell that a signal killed is 128 and the signal's number.
pub watch_exit-exit_message :
    (status : ExitStatus) (chunks : List Text) (behind : Text)
    → magnitude (exit_code status) < pow10 19
    → All (λ chunk. chunk ≢ []) chunks
    → flatten chunks ≡ exit_message (exit_code status) ++ behind
    → watch_exit parse_exit [] chunks ≡ some (exit_code status)
watch_exit-exit_message status chunks behind small full whole =
    watch_exit_ignores_chunks chunks full
    ∙ ap (λ t. outcome (scan parse_exit [] t)) (whole ∙ joined)
    ∙ rw
        (
          scan-line parse_exit (codes "exit " ++ show_int n) [] behind unbroken,
          parse_exit-exit_line n small,
        )
        refl
  where
    n : ℤ
    n = exit_code status

    joined : exit_message n ++ behind ≡ (codes "exit " ++ show_int n) ++ 10 ∷ behind
    joined = unfold exit_message in simp append_assoc

    unbroken : IsUnbroken (codes "exit " ++ show_int n)
    unbroken =
        All-append (λ c. (c == 10) ≡ false) (codes "exit ") _ (ground arith) (show_int-IsUnbroken n)
