-- ===== src/Prelude/Words.antt =====
-- The words of a text that is put together from words.
use Prim.Native.Nat.{ℕ}
use mathlib.Core.Path.{◌≡◌, refl, sym, ◌∙◌, ap}
use mathlib.Core.Logic.{◌≢◌}
use mathlib.Core.Bool.{Bool, true, false}
use mathlib.Core.List.{
  [], ◌∷◌, ◌++◌, append_assoc, append-nil, reverse, reverse-reverse, reverse-cons,
}
use keycard.Prelude.Lists.{All}
use keycard.Prelude.Texts.{Text}
use keycard.Prelude.Numbers.{words_from, words}

module _ (space : ℕ → Bool) where
  abbrev pub IsWord : Text → Type 0
  IsWord = All (λ c. space c ≡ false)

  words_from-append :
      (l before rest : Text)
      → IsWord l
      → words_from space before (l ++ rest) ≡ words_from space (reverse l ++ before) rest
  unfolding words_from
  words_from-append [] before rest h = refl
  words_from-append (c ∷ l) before rest h =
      rw (h.0, words_from, words_from-append l (c ∷ before) rest h.1, reverse-cons, append_assoc)
        refl

  -- A word is over at the first whitespace behind it, or at the end.
  pub words-cons :
      (l : Text) (c : ℕ) (rest : Text)
      → IsWord l
      → l ≢ []
      → space c ≡ true
      → words space (l ++ c ∷ rest) ≡ l ∷ words space rest
  unfolding words words_from
  words-cons l c rest h some_text blank =
      words_from-append l [] (c ∷ rest) h
      ∙ (ap (λ w. words_from space w (c ∷ rest)) (append-nil (reverse l)) ∙ ended (reverse l) refl)
    where
      ended :
          (w : Text) → reverse l ≡ w → words_from space w (c ∷ rest) ≡ l ∷ words_from space [] rest
      ended [] e = absurd (some_text (sym (reverse-reverse l) ∙ ap reverse e))
      ended (d ∷ w) e =
          rw (blank, words_from)
            (ap (λ x. x ∷ words_from space [] rest) (ap reverse (sym e) ∙ reverse-reverse l))

  pub words-single : (l : Text) → IsWord l → l ≢ [] → words space l ≡ l ∷ []
  unfolding words words_from
  words-single l h some_text =
      ap (words_from space []) (sym (append-nil l))
      ∙ words_from-append l [] [] h
      ∙ ap (λ w. words_from space w []) (append-nil (reverse l))
      ∙ ended (reverse l) refl
    where
      ended : (w : Text) → reverse l ≡ w → words_from space w [] ≡ l ∷ []
      ended [] e = absurd (some_text (sym (reverse-reverse l) ∙ ap reverse e))
      ended (d ∷ w) e = ap (λ x. x ∷ []) (ap reverse (sym e) ∙ reverse-reverse l)
