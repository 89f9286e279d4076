-- ===== src/Prelude/Texts.antt =====
-- Texts that the program walks: the list of their code points (bytes, where the source has bytes).
use Prim.Native.Char.{code}
use Prim.Native.Nat.{ℕ, zero, suc}
use Prim.Native.String.{String}
use mathlib.Core.Option.{Option, none, some}
use mathlib.Core.Bool.{Bool, true, false}
use mathlib.Core.List.{List, [], ◌∷◌}
use keycard.Prelude.Tests.{◌==◌, if◌then◌else◌}

abbrev pub Text : Type 0
Text = List ℕ

abbrev pub codes : String → Text
codes String.[] = []
codes (String.◌∷◌ c s) = code c ∷ codes s

-- Equality of texts.
unfoldable pub same_text : Text → Text → Bool
same_text [] [] = true
same_text (a ∷ as') (b ∷ bs) = if a == b then same_text as' bs else false
same_text _ _ = false

-- `startswith`
unfoldable pub starts_with : Text → Text → Bool
starts_with cs [] = true
starts_with [] (p ∷ ps) = false
starts_with (c ∷ cs) (p ∷ ps) = if c == p then starts_with cs ps else false

-- `partition` at a character: what stands before the first one and behind it, where there is one.
unfoldable pub cut : ℕ → Text → Option (Text × Text)
cut c [] = none
cut c (d ∷ ds) =
    let more = cut c ds in
    if d == c
    then some ([], ds)
    else elim more [ none ↦ none | some (front, back) ↦ some (d ∷ front, back) ]

-- The first `n` bytes and the rest, where there are as many.
unfoldable pub take_exactly : ℕ → Text → Option (Text × Text)
take_exactly zero cs = some ([], cs)
take_exactly (suc n) [] = none
take_exactly (suc n) (c ∷ cs) = elim (take_exactly n cs) [
  | none ↦ none
  | some (front, back) ↦ some (c ∷ front, back)
]
