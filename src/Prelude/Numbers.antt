-- ===== src/Prelude/Numbers.antt =====
-- Python's `strip` and `int` on bytes and on text below 256, and `bytes.split`.
use Prim.Native.Nat.{ℕ, zero, suc, ◌+◌, ◌*◌, ◌-◌}
use mathlib.Core.Bool.{Bool, false, ◌&&◌, ◌||◌}
use mathlib.Core.Option.{Option, none, some}
use mathlib.Core.List.{List, [], ◌∷◌, reverse}
use keycard.Prelude.Tests.{ltb, leb, ◌==◌, if◌then◌else◌}
use keycard.Prelude.Lists.{count_if}
use keycard.Prelude.Texts.{Text}
use keycard.Prelude.Ints.{ℤ, pos, negsuc}

abbrev pub is_digit : ℕ → Bool
is_digit c = leb b'0' c && leb c b'9'

-- the whitespace of `bytes`: tab, newline, vertical tab, form feed, return and space
abbrev pub is_space : ℕ → Bool
is_space c = (leb 9 c && leb c 13) || c == 32

-- the whitespace of `str` below 256, which has four separators, next line and no-break space too
abbrev pub is_blank : ℕ → Bool
is_blank c = is_space c || ((leb 28 c && leb c 31) || (c == 133 || c == 160))

module _ (space : ℕ → Bool) where
  unfoldable pub strip_left : Text → Text
  strip_left [] = []
  strip_left (c ∷ cs) = let rest = strip_left cs in if space c then rest else c ∷ cs

  -- Trailing whitespace goes: a suffix of whitespace is dropped as soon as it is all there is.
  unfoldable pub strip_right : Text → Text
  strip_right [] = []
  strip_right (c ∷ cs) = elim (strip_right cs) [
    | [] ↦ if space c then [] else c ∷ []
    | d ∷ ds ↦ c ∷ d ∷ ds
  ]

  unfoldable pub strip : Text → Text
  unfolding strip_left strip_right
  strip cs = strip_right (strip_left cs)

-- Digits with single underscores between them; `after_digit` allows an underscore or the end.
unfoldable pub digits_value : ℕ → Bool → Text → Option ℕ
digits_value acc after_digit [] = if after_digit then some acc else none
digits_value acc after_digit (c ∷ cs) =
    let rest = digits_value (if is_digit c then acc * 10 + (c - b'0') else acc) (is_digit c) cs in
    if is_digit c || (c == b'_' && after_digit) then rest else none

-- CPython refuses more than 4300 digits.
unfoldable pub natural : Text → Option ℕ
unfolding digits_value
natural cs = if ltb 4300 (count_if is_digit cs) then none else digits_value 0 false cs

unfoldable pub negative : ℕ → ℤ
negative zero = pos 0
negative (suc n) = negsuc n

-- `int` of a text that has been stripped; `none` is a `ValueError`.
unfoldable pub signed : Text → Option ℤ
unfolding natural negative
signed [] = none
signed (s ∷ ds) =
    if s == b'-'
    then (elim (natural ds) [ none ↦ none | some n ↦ some (negative n) ])
    else elim (natural (if s == b'+' then ds else s ∷ ds)) [ none ↦ none | some n ↦ some (pos n) ]

-- `int(bytes)`
unfoldable pub to_int : Text → Option ℤ
unfolding strip signed
to_int cs = signed (strip is_space cs)

-- `int(str)`
unfoldable pub str_to_int : Text → Option ℤ
unfolding strip signed
str_to_int cs = signed (strip is_blank cs)

-- `text.split()`: the words between runs of whitespace. `word` is the word being read, backwards.
module _ (space : ℕ → Bool) where
  unfoldable pub words_from : Text → Text → List Text
  words_from [] [] = []
  words_from (w ∷ word) [] = reverse (w ∷ word) ∷ []
  words_from word (c ∷ cs) =
      let more = words_from (c ∷ word) cs in
      let next = words_from [] cs in
      if space c then (elim word [ [] ↦ next | w ∷ ws ↦ reverse (w ∷ ws) ∷ next ]) else more

  unfoldable pub words : Text → List Text
  unfolding words_from
  words cs = words_from [] cs
