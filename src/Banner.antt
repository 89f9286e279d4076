-- ===== src/Banner.antt =====
-- src/keycard/banner.py: the card for the operator's terminal, and the texts for the client. A text is the
-- list of its code points, before it is encoded.
use keycard.Prelude.{
  ℕ, zero, suc, ◌+◌, ◌*◌, ◌-◌, ◌/◌, ◌%◌, ◌≤◌, ◌≡◌, refl, List, [], ◌∷◌, ◌++◌, map, arith, Text,
  codes, length, length-append, All, All-append,
}
use keycard.Fcapi.{join_lines}

-- `_WIDTH`
abbrev pub width : ℕ
width = 26

-- `c * n`
unfoldable pub repeat : ℕ → ℕ → Text
repeat zero c = []
repeat (suc n) c = c ∷ repeat n c

-- `line.center(n)`: where the padding is odd, CPython puts the odd space on the left if the width is odd.
unfoldable pub center : ℕ → Text → Text
unfolding repeat
center n line =
    let marg = n - length line in
    let left = marg / 2 + (marg % 2) * (n % 2) in
    repeat left 32 ++ (line ++ repeat (marg - left) 32)

abbrev edge : Text
edge = b'+' ∷ (repeat width b'-' ++ b'+' ∷ [])

abbrev stripe : Text
stripe = b'|' ∷ (repeat width b'#' ++ b'|' ∷ [])

abbrev row : Text → Text
row line = b'|' ∷ (center width line ++ b'|' ∷ [])

-- The lines of `_card`.
unfoldable pub card : List Text → List Text
card lines = edge ∷ stripe ∷ (map row lines ++ edge ∷ [])

-- `LOGO`
unfoldable pub logo : List Text
unfolding card
logo = card ([] ∷ codes "k e y c a r d" ∷ codes "disposable ssh sandboxes" ∷ [] ∷ [])

abbrev bold_cyan : Text
bold_cyan = 27 ∷ codes "[1;36m"

abbrev bold_yellow : Text
bold_yellow = 27 ∷ codes "[1;33m"

abbrev dim : Text
dim = 27 ∷ codes "[2m"

abbrev reset : Text
reset = 27 ∷ codes "[0m"

-- `("\r\n".join(lines) + "\r\n")`
abbrev framed : List Text → Text
framed lines = join_lines lines ++ 13 ∷ 10 ∷ []

unfoldable pub accepted : Text → Text → Text
unfolding join_lines
accepted room_name image = framed (
    []
    ∷ (bold_cyan ++ codes "KEYCARD ACCEPTED" ++ reset)
    ∷ (codes "your room is "
        ++ room_name
        ++ codes " "
        ++ dim
        ++ codes "("
        ++ image
        ++ codes ")"
        ++ reset)
    ∷ []
    ∷ [])

unfoldable pub resumed : Text → Text → Text
unfolding join_lines
resumed room_name image = framed (
    []
    ∷ (bold_cyan ++ codes "KEYCARD RESUMED" ++ reset)
    ∷ (codes "welcome back to "
        ++ room_name
        ++ codes " "
        ++ dim
        ++ codes "("
        ++ image
        ++ codes ")"
        ++ reset)
    ∷ []
    ∷ [])

unfoldable pub destroyed : Text → Text
unfolding join_lines
destroyed reason = framed (
    []
    ∷ (bold_yellow
        ++ codes "ROOM DESTROYED"
        ++ reset
        ++ codes " "
        ++ dim
        ++ codes "— "
        ++ reason
        ++ reset)
    ∷ []
    ∷ [])

pub length-repeat : (n c : ℕ) → length (repeat n c) ≡ n
unfolding repeat
length-repeat zero c = refl
length-repeat (suc n) c = ground (arith, length-repeat n c)

length-padded :
    (n left : ℕ) (line : Text)
    → length line ≤ n
    → left ≤ n - length line
    → length (repeat left 32 ++ (line ++ repeat (n - length line - left) 32)) ≡ n
length-padded n left line h fits = ground (
  arith,
  length-append (repeat left 32) (line ++ repeat (n - length line - left) 32),
  length-append line (repeat (n - length line - left) 32),
  length-repeat left 32,
  length-repeat (n - length line - left) 32,
)

odd_space_fits : (marg bit : ℕ) → bit ≤ 1 → marg / 2 + (marg % 2) * bit ≤ marg
odd_space_fits marg zero h = omega arith
odd_space_fits marg (suc zero) h = omega arith
odd_space_fits marg (suc (suc bit)) h = omega arith

length-center : (n : ℕ) (line : Text) → length line ≤ n → length (center n line) ≡ n
unfolding center
length-center n line h =
    length-padded n _ line h (odd_space_fits (n - length line) (n % 2) (omega arith))

length-row : (line : Text) → length line ≤ width → length (row line) ≡ width + 2
length-row line h =
    ground (arith, length-append (center width line) (b'|' ∷ []), length-center width line h)

length-rows :
    (lines : List Text)
    → All (λ l. length l ≤ width) lines
    → All (λ l. length l ≡ width + 2) (map row lines)
length-rows [] h = tt
length-rows (l ∷ lines) h = (length-row l h.0, length-rows lines h.1)

-- A card whose lines are no longer than its width is a rectangle.
pub card_is_rectangular :
    (lines : List Text)
    → All (λ l. length l ≤ width) lines
    → All (λ l. length l ≡ width + 2) (card lines)
unfolding card repeat
card_is_rectangular lines h =
    (refl, (refl, All-append _ (map row lines) (edge ∷ []) (length-rows lines h) (refl, tt)))
