-- ===== src/Guest.antt =====
-- guest-agent/src: the agent inside a microVM, which runs the shell and speaks with the host over a data
-- and a control channel. Here: the control channel's texts. A line is the code points of its text.
pub mod Agent
pub mod Args
pub mod Keystrokes
pub mod Pty
pub mod Reattach
pub mod Shells
pub mod Wire
mod Examples
use keycard.Prelude.{
  ℕ, zero, suc, ◌+◌, ◌*◌, ◌-◌, Bool, true, false, ◌||◌, ◌&&◌, Option, none, some, List, [], ◌∷◌,
  ◌++◌, ◌==◌, leb, ltb, ℤ, Text, codes, same_text, reverse, if◌then◌else◌,
}
use keycard.Prelude.Numbers.{is_digit, words}
use keycard.Prelude.Decimals.{show_int}

-- The whitespace of Rust's `split_whitespace`.
abbrev pub is_white : ℕ → Bool
is_white c =
    ((leb 9 c && leb c 13) || (c == 32 || (c == 133 || c == 160)))
    || ((c == 5760 || (leb 8192 c && leb c 8202))
        || ((c == 8232 || c == 8233) || (c == 8239 || (c == 8287 || c == 12288))))

-- The digits of a number, all of the text.
unfoldable pub digits_from : ℕ → Text → Option ℕ
digits_from value [] = some value
digits_from value (c ∷ cs) =
    let rest = digits_from (value * 10 + (c - b'0')) cs in if is_digit c then rest else none

unfoldable pub unsigned : Text → Option ℕ
unfolding digits_from
unsigned [] = none
unsigned (c ∷ cs) = digits_from 0 (c ∷ cs)

abbrev pub max_u16 : ℕ
max_u16 = 65535

abbrev pub max_u32 : ℕ
max_u32 = 4294967295

abbrev pub fits : ℕ → Option ℕ → Option ℕ
fits max none = none
fits max (some n) = if leb n max then some n else none

-- `str::parse` of an unsigned integer: one `+` may stand in front, and a number that is too large is
-- an error.
unfoldable pub parse_unsigned : ℕ → Text → Option ℕ
unfolding unsigned
parse_unsigned max [] = none
parse_unsigned max (c ∷ cs) = fits max (if c == b'+' then unsigned cs else unsigned (c ∷ cs))

unfoldable pub parse_u16 : Text → Option ℕ
unfolding parse_unsigned
parse_u16 cs = parse_unsigned max_u16 cs

unfoldable pub parse_u32 : Text → Option ℕ
unfolding parse_unsigned
parse_u32 cs = parse_unsigned max_u32 cs

-- The words of `parse_resize`: words behind the third are not looked at.
unfoldable pub resize_words : List Text → Option (ℕ × ℕ)
unfolding parse_u16
resize_words (verb ∷ cols ∷ rows ∷ more) =
    if same_text verb (codes "resize")
    then (elim (parse_u16 cols) [
      | none ↦ none
      | some c ↦ elim (parse_u16 rows) [ none ↦ none | some r ↦ some (c, r) ]
    ])
    else none
resize_words _ = none

-- `parse_resize`: columns and rows.
unfoldable pub parse_resize : Text → Option (ℕ × ℕ)
unfolding resize_words
parse_resize line = resize_words (words is_white line)

-- A `\r` in front of the newline goes with it; `line` is the line being read, backwards.
abbrev pub end_line : Text → Text
end_line [] = []
end_line (c ∷ line) = if c == 13 then reverse line else reverse (c ∷ line)

-- `BufReader::lines`: the last line need not end in a newline.
unfoldable pub lines_from : Text → Text → List Text
lines_from [] [] = []
lines_from (c ∷ line) [] = reverse (c ∷ line) ∷ []
lines_from line (c ∷ cs) =
    let next = lines_from [] cs in
    let more = lines_from (c ∷ line) cs in if c == 10 then end_line line ∷ next else more

-- The loop of `ctrl_reader`, on the size of the pty as columns and rows: a line that does not parse
-- is passed over. The shell runs.
unfoldable pub follow : List Text → ℕ × ℕ → ℕ × ℕ
follow [] size = size
follow (line ∷ lines) size = elim (parse_resize line) [
  | none ↦ follow lines size
  | some new ↦ follow lines new
]

unfoldable pub ctrl_reader : Text → ℕ × ℕ → ℕ × ℕ
unfolding follow lines_from
ctrl_reader stream size = follow (lines_from [] stream) size

-- How a shell ended: with a code, or by a signal.
pub data ExitStatus : Type 0 where
  code : ℤ → ExitStatus
  signal : ℕ → ExitStatus

-- `exit_code`
unfoldable pub exit_code : ExitStatus → ℤ
exit_code (code n) = n
exit_code (signal n) = ℤ.pos (128 + n)

-- `format!("exit {code}\n")`
unfoldable pub exit_message : ℤ → Text
exit_message status = codes "exit " ++ show_int status ++ 10 ∷ []
