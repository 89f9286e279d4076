-- ===== src/Firecracker/Exit.antt =====
-- The control channel: `parse_exit`, and the loop of `_watch_exit` over the chunks that the socket
-- gives.
pub mod Chunks
use keycard.Prelude.{
  same_text, ℕ, zero, suc, length, String, Bool, true, false, ◌≡◌, refl, ◌∙◌, ap, sym, Option, none,
  some, List, [], ◌∷◌, ◌++◌, append_assoc, append-nil, ℤ, pos, negsuc, Text, codes, ◌==◌,
  if◌then◌else◌, arith, Option-cases, inl, inr, Bool-cases,
}
use keycard.Prelude.Numbers.{words, to_int, strip, natural, is_space}

-- The two words of a line, where it has two.
unfoldable pub exit_words : List Text → Option ℤ
unfolding same_text
exit_words (verb ∷ code ∷ []) = if same_text verb (codes "exit") then to_int code else none
exit_words _ = none

-- `parse_exit`
unfoldable pub parse_exit : Text → Option ℤ
unfolding exit_words words
parse_exit line = exit_words (words is_space line)

-- `buffer.split(b"\n", 1)` where the buffer has a newline: the first line and the rest.
unfoldable pub split_line : Text → Option (Text × Text)
split_line [] = none
split_line (c ∷ cs) =
    if c == 10
    then some ([], cs)
    else elim (split_line cs) [ none ↦ none | some (line, rest) ↦ some (c ∷ line, rest) ]

-- What the inner loop leaves: the status, or the bytes that wait for a newline.
pub data Scan : Type 0 where
  found : ℤ → Scan
  waiting : Text → Scan

module _ (parse : Text → Option ℤ) where
  -- `while b"\n" in buffer`, with fuel: each round takes a line off the buffer.
  unfoldable pub take_lines : ℕ → Text → Scan
  take_lines zero buffer = waiting buffer
  take_lines (suc fuel) buffer = elim (split_line buffer) [
    | none ↦ waiting buffer
    | some (line, rest) ↦ elim (parse line) [
      | none ↦ take_lines fuel rest
      | some status ↦ found status
    ]
  ]

  -- `_watch_exit`: the chunks that the socket gives, an empty one at the end of the stream; `none`
  -- where the stream ends, or the task is cancelled, with no status read.
  unfoldable pub watch_exit : Text → List Text → Option ℤ
  watch_exit buffer [] = none
  watch_exit buffer ([] ∷ chunks) = none
  watch_exit buffer ((c ∷ cs) ∷ chunks) =
      let buffer' = buffer ++ c ∷ cs in
      elim (take_lines (suc (length buffer')) buffer') [
        | found status ↦ some status
        | waiting rest ↦ watch_exit rest chunks
      ]
