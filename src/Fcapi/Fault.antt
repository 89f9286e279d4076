-- ===== src/Fcapi/Fault.antt =====
-- The errors of the API: `fault_message` and `ApiError`. What `json.loads` and `bytes.decode`
-- make of a body is a parameter.
use keycard.Prelude.{
  String, Option, none, some, [], ◌∷◌, ◌++◌, ℤ, Text, codes, Result, ok, err, Error, str_eq, ◌>>=◌,
  if◌then◌else◌,
}
use keycard.Prelude.Numbers.{strip, is_space}
use keycard.Prelude.Decimals.{show_int}

-- A parsed body.
mutual
  pub data Json : Type 0 where
    string : Text → Json
    object : Members → Json
    other : Json

  pub data Members : Type 0 where
    end : Members
    member : String → Json → Members → Members

unfoldable pub find_member : String → Members → Option Json
find_member key end = none
find_member key (member name value members) =
    let rest = find_member key members in if str_eq name key then some value else rest

pub record Bodies : Type 0 where
  -- `json.loads`
  pub loads : Text → Result Json
  -- `body.decode("utf-8", "replace")`
  pub decode : Text → Text

abbrev string_of : Option Json → Text
string_of (some (string message)) = message
string_of _ = []

-- What `fault_message` finds in a body that parsed.
unfoldable pub fault_of : Json → Text
unfolding find_member
fault_of (object members) = string_of (find_member "fault_message" members)
fault_of _ = []

-- `fault_message`: a body that does not parse has none.
unfoldable pub fault_message : Bodies → Text → Result Text
unfolding fault_of
fault_message bodies body = elim (bodies.loads body) [
  | ok parsed ↦ ok (fault_of parsed)
  | err e ↦ elim e [ Error.value_error ↦ ok [] | Error.type_error ↦ ok [] | x ↦ err x ]
]

-- `fault_message(body) or body.decode("utf-8", "replace").strip()`
abbrev detail : Bodies → Text → Text → Text
detail bodies body [] = strip is_space (bodies.decode body)
detail bodies body (c ∷ cs) = c ∷ cs

abbrev behind_colon : Text → Text
behind_colon [] = []
behind_colon (c ∷ cs) = codes ": " ++ (c ∷ cs)

-- The text of an `ApiError`.
unfoldable pub error_text : Bodies → Text → Text → ℤ → Text → Result Text
unfolding fault_message
error_text bodies method path status body = do
  fault ← fault_message bodies body
  ok (
      method
      ++ (32
          ∷ (path
              ++ (codes " → HTTP "
                  ++ (show_int status ++ behind_colon (detail bodies body fault))))))
