-- ===== src/Config/Toml.antt =====
-- What `tomllib.loads` gives, and what the program asks of Python and of the host about it.
use keycard.Prelude.{ℕ, String, Bool, ◌≡◌, Option, none, some, ℤ, Result, ok, str_eq, if◌then◌else◌}

mutual
  pub data Value : Type 0 where
    text : String → Value
    integer : ℤ → Value
    boolean : Bool → Value
    -- floats, dates and arrays: the program asks only for their `str` and `int`
    other : ℕ → Value
    table : Table → Value

  pub data Table : Type 0 where
    end : Table
    entry : String → Value → Table → Table

-- `raw.get(key)`
unfoldable pub find : String → Table → Option Value
find k end = none
find k (entry j v t) = if str_eq j k then some v else find k t

-- `str`, `int` and `Path.expanduser`, and the two directories that the host names.
pub record Python : Type 0 where
  pub str_of : Value → String
  pub int_of : Value → Result ℤ
  pub expand_user : String → String
  pub config_dir : String
  pub temp_dir : String
  pub str_of_text : (s : String) → str_of (text s) ≡ s
  pub int_of_integer : (n : ℤ) → int_of (integer n) ≡ ok n
