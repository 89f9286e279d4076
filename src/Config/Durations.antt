-- ===== src/Config/Durations.antt =====
-- `parse_duration` of src/keycard/config.py. Floating-point numbers are a parameter.
use keycard.Prelude.{
  ℕ, Option, none, some, [], ◌∷◌, Text, codes, Result, ok, err, value_error, ◌==◌, same_text,
  if◌then◌else◌,
}
use keycard.Config.Types.{Config, FirecrackerConfig}
use keycard.Prelude.Numbers.{strip, is_blank}

pub record Floats (F : Type 0) : Type 0 where
  pub zero : F
  pub times : F → ℕ → F
  -- `float`: `none` is a `ValueError`
  pub to_float : Text → Option F

-- `_DURATION_UNITS`
unfoldable pub unit_seconds : ℕ → Option ℕ
unit_seconds c =
    if c == b's'
    then some 1
    else if c == b'm'
    then some 60
    else if c == b'h'
    then some 3600
    else none

-- `spec[:-1]` and `spec[-1]` of the text `c ∷ spec`
unfoldable pub split_last : ℕ → Text → Text × ℕ
split_last c [] = ([], c)
split_last c (d ∷ ds) = let (front, back) = split_last d ds in (c ∷ front, back)

module _ {F : Type 0} (floats : Floats F) where
  unfoldable pub as_float : Text → Result F
  as_float text = elim (floats.to_float text) [ none ↦ err value_error | some x ↦ ok x ]

  -- `parse_duration` behind the `strip`.
  unfoldable pub parse_stripped : Text → Result F
  unfolding as_float split_last unit_seconds
  parse_stripped [] = ok floats.zero
  parse_stripped (c ∷ cs) =
      if same_text (c ∷ cs) (codes "0")
      then ok floats.zero
      else (let (front, back) = split_last c cs in
          elim (unit_seconds back) [
            | some u ↦ elim (as_float front) [ err e ↦ err e | ok x ↦ ok (floats.times x u) ]
            | none ↦ as_float (c ∷ cs)
          ])

  -- `parse_duration`
  unfoldable pub parse_duration : Text → Result F
  unfolding parse_stripped
  parse_duration spec = parse_stripped (strip is_blank spec)

  -- `Config.idle_timeout_seconds`
  abbrev pub idle_timeout_seconds : Config → Result F
  idle_timeout_seconds config = parse_duration (codes config.idle_timeout)

  -- `Config.shutdown_grace_seconds`
  abbrev pub shutdown_grace_seconds : Config → Result F
  shutdown_grace_seconds config = parse_duration (codes config.shutdown_grace)

  -- `Config.keep_window_seconds`
  abbrev pub keep_window_seconds : Config → Result F
  keep_window_seconds config = parse_duration (codes config.keep_window)

  -- `FirecrackerConfig.boot_timeout_seconds`
  abbrev boot_timeout_seconds : FirecrackerConfig → Result F
  boot_timeout_seconds config = parse_duration (codes config.boot_timeout)
