-- ===== src/Firecracker/Machine/Memory.antt =====
-- `parse_memory_mib` and `machine_config`, over a parameter for Python's floats.
use keycard.Prelude.{
  ℕ, ◌≤◌, ◌≡◌, refl, Option, none, some, [], ◌∷◌, arith, ℤ, pos, negsuc, Text, codes, Result, ok,
  err, Error, ◌==◌, ◌>>=◌, if◌then◌else◌,
}
use keycard.Prelude.Numbers.{strip, strip_left, strip_right, is_blank}
use keycard.Config.Durations.{split_last}
use keycard.Fcapi.{lower}
use keycard.Firecracker.Machine.{default_mem_mib, min_mem_mib, mem_size_mib, vcpu_count}

-- `_MEMORY_UNITS`
pub data MemoryUnit : Type 0 where
  bytes kib mib gib : MemoryUnit

unfoldable pub memory_unit : ℕ → Option MemoryUnit
memory_unit c =
    if c == b'b'
    then some bytes
    else if c == b'k'
    then some kib
    else if c == b'm'
    then some mib
    else if c == b'g'
    then some gib
    else none

pub record Floats (F : Type 0) : Type 0 where
  -- `float`: `none` is a `ValueError`
  pub to_float : Text → Option F
  pub in_mib : F → MemoryUnit → F
  -- `int`, which raises for an infinity and for what is not a number
  pub truncated : F → Result ℤ

-- `max(MIN_MEM_MIB, value)`
abbrev pub at_least : ℤ → ℕ
at_least (pos n) = mem_size_mib (some n)
at_least (negsuc n) = mem_size_mib (some 0)

-- The number of a text and its unit: a bare number is in bytes.
unfoldable pub number_and_unit : ℕ → Text → Text × MemoryUnit
unfolding memory_unit split_last
number_and_unit c cs =
    let (front, last) = split_last c cs in
    elim (memory_unit last) [ none ↦ (c ∷ cs, bytes) | some unit ↦ (front, unit) ]

module _ {F : Type 0} (floats : Floats F) where
  unfoldable pub rounded : Result ℤ → Result ℕ
  rounded (err e) = err e
  rounded (ok n) = ok (at_least n)

  -- `value` in its `try`, and what is made of it.
  unfoldable pub from_number : Option F → MemoryUnit → Result ℕ
  unfolding rounded
  from_number none unit = ok default_mem_mib
  from_number (some x) unit = rounded (floats.truncated (floats.in_mib x unit))

  -- `parse_memory_mib` behind `strip` and `lower`.
  unfoldable pub parse_lowered : Text → Result ℕ
  unfolding number_and_unit from_number
  parse_lowered [] = ok default_mem_mib
  parse_lowered (c ∷ cs) =
      let (number, unit) = number_and_unit c cs in from_number (floats.to_float number) unit

  unfoldable pub parse_memory_mib : Text → Result ℕ
  unfolding parse_lowered
  parse_memory_mib spec = parse_lowered (lower (strip is_blank spec))

  -- `machine_config`: processors and memory.
  unfoldable pub machine_config : ℤ → Text → Result (ℕ × ℕ)
  machine_config cpus memory = parse_memory_mib memory >>= λ size. ok (vcpu_count cpus, size)

  -- The memory is one that Firecracker takes, or rounding a number has raised.
  abbrev pub IsMemory : Result ℕ → Type 0
  IsMemory (ok size) = min_mem_mib ≤ size
  IsMemory (err e) = (x : F) × (floats.truncated x ≡ err e)

  rounded-IsMemory : (x : F) (r : Result ℤ) → floats.truncated x ≡ r → IsMemory (rounded r)
  unfolding rounded mem_size_mib
  rounded-IsMemory x (err e) h = (x, h)
  rounded-IsMemory x (ok (pos n)) h = omega arith
  rounded-IsMemory x (ok (negsuc n)) h = omega arith

  from_number-IsMemory : (o : Option F) (unit : MemoryUnit) → IsMemory (from_number o unit)
  unfolding from_number
  from_number-IsMemory none unit = omega arith
  from_number-IsMemory (some x) unit = rounded-IsMemory (floats.in_mib x unit) _ refl

  parse_lowered-IsMemory : (l : Text) → IsMemory (parse_lowered l)
  unfolding parse_lowered
  parse_lowered-IsMemory [] = omega arith
  parse_lowered-IsMemory (c ∷ cs) =
      let (number, unit) = number_and_unit c cs in
      from_number-IsMemory (floats.to_float number) unit

  -- Whatever text a room's memory is, it is at least what Firecracker takes, or rounding a number to
  -- an integer has raised, which it does for one that is not finite.
  pub parse_memory_mib-IsMemory : (spec : Text) → IsMemory (parse_memory_mib spec)
  unfolding parse_memory_mib
  parse_memory_mib-IsMemory spec = parse_lowered-IsMemory (lower (strip is_blank spec))

-- A text that `float` reads as a number which `int` refuses, such as `inf`, is not taken for one that
-- does not parse: the default is not used, and what `int` raises goes on.
pub infinite_memory_raises :
    {F : Type 0} (floats : Floats F) (x : F) (e : Error)
    → floats.to_float (codes "inf") ≡ some x
    → floats.truncated (floats.in_mib x bytes) ≡ err e
    → parse_memory_mib floats (codes "inf") ≡ err e
unfolding parse_memory_mib lower strip strip_left strip_right
infinite_memory_raises floats x e parsed refused = rw (parsed, refused) refl
