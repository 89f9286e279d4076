-- ===== src/Confine.antt =====
-- src/keycard/backends/confine.py: the Landlock ruleset of one microVM and the set-up of the child process. What
-- the kernel answers is a parameter; a path is its text.
pub mod Rules
pub mod Child
pub mod Structs
pub mod System
mod Examples
use Prim.Native.Nat.{bit_and, bit_or}
use keycard.Prelude.{
  ℕ, zero, suc, ◌+◌, ◌-◌, ◌^◌, min, String, Bool, true, false, not, Option, none, some, List, [],
  ◌∷◌, ◌++◌, map, ◌==◌, Result, ok, err, Error, confinement_error, os_error, if◌then◌else◌,
}

-- LANDLOCK_ACCESS_FS_*
abbrev pub execute_bit : ℕ
execute_bit = 2 ^ 0

abbrev pub write_file : ℕ
write_file = 2 ^ 1

abbrev pub read_file : ℕ
read_file = 2 ^ 2

abbrev pub read_dir : ℕ
read_dir = 2 ^ 3

abbrev remove_dir : ℕ
remove_dir = 2 ^ 4

abbrev remove_file : ℕ
remove_file = 2 ^ 5

abbrev make_dir : ℕ
make_dir = 2 ^ 7

abbrev pub make_reg : ℕ
make_reg = 2 ^ 8

abbrev pub make_sock : ℕ
make_sock = 2 ^ 9

abbrev make_fifo : ℕ
make_fifo = 2 ^ 10

abbrev make_sym : ℕ
make_sym = 2 ^ 12

abbrev truncate : ℕ
truncate = 2 ^ 14

-- `_HANDLED_BY_ABI[min(abi, _NEWEST_ABI)]`, for an ABI that is not 0.
unfoldable pub handled_by : ℕ → ℕ
handled_by abi =
    let version = min abi 3 in
    if version == 1 then 2 ^ 13 - 1 else if version == 2 then 2 ^ 14 - 1 else 2 ^ 15 - 1

abbrev pub read : ℕ
read = bit_or read_file read_dir

abbrev pub execute : ℕ
execute = bit_or execute_bit read_file

abbrev pub write : ℕ
write =
    bit_or
      (bit_or (bit_or (bit_or read write_file) (bit_or truncate remove_dir))
        (bit_or remove_file make_dir))
      (bit_or (bit_or make_reg make_sock) (bit_or make_fifo make_sym))

abbrev pub file_access : ℕ
file_access = bit_or (bit_or execute_bit read_file) (bit_or write_file truncate)

abbrev pub kvm : String
kvm = "/dev/kvm"

pub record Plan : Type 0 where
  pub executable : List String
  pub readable : List String
  pub writable : List String

-- `Plan.rules`
unfoldable pub rules : Plan → List (String × ℕ)
rules plan =
    map (λ p. (p, execute)) plan.executable
    ++ map (λ p. (p, read)) plan.readable
    ++ map (λ p. (p, write)) plan.writable

-- `plan_for`
unfoldable pub plan_for : String → String → String → List String → Plan
plan_for binary kernel instance_dir extra_readable = record {
  executable = binary ∷ [];
  readable = kernel ∷ extra_readable;
  writable = instance_dir ∷ kvm ∷ [];
}

-- What the kernel and the file system answer.
pub record Kernel : Type 0 where
  -- 0 where there is no Landlock
  pub abi : ℕ
  pub creates : Bool
  -- whether a path can be opened, whether it is a directory, and whether a rule is accepted
  pub opens : String → Bool
  pub is_dir : String → Bool
  pub accepts : String → ℕ → Bool

-- The descriptors that are open, and the rules of the ruleset, latest first.
pub record Descriptors : Type 0 where
  pub ruleset_open : Bool
  pub path_open : Bool
  pub added : List (String × ℕ)

module _ (kernel : Kernel) where
  -- The access of a rule, narrowed to the kind of thing that it lands on.
  unfoldable pub narrowed : String → ℕ → ℕ
  narrowed path access = if kernel.is_dir path then access else bit_and access file_access

  -- The `finally` of `_add_rule`.
  abbrev close_path : Result (Unit {0}) × Descriptors → Result (Unit {0}) × Descriptors
  close_path (r, d) = (r, record d { path_open = false })

  -- `landlock_add_rule` with the path's descriptor open.
  abbrev add_opened : String → ℕ → Descriptors → Result (Unit {0}) × Descriptors
  add_opened path access d =
      if kernel.accepts path access
      then (ok tt, record d { added = (path, access) ∷ d.added })
      else (err confinement_error, d)

  -- `_add_rule`
  unfoldable pub add_rule : String → ℕ → Descriptors → Result (Unit {0}) × Descriptors
  unfolding narrowed
  add_rule path access d =
      if kernel.opens path
      then close_path (add_opened path (narrowed path access) (record d { path_open = true }))
      else (err confinement_error, d)

  -- The loop of `build_ruleset`.
  unfoldable pub add_rules : ℕ → List (String × ℕ) → Descriptors → Result (Unit {0}) × Descriptors
  unfolding add_rule
  add_rules handled [] d = (ok tt, d)
  add_rules handled ((path, access) ∷ more) d =
      let (r, d') = add_rule path (bit_and access handled) d in
      let rest = add_rules handled more d' in elim r [ err e ↦ (err e, d') | ok _ ↦ rest ]

  abbrev no_descriptors : Descriptors
  no_descriptors = record { ruleset_open = false; path_open = false; added = [] }

  -- `build_ruleset`: whether there is a ruleset, and the descriptors that are left open.
  unfoldable pub build_ruleset : Plan → Result Bool × Descriptors
  unfolding add_rules rules handled_by
  build_ruleset plan =
      if kernel.abi == 0
      then (ok false, no_descriptors)
      else if kernel.creates
      then (let (r, d) =
            add_rules (handled_by kernel.abi) (rules plan)
              (record no_descriptors { ruleset_open = true }) in
          elim r [ ok _ ↦ (ok true, d) | err e ↦ (err e, record d { ruleset_open = false }) ])
      else (err confinement_error, no_descriptors)

-- The calls of the function that `child_setup` returns, in the child.
pub data Call : Type 0 where
  limits_fsize limits_nofile : ℕ → Call
  forbids_privileges restricts closes_ruleset : Call

abbrev pub nofile : ℕ
nofile = 1024

-- `setup`: the two system calls answer whether they succeed; `has_ruleset` tells whether there is a
-- ruleset to apply.
unfoldable pub setup : Bool → ℕ → Bool → Bool → Result (Unit {0}) × List Call
setup has_ruleset fsize prctl_ok restrict_ok =
    let limits = limits_fsize fsize ∷ limits_nofile nofile ∷ [] in
    if not has_ruleset
    then (ok tt, limits)
    else if not prctl_ok
    then (err os_error, limits ++ forbids_privileges ∷ [])
    else if not restrict_ok
    then (err os_error, limits ++ forbids_privileges ∷ restricts ∷ [])
    else (ok tt, limits ++ forbids_privileges ∷ restricts ∷ closes_ruleset ∷ [])
