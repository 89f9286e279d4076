-- ===== src/Confine/System.antt =====
-- The library and the system calls behind the confinement: `_load_libc`, `_syscall`, `abi_version`, and
-- what `child_setup` does before it returns the child's function.
use keycard.Prelude.{
  ℕ, String, Bool, true, false, not, ◌&&◌, ◌≡◌, ◌⊎◌, Option, none, some, List, [], ◌∷◌, ℤ, pos,
  negsuc, arith, Result, ok, err, confinement_error, str_eq, if◌then◌else◌,
}
use keycard.Confine.{
  Call, setup, Plan, Kernel, build_ruleset, limits_fsize, limits_nofile, forbids_privileges,
  restricts, closes_ruleset, nofile,
}

-- `_load_libc`: the library that is loaded, if it can be; `found` is what `find_library` gives.
unfoldable pub load_libc : (String → Bool) → Option String → Option String
load_libc loads found =
    let name : String = elim found [
      | none ↦ "libc.so.6"
      | some lib ↦ if str_eq lib "" then "libc.so.6" else lib
    ] in
    if loads name then some name else none

-- `_syscall`, with what the kernel answers.
unfoldable pub syscall : Option String → ℤ → Result ℤ
syscall none answer = err confinement_error
syscall (some libc) answer = ok answer

-- `abi_version`; `answer` is that of `landlock_create_ruleset`, asked for its version.
unfoldable pub abi_version : Option String → ℤ → Result ℕ
unfolding syscall
abi_version none answer = ok 0
abi_version (some libc) answer = elim (syscall (some libc) answer) [
  | err e ↦ err e
  | ok (pos n) ↦ ok n
  | ok (negsuc n) ↦ ok 0
]

-- `child_setup`: it refuses a ruleset that no library could apply, and else gives the function `setup`
-- that the child runs, which answers to the success of its two system calls.
unfoldable pub child_setup :
    Option String → Bool → ℕ → Result (Bool → Bool → Result (Unit {0}) × List Call)
child_setup libc has_ruleset fsize = elim libc [
  | none ↦
      if has_ruleset
      then err confinement_error
      else ok (λ prctl_ok restrict_ok. setup false fsize prctl_ok restrict_ok)
  | some lib ↦ ok (λ prctl_ok restrict_ok. setup has_ruleset fsize prctl_ok restrict_ok)
]

-- Without Landlock no ruleset is built.
no_abi-no_ruleset :
    (kernel : Kernel) (plan : Plan) → kernel.abi ≡ 0 → (build_ruleset kernel plan).0 ≡ ok false
unfolding build_ruleset
no_abi-no_ruleset kernel plan e = ground (arith, e)

-- The calls that a child has made before it goes on to exec.
abbrev pub confined_calls : Bool → ℕ → List Call
confined_calls has_ruleset fsize =
    limits_fsize fsize
    ∷ limits_nofile nofile
    ∷ (if has_ruleset then forbids_privileges ∷ restricts ∷ closes_ruleset ∷ [] else [])

-- The set-up refuses nothing, and a child that goes on has made the calls.
abbrev pub IsConfining : Bool → ℕ → Result (Bool → Bool → Result (Unit {0}) × List Call) → Type 0
IsConfining has_ruleset fsize (err e) = ⊥
IsConfining has_ruleset fsize (ok run) =
    (prctl_ok restrict_ok : Bool)
    → ((run prctl_ok restrict_ok ≡ (ok tt, confined_calls has_ruleset fsize))
        ⊎ (has_ruleset && not (prctl_ok && restrict_ok) ≡ true))

setup-IsConfining :
    (has_ruleset : Bool) (fsize : ℕ)
    → IsConfining has_ruleset fsize (ok (λ p r. setup has_ruleset fsize p r))
unfolding setup
setup-IsConfining has_ruleset fsize prctl_ok restrict_ok = ground arith

-- The ruleset that is built for a microVM, on a kernel whose ABI is the one that `abi_version` found, is
-- one that the child can apply: `child_setup` never refuses it for want of a library, and where
-- both system calls succeed the child sets its two limits and, with a ruleset, gives up new
-- privileges and restricts itself before it goes on.
pub built_ruleset_is_applied :
    (libc : Option String) (answer : ℤ) (kernel : Kernel) (plan : Plan) (has_ruleset : Bool)
    (fsize : ℕ)
    → abi_version libc answer ≡ ok kernel.abi
    → (build_ruleset kernel plan).0 ≡ ok has_ruleset
    → IsConfining has_ruleset fsize (child_setup libc has_ruleset fsize)
unfolding abi_version child_setup
built_ruleset_is_applied none answer kernel plan has_ruleset fsize found built =
    let unbuilt : has_ruleset ≡ false = cc (built, no_abi-no_ruleset kernel plan (cc found)) in
    rw unbuilt (setup-IsConfining false fsize)
built_ruleset_is_applied (some lib) answer kernel plan has_ruleset fsize found built =
    setup-IsConfining has_ruleset fsize
