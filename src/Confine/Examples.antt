-- ===== src/Confine/Examples.antt =====
-- The theorems about confinement at a kernel that does what it documents.
use Prim.Native.Nat.{bit_and}
use keycard.Prelude.{
  some, pos, true, false, ◌≡◌, refl, [], ◌∷◌, arith, ◌==◌, ok, err, All, str_eq, ◌||◌, ◌&&◌,
}
use keycard.Confine.{Kernel, plan_for, build_ruleset, handled_by, file_access, rules}
use keycard.Confine.Structs.{ReachesKernel, rules_reach_kernel}
use keycard.Confine.System.{
  abi_version, syscall, child_setup, IsConfining, built_ruleset_is_applied,
}
use keycard.Confine.Rules.{Documented, IsConfined, build_ruleset_succeeds, build_ruleset_confines}

-- Landlock of version 2; the one directory is that of the instance, and every path can be opened.
abbrev linux : Kernel
linux = record {
  abi = 2;
  creates = true;
  opens = λ path. true;
  is_dir = λ path. str_eq path "/tmp/keycard/kc-1";
  accepts = λ path access.
      (bit_and access (handled_by 2) == access)
      && (str_eq path "/tmp/keycard/kc-1" || (bit_and access file_access == access));
}

linux-Documented : Documented linux
linux-Documented path access handled kind = ground arith

linux-confined :
    let (r, d) =
      build_ruleset linux
        (plan_for "/usr/bin/firecracker" "/boot/vmlinux" "/tmp/keycard/kc-1" ("/etc/fc" ∷ [])) in
    (r ≡ ok true) × (d.ruleset_open ≡ true)
linux-confined =
    build_ruleset_succeeds linux linux-Documented "/usr/bin/firecracker" "/boot/vmlinux"
      "/tmp/keycard/kc-1" ("/etc/fc" ∷ []) (omega arith) refl
      (refl, (refl, (refl, (refl, (refl, tt)))))

build_ruleset_confines_example :
    let (r, d) =
      build_ruleset linux
        (plan_for "/usr/bin/firecracker" "/boot/vmlinux" "/tmp/keycard/kc-1" ("/etc/fc" ∷ [])) in
    All (IsConfined "/tmp/keycard/kc-1") d.added
    × (d.path_open ≡ false)
    × (d.ruleset_open ≡ (elim r [ ok built ↦ built | err e ↦ false ]))
build_ruleset_confines_example =
    build_ruleset_confines linux "/tmp/keycard/kc-1" "/usr/bin/firecracker" "/boot/vmlinux"
      ("/etc/fc" ∷ [])

linux-abi : abi_version (some "libc.so.6") (pos 2) ≡ ok 2
unfolding abi_version syscall
linux-abi = refl

built_ruleset_is_applied_example :
    IsConfining true 268435456 (child_setup (some "libc.so.6") true 268435456)
built_ruleset_is_applied_example =
    built_ruleset_is_applied (some "libc.so.6") (pos 2) linux
      (plan_for "/usr/bin/firecracker" "/boot/vmlinux" "/tmp/keycard/kc-1" ("/etc/fc" ∷ [])) true
      268435456 linux-abi linux-confined.0

rules_reach_kernel_example :
    All
      (ReachesKernel true linux 5 (omega arith))
      (rules (plan_for "/usr/bin/firecracker" "/boot/vmlinux" "/tmp/keycard/kc-1" ("/etc/fc" ∷ [])))
rules_reach_kernel_example =
    rules_reach_kernel true linux 5 (omega arith)
      (plan_for "/usr/bin/firecracker" "/boot/vmlinux" "/tmp/keycard/kc-1" ("/etc/fc" ∷ []))
