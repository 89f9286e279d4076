-- ===== src/Firecracker/Backend.antt =====
-- `FirecrackerBackend.__init__`: the preflight, the runtime directory, and the sweep of debris.
use keycard.Prelude.{
  String, Bool, ◌≡◌, List, arith, Result, ok, ◌>>=◌, >>=-eq-ok, count_if, if◌then◌else◌,
}
use keycard.Config.Types.{FirecrackerConfig}
use keycard.Firecracker.Preflight.{System, HasPassed, preflight, preflight_passed}
use keycard.Firecracker.Debris.{Entry, Proc, reap_debris}
use keycard.Firecracker.Debris.Spared.{is_removable_debris, reap_leaves_none}

-- The runtime directory: what making it and what restricting it to its owner give, and what stands in
-- it then, where it can be listed or not.
pub record Runtime : Type 0 where
  pub made : Result (Unit {0})
  pub restricted : Result (Unit {0})
  pub listable : Bool
  pub entries : List Entry

-- `__init__`: the binary, and what is left in the runtime directory.
unfoldable pub new_backend :
    System → Proc → Runtime → FirecrackerConfig → Result (String × List Entry)
new_backend system proc runtime config = do
  binary ← preflight system config
  _ ← runtime.made
  _ ← runtime.restricted
  ok (binary, (reap_debris proc runtime.listable runtime.entries).1)

-- A backend that could be constructed has found the binary, the guest kernel, the rootfs directory
-- and `/dev/kvm`, and Landlock where the configuration requires it; it has made the runtime
-- directory its owner's alone, and no debris that can be removed is left there, unless the directory
-- cannot be listed, and then all of it is.
pub new_backend_is_ready :
    (system : System) (proc : Proc) (runtime : Runtime) (config : FirecrackerConfig)
    (binary : String) (left : List Entry)
    → new_backend system proc runtime config ≡ ok (binary, left)
    → HasPassed system config binary
      × (runtime.made ≡ ok tt)
      × (runtime.restricted ≡ ok tt)
      × (count_if (is_removable_debris proc) left
          ≡ (if runtime.listable then 0 else count_if (is_removable_debris proc) runtime.entries))
unfolding new_backend
new_backend_is_ready system proc runtime config binary left e =
    let (found, passed, e₁) = >>=-eq-ok (preflight system config) _ e in
    let (_, made, e₂) = >>=-eq-ok runtime.made _ e₁ in
    let (_, restricted, e₃) = >>=-eq-ok runtime.restricted _ e₂ in
    let clean = reap_leaves_none proc runtime.listable runtime.entries in
    (
      preflight_passed system config binary (ground (arith, passed, e₃)),
      made,
      restricted,
      ground (arith, clean, e₃),
    )
