-- ===== src/Firecracker/Preflight.antt =====
-- `_preflight` and `_check_confinement`: what is refused at startup, and `rootfs_for`, `_ruleset_for`.
use Prim.Native.String.{◌++◌}
use keycard.Prelude.{
  ℕ, String, Bool, true, false, not, ◌≡◌, ◌⊎◌, refl, Option, none, some, arith, Result, ok, err,
  firecracker_error, str_eq, eq_iff, ◌==◌, if◌then◌else◌,
}
use keycard.Config.Types.{FirecrackerConfig, RoomConfig}

-- What the backend can see of the host at startup.
pub record System : Type 0 where
  pub which : String → Option String
  pub is_file : String → Bool
  pub is_dir : String → Bool
  pub kvm_present : Bool
  -- `confine.abi_version()`: 0 where the kernel has no Landlock
  pub abi_version : ℕ

off_is_not_required : ◌≡◌ {A = String} "off" "required" → ⊥
off_is_not_required h = ground (arith, eq_iff "off" "required")

module _ (system : System) (config : FirecrackerConfig) where
  -- `_check_confinement`
  unfoldable pub check_confinement : Result (Unit {0})
  check_confinement =
      if str_eq config.confinement "off"
      then ok tt
      else if not (system.abi_version == 0)
      then ok tt
      else if str_eq config.confinement "required"
      then err firecracker_error
      else ok tt

  -- The tests of `_preflight` behind the kernel's path.
  unfoldable pub check_host : String → String → Result String
  unfolding check_confinement
  check_host binary kernel =
      if not (system.is_file kernel)
      then err firecracker_error
      else if not (system.is_dir config.rootfs_dir)
      then err firecracker_error
      else if not system.kvm_present
      then err firecracker_error
      else elim check_confinement [ err e ↦ err e | ok _ ↦ ok binary ]

  -- `_preflight`
  unfoldable pub preflight : Result String
  unfolding check_host
  preflight = elim (system.which config.binary) [
    | none ↦ err firecracker_error
    | some binary ↦ elim config.kernel [
      | none ↦ err firecracker_error
      | some kernel ↦ check_host binary kernel
    ]
  ]

  -- `_ruleset_for`, up to the ruleset: whether one is asked for.
  unfoldable pub wants_ruleset : Bool
  wants_ruleset = not (str_eq config.confinement "off")

  -- `rootfs_for`; `expand_user` is `Path.expanduser`.
  unfoldable pub rootfs_for : (String → String) → RoomConfig → String
  rootfs_for expand_user room =
      if str_eq room.rootfs ""
      then config.rootfs_dir ++ "/" ++ room.name ++ ".ext4"
      else expand_user room.rootfs

  -- What a preflight that passes has seen.
  pub record HasPassed (binary : String) : Type 0 where
    pub found : system.which config.binary ≡ some binary
    pub kernel : String
    pub kernel_set : config.kernel ≡ some kernel
    pub kernel_there : system.is_file kernel ≡ true
    pub rootfs_there : system.is_dir config.rootfs_dir ≡ true
    pub kvm_there : system.kvm_present ≡ true
    pub confinable :
        (str_eq config.confinement "required" ≡ false) ⊎ ((system.abi_version == 0) ≡ false)

  check_host-passed :
      (binary kernel b : String)
      → check_host binary kernel ≡ ok b
      → (b ≡ binary)
        × (system.is_file kernel ≡ true)
        × (system.is_dir config.rootfs_dir ≡ true)
        × (system.kvm_present ≡ true)
        × ((str_eq config.confinement "required" ≡ false) ⊎ ((system.abi_version == 0) ≡ false))
  unfolding check_host
  check_host-passed binary kernel b e = ground (
    arith,
    eq_iff config.confinement "off",
    eq_iff config.confinement "required",
    off_is_not_required,
  )

  -- A start that succeeds has found the binary, the guest kernel, the rootfs directory and
  -- `/dev/kvm`, and Landlock where the configuration requires it.
  pub preflight_passed : (binary : String) → preflight ≡ ok binary → HasPassed binary
  unfolding preflight
  preflight_passed binary e = go (system.which config.binary) refl config.kernel refl
    where
      go :
          (w : Option String)
          → system.which config.binary ≡ w
          → (k : Option String) → config.kernel ≡ k
          → HasPassed binary
      go none p k q = absurd (ground arith)
      go (some b) p none q = absurd (ground arith)
      go (some b) p (some kernel) q =
          let (same, file, dir, kvm, conf) =
            check_host-passed b kernel binary (rw (p, q, preflight) at e) in
          record {
            found = rw same p;
            kernel = kernel;
            kernel_set = q;
            kernel_there = file;
            rootfs_there = dir;
            kvm_there = kvm;
            confinable = conf;
          }

  -- Nothing else is refused: a host on which all of this is there starts.
  pub preflight_complete : (binary : String) → HasPassed binary → preflight ≡ ok binary
  unfolding preflight check_host
  preflight_complete binary h =
      ground
        (arith, h.found, h.kernel_set, h.kernel_there, h.rootfs_there, h.kvm_there, h.confinable)
