-- ===== src/Firecracker/Api/Granted.antt =====
-- What Firecracker is told to open is what its ruleset grants.
use Prim.Native.Nat.{bit_and, bit_or}
use Prim.Native.String.{◌++◌ as join}
use keycard.Prelude.{
  ℕ, String, ◌≡◌, ◌==◌, ◌⊎◌, inl, inr, refl, List, [], ◌∷◌, ◌++◌, All, str_eq, if◌then◌else◌,
}
use keycard.Confine.{
  rules, plan_for, write, execute_bit, read_file, write_file, make_reg, make_sock,
}
use keycard.Firecracker.Api.{
  Instance, Value, Fields, text, object, end, field, ApiCall, within, firecracker_argv, api_sock,
  machine_fields, boot_calls, pause_calls, resume_calls,
}

-- The rights that Firecracker needs on the file that a key of a body names: it reads the kernel, reads
-- and writes the disk, makes its sockets and its snapshot files, and reads these again.
abbrev pub needs : String → ℕ
needs key =
    if str_eq key "kernel_image_path"
    then read_file
    else if str_eq key "path_on_host"
    then bit_or read_file write_file
    else if str_eq key "uds_path"
    then make_sock
    else if str_eq key "snapshot_path"
    then bit_or (bit_or read_file write_file) make_reg
    else if str_eq key "mem_file_path"
    then bit_or write_file make_reg
    else if str_eq key "backend_path"
    then read_file
    else 0

-- The files that a body names, with those rights.
unfoldable mutual
  pub uses_of : String → Value → List (String × ℕ)
  uses_of key (text path) = if needs key == 0 then [] else (path, needs key) ∷ []
  uses_of key (object fields) = uses fields
  uses_of key _ = []

  pub uses : Fields → List (String × ℕ)
  uses end = []
  uses (field key value fields) = uses_of key value ++ uses fields

unfoldable pub uses_all : List ApiCall → List (String × ℕ)
unfolding uses
uses_all [] = []
uses_all (call ∷ calls) = uses call.body ++ uses_all calls

-- A rule covers its path, and what lies beneath it.
abbrev pub Covers : String → String → Type 0
Covers top path = (path ≡ top) ⊎ ((name : String) × (path ≡ join top (join "/" name)))

-- Some rule covers the path and has all the rights.
abbrev pub IsGranted : List (String × ℕ) → String × ℕ → Type 0
IsGranted [] use' = ⊥
IsGranted ((top, access) ∷ rs) (path, rights) =
    (Covers top path × (bit_and access rights ≡ rights)) ⊎ IsGranted rs (path, rights)

-- The binary that is run with the arguments of `firecracker_argv`, and the socket that it makes.
abbrev pub argv_uses : List String → List (String × ℕ)
argv_uses (binary ∷ option ∷ socket ∷ []) =
    (binary, bit_or execute_bit read_file) ∷ (socket, make_sock) ∷ []
argv_uses _ = []

-- The rights on a file that a life of a microVM uses: its command line, its boot, a pause, and the
-- resume from that.
abbrev pub life_uses : String → String → String → Instance → Fields → List (String × ℕ)
life_uses binary kernel boot_args i machine =
    argv_uses (firecracker_argv binary (api_sock i))
    ++ (uses_all (boot_calls kernel boot_args i machine)
        ++ (uses_all (pause_calls i) ++ uses_all (resume_calls i)))

-- Every file that the command line and the calls of the API name, in booting a microVM, pausing it
-- and resuming it, is granted to the process by the ruleset that is planned for its instance,
-- with the rights that it needs there.
pub life-IsGranted :
    (binary kernel boot_args : String) (i : Instance) (vcpus mem_mib : ℕ)
    → All
        (IsGranted (rules (plan_for binary kernel i.dir [])))
        (life_uses binary kernel boot_args i (machine_fields vcpus mem_mib))
unfolding rules plan_for firecracker_argv boot_calls pause_calls resume_calls uses_all
life-IsGranted binary kernel boot_args i vcpus mem_mib = (
  inl (inl refl, refl),
  (
    in_dir make_sock "api.sock" refl,
    (
      inr (inl (inl refl, refl)),
      (
        in_dir (needs "path_on_host") "rootfs.ext4" refl,
        (
          in_dir (needs "uds_path") "vsock.sock" refl,
          (
            in_dir (needs "snapshot_path") "snapshot" refl,
            (
              in_dir (needs "mem_file_path") "memory" refl,
              (
                in_dir (needs "snapshot_path") "snapshot" refl,
                (in_dir (needs "backend_path") "memory" refl, tt),
              ),
            ),
          ),
        ),
      ),
    ),
  ),
)
  where
    in_dir :
        (rights : ℕ) (name : String)
        → bit_and write rights ≡ rights
        → IsGranted (rules (plan_for binary kernel i.dir [])) (within i name, rights)
    in_dir rights name enough = inr (inr (inl (inr (name, refl), enough)))
