-- ===== src/Firecracker/Images.antt =====
-- The copy of a room's disk image, and the device of the host: `_copy_rootfs` and `kvm_present`.
use keycard.Prelude.{
  ℕ, zero, suc, inl, inr, Bool-cases, String, Bool, false, ◌≡◌, ◌⊎◌, refl, List, [], ◌∷◌, Result,
  ok, err, Error, if◌then◌else◌,
}
use keycard.Rooms.{is_os_error}

-- How `/bin/cp --reflink=auto` ends: with a status, or `run` raises.
pub data Copy : Type 0 where
  exits : ℕ → Copy
  raises : Error → Copy

pub data Attempt : Type 0 where
  reflinks copies : Attempt

-- `_copy_rootfs`, with what `cp` and `copyfile` come to: the result, and what was tried, in order. A
-- status that is not 0 is a `CalledProcessError`.
unfoldable pub copy_rootfs : Copy → Result (Unit {0}) → Result (Unit {0}) × List Attempt
copy_rootfs (exits zero) copyfile = (ok tt, reflinks ∷ [])
copy_rootfs (exits (suc n)) copyfile = (copyfile, reflinks ∷ copies ∷ [])
copy_rootfs (raises e) copyfile =
    if is_os_error e then (copyfile, reflinks ∷ copies ∷ []) else (err e, reflinks ∷ [])

-- `kvm_present`
abbrev kvm_present : (String → Bool) → Bool
kvm_present exists = exists "/dev/kvm"

-- A host without a working `cp` gets the whole copy: only what the copy itself raises, or an error of
-- `cp` that is no `OSError`, goes on.
pub copy_rootfs_falls_back :
    (cp : Copy) (copyfile : Result (Unit {0}))
    → let (r, attempts) = copy_rootfs cp copyfile in
      ((r ≡ ok tt) × (cp ≡ exits 0))
      ⊎ (((r ≡ copyfile) × (attempts ≡ reflinks ∷ copies ∷ []))
          ⊎ ((e : Error) × (cp ≡ raises e) × (is_os_error e ≡ false) × (r ≡ err e)))
unfolding copy_rootfs
copy_rootfs_falls_back (exits zero) copyfile = inl (refl, refl)
copy_rootfs_falls_back (exits (suc n)) copyfile = inr (inl (refl, refl))
copy_rootfs_falls_back (raises e) copyfile = elim (Bool-cases (is_os_error e)) [
  | inl known ↦ inr (inl (rw (known, copy_rootfs) (refl, refl)))
  | inr other ↦ inr (inr (e, refl, other, rw (other, copy_rootfs) refl))
]
