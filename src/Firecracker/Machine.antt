-- ===== src/Firecracker/Machine.antt =====
-- `machine_config` and the file-size limit of one microVM. The text of a memory size is parsed in
-- Memory; here its value in MiB, rounded down, is given.
pub mod Memory
use Prim.Native.Nat.{max, min}
use keycard.Prelude.{ℕ, zero, suc, ◌+◌, ◌*◌, ◌≤◌, ◌<◌, Option, none, some, arith, ℤ, pos, negsuc}

abbrev pub max_vcpus : ℕ
max_vcpus = 32

abbrev pub min_mem_mib : ℕ
min_mem_mib = 16

abbrev pub default_mem_mib : ℕ
default_mem_mib = 1024

abbrev pub fsize_headroom : ℕ
fsize_headroom = 256 * 1024 * 1024

-- `room.cpus or DEFAULT_VCPUS`, `min(…, MAX_VCPUS)` and `max(1, …)`
unfoldable pub vcpu_count : ℤ → ℕ
vcpu_count (pos zero) = 1
vcpu_count (pos (suc n)) = max 1 (min (suc n) max_vcpus)
vcpu_count (negsuc n) = 1

-- `parse_memory_mib` behind the text: nothing where it is empty or does not parse.
unfoldable pub mem_size_mib : Option ℕ → ℕ
mem_size_mib none = default_mem_mib
mem_size_mib (some mib) = max min_mem_mib mib

-- `confine.fsize_limit` of two sizes
unfoldable pub fsize_limit : ℕ → ℕ → ℕ
fsize_limit a b = max a b + fsize_headroom

-- `_fsize_for`: nothing where the rootfs copy is not there.
unfoldable pub fsize_for : Option ℕ → ℕ → ℕ
unfolding fsize_limit
fsize_for rootfs_bytes mem_mib = elim rootfs_bytes [
  | none ↦ fsize_limit 0 (mem_mib * 1024 * 1024)
  | some bytes ↦ fsize_limit bytes (mem_mib * 1024 * 1024)
]

-- Whatever the room asks for, the processor count is one that Firecracker takes, the memory is at
-- least its least, and the file-size limit lies above the memory snapshot and the disk image.
pub machine_in_range :
    (cpus : ℤ) (memory : Option ℕ) (image : ℕ)
    → (1 ≤ vcpu_count cpus)
      × (vcpu_count cpus ≤ max_vcpus)
      × (min_mem_mib ≤ mem_size_mib memory)
      × (mem_size_mib memory * 1024 * 1024 < fsize_for (some image) (mem_size_mib memory))
      × (image < fsize_for (some image) (mem_size_mib memory))
unfolding vcpu_count mem_size_mib fsize_for
machine_in_range (pos zero) memory image = ground arith
machine_in_range _ memory image = ground arith
