-- ===== src/Firecracker/Examples.antt =====
-- The theorems at concrete hosts, directories and streams.
use Prim.Native.String.{◌++◌ as join}
use keycard.Prelude.{
  ◌⊎◌, Error, leb, same_text, ◌||◌, ◌==◌, String, Bool, true, false, ◌≡◌, inl, inr, refl, none,
  some, List, [], ◌∷◌, ◌++◌, pos, negsuc, Text, codes, length, count_if, ok, err, firecracker_error,
  str_eq, if◌then◌else◌,
}
use keycard.Config.Types.{FirecrackerConfig}
use keycard.Firecracker.Preflight.{System, preflight, HasPassed, check_host, check_confinement}
use keycard.Firecracker.Backend.{Runtime, new_backend, new_backend_is_ready}
use keycard.Firecracker.Debris.{
  Entry, Proc, instance_is_debris, reap_debris, pid_is_alive, process_is, read_pid, first_argument,
  base_name,
}
use keycard.Prelude.Numbers.{str_to_int}
use keycard.Firecracker.Debris.Spared.{FindsLive, reap_spares_live}
use keycard.Firecracker.Host.{Host, Faults, empty_host, put_start, load_snapshot}
use keycard.Firecracker.Lifecycle.{open_vm, resume_vm, destroy_kept_vm}
use keycard.Firecracker.Lifecycle.Unwind.{
  IsOpenOrGone, IsResumedOrKept, open_unwinds, resume_unwinds,
}
use keycard.Firecracker.Exit.{parse_exit, watch_exit}
use keycard.Firecracker.Exit.Chunks.{scan, outcome, watch_exit_ignores_chunks}
use keycard.Firecracker.Api.{Instance, new_instance}
use keycard.Firecracker.Stop.{
  Process, IsMortal, terminate, kill, called, grace_over, waited, stop_process, stop_process_ends,
}
use mathlib.Core.List.{flatten}

abbrev host_system : System
host_system = record {
  which = λ name. some (join "/usr/bin/" name);
  is_file = λ path. true;
  is_dir = λ path. true;
  kvm_present = true;
  abi_version = 0;
}

abbrev strict_config : FirecrackerConfig
strict_config = record {
  binary = "firecracker";
  kernel = some "/var/lib/keycard/vmlinux";
  rootfs_dir = "/var/lib/keycard/rootfs";
  runtime_dir = "/tmp/keycard";
  boot_args = "";
  boot_timeout = "30s";
  confinement = "required";
}

abbrev lax_config : FirecrackerConfig
lax_config = record strict_config { confinement = "best-effort" }

lax-starts : preflight host_system lax_config ≡ ok "/usr/bin/firecracker"
unfolding preflight check_host check_confinement
lax-starts = refl

strict-refused : preflight host_system strict_config ≡ err firecracker_error
unfolding preflight check_host check_confinement
strict-refused = refl

-- The server with pid 10 runs, and so does a firecracker with pid 20.
abbrev two_running : Proc
two_running = record {
  exists = λ pid. elim pid [ pos n ↦ if n == 10 then true else n == 20 | negsuc n ↦ false ];
  cmdline = λ pid. elim pid [
    | pos n ↦ if n == 20 then some (codes "/usr/bin/firecracker" ++ 0 ∷ codes "--id") else none
    | negsuc n ↦ none
  ];
}

abbrev instance_dir : String → String → String → Entry
instance_dir name owner vmm = record {
  name = name;
  is_dir = true;
  owner_pid = some (codes owner);
  vmm_pid = some (codes vmm);
  removable = true;
}

abbrev live_server : Entry
live_server = instance_dir "c" "10" "11"

abbrev live_vmm : Entry
live_vmm = instance_dir "b" "12" "20"

abbrev debris : Entry
debris = instance_dir "a" "12" "13"

abbrev instances : List Entry
instances = live_server ∷ live_vmm ∷ debris ∷ []

abbrev is_in_use : Entry → Bool
is_in_use e = str_eq e.name "b" || str_eq e.name "c"

both_live : FindsLive two_running is_in_use instances
unfolding pid_is_alive process_is read_pid str_to_int same_text first_argument base_name
both_live = (inr (inl refl), (inr (inr refl), (inl refl, tt)))

reap_spares_live_example :
    let (reaped, left) = reap_debris two_running true instances in
    (count_if is_in_use left ≡ count_if is_in_use instances)
    × (count_if (λ e. if instance_is_debris two_running e then e.removable else false) left ≡ 0)
    × (length reaped ≡ count_if (instance_is_debris two_running) instances)
reap_spares_live_example = reap_spares_live two_running is_in_use instances both_live

-- The guest does not start, the snapshot does not load, and the wait for the socket is cancelled.
abbrev no_start : Faults
no_start put_start = some firecracker_error
no_start load_snapshot = some firecracker_error
no_start _ = none

open_unwinds_example : let (r, h) = open_vm no_start true empty_host in IsOpenOrGone r h
open_unwinds_example = open_unwinds no_start refl (inl refl) refl true refl refl refl

abbrev paused_host : Host
paused_host = record empty_host { dir = true }

resume_unwinds_example :
    let (r, h') = resume_vm no_start paused_host in
    IsResumedOrKept r h' × ((destroy_kept_vm no_start h').1.dir ≡ false)
resume_unwinds_example =
    resume_unwinds no_start refl (inl refl) refl paused_host no_start refl refl refl

-- A status that two reads cut in the middle of its line.
abbrev two_reads : List Text
two_reads = (codes "hello" ++ 10 ∷ codes "exi") ∷ (codes "t 3" ++ 10 ∷ []) ∷ []

watch_exit_ignores_chunks_example :
    watch_exit parse_exit [] two_reads ≡ outcome (scan parse_exit [] (flatten two_reads))
watch_exit_ignores_chunks_example = watch_exit_ignores_chunks two_reads ((λ e. cc), ((λ e. cc), tt))

abbrev runtime : Runtime
runtime = record { made = ok tt; restricted = ok tt; listable = true; entries = instances }

runtime-swept :
    (left : List Entry) × (new_backend host_system two_running runtime lax_config
      ≡ ok ("/usr/bin/firecracker", left))
unfolding new_backend preflight check_host check_confinement
runtime-swept = (_, refl)

new_backend_is_ready_example :
    HasPassed host_system lax_config "/usr/bin/firecracker"
    × (runtime.made ≡ ok tt)
    × (runtime.restricted ≡ ok tt)
    × (count_if
          (λ e. if instance_is_debris two_running e then e.removable else false)
          runtime-swept.0
        ≡ 0)
new_backend_is_ready_example =
    new_backend_is_ready host_system two_running runtime lax_config "/usr/bin/firecracker"
      runtime-swept.0 runtime-swept.1

abbrev dev_instance : Instance
dev_instance = new_instance "/run/keycard" "dev" "0f3a91bc"

-- A process that sits out SIGTERM.
abbrev deaf : Process
deaf = record {
  is_alive = λ signals m. leb (length signals) 1;
  grace_raises = none;
  wait_raises = none;
}

deaf-IsMortal : IsMortal deaf
deaf-IsMortal = record { stays_ended = λ m h. h; stays_terminated = λ m h. h; ends_by_kill = refl }

deaf-killed : stop_process deaf ≡ (ok tt, terminate ∷ kill ∷ [])
unfolding stop_process
deaf-killed = refl

stop_process_ends_example :
    let (r, signals) = stop_process deaf in
    (((r ≡ ok tt) × (deaf.is_alive signals waited ≡ false))
      ⊎ ((e : Error) × (r ≡ err e) × ((deaf.grace_raises ≡ some e) ⊎ (deaf.wait_raises ≡ some e))))
    × ((signals ≡ [])
        ⊎ ((signals ≡ terminate ∷ [])
            ⊎ ((signals ≡ terminate ∷ kill ∷ [])
                × (deaf.is_alive (terminate ∷ []) grace_over ≡ true))))
    × ((deaf.is_alive [] called ≡ true) ⊎ (signals ≡ []))
stop_process_ends_example = stop_process_ends deaf deaf-IsMortal
