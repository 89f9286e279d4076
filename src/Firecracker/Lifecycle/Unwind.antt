-- ===== src/Firecracker/Lifecycle/Unwind.antt =====
-- What a room that fails to open leaves on the host.
use keycard.Prelude.{
  Bool, true, false, ◌≡◌, ◌⊎◌, none, some, timeout_error, cancelled_error, Result, ok, err, arith,
}
use keycard.Firecracker.Host.{
  Host, Faults, empty_host, write_owner, write_vmm_pid, wait_ready, create_dir, await_create,
  stop_vm, rmtree,
}
use keycard.Firecracker.Lifecycle.{open_vm, resume_vm, destroy_kept_vm}

-- A room that is up has everything; one that failed has left neither directory nor process.
abbrev pub IsOpenOrGone : Result (Unit {0}) → Host → Type 0
IsOpenOrGone (ok _) h =
    (h.dir ≡ true) × (h.process ≡ true) × (h.data_sock ≡ true) × (h.ctrl_sock ≡ true)
IsOpenOrGone (err e) h = (h.dir ≡ false) × (h.process ≡ false)

-- The same for a resume, which leaves the directory to the holder of the paused room.
abbrev pub IsResumedOrKept : Result (Unit {0}) → Host → Type 0
IsResumedOrKept (ok _) h =
    (h.dir ≡ true) × (h.process ≡ true) × (h.data_sock ≡ true) × (h.ctrl_sock ≡ true)
IsResumedOrKept (err e) h = (h.dir ≡ true) × (h.process ≡ false)

module _ (faults : Faults) (pid_written : faults write_vmm_pid ≡ none)
    (ready : (faults wait_ready ≡ none) ⊎ (faults wait_ready ≡ some timeout_error))
    (stops : faults stop_vm ≡ none) where
  -- Wherever opening a room fails, at a missing image, an API call, a connection or a cancel, the
  -- directory and the process that it had made are gone; where it succeeds they are there, with
  -- both connections. This is so if the two pid files can be written, `Instance.create` is not cut
  -- off, the wait for the API socket ends in success or in its timeout, stopping the process does
  -- not raise, and `rmtree` gets the directory off the disk.
  pub open_unwinds :
      (image : Bool)
      → faults write_owner ≡ none
      → faults await_create ≡ none
      → faults rmtree ≡ none
      → let (r, h) = open_vm faults image empty_host in IsOpenOrGone r h
  unfolding open_vm
  open_unwinds image owned created cleared = ground arith

  -- A resume of a room that has its directory and no process: where it fails, the process is stopped
  -- and the directory is kept; where it succeeds, both are there with both connections; and after
  -- either, a `destroy_kept` for which `rmtree` gets the directory off the disk removes it. This is
  -- so if the VMM's pid file can be written, the wait for the API socket ends in success or in its
  -- timeout, and stopping the process does not raise.
  pub resume_unwinds :
      (h : Host) (later : Faults)
      → h.dir ≡ true
      → h.process ≡ false
      → later rmtree ≡ none
      → let (r, h') = resume_vm faults h in
        IsResumedOrKept r h' × ((destroy_kept_vm later h').1.dir ≡ false)
  unfolding resume_vm destroy_kept_vm
  resume_unwinds h later d p cleared = ground arith

-- A cancel during `Instance.create`, which is outside of the handler of `open`, leaves the directory.
pub interrupted_create_leaves_dir :
    (faults : Faults)
    → faults create_dir ≡ none
    → faults write_owner ≡ none
    → faults await_create ≡ some cancelled_error
    → open_vm faults true empty_host ≡ (err cancelled_error, record empty_host { dir = true })
unfolding open_vm
interrupted_create_leaves_dir faults a b c = ground arith
