-- ===== src/Firecracker/Debris.antt =====
-- `reap_debris` and the tests it rests on. An instance directory is what the sweep can read of it;
-- `/proc` is a parameter.
pub mod Spared
use Prim.Native.String.{compare}
use text.Mathlib.Text.{is_le}
use keycard.Prelude.{
  same_text, ℕ, String, Bool, true, false, not, ◌&&◌, Option, none, some, List, [], ◌∷◌, ◌++◌, ℤ,
  Text, codes, ◌==◌, if◌then◌else◌,
}
use keycard.Prelude.Numbers.{str_to_int}

pub record Entry : Type 0 where
  pub name : String
  pub is_dir : Bool
  -- the texts of `owner.pid` and `vmm.pid`, `none` where they cannot be read or decoded
  pub owner_pid : Option Text
  pub vmm_pid : Option Text
  -- whether `rmtree`, which ignores errors, gets the directory off the disk
  pub removable : Bool

pub record Proc : Type 0 where
  -- whether `/proc/<pid>` exists, and what its `cmdline` holds if it can be read
  pub exists : ℤ → Bool
  pub cmdline : ℤ → Option Text

-- `_read_pid`
unfoldable pub read_pid : Option Text → Option ℤ
read_pid none = none
read_pid (some contents) = str_to_int contents

-- The bytes before the first zero: `raw.split(b"\0", 1)[0]`.
unfoldable pub first_argument : Text → Text
first_argument [] = []
first_argument (c ∷ cs) = let rest = first_argument cs in if c == 0 then [] else c ∷ rest

-- `PurePosixPath(…).name`: the last part that is neither empty nor a dot. `part` is the part being
-- read, `last` the latest complete one.
unfoldable pub last_part : Text → Text → Text → Text
last_part last part [] =
    if same_text part [] then last else if same_text part (codes ".") then last else part
last_part last part (c ∷ cs) =
    let kept =
      if same_text part [] then last else if same_text part (codes ".") then last else part in
    last_part (if c == b'/' then kept else last) (if c == b'/' then [] else part ++ c ∷ []) cs

unfoldable pub base_name : Text → Text
unfolding last_part
base_name path = last_part [] [] path

module _ (proc : Proc) where
  -- `_pid_is_alive`
  unfoldable pub pid_is_alive : Option Text → Bool
  pid_is_alive file = elim (read_pid file) [ none ↦ false | some pid ↦ proc.exists pid ]

  -- `_process_is`
  unfoldable pub process_is : Option Text → Text → Bool
  process_is file program = elim (read_pid file) [
    | none ↦ false
    | some pid ↦ elim (proc.cmdline pid) [
      | none ↦ false
      | some raw ↦
          let argv0 = first_argument raw in
          not (same_text argv0 []) && same_text (base_name argv0) program
    ]
  ]

  -- `instance_is_debris`
  unfoldable pub instance_is_debris : Entry → Bool
  instance_is_debris e =
      if not e.is_dir
      then false
      else if pid_is_alive e.owner_pid
      then false
      else not (process_is e.vmm_pid (codes "firecracker"))

  -- The loop of `reap_debris`: the names reaped and what is left on the disk.
  unfoldable pub reap_each : List Entry → List String × List Entry
  reap_each [] = ([], [])
  reap_each (e ∷ es) =
      let (reaped, left) = reap_each es in
      if instance_is_debris e
      then (e.name ∷ reaped, (if e.removable then left else e ∷ left))
      else (reaped, e ∷ left)

  -- `sorted(runtime_dir.iterdir())`: paths of one directory are ordered by their names.
  unfoldable pub insert_by_name : Entry → List Entry → List Entry
  insert_by_name e [] = e ∷ []
  insert_by_name e (f ∷ fs) =
      if is_le (compare e.name f.name) then e ∷ f ∷ fs else f ∷ insert_by_name e fs

  unfoldable pub sort_by_name : List Entry → List Entry
  unfolding insert_by_name
  sort_by_name [] = []
  sort_by_name (e ∷ es) = insert_by_name e (sort_by_name es)

  -- `reap_debris` over what stands in the directory; the flag tells whether it can be listed.
  unfoldable pub reap_debris : Bool → List Entry → List String × List Entry
  unfolding reap_each sort_by_name
  reap_debris false entries = ([], entries)
  reap_debris true entries = reap_each (sort_by_name entries)
