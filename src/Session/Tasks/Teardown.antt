-- ===== src/Session/Tasks/Teardown.antt =====
-- `_begin_teardown`, `_run_teardown`, `_release` and `_checkout`, and what a cancelled wait does to
-- the teardown: to await a task hands a cancel on to it.
use keycard.Prelude.{suc, ℕ, Bool, true, false, ◌&&◌, Option, none, some, ℤ, pos, if◌then◌else◌}
use keycard.Kept
use keycard.Session.Types.{
  Session, Teardown, pauses, destroys, unset, created, pausing, destroying, finished,
}
use keycard.Session.Tasks.Channel.{call}

abbrev pub is_unset : Teardown → Bool
is_unset unset = true
is_unset _ = false

-- The task exists and has not ended.
abbrev pub is_running : Teardown → Bool
is_running (created allow_keep) = true
is_running (pausing r) = true
is_running (destroying r) = true
is_running _ = false

unfoldable pub begin_teardown : Bool → Session → Session
begin_teardown allow_keep s =
    if is_unset s.teardown then record s { teardown = created allow_keep } else s

unfoldable pub release : Session → Session
release s = record s { active = false; discards = suc s.discards }

abbrev pub keep_enabled : Session → Bool
keep_enabled s = elim s.kept [ none ↦ false | some k ↦ Kept.enabled k ]

-- The end of the `try` of `_run_teardown`, and its `finally`.
unfoldable pub end_teardown : Session → Session
unfolding release
end_teardown s = release (record s { teardown = finished })

unfoldable pub start_checkout : ℕ → Session → Session
start_checkout r s = call (destroys r) (record s { teardown = destroying r })

unfoldable pub start_pause : ℕ → Session → Session
start_pause r s = call (pauses r) (record s { teardown = pausing r })

-- `can_pause` is the room's.
unfoldable pub run_teardown : (ℕ → Bool) → Bool → Session → Session
unfolding end_teardown start_checkout start_pause
run_teardown can_pause allow_keep s =
    let s' = record s { room = none } in
    elim s.room [
      | none ↦ end_teardown s'
      | some r ↦
          if allow_keep && (keep_enabled s && can_pause r)
          then start_pause r s'
          else start_checkout r s'
    ]

-- After `await kept.keep(…)`: `none` is an exception of `room.pause()`.
unfoldable pub teardown_paused : ℕ → Option ℕ → Session → Session
unfolding end_teardown start_checkout
teardown_paused r none s = start_checkout r s
teardown_paused r (some handle) s = end_teardown (record s {
  kept = elim s.kept [ none ↦ none | some k ↦ some (Kept.keep s.username handle k) ];
})

-- What `_checkout` returns: 1 where `room.destroy()` raises.
abbrev pub checkout : Option ℤ → ℤ
checkout none = pos 1
checkout (some code) = code

unfoldable pub teardown_destroyed : Option ℤ → Session → Session
unfolding end_teardown
teardown_destroyed outcome s = end_teardown (record s { status = some (checkout outcome) })

-- `CancelledError` is raised at the task's `await`, and no handler of `_run_teardown` catches it; a
-- task that has not begun ends without running its body, the `finally` included.
unfoldable pub teardown_interrupted : Session → Session
unfolding release
teardown_interrupted s = elim s.teardown [
  | created allow_keep ↦ record s { teardown = Teardown.cancelled }
  | pausing r ↦ release (record s { teardown = Teardown.cancelled })
  | destroying r ↦ release (record s { teardown = Teardown.cancelled })
  | _ ↦ s
]

unfoldable pub cancel_teardown : Session → Session
cancel_teardown s = if is_running s.teardown then record s { teardown_cancelled = true } else s
