-- ===== src/Session/Lock.antt =====
-- `ControlLock` of cu-runtime/src/sessions.rs: at most one session holds it.
use oc_computer_use.Prelude.{Option, none, some, Bool, false, ◌==◌, if◌then◌else◌}
use oc_computer_use.Errors.{Text, CuError, Result, ok, err}

-- The `holder` under the mutex.
abbrev pub ControlLock : Type 0
ControlLock = Option Text

unfoldable pub try_acquire : ControlLock → Text → Result ControlLock
try_acquire none id = ok (some id)
try_acquire (some h) id = if h == id then ok (some id) else err (CuError.control_locked h none)

unfoldable pub is_held_by : ControlLock → Text → Bool
is_held_by none id = false
is_held_by (some h) id = h == id

unfoldable pub release : ControlLock → Text → ControlLock
unfolding is_held_by
release l id = if is_held_by l id then none else l
