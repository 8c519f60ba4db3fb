-- ===== src/Runtime/Dispatch.antt =====
-- `Runtime::session` of cu-runtime/src/runtime.rs, and `SessionAction` of cu-core/src/sessions.rs.
use oc_computer_use.Prelude.{Option, none, some}
use oc_computer_use.Errors.{Text, CuError, err}
use oc_computer_use.Platform.{Platform}
use oc_computer_use.Runtime.{Runtime, Outcome, SessionResult}
use oc_computer_use.Runtime.Start.{StartInput, session_start}
use oc_computer_use.Runtime.Control.{
  session_pause, session_resume, session_takeover, session_release,
}
use oc_computer_use.Runtime.Stop.{session_stop, session_status}

pub data SessionAction : Type 0 where
  start status pause resume stop takeover release : SessionAction

module _ (P : Platform) where
  -- The actions on a session that exists, by its id.
  unfoldable pub act_on :
      SessionAction
      → Text
      → Option Text
      → Option Text
      → StartInput P
      → Runtime P
      → Outcome P (SessionResult P)
  act_on start id control observation i rt = session_start P i rt
  act_on status id control observation i rt = session_status P id observation control rt
  act_on pause id control observation i rt = session_pause P id control rt
  act_on resume id control observation i rt = session_resume P id control rt
  act_on stop id control observation i rt = session_stop P id control rt
  act_on takeover id control observation i rt = session_takeover P id control rt
  act_on release id control observation i rt = session_release P id control rt

  unfoldable pub without_id :
      SessionAction
      → Option Text
      → Option Text
      → StartInput P
      → Runtime P
      → Outcome P (SessionResult P)
  without_id start control observation i rt = session_start P i rt
  without_id status control observation i rt = elim rt.control_lock [
    | none ↦ (err CuError.session_not_found, rt)
    | some holder ↦ session_status P holder observation control rt
  ]
  without_id _ control observation i rt = (err CuError.invalid_params, rt)

  unfoldable pub session :
      SessionAction
      → Option Text
      → Option Text
      → Option Text
      → StartInput P
      → Runtime P
      → Outcome P (SessionResult P)
  unfolding act_on without_id
  session action none control observation i rt = without_id action control observation i rt
  session action (some id) control observation i rt = act_on action id control observation i rt
