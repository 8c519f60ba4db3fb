-- ===== src/Queue/Poll.antt =====
-- cu-runtime/src/action_queue.rs: what the queue asks before and after an action.
use oc_computer_use.Prelude.{Option, none, some, Bool, true, false, not, ◌&&◌, ◌||◌, if◌then◌else◌}
use oc_computer_use.Errors.{Result, ok, err}
use oc_computer_use.Platform.{Platform}
use oc_computer_use.Session.{
  Session, SessionState, SessionTarget, Point, DisplayBounds, sync_pointer_mode,
}
use oc_computer_use.Policy.{observe}
use oc_computer_use.Human.{consume_real_takeover, consume_takeover, mark_takeover_started}
use oc_computer_use.Actions.{
  ComputerAction, ResolvedAction, resolved_within_bounds, action_moves_pointer,
}
use oc_computer_use.Queue.{Driver, QueueState, Code, return, ◌>>=◌, ◌>>◌, look, put, call}
use oc_computer_use.Queue.Guards.{
  needs_focus, is_focused, has_identity, known, session_aborted, try_transition, with_monitor, take,
  heuristic_takeover,
}

module _ (P : Platform) (D : Driver P) (token : P.Token) (tap_active : Bool) where
  open P use {F64, is_cancelled, f64_sub}
  open D use {active_application, pointer_hidden, pointer_location}

  -- A hardware event: the session is taken over, whatever the policy.
  unfoldable pub enter_takeover : Code P (Unit {0})
  enter_takeover = do
    put (try_transition P SessionState.user_takeover)
    put (λ w. record w { session = sync_pointer_mode P SessionState.user_takeover w.session })
    put (λ w. with_monitor P (mark_takeover_started P w.now) w)
    call (λ w. (tt, pointer_hidden w))

  -- The heuristic's flag is taken only while the event tap is not active.
  unfoldable pub take_heuristic : Code P Bool
  take_heuristic = if tap_active then return false else call (take P (consume_takeover P))

  -- Whether the batch ends here. `run` asks it before each action, and a wait before each sleep.
  unfoldable pub interrupted : Code P Bool
  interrupted = do
    real ← call (take P (consume_real_takeover P))
    if real then (do enter_takeover; return true) else (do
      heuristic ← take_heuristic
      if heuristic
          then (do heuristic_takeover P; return true)
          else look (λ w. is_cancelled token w.store || session_aborted P w.session))

  abbrev pub compare_focus : Option SessionTarget → Code P Bool
  compare_focus none = return true
  compare_focus (some t) =
      if has_identity t
      then (do live ← call active_application; return (is_focused t (known live)))
      else return true

  -- Whether a keyboard action may go on: the target is in front now.
  unfoldable pub focus_guard : ComputerAction P → Code P Bool
  focus_guard a =
      if needs_focus P a
      then (do target ← look (λ w. w.session.target); compare_focus target)
      else return true

  abbrev pub fits : ResolvedAction P → Option (DisplayBounds P) → Bool
  fits r none = true
  fits r (some b) = resolved_within_bounds P r b

  abbrev pub pointer_of : Session P → Point P
  pointer_of s = record { x = s.virtual_pointer.x; y = s.virtual_pointer.y }

  -- One sample of the real pointer against where it was left.
  abbrev pub sample_move : Point P → QueueState P → Bool × QueueState P
  sample_move p s =
      let (b, d) =
        observe P (f64_sub p.x s.last_pointer.x) (f64_sub p.y s.last_pointer.y) s.takeover in
      (b, record s { takeover = d })

  abbrev pub judge_pointer : Result (Point P) → Code P Bool
  judge_pointer (err _) = return false
  judge_pointer (ok p) = do
    jumped ← sample_move p
    if jumped then (do heuristic_takeover P; return true) else return false

  -- Whether the pointer shows a takeover after the action.
  unfoldable pub probe : ComputerAction P → Code P Bool
  probe a =
      if not tap_active && not (action_moves_pointer P a)
      then (do location ← call pointer_location; judge_pointer location)
      else if action_moves_pointer P a
      then (λ s. (false, record s { last_pointer = pointer_of s.world.session }))
      else return false
