-- ===== src/Queue/Fallback.antt =====
-- cu-runtime/src/action_queue.rs: the physical fallback, which borrows the real cursor for a click.
use oc_computer_use.Prelude.{
  ℕ, ltb, Option, none, some, Bool, true, false, not, ◌||◌, if◌then◌else◌,
}
use oc_computer_use.Errors.{Text, Result, ok, err}
use oc_computer_use.Platform.{Platform}
use oc_computer_use.Session.{PointerMode, Point}
use oc_computer_use.Human.{HumanInputMonitor, idle_secs}
use oc_computer_use.Actions.{MouseButton, resolved_move}
use oc_computer_use.Queue.{
  World, Driver, executed, clicked, Code, return, ◌>>=◌, ◌>>◌, look, put, call, emit, Detail,
  ActionResult,
}
use oc_computer_use.Queue.Guards.{
  generation, human_grabbed, interrupt_telemetry, set_pointer_mode, stamp_synthetic,
}

abbrev pub succeeded : Result ActionResult → Bool
succeeded (ok r) = r.success
succeeded (err _) = false

-- `map` of a result whose success says whether the click was posted.
abbrev pub posted : Detail → Result Bool → Result ActionResult
posted d (err e) = err e
posted d (ok b) = ok (record { success = b; detail = some d })

abbrev pub found {ℓ} : {A : Type ℓ} → Result A → Option A
found (ok a) = some a
found (err _) = none

module _ (P : Platform) (D : Driver P) (token : P.Token) (display_id : Text) where
  open P use {is_cancelled}
  open D use {
    execute_with_cancel, click_via_accessibility, physical_click_at, physical_double_click_at,
    pointer_click_ripple, pointer_visualized, pointer_hidden, pointer_location, window_at_point,
  }

  abbrev pub fail : Detail → Code P (Result ActionResult)
  fail d = return (ok (record { success = false; detail = some d }))

  abbrev pub succeed : Detail → Code P (Result ActionResult)
  succeed d = return (ok (record { success = true; detail = some d }))

  abbrev pub grabbed_since : Option ℕ → Code P Bool
  grabbed_since gen = look (human_grabbed P token gen)

  unfoldable pub fail_grabbed : Code P (Result ActionResult)
  fail_grabbed = do
    t ← look (λ w. interrupt_telemetry P w.human)
    fail (Detail.cancelled_by_takeover t)

  abbrev pub ripple : Point P → Code P (Unit {0})
  ripple p = call (λ w. (tt, pointer_click_ripple p w))

  abbrev pub visualize : Point P → PointerMode → Code P (Unit {0})
  visualize p m = call (λ w. (tt, pointer_visualized p display_id m w))

  abbrev pub is_idle_less_than : ℕ → Option ℕ → Bool
  is_idle_less_than bound none = false
  is_idle_less_than bound (some s) = ltb s bound

  abbrev pub idle_of : World P → Option ℕ
  idle_of w = idle w.human
    where
      idle : Option (HumanInputMonitor P) → Option ℕ
      idle none = none
      idle (some h) = idle_secs P w.now h

  -- The pointer is in the human's hands.
  abbrev pub hand_over : Code P (Unit {0})
  hand_over = do
    put (set_pointer_mode P PointerMode.user_takeover)
    call (λ w. (tt, pointer_hidden w))

  abbrev pub warp_to : Point P → Point P → Code P (Result ActionResult)
  warp_to from to =
      let r = resolved_move from to none in emit (executed r) (execute_with_cancel r token)

  -- The pointer goes home after the click.
  unfoldable pub give_back : Point P → Point P → Result Bool → Code P (Result ActionResult)
  give_back home p result = do
    restore ← warp_to p home
    put (set_pointer_mode P PointerMode.isolated)
    visualize home PointerMode.isolated
    return (posted (Detail.physical_restored (succeeded restore)) result)

  abbrev pub post_click : MouseButton → Point P → Bool → Code P (Result Bool)
  post_click button p double =
      emit (clicked button p double)
        (if double then physical_double_click_at button p else physical_click_at button p)

  -- The click is posted: what happens to the pointer, if the human has it and if not.
  unfoldable pub finish_click :
      Point P → Point P → Result Bool → Bool → Code P (Result ActionResult)
  unfolding give_back
  finish_click home p result true = do
    hand_over
    t ← look (λ w. interrupt_telemetry P w.human)
    return (posted (Detail.physical_grabbed t) result)
  finish_click home p result false = give_back home p result

  -- The click itself, the pointer being at the point.
  unfoldable pub click_warped :
      MouseButton → Point P → Bool → Point P → Option ℕ → Code P (Result ActionResult)
  unfolding stamp_synthetic finish_click
  click_warped button p double home gen = do
    stamp_synthetic P
    result ← post_click button p double
    ripple p
    grabbed ← grabbed_since gen
    finish_click home p result grabbed

  -- The warp was interrupted, or not.
  unfoldable pub click_unless :
      MouseButton → Point P → Bool → Point P → Option ℕ → Bool → Code P (Result ActionResult)
  unfolding click_warped fail_grabbed
  click_unless button p double home gen true = do hand_over; fail_grabbed
  click_unless button p double home gen false = click_warped button p double home gen

  -- The pointer is borrowed.
  unfoldable pub borrow_pointer :
      MouseButton → Point P → Bool → Point P → Option ℕ → Code P (Result ActionResult)
  unfolding click_unless
  borrow_pointer button p double home gen = do
    put (set_pointer_mode P PointerMode.physical_fallback)
    visualize home PointerMode.physical_fallback
    stamp_synthetic P
    warp ← warp_to home p
    grabbed ← grabbed_since gen
    click_unless button p double home gen (not (succeeded warp) || grabbed)

  abbrev pub fallback_from :
      MouseButton → Point P → Bool → Option ℕ → Option (Point P) → Code P (Result ActionResult)
  fallback_from button p double gen none = fail Detail.isolated_pointer_unavailable
  fallback_from button p double gen (some home) = do
    idle ← look idle_of
    grabbed ← grabbed_since gen
    if is_idle_less_than 2 idle
        then fail Detail.human_takeover
        else if grabbed
        then fail (Detail.cancelled_by_takeover (interrupt_telemetry P none))
        else borrow_pointer button p double home gen

  unfoldable pub physical_fallback_click :
      MouseButton → Point P → Bool → Code P (Result ActionResult)
  unfolding borrow_pointer
  physical_fallback_click button p double = do
    before ← call pointer_location
    gen ← look (generation P)
    fallback_from button p double gen (found before)
