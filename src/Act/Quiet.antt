-- ===== src/Act/Quiet.antt =====
-- The code of `act` and `observe` that asks for no input.
use oc_computer_use.Prelude.{◌≡◌, Option, none, some, List}
use oc_computer_use.Errors.{Text, Result}
use oc_computer_use.Platform.{Platform}
use oc_computer_use.Session.{Session, DisplayBounds}
use oc_computer_use.Frames.{ScreenSnapshot}
use oc_computer_use.Stale.{StaleFrameVerdict}
use oc_computer_use.Runtime.{Effect}
use oc_computer_use.Queue.{World, Emission}
use oc_computer_use.Exec.{performs, writes}
use oc_computer_use.Exec.Rules.{Keeps, keeps_rules}
use oc_computer_use.Act.{
  RuntimeConfig, Machine, ActParams, Desk, calls, awaits, changes, traces, next_counter,
}
use oc_computer_use.Act.Observe.{wait_busy}
use oc_computer_use.Act.Admit.{
  admit, check_turn, check_batch, find_frame, target_region, crop_of, current_frame, frame_or_next,
  reject_stale, check_fresh, check_bounds,
}

module _ (P : Platform) (es : List (Emission P)) where
  -- The inputs asked for are `es`.
  abbrev pub IsAt : Desk P → Type 0
  IsAt d = d.emitted ≡ es

  calls-IsAt : {A : Type 0} (f : World P → Result A × World P) → Keeps IsAt (calls P f)
  unfolding calls performs
  calls-IsAt f = record { at = λ s h. h }

  awaits-IsAt : {A : Type 0} (f : World P → A × World P) → Keeps IsAt (awaits P f)
  unfolding awaits performs
  awaits-IsAt f = record { at = λ s h. h }

  changes-IsAt : (f : Session P → Session P) → Keeps IsAt (changes P f)
  unfolding changes writes
  changes-IsAt f = record { at = λ s h. h }

  traces-IsAt : (e : Effect P) → Keeps IsAt (traces P e)
  unfolding traces writes
  traces-IsAt e = record { at = λ s h. h }

  next_counter-IsAt : Keeps IsAt (next_counter P)
  unfolding next_counter performs
  next_counter-IsAt = record { at = λ s h. h }

  module _ (config : RuntimeConfig P) (M : Machine P) where
    wait_busy-IsAt : Keeps IsAt (wait_busy P config M)
    unfolding wait_busy writes
    wait_busy-IsAt = record { at = λ s h. h }

    ruleset quiet_rules = (
      keeps_rules, calls-IsAt, awaits-IsAt, changes-IsAt, traces-IsAt, next_counter-IsAt,
      wait_busy-IsAt,
    )

    frame_or_next-IsAt : (o : Option Text) → Keeps IsAt (frame_or_next P config M o)
    unfolding frame_or_next
    frame_or_next-IsAt none = search quiet_rules
    frame_or_next-IsAt (some id) = search quiet_rules

    crop_of-IsAt : (o : Option (DisplayBounds P)) → Keeps IsAt (crop_of P config M o)
    unfolding crop_of
    crop_of-IsAt none = search quiet_rules
    crop_of-IsAt (some b) = search quiet_rules

    target_region-IsAt : Keeps IsAt (target_region P config M)
    unfolding target_region
    target_region-IsAt = search (quiet_rules, crop_of-IsAt)

    current_frame-IsAt : Keeps IsAt (current_frame P config M)
    unfolding current_frame
    current_frame-IsAt = search (quiet_rules, frame_or_next-IsAt)

    reject_stale-IsAt : (v : StaleFrameVerdict P) → Keeps IsAt (reject_stale P config M v)
    unfolding reject_stale
    reject_stale-IsAt v = search quiet_rules

    check_turn-IsAt :
        (p : ActParams P) (token : P.Token) → Keeps IsAt (check_turn P config M p token)
    unfolding check_turn
    check_turn-IsAt p token = search quiet_rules

    check_batch-IsAt : (p : ActParams P) → Keeps IsAt (check_batch P config M p)
    unfolding check_batch
    check_batch-IsAt p = search quiet_rules

    check_fresh-IsAt :
        (p : ActParams P) (a b : ScreenSnapshot) → Keeps IsAt (check_fresh P config M p a b)
    unfolding check_fresh
    check_fresh-IsAt p a b = search (quiet_rules, current_frame-IsAt, reject_stale-IsAt)

    -- The checks of `act` ask for no input.
    pub admit-IsAt : (p : ActParams P) (token : P.Token) → Keeps IsAt (admit P config M p token)
    unfolding admit find_frame check_bounds
    admit-IsAt p token =
        search
          (quiet_rules, check_turn-IsAt, check_batch-IsAt, target_region-IsAt, check_fresh-IsAt)
          depth 12
