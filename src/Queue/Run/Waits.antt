-- ===== src/Queue/Run/Waits.antt =====
-- How long a wait lasts.
use oc_computer_use.Prelude.{
  ℕ, zero, suc, ◌+◌, ◌*◌, ◌/◌, ◌≤◌, ◌≡◌, ◌≢◌, refl, Option, Bool, true, false, arith,
}
use oc_computer_use.Errors.{Text}
use oc_computer_use.Platform.{Platform}
use oc_computer_use.Coordinates.{ImageGeometry}
use oc_computer_use.Queue.{World, Driver, Recorder, QueueState, Code, return}
use oc_computer_use.Queue.Poll.{interrupted, take_heuristic}
use oc_computer_use.Queue.Run.{
  cut_short, wait_loop, wait_for, wait_round, nap_then, wait_outcome, nap,
}

module _ (P : Platform) (D : Driver P) (token : P.Token) (geometry : ImageGeometry P)
    (tap_active : Bool) (recorder : Option (Recorder P)) (display_id : Text)
    (sleep_lasts : (ns : ℕ) (t : P.Token) (w : World P)
      → (D.sleep ns t w).0 ≡ false
      → w.now + ns ≤ (D.sleep ns t w).1.now) where
  -- A poll that lets the batch go on takes no time.
  interrupted_now :
      (s : QueueState P)
      → (interrupted P D token tap_active s).0 ≡ false
      → (interrupted P D token tap_active s).1.world.now ≡ s.world.now
  unfolding interrupted take_heuristic
  interrupted_now s h = ground arith

  nap_then_lasts :
      (rounds deadline : ℕ) (rest : Code P Bool) (s : QueueState P)
      → ((s' : QueueState P)
          → deadline ≤ s'.world.now + rounds * 50000000
          → (rest s').0 ≡ false
          → deadline ≤ (rest s').1.world.now)
      → deadline ≤ s.world.now + suc rounds * 50000000
      → (nap_then P D token geometry tap_active recorder display_id deadline rest s).0 ≡ false
      → deadline
        ≤ (nap_then P D token geometry tap_active recorder display_id deadline rest s).1.world.now
  unfolding nap_then
  nap_then_lasts rounds deadline rest s k h e =
      (let ns = nap P D token geometry tap_active recorder display_id deadline s.world in
        let s' : QueueState P = record s { world = (D.sleep ns token s.world).1 } in
        ground (arith, sleep_lasts ns token s.world, k s'))

  wait_round_lasts :
      (rounds deadline : ℕ) (rest : Code P Bool) (s : QueueState P)
      → ((s' : QueueState P)
          → deadline ≤ s'.world.now + rounds * 50000000
          → (rest s').0 ≡ false
          → deadline ≤ (rest s').1.world.now)
      → deadline ≤ s.world.now + suc rounds * 50000000
      → (wait_round P D token geometry tap_active recorder display_id deadline rest s).0 ≡ false
      → deadline
        ≤ (wait_round P D token geometry tap_active recorder display_id deadline rest s).1.world.now
  unfolding wait_round
  wait_round_lasts rounds deadline rest s k h e =
      (let s' = (interrupted P D token tap_active s).1 in
        ground (arith, interrupted_now s, nap_then_lasts rounds deadline rest s' k))

  expired :
      (deadline : ℕ) (s : QueueState P)
      → deadline ≤ s.world.now
      → deadline
        ≤ (wait_round P D token geometry tap_active recorder display_id deadline
            (return false)
            s).1.world.now
  unfolding wait_round
  expired deadline s h = ground arith

  wait_loop_lasts :
      (rounds deadline : ℕ) (s : QueueState P)
      → deadline ≤ s.world.now + rounds * 50000000
      → (wait_loop P D token geometry tap_active recorder display_id (suc rounds) deadline s).0
        ≡ false
      → deadline
        ≤ (wait_loop P D token geometry tap_active recorder display_id
            (suc rounds)
            deadline
            s).1.world.now
  unfolding wait_loop
  wait_loop_lasts zero deadline s h e = expired deadline s (omega arith)
  wait_loop_lasts (suc rounds) deadline s h e =
      wait_round_lasts rounds deadline
        (wait_loop P D token geometry tap_active recorder display_id (suc rounds) deadline) s
        (wait_loop_lasts rounds deadline) h e

  outcome_false :
      (b : Bool)
      → wait_outcome P D token geometry tap_active recorder display_id b ≢ cut_short
      → b ≡ false
  outcome_false true h = absurd (h refl)
  outcome_false false h = refl

  -- If a sleep that its token does not end lasts as long as it should, a wait that is not cut short
  -- lasts until its deadline: its rounds are enough.
  pub wait_for_lasts :
      (duration_ms : ℕ) (s : QueueState P)
      → (wait_for P D token geometry tap_active recorder display_id duration_ms s).0 ≢ cut_short
      → s.world.now + duration_ms * 1000000
        ≤ (wait_for P D token geometry tap_active recorder display_id duration_ms s).1.world.now
  unfolding wait_for
  wait_for_lasts duration_ms s h =
      wait_loop_lasts (duration_ms / 50 + 1) (s.world.now + duration_ms * 1000000) s (omega arith)
        (outcome_false _ h)
