-- ===== src/Act/Wait.antt =====
-- The waits of `act` after its batch, in cu-runtime/src/runtime.rs.
use oc_computer_use.Prelude.{
  ℕ, zero, suc, ◌+◌, ◌-◌, ◌*◌, ◌/◌, ltb, Option, none, some, Bool, true, false, if◌then◌else◌,
}
use oc_computer_use.Errors.{CuError, Result, ok, err}
use oc_computer_use.Platform.{Platform}
use oc_computer_use.Session.{SessionState, sync_pointer_mode}
use oc_computer_use.Policy.{unwrap_or}
use oc_computer_use.Human.{consume_real_takeover, mark_takeover_started}
use oc_computer_use.Actions.{WaitPolicy}
use oc_computer_use.Frames.{ScreenSnapshot}
use oc_computer_use.Queue.{World}
use oc_computer_use.Queue.Guards.{try_transition, with_monitor, take}
use oc_computer_use.Screen.{CaptureRegion}
use oc_computer_use.Screen.Stabilizer.{StabilizeOutcome, stable, timed_out, until_stable}
use oc_computer_use.Exec.{Reply, answer, exhausted, reads, fails_if, ◌>>=◌, ◌>>◌}
use oc_computer_use.Act.{RuntimeConfig, Machine, Step, awaits}

module _ (P : Platform) (config : RuntimeConfig P) (M : Machine P) where
  -- What follows once a takeover by the human was taken.
  unfoldable pub complete_takeover : World P → World P
  complete_takeover w =
      let w1 = try_transition P SessionState.user_takeover w in
      let w2 : World P = record w1 {
        session = sync_pointer_mode P SessionState.user_takeover w1.session;
      } in
      M.driver.pointer_hidden (with_monitor P (mark_takeover_started P w2.now) w2)

  abbrev pub if_taken : Bool × World P → Bool × World P
  if_taken (true, w) = (true, complete_takeover w)
  if_taken (false, w) = (false, w)

  unfoldable pub consume_takeover : World P → Bool × World P
  unfolding complete_takeover
  consume_takeover w = if_taken (take P (consume_real_takeover P) w)

  -- 50 milliseconds.
  abbrev pub tick : ℕ
  tick = 50000000

  abbrev pub until_tick : ℕ → World P → ℕ
  until_tick deadline w =
      let remaining = deadline - w.now in if ltb remaining tick then remaining else tick

  -- One round of the fixed wait: `sleep` answers whether the token ended it.
  unfoldable pub fixed_round : P.Token → ℕ → Step P (Unit {0}) → Step P (Unit {0})
  unfolding consume_takeover
  fixed_round token deadline rest = do
    over ← reads (λ d. ltb d.world.now deadline)
    if over
        then (do
          taken ← awaits P consume_takeover
          fails_if (λ _. taken) (λ _. CuError.cancelled)
          fails_if (λ d. P.is_cancelled token d.world.store) (λ _. CuError.cancelled)
          fired ← awaits P (λ w. M.driver.sleep (until_tick deadline w) token w)
          fails_if (λ _. fired) (λ _. CuError.cancelled)
          rest)
        else answer tt

  unfoldable pub fixed_loop : ℕ → P.Token → ℕ → Step P (Unit {0})
  unfolding fixed_round
  fixed_loop zero token deadline = exhausted
  fixed_loop (suc rounds) token deadline =
      fixed_round token deadline (fixed_loop rounds token deadline)

  -- Every round but the last sleeps for a tick, or ends the wait.
  abbrev pub fixed_rounds : ℕ → ℕ
  fixed_rounds ms = suc (ms / 50 + 1)

  unfoldable pub fixed_wait : P.Token → ℕ → Step P (Unit {0})
  unfolding fixed_loop
  fixed_wait token ms =
      if ltb 0 ms
      then (do
        started ← reads (λ d. d.world.now)
        fixed_loop (fixed_rounds ms) token (started + ms * 1000000))
      else answer tt

  -- A wait that failed may have been ended by the human.
  abbrev pub settled_or :
      Option (Result (StabilizeOutcome P)) → World P → Reply (StabilizeOutcome P) × World P
  settled_or none w = (none, w)
  settled_or (some (ok o)) w = (some (ok o), w)
  settled_or (some (err e)) w = (some (err e), (consume_takeover w).1)

  unfoldable pub stable_wait :
      P.Token → Option (CaptureRegion P) → ScreenSnapshot → Step P (StabilizeOutcome P)
  unfolding consume_takeover
  stable_wait token region before d =
      let display_id = d.world.session.display_id in
      let (o, w) =
        until_stable P M.driver M.screen token display_id region config.stabilizer before d.world in
      let (r, w') = settled_or o w in (r, record d { world = w' })

  abbrev pub became_stable : StabilizeOutcome P → Bool
  became_stable (stable _ _) = true
  became_stable (timed_out _ _ _) = false

  -- Whether the screen was found stable, and how.
  unfoldable pub after_batch :
      WaitPolicy
      → Option ℕ
      → P.Token
      → Option (CaptureRegion P)
      → ScreenSnapshot
      → Step P (Bool × Option (StabilizeOutcome P))
  unfolding fixed_wait stable_wait
  after_batch WaitPolicy.no_wait ms token region before = answer (false, none)
  after_batch WaitPolicy.fixed ms token region before = do
    fixed_wait token (unwrap_or 0 ms)
    answer (false, none)
  after_batch WaitPolicy.until_stable ms token region before = do
    o ← stable_wait token region before
    answer (became_stable o, some o)
