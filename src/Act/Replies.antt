-- ===== src/Act/Replies.antt =====
-- `act` comes to an end: its two waits do.
use oc_computer_use.Exec.Rules.{Replies-bind, Replies-checks, Replies-performs}
use oc_computer_use.Runtime.{Effect}
use oc_computer_use.Session.{Session}
use oc_computer_use.Prelude.{
  ℕ, zero, suc, ◌+◌, ◌*◌, ◌/◌, ◌≤◌, ◌<◌, ◌≡◌, ◌≢◌, Option, none, some, false, arith,
}
use oc_computer_use.Errors.{Text, Result, ok, err}
use oc_computer_use.Platform.{Platform}
use oc_computer_use.Session.{DisplayBounds}
use oc_computer_use.Actions.{WaitPolicy}
use oc_computer_use.Frames.{ScreenSnapshot, ScreenFrame}
use oc_computer_use.Requests.{RequestKey}
use oc_computer_use.Queue.{World}
use oc_computer_use.Screen.{CaptureRegion}
use oc_computer_use.Screen.Stabilizer.{StabilizeOutcome, shoot}
use oc_computer_use.Screen.Stabilizer.Settles.{Settled, gave_up, quiet, late, until_stable_settles}
use oc_computer_use.Stale.{StaleFrameVerdict}
use oc_computer_use.Exec.{answer, exhausted, reads, fails_if, performs, writes, ◌>>=◌}
use oc_computer_use.Exec.Rules.{Replies, reply_rules}
use oc_computer_use.Act.{
  RuntimeConfig, Machine, ActParams, ObserveParams, CapturedFrame, Desk, Step, calls, awaits,
  changes, traces, next_counter,
}
use oc_computer_use.Act.Observe.{
  Scope, window_scope, scope_region, check_crop, store_frame, observe_scoped, observe_inner,
  wait_busy,
}
use oc_computer_use.Act.Admit.{
  Admitted, admit, check_turn, check_batch, find_frame, target_region, crop_of, current_frame,
  frame_or_next, reject_stale, check_fresh, check_bounds,
}
use oc_computer_use.Act.Wait.{
  consume_takeover, until_tick, fixed_round, fixed_loop, fixed_wait, settled_or, stable_wait,
  after_batch,
}
use oc_computer_use.Act.Batch.{
  run_queue, stamp_action, screenshot_after, trace_report, carry_batch, open_scope, scoped,
  batch_body, in_scope, act_session,
}

module _ (P : Platform) where
  calls-Replies : {A : Type 0} (f : World P → Result A × World P) → Replies (calls P f)
  unfolding calls performs
  calls-Replies f = record { at = λ s. cc }

  awaits-Replies : {A : Type 0} (f : World P → A × World P) → Replies (awaits P f)
  unfolding awaits performs
  awaits-Replies f = record { at = λ s. cc }

  changes-Replies : (f : Session P → Session P) → Replies (changes P f)
  unfolding changes writes
  changes-Replies f = record { at = λ s. cc }

  traces-Replies : (e : Effect P) → Replies (traces P e)
  unfolding traces writes
  traces-Replies e = record { at = λ s. cc }

  next_counter-Replies : Replies (next_counter P)
  unfolding next_counter performs
  next_counter-Replies = record { at = λ s. cc }

  ruleset step_rules = (
    reply_rules, calls-Replies, awaits-Replies, changes-Replies, traces-Replies,
    next_counter-Replies,
  )

  module _ (config : RuntimeConfig P) (M : Machine P) where
    scope_region-Replies : (id : Text) (s : Scope P) → Replies (scope_region P config M id s)
    unfolding scope_region
    scope_region-Replies id none = search step_rules
    scope_region-Replies id (some (b, _)) = search step_rules

    check_crop-Replies :
        (n : ℕ) (r : Option (CaptureRegion P)) (c : CapturedFrame P)
        → Replies (check_crop P config M n r c)
    unfolding check_crop
    check_crop-Replies n none c = search step_rules
    check_crop-Replies n (some r) c = search step_rules

    store_frame-Replies :
        (f : ScreenFrame P) (s : ScreenSnapshot) → Replies (store_frame P config M f s)
    unfolding store_frame
    store_frame-Replies f s = search step_rules

    window_scope-Replies : Replies (window_scope P config M)
    unfolding window_scope
    window_scope-Replies = search step_rules

    observe_scoped-Replies :
        (p : ObserveParams P) (id : Text) (n : ℕ) (format : Text) (s : Scope P)
        (r : Option (CaptureRegion P))
        → Replies (observe_scoped P config M p id n format s r)
    unfolding observe_scoped
    observe_scoped-Replies p id n format s r =
        search (step_rules, check_crop-Replies, store_frame-Replies) depth 12

    observe_inner-Replies : (p : ObserveParams P) → Replies (observe_inner P config M p)
    unfolding observe_inner
    observe_inner-Replies p =
        search (step_rules, window_scope-Replies, scope_region-Replies, observe_scoped-Replies)
          depth 12

    crop_of-Replies : (b : Option (DisplayBounds P)) → Replies (crop_of P config M b)
    unfolding crop_of
    crop_of-Replies none = search step_rules
    crop_of-Replies (some b) = search step_rules

    target_region-Replies : Replies (target_region P config M)
    unfolding target_region
    target_region-Replies = search (step_rules, crop_of-Replies)

    frame_or_next-Replies : (o : Option Text) → Replies (frame_or_next P config M o)
    unfolding frame_or_next
    frame_or_next-Replies none = search step_rules
    frame_or_next-Replies (some id) = search step_rules

    current_frame-Replies : Replies (current_frame P config M)
    unfolding current_frame
    current_frame-Replies = search (step_rules, frame_or_next-Replies)

    reject_stale-Replies : (v : StaleFrameVerdict P) → Replies (reject_stale P config M v)
    unfolding reject_stale
    reject_stale-Replies v = search step_rules

    check_fresh-Replies :
        (p : ActParams P) (a b : ScreenSnapshot) → Replies (check_fresh P config M p a b)
    unfolding check_fresh
    check_fresh-Replies p a b = search (step_rules, current_frame-Replies, reject_stale-Replies)

    check_turn-Replies :
        (p : ActParams P) (token : P.Token) → Replies (check_turn P config M p token)
    unfolding check_turn
    check_turn-Replies p token = search step_rules

    check_batch-Replies : (p : ActParams P) → Replies (check_batch P config M p)
    unfolding check_batch
    check_batch-Replies p = search step_rules

    admit-Replies : (p : ActParams P) (token : P.Token) → Replies (admit P config M p token)
    unfolding admit wait_busy find_frame check_bounds
    admit-Replies p token =
        search
          (
            step_rules, check_turn-Replies, check_batch-Replies, target_region-Replies,
            check_fresh-Replies,
          )
          depth 12

    -- A sleep that its token does not end lasts as long as it should, and a snapshot of the screen
    -- takes no negative time.
    pub record IsTimely (token : P.Token) : Type 0 where
      pub slept :
          (ns : ℕ) (w : World P)
          → (M.driver.sleep ns token w).0 ≡ false
          → w.now + ns ≤ (M.driver.sleep ns token w).1.now
      pub slept_live :
          (ns : ℕ) (w : World P)
          → P.is_cancelled token (M.driver.sleep ns token w).1.store ≡ false
          → w.now + ns ≤ (M.driver.sleep ns token w).1.now
      pub shot :
          (display_id : Text) (region : Option (CaptureRegion P)) (w : World P)
          → w.now ≤ (shoot P M.driver M.screen token display_id region region w).1.now

    consume_now :
        (w : World P)
        → (consume_takeover P config M w).0 ≡ false
        → (consume_takeover P config M w).1.now ≡ w.now
    unfolding consume_takeover
    consume_now w h = ground arith

    module _ (token : P.Token) (timely : IsTimely token) where
      fixed_round_replies :
          (spare deadline : ℕ) (rest : Step P (Unit {0})) (d : Desk P)
          → ((d' : Desk P) → deadline ≤ d'.world.now + spare → (rest d').0 ≢ none)
          → deadline ≤ d.world.now + (spare + 50000000)
          → (fixed_round P config M token deadline rest d).0 ≢ none
      unfolding fixed_round reads awaits performs fails_if answer ◌>>=◌
      fixed_round_replies spare deadline rest d k h =
          (let w1 = (consume_takeover P config M d.world).1 in
            let ns = until_tick P config M deadline w1 in
            let d2 : Desk P = record d { world = (M.driver.sleep ns token w1).1 } in
            ground (arith, consume_now d.world, timely.slept ns w1, k d2))

      expired :
          (deadline : ℕ) (rest : Step P (Unit {0})) (d : Desk P)
          → deadline ≤ d.world.now
          → (fixed_round P config M token deadline rest d).0 ≢ none
      unfolding fixed_round reads answer ◌>>=◌
      expired deadline rest d h = ground arith

      fixed_loop_replies :
          (rounds deadline : ℕ) (d : Desk P)
          → deadline ≤ d.world.now + rounds * 50000000
          → (fixed_loop P config M (suc rounds) token deadline d).0 ≢ none
      unfolding fixed_loop
      fixed_loop_replies zero deadline d h = expired deadline (exhausted) d (omega arith)
      fixed_loop_replies (suc rounds) deadline d h =
          fixed_round_replies (rounds * 50000000) deadline
            (fixed_loop P config M (suc rounds) token deadline) d
            (λ d' h'. fixed_loop_replies rounds deadline d' h') (omega arith)

      fixed_wait-Replies : (ms : ℕ) → Replies (fixed_wait P config M token ms)
      unfolding fixed_wait reads answer ◌>>=◌
      fixed_wait-Replies ms = record {
        at = λ d.
            (let rounds = ms / 50 + 1 in
              let deadline = d.world.now + ms * 1000000 in
              ground (arith, fixed_loop_replies rounds deadline d));
      }

      settled_or-some :
          (o : Option (Result (StabilizeOutcome P))) (w : World P)
          → Settled P config.stabilizer o
          → (settled_or P config M o w).0 ≢ none
      settled_or-some none w h = elim h [ ]
      settled_or-some (some (err e)) w (gave_up _) = cc
      settled_or-some (some (ok _)) w (quiet _ _) = cc
      settled_or-some (some (ok _)) w (late _) = cc

      stable_wait-Replies :
          0 < config.stabilizer.sample_interval_ms
          → (region : Option (CaptureRegion P)) (before : ScreenSnapshot)
          → Replies (stable_wait P config M token region before)
      unfolding stable_wait
      stable_wait-Replies i region before = record {
        at = λ d. settled_or-some _ _ (
            until_stable_settles P M.driver M.screen token d.world.session.display_id region
              timely.slept_live (timely.shot d.world.session.display_id region) config.stabilizer
              before d.world i);
      }

      module _ (interval : 0 < config.stabilizer.sample_interval_ms) where
        after_batch-Replies :
            (w : WaitPolicy) (ms : Option ℕ) (region : Option (CaptureRegion P))
            (before : ScreenSnapshot)
            → Replies (after_batch P config M w ms token region before)
        unfolding after_batch
        after_batch-Replies WaitPolicy.no_wait ms region before = search step_rules
        after_batch-Replies WaitPolicy.fixed ms region before =
            search (step_rules, fixed_wait-Replies)
        after_batch-Replies WaitPolicy.until_stable ms region before =
            search (step_rules, stable_wait-Replies interval region before)

        screenshot_after-Replies : (p : ActParams P) → Replies (screenshot_after P config M p)
        unfolding screenshot_after
        screenshot_after-Replies p = search (step_rules, observe_inner-Replies)

        trace_report-Replies : Replies (trace_report P config M)
        unfolding trace_report
        trace_report-Replies = search step_rules

        stamp_action-Replies : Replies (stamp_action P config M)
        unfolding stamp_action
        stamp_action-Replies = search step_rules

        carry_batch-Replies :
            (p : ActParams P) (a : Admitted P) → Replies (carry_batch P config M p token a)
        unfolding carry_batch run_queue
        carry_batch-Replies p a =
            search
              (
                step_rules, stamp_action-Replies, after_batch-Replies, screenshot_after-Replies,
                trace_report-Replies,
              )
              depth 14

        scoped-Replies :
            (p : ActParams P) (key : Option RequestKey)
            → Replies (scoped P config M key token (batch_body P config M p token))
        unfolding scoped batch_body
        scoped-Replies p key = record {
          at = (Replies-bind _ _ (admit-Replies p token) (carry_batch-Replies p)).at;
        }

    -- If a sleep that its token does not end lasts as long as it should, a snapshot takes no negative
    -- time, and the interval between the samples of the stabilizer is not zero, every act replies,
    -- with a result or an error: the rounds of its waits are enough.
    pub act_replies :
        0 < config.stabilizer.sample_interval_ms
        → ((token : P.Token) → IsTimely token)
        → (p : ActParams P) (key : Option RequestKey) (d : Desk P)
        → (act_session P config M p key d).0 ≢ none
    unfolding act_session in_scope open_scope
    act_replies interval timely p key d =
        (Replies-bind _ _ (Replies-checks _) (λ _. Replies-bind _ _ (Replies-checks _) (λ _.
            Replies-bind _ _ (Replies-performs _)
              (λ token. scoped-Replies token (timely token) interval p key)))).at
          d
