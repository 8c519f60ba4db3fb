-- ===== src/Screen/Stabilizer.antt =====
-- cu-runtime/src/stabilizer.rs: waiting until the screen is quiet.
pub mod Settles
use oc_computer_use.Prelude.{
  ℕ, zero, suc, ◌+◌, ◌-◌, ◌*◌, ◌/◌, Option, none, some, Bool, true, false, leb, if◌then◌else◌,
}
use oc_computer_use.Errors.{Text, CuError, Result, ok, err}
use oc_computer_use.Platform.{Platform}
use oc_computer_use.Human.{millis}
use oc_computer_use.Frames.{ScreenSnapshot, change_score}
use oc_computer_use.Queue.{World, Driver}
use oc_computer_use.Screen.{Screen, CaptureRegion}

module _ (P : Platform) where
  open P use {F64, f64_le, f64_one, Token, is_cancelled}

  pub record StabilizerConfig : Type 0 where
    pub initial_delay_ms : ℕ
    pub sample_interval_ms : ℕ
    pub required_stable_samples : ℕ
    pub difference_threshold : F64
    pub max_wait_ms : ℕ

  pub data StabilizeOutcome : Type 0 where
    stable : F64 → ℕ → StabilizeOutcome
    timed_out : F64 → ℕ → ℕ → StabilizeOutcome

  -- The variables of the loop. The counts stay below 2^32.
  pub record Sampling : Type 0 where
    pub prev : ScreenSnapshot
    pub stable_samples : ℕ
    pub last_change_score : F64
    pub samples : ℕ

  -- `none` is a loop that ran out of rounds.
  abbrev pub Answer : Type 0
  Answer = Option (Result StabilizeOutcome) × World P

  abbrev pub score_or_one : Option F64 → F64
  score_or_one none = f64_one
  score_or_one (some s) = s

  -- The comparison of one sample with the one before.
  unfoldable pub take_sample : StabilizerConfig → ScreenSnapshot → Sampling → Sampling
  take_sample c cur v =
      let score = score_or_one (change_score P v.prev cur) in
      record {
        prev = cur;
        stable_samples = if f64_le score c.difference_threshold then v.stable_samples + 1 else 0;
        last_change_score = score;
        samples = v.samples + 1;
      }

  -- After a sample: quiet for long enough, or another round.
  unfoldable pub judge_sample :
      StabilizerConfig → Sampling → (Sampling → World P → Answer) → World P → Answer
  judge_sample c v rest w =
      if leb c.required_stable_samples v.stable_samples
      then (some (ok (stable v.last_change_score v.samples)), w)
      else rest v w

  abbrev pub sampled :
      StabilizerConfig
      → Sampling
      → (Sampling → World P → Answer)
      → Result ScreenSnapshot
      → World P
      → Answer
  sampled c v rest (err e) w = (some (err e), w)
  sampled c v rest (ok cur) w = judge_sample c (take_sample c cur v) rest w

  module _ (D : Driver P) (S : Screen P) (token : Token) (display_id : Text)
      (region : Option (CaptureRegion P)) where
    -- The sleep raced with the token; the code asks the token again afterwards.
    abbrev pub rest_for : ℕ → World P → World P
    rest_for ms w = (D.sleep (ms * 1000000) token w).1

    abbrev pub shoot : Option (CaptureRegion P) → World P → Result ScreenSnapshot × World P
    shoot none w = S.quick_snapshot display_id w
    shoot (some r) w = S.quick_snapshot_region display_id r w

    -- A sample after the interval.
    unfoldable pub next_sample :
        StabilizerConfig → Sampling → (Sampling → World P → Answer) → World P → Answer
    unfolding judge_sample take_sample
    next_sample c v rest w =
        let w1 = rest_for c.sample_interval_ms w in
        if is_cancelled token w1.store
        then (some (err CuError.cancelled), w1)
        else (let (q, w2) = shoot region w1 in sampled c v rest q w2)

    -- One round of the loop, which started at `started`.
    unfoldable pub sample_round :
        StabilizerConfig → ℕ → Sampling → (Sampling → World P → Answer) → World P → Answer
    unfolding next_sample
    sample_round c started v rest w =
        if is_cancelled token w.store
        then (some (err CuError.cancelled), w)
        else if leb (c.max_wait_ms * 1000000) (w.now - started)
        then (some (ok (timed_out v.last_change_score v.samples (millis (w.now - started)))), w)
        else next_sample c v rest w

    unfoldable pub sample_loop : ℕ → StabilizerConfig → ℕ → Sampling → World P → Answer
    unfolding sample_round
    sample_loop zero c started v w = (none, w)
    sample_loop (suc rounds) c started v w =
        sample_round c started v (sample_loop rounds c started) w

    -- A round that goes on takes an interval, so these are enough if the interval is not zero.
    abbrev pub sample_rounds : StabilizerConfig → ℕ
    sample_rounds c = suc (c.max_wait_ms / c.sample_interval_ms + 1)

    unfoldable pub until_stable : StabilizerConfig → ScreenSnapshot → World P → Answer
    unfolding sample_loop
    until_stable c initial w =
        let w1 = rest_for c.initial_delay_ms w in
        let v : Sampling = record {
          prev = initial;
          stable_samples = 0;
          last_change_score = f64_one;
          samples = 0;
        } in
        if is_cancelled token w.store
        then (some (err CuError.cancelled), w)
        else if is_cancelled token w1.store
        then (some (err CuError.cancelled), w1)
        else sample_loop (sample_rounds c) c w.now v w1
