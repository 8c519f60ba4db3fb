-- ===== src/Screen/Stabilizer/Settles.antt =====
-- The wait for a quiet screen ends, and what its answer says.
use oc_computer_use.Prelude.{◌≢◌}
use oc_computer_use.Prelude.{
  ℕ, zero, suc, ◌+◌, ◌-◌, ◌*◌, ◌/◌, ◌≤◌, ◌<◌, ◌≡◌, refl, Option, none, some, Bool, true, false, leb,
  arith, if◌then◌else◌,
}
use native.Mathlib.Nat.{lt-div-mul-add}
use oc_computer_use.Errors.{Text, CuError, Result, ok, err}
use oc_computer_use.Platform.{Platform}
use oc_computer_use.Human.{millis}
use oc_computer_use.Frames.{ScreenSnapshot, change_score}
use oc_computer_use.Queue.{World, Driver}
use oc_computer_use.Screen.{Screen, CaptureRegion}
use oc_computer_use.Screen.Stabilizer.{
  StabilizerConfig, StabilizeOutcome, stable, timed_out, Sampling, Answer, take_sample,
  judge_sample, sampled, next_sample, sample_round, sample_loop, until_stable, rest_for, shoot,
  score_or_one,
}

raised : (b : Bool) (n m : ℕ) → n ≤ m → (if b then n + 1 else 0) ≤ m + 1
raised b n m h = ground arith

raised_quiet : (b : Bool) (n : ℕ) → 0 < (if b then n + 1 else 0) → b ≡ true
raised_quiet b n h = ground arith

enough : (r n m : ℕ) → leb r n ≡ true → n ≤ m → r ≤ m
enough r n m e h = ground arith

positive : (r n : ℕ) → leb r n ≡ true → 0 < r → 0 < n
positive r n e h = ground arith

waited : (ms ns : ℕ) → leb (ms * 1000000) ns ≡ true → ms ≤ millis ns
waited ms ns e = ground arith

not_over : (a ms now : ℕ) → a + ms * 1000000 ≤ now → leb (ms * 1000000) (now - a) ≢ false
not_over a ms now h e = ground arith

spread : {d : ℕ} (now n k : ℕ) → d ≤ now + suc n * k → d ≤ now + (n * k + k)
spread now n k h = omega arith

all_rounds :
    (started now max interval : ℕ)
    → 0 < interval
    → started ≤ now
    → started + max * 1000000 ≤ now + (max / interval + 1) * (interval * 1000000)
all_rounds started now max interval i h =
    let all : max < max / interval * interval + interval = lt-div-mul-add i in omega arith

module _ (P : Platform) where
  -- An answer: an error, a quiet screen after enough samples, the last of them below the threshold,
  -- or a timeout that is not early. There is no case for a loop without an end.
  pub data Settled (c : StabilizerConfig P) : Option (Result (StabilizeOutcome P)) → Type 0 where
    gave_up : (e : CuError) → Settled c (some (err e))
    quiet :
        {score : P.F64} {n : ℕ}
        → c.required_stable_samples ≤ n
        → (0 < c.required_stable_samples → P.f64_le score c.difference_threshold ≡ true)
        → Settled c (some (ok (stable score n)))
    late :
        {score : P.F64} {n ms : ℕ}
        → c.max_wait_ms ≤ ms
        → Settled c (some (ok (timed_out score n ms)))

  -- The count of quiet samples, and the score of the last one if that was quiet.
  pub record IsCounted (c : StabilizerConfig P) (v : Sampling P) : Type 0 where
    pub among : v.stable_samples ≤ v.samples
    pub last : 0 < v.stable_samples → P.f64_le v.last_change_score c.difference_threshold ≡ true

  take_sample-IsCounted :
      (c : StabilizerConfig P) (cur : ScreenSnapshot) (v : Sampling P)
      → IsCounted c v
      → IsCounted c (take_sample P c cur v)
  unfolding take_sample
  take_sample-IsCounted c cur v h =
      (let b = P.f64_le (score_or_one P (change_score P v.prev cur)) c.difference_threshold in
        record {
          among = raised b v.stable_samples v.samples h.among;
          last = raised_quiet b v.stable_samples;
        })

  either :
      (c : StabilizerConfig P) (b : Bool) (x y : Answer P)
      → (b ≡ true → Settled c x.0)
      → (b ≡ false → Settled c y.0)
      → Settled c (if b then x else y).0
  either c true x y h k = h refl
  either c false x y h k = k refl

  -- What the rounds after a moment do, if they are enough from then on.
  Continues : StabilizerConfig P → ℕ → ℕ → (Sampling P → World P → Answer P) → Type 0
  Continues c deadline spare rest =
      (v : Sampling P) (w : World P)
      → IsCounted c v
      → deadline ≤ w.now + spare
      → Settled c (rest v w).0

  sampled-Settled :
      (c : StabilizerConfig P) (deadline spare : ℕ) (v : Sampling P)
      (rest : Sampling P → World P → Answer P) (q : Result ScreenSnapshot) (w : World P)
      → Continues c deadline spare rest
      → IsCounted c v
      → deadline ≤ w.now + spare
      → Settled c (sampled P c v rest q w).0
  unfolding judge_sample Continues
  sampled-Settled c deadline spare v rest (err e) w k h d = gave_up e
  sampled-Settled c deadline spare v rest (ok cur) w k h d =
      (let v' = take_sample P c cur v in
        let h' = take_sample-IsCounted c cur v h in
        either c (leb c.required_stable_samples v'.stable_samples) _ _
          (λ e.
            quiet (enough c.required_stable_samples v'.stable_samples v'.samples e h'.among)
              (λ r. h'.last (positive c.required_stable_samples v'.stable_samples e r)))
          (λ _. k v' w h' d))

  module _ (D : Driver P) (S : Screen P) (token : P.Token) (display_id : Text)
      (region : Option (CaptureRegion P))
      (sleep_lasts : (ns : ℕ) (w : World P)
        → P.is_cancelled token (D.sleep ns token w).1.store ≡ false
        → w.now + ns ≤ (D.sleep ns token w).1.now)
      (shoot_forward : (w : World P)
        → w.now ≤ (shoot P D S token display_id region region w).1.now) where
    next_sample-Settled :
        (c : StabilizerConfig P) (deadline spare : ℕ) (v : Sampling P)
        (rest : Sampling P → World P → Answer P) (w : World P)
        → Continues c deadline spare rest
        → IsCounted c v
        → deadline ≤ w.now + (spare + c.sample_interval_ms * 1000000)
        → Settled c (next_sample P D S token display_id region c v rest w).0
    unfolding next_sample
    next_sample-Settled c deadline spare v rest w k h d =
        (let w1 = rest_for P D S token display_id region c.sample_interval_ms w in
          let (q, w2) = shoot P D S token display_id region region w1 in
          either c (P.is_cancelled token w1.store) _ _ (λ _. gave_up CuError.cancelled)
            (λ e.
              (let slept = sleep_lasts (c.sample_interval_ms * 1000000) w e in
                let shot = shoot_forward w1 in
                sampled-Settled c deadline spare v rest q w2 k h (omega arith))))

    sample_round-Settled :
        (c : StabilizerConfig P) (started spare : ℕ) (v : Sampling P)
        (rest : Sampling P → World P → Answer P) (w : World P)
        → Continues c (started + c.max_wait_ms * 1000000) spare rest
        → IsCounted c v
        → started + c.max_wait_ms * 1000000 ≤ w.now + (spare + c.sample_interval_ms * 1000000)
        → Settled c (sample_round P D S token display_id region c started v rest w).0
    unfolding sample_round
    sample_round-Settled c started spare v rest w k h d =
        either c (P.is_cancelled token w.store) _ _ (λ _. gave_up CuError.cancelled)
          (λ _.
            either c (leb (c.max_wait_ms * 1000000) (w.now - started)) _ _
              (λ e. late (waited c.max_wait_ms (w.now - started) e))
              (λ _. next_sample-Settled c _ spare v rest w k h d))

    expired :
        (c : StabilizerConfig P) (started : ℕ) (v : Sampling P)
        (rest : Sampling P → World P → Answer P) (w : World P)
        → started + c.max_wait_ms * 1000000 ≤ w.now
        → Settled c (sample_round P D S token display_id region c started v rest w).0
    unfolding sample_round
    expired c started v rest w d =
        either c (P.is_cancelled token w.store) _ _ (λ _. gave_up CuError.cancelled)
          (λ _.
            either c (leb (c.max_wait_ms * 1000000) (w.now - started)) _ _
              (λ e. late (waited c.max_wait_ms (w.now - started) e))
              (λ e. absurd (not_over started c.max_wait_ms w.now d e)))

    sample_loop-Settled :
        (rounds : ℕ) (c : StabilizerConfig P) (started : ℕ) (v : Sampling P) (w : World P)
        → IsCounted c v
        → started + c.max_wait_ms * 1000000 ≤ w.now + rounds * (c.sample_interval_ms * 1000000)
        → Settled c (sample_loop P D S token display_id region (suc rounds) c started v w).0
    unfolding sample_loop Continues
    sample_loop-Settled zero c started v w h d =
        expired c started v (λ v' w'. (none, w')) w (omega arith)
    sample_loop-Settled (suc rounds) c started v w h d =
        sample_round-Settled c started (rounds * (c.sample_interval_ms * 1000000)) v
          (sample_loop P D S token display_id region (suc rounds) c started) w
          (λ v' w' h' d'. sample_loop-Settled rounds c started v' w' h' d') h
          (spread w.now rounds (c.sample_interval_ms * 1000000) d)

    pub until_stable_settles :
        (c : StabilizerConfig P) (initial : ScreenSnapshot) (w : World P)
        → 0 < c.sample_interval_ms
        → Settled c (until_stable P D S token display_id region c initial w).0
    unfolding until_stable
    until_stable_settles c initial w i =
        (let w1 = rest_for P D S token display_id region c.initial_delay_ms w in
          let v : Sampling P = record {
            prev = initial;
            stable_samples = 0;
            last_change_score = P.f64_one;
            samples = 0;
          } in
          either c (P.is_cancelled token w.store) _ _ (λ _. gave_up CuError.cancelled)
            (λ _.
              either c (P.is_cancelled token w1.store) _ _ (λ _. gave_up CuError.cancelled)
                (λ e.
                  (let slept = sleep_lasts (c.initial_delay_ms * 1000000) w e in
                    sample_loop-Settled (c.max_wait_ms / c.sample_interval_ms + 1) c w.now v w1
                      (record { among = omega arith; last = λ z. absurd (omega arith) })
                      (all_rounds w.now w1.now c.max_wait_ms c.sample_interval_ms i
                        (omega arith))))))
