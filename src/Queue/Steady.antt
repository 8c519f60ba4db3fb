-- ===== src/Queue/Steady.antt =====
-- The code of the queue that is no input: it leaves the inputs and the session's policy alone.
use oc_computer_use.Queue.{ActionRun, Recorder}
use oc_computer_use.Human.{consume_real_takeover}
use oc_computer_use.Queue.Guards.{take, has_identity, needs_focus}
use oc_computer_use.Prelude.{
  ℕ, ◌≡◌, refl, ◌∙◌, Option, none, some, Bool, true, false, ◌∷◌, All, Bool-cases, not, ◌&&◌,
  if◌then◌else◌, inl, inr,
}
use oc_computer_use.Errors.{Text, Result, ok, err}
use oc_computer_use.Platform.{Platform}
use oc_computer_use.Session.{
  Session, SessionState, SessionTarget, PointerPolicy, PointerMode, Point, transition, enter, legal,
  sync_pointer_mode,
}
use oc_computer_use.Policy.{TakeoverPolicy}
use oc_computer_use.Actions.{ComputerAction, action_moves_pointer}
use oc_computer_use.Queue.{World, Driver, Emission, QueueState, Code, call}
use oc_computer_use.Queue.Guards.{
  try_transition, settle, apply_takeover, heuristic_takeover, stamp_synthetic,
}
use oc_computer_use.Queue.Poll.{
  interrupted, enter_takeover, take_heuristic, focus_guard, compare_focus, judge_pointer,
  sample_move, probe,
}

module _ (P : Platform) where
  -- A call after which the session has the pointer policy it had.
  abbrev pub Keeps : {A : Type 0} → (World P → A × World P) → Type 0
  Keeps f = (w : World P) → (f w).1.session.pointer_policy ≡ w.session.pointer_policy

  -- The policy is set when the session starts: nothing that the queue waits for changes it.
  pub record IsSteady (D : Driver P) : Type 0 where
    pub execute : (r : _) (t : P.Token) → Keeps (D.execute_with_cancel r t)
    pub accessibility : (pid : ℕ) (p : Point P) → Keeps (D.click_via_accessibility pid p)
    pub physical : (b : _) (p : Point P) → Keeps (D.physical_click_at b p)
    pub physical_double : (b : _) (p : Point P) → Keeps (D.physical_double_click_at b p)
    pub ripple : (p : Point P) → Keeps (λ w. (tt, D.pointer_click_ripple p w))
    pub visualized :
        (p : Point P) (d : Text) (m : PointerMode) → Keeps (λ w. (tt, D.pointer_visualized p d m w))
    pub hidden : Keeps (λ w. (tt, D.pointer_hidden w))
    pub location : Keeps D.pointer_location
    pub application : Keeps D.active_application
    pub window : (p : Point P) → Keeps (D.window_at_point p)
    pub sleep : (ns : ℕ) (t : P.Token) → Keeps (D.sleep ns t)

  -- So does the trace, if there is one.
  unfoldable pub IsSteadyTrace : Option (Recorder P) → Type 0
  IsSteadyTrace none = Unit
  IsSteadyTrace (some f) = (r : ActionRun) → Keeps (f r)

  -- A state of a session with the policy `p`, each of whose inputs satisfies `R`.
  pub record Holds (R : Emission P → Type 0) (p : PointerPolicy) (s : QueueState P) : Type 0 where
    pub policy : s.world.session.pointer_policy ≡ p
    pub inputs : All R s.emitted

  enter_policy :
      (t : SessionState) (s : Session P) (st : P.Store)
      → (enter P t s st).0.pointer_policy ≡ s.pointer_policy
  unfolding enter
  enter_policy SessionState.paused s st = refl
  enter_policy SessionState.user_takeover s st = refl
  enter_policy SessionState.stopping s st = refl
  enter_policy SessionState.stopped s st = refl
  enter_policy SessionState.failed s st = refl
  enter_policy SessionState.active s st = refl
  enter_policy SessionState.starting s st = refl

  try_transition_policy :
      (t : SessionState) (w : World P)
      → (try_transition P t w).session.pointer_policy ≡ w.session.pointer_policy
  unfolding try_transition transition sync_pointer_mode
  try_transition_policy t w = elim (Bool-cases (legal w.session.state t)) [
    | inl e ↦ rw (e, settle) (enter_policy t (record w.session { state = t }) w.store)
    | inr e ↦ rw (e, settle) refl
  ]

  pub apply_takeover_policy :
      (t : TakeoverPolicy) (w : World P)
      → (apply_takeover P t w).session.pointer_policy ≡ w.session.pointer_policy
  unfolding apply_takeover
  apply_takeover_policy TakeoverPolicy.ignore w = refl
  apply_takeover_policy TakeoverPolicy.auto_pause w = try_transition_policy SessionState.paused w
  apply_takeover_policy TakeoverPolicy.immediate_takeover w =
      try_transition_policy SessionState.user_takeover w

  module _ {R : Emission P → Type 0} {p : PointerPolicy} where
    -- A state with the same inputs and the same policy.
    pub carry :
        {s s' : QueueState P}
        → s'.emitted ≡ s.emitted
        → s'.world.session.pointer_policy ≡ s.world.session.pointer_policy
        → Holds R p s
        → Holds R p s'
    carry e k h = record { policy = k ∙ h.policy; inputs = rw (e) h.inputs }

    -- A state with one more input.
    pub carry_input :
        {s s' : QueueState P} {e : Emission P}
        → s'.emitted ≡ e ∷ s.emitted
        → s'.world.session.pointer_policy ≡ s.world.session.pointer_policy
        → R e
        → Holds R p s
        → Holds R p s'
    carry_input e k r h = record { policy = k ∙ h.policy; inputs = rw (e) (r, h.inputs) }

    pub split :
        {A : Type 0} (b : Bool) (m n : Code P A) (s : QueueState P)
        → (b ≡ true → Holds R p s → Holds R p (m s).1)
        → (b ≡ false → Holds R p s → Holds R p (n s).1)
        → Holds R p s
        → Holds R p ((if b then m else n) s).1
    split true m n s hm hn = hm refl
    split false m n s hm hn = hn refl

    pub stamp-Holds : (s : QueueState P) → Holds R p s → Holds R p (stamp_synthetic P s).1
    unfolding stamp_synthetic
    stamp-Holds s h = carry refl refl h

    pub heuristic-Holds : (s : QueueState P) → Holds R p s → Holds R p (heuristic_takeover P s).1
    heuristic-Holds s h = carry refl (apply_takeover_policy s.takeover.policy s.world) h

    module _ (D : Driver P) (steady : IsSteady D) (token : P.Token) (tap_active : Bool) where
      enter_takeover-Holds :
          (s : QueueState P) → Holds R p s → Holds R p (enter_takeover P D token tap_active s).1
      unfolding enter_takeover sync_pointer_mode
      enter_takeover-Holds s h =
          carry refl (steady.hidden _ ∙ try_transition_policy SessionState.user_takeover s.world) h

      take_heuristic-Holds :
          (s : QueueState P) → Holds R p s → Holds R p (take_heuristic P D token tap_active s).1
      unfolding take_heuristic
      take_heuristic-Holds s h = split tap_active _ _ s (λ _ g. g) (λ _ g. carry refl refl g) h

      pub interrupted-Holds :
          (s : QueueState P) → Holds R p s → Holds R p (interrupted P D token tap_active s).1
      unfolding interrupted
      interrupted-Holds s h =
          (let (real, s1) = call (take P (consume_real_takeover P)) s in
            let (heuristic, s2) = take_heuristic P D token tap_active s1 in
            split real _ _ s1 (λ _ g. enter_takeover-Holds s1 g)
              (λ _ g.
                split heuristic _ _ s2 (λ _ k. heuristic-Holds s2 k) (λ _ k. k)
                  (take_heuristic-Holds s1 g))
              (carry {s = s} refl refl h))

      compare_focus-Holds :
          (t : Option SessionTarget) (s : QueueState P)
          → Holds R p s
          → Holds R p (compare_focus P D token tap_active t s).1
      compare_focus-Holds none s h = h
      compare_focus-Holds (some t) s h =
          split (has_identity t) _ _ s (λ _ g. carry refl (steady.application s.world) g) (λ _ g. g)
            h

      pub focus_guard-Holds :
          (a : ComputerAction P) (s : QueueState P)
          → Holds R p s
          → Holds R p (focus_guard P D token tap_active a s).1
      unfolding focus_guard
      focus_guard-Holds a s h =
          split (needs_focus P a) _ _ s (λ _ g. compare_focus-Holds _ s g) (λ _ g. g) h

      judge_pointer-Holds :
          (l : Result (Point P)) (s : QueueState P)
          → Holds R p s
          → Holds R p (judge_pointer P D token tap_active l s).1
      judge_pointer-Holds (err _) s h = h
      judge_pointer-Holds (ok q) s h =
          (let (jumped, s1) = sample_move P D token tap_active q s in
            split jumped _ _ s1 (λ _ g. heuristic-Holds s1 g) (λ _ g. g)
              (carry {s = s} refl refl h))

      pub probe-Holds :
          (a : ComputerAction P) (s : QueueState P)
          → Holds R p s
          → Holds R p (probe P D token tap_active a s).1
      unfolding probe
      probe-Holds a s h =
          split (not tap_active && not (action_moves_pointer P a)) _ _ s
            (λ _ g.
              (let (l, s1) = call D.pointer_location s in
                judge_pointer-Holds l s1 (carry {s = s} refl (steady.location s.world) g)))
            (λ _ g. split (action_moves_pointer P a) _ _ s (λ _ k. carry refl refl k) (λ _ k. k) g)
            h
