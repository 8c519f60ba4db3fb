-- ===== src/Act/Cleared.antt =====
-- An act asks for input only after all of its checks have passed.

use oc_computer_use.Exec.Rules.{answer-Success}
use oc_computer_use.Exec.Rules.{
  Success, Success-then, fails_if-then, fails_if-Success, checks-then, checks-Success,
}
use oc_computer_use.Prelude.{
  ◌≡◌, refl, Option, none, some, Bool, true, false, not, List, [], ◌∷◌, arith,
}
use oc_computer_use.Errors.{Text, ok}
use oc_computer_use.Platform.{Platform}
use oc_computer_use.Session.Lock.{is_held_by}
use oc_computer_use.Policy.{Authorization, allowed, requires, authorize}
use oc_computer_use.Coordinates.{ImageGeometry}
use oc_computer_use.Actions.{ComputerAction, batch_in_bounds}
use oc_computer_use.Actions.Limits.{IsWithinLimits, validate_iff}
use oc_computer_use.Frames.{StoredFrame, get}
use oc_computer_use.Exec.{writes}
use oc_computer_use.Act.{RuntimeConfig, Machine, ActParams, Desk}
use oc_computer_use.Act.Observe.{wait_busy}
use oc_computer_use.Act.Admit.{
  Admitted, admit, check_turn, check_batch, find_frame, check_bounds, batch_of, policy_of,
  authorization_result, known_frame, geometry_of, resolve_all, bounds_result,
}
use oc_computer_use.Act.Fresh.{
  IsFresh, Looked, Shot, Fresh, at_world, target_region-Success, taken_fingerprint-Success,
  check_fresh-Success,
}

pub not-false : (b : Bool) → not b ≡ false → b ≡ true
not-false true h = refl
not-false false h = absurd (cc)

module _ (P : Platform) where
  -- What a batch needs at its turn, in the state `d`.
  pub record IsCleared (config : RuntimeConfig P) (M : Machine P) (p : ActParams P)
      (token : P.Token) (d : Desk P) (a : Admitted P) : Type 0 where
    pub live : P.is_cancelled token d.world.store ≡ false
    pub held : is_held_by d.runtime.control_lock p.session_id ≡ true
    pub limits : IsWithinLimits P p.actions
    pub authorized : authorize (policy_of P p) false ≡ allowed
    pub frame : StoredFrame P
    pub known : get P p.frame_id d.runtime.frames ≡ some frame
    pub shown : IsFresh P config M p frame d a

  resolve_all-batch_in_bounds :
      (g : ImageGeometry P) (as_ : List (ComputerAction P))
      → resolve_all P g as_ ≡ ok tt
      → batch_in_bounds P as_ g ≡ true
  unfolding resolve_all batch_in_bounds
  resolve_all-batch_in_bounds g [] h = refl
  resolve_all-batch_in_bounds g (a ∷ as_) h = ground (arith, resolve_all-batch_in_bounds g as_)

  in_bounds :
      (g : ImageGeometry P) (as_ : List (ComputerAction P)) (b : Bool)
      → batch_in_bounds P as_ g ≡ b
      → bounds_result P g as_ b ≡ ok tt
      → b ≡ true
  in_bounds g as_ true e h = refl
  in_bounds g as_ false e h = let all = resolve_all-batch_in_bounds g as_ h in absurd (cc)

  pub is_known :
      (id : Text) (o : Option (StoredFrame P)) (f : StoredFrame P)
      → known_frame P id o ≡ ok f
      → o ≡ some f
  is_known id none f h = absurd (cc)
  is_known id (some g) f h = cc

  is_allowed : (a : Authorization) → authorization_result P a ≡ ok tt → a ≡ allowed
  is_allowed allowed h = refl
  is_allowed (requires q) h = absurd (cc)

  -- The state at the request's turn: after the wait for the busy lock.
  abbrev pub turned : Machine P → Desk P → Desk P
  turned M d = let (w, rt) = M.others d.world d.runtime in record d { world = w; runtime = rt }

  module _ (config : RuntimeConfig P) (M : Machine P) where
    IsTurn : P.Token → ActParams P → Desk P → Desk P → Type 0
    IsTurn token p d d' =
        (d' ≡ d)
        × (P.is_cancelled token d.world.store ≡ false)
        × (is_held_by d.runtime.control_lock p.session_id ≡ true)

    check_turn-Success :
        (p : ActParams P) (token : P.Token) (d : Desk P)
        → Success (λ _ d'. IsTurn token p d d') (check_turn P config M p token d)
    unfolding check_turn IsTurn
    check_turn-Success p token d =
        fails_if-then _ _ _ _ d
          λ live. fails_if-Success _ _ _ d λ held. (refl, live, not-false _ held)

    IsBatch : ActParams P → Desk P → Desk P → Type 0
    IsBatch p d d' =
        (d' ≡ d) × IsWithinLimits P p.actions × (authorize (policy_of P p) false ≡ allowed)

    check_batch-Success :
        (p : ActParams P) (d : Desk P)
        → Success (λ _ d'. IsBatch p d d') (check_batch P config M p d)
    unfolding check_batch IsBatch
    check_batch-Success p d = checks-then _ _ _ d λ _ valid.
        checks-Success _ _ d
          λ _ granted. (refl, (validate_iff P (batch_of P p)).0 valid, is_allowed _ granted)

    IsKnown : ActParams P → Desk P → StoredFrame P → Desk P → Type 0
    IsKnown p d f d' = (d' ≡ d) × (get P p.frame_id d.runtime.frames ≡ some f)

    find_frame-Success :
        (p : ActParams P) (d : Desk P)
        → Success (λ f d'. IsKnown p d f d') (find_frame P config M p d)
    unfolding find_frame IsKnown
    find_frame-Success p d = checks-Success _ _ d λ f h. (refl, is_known _ _ f h)

    check_bounds-Success :
        (p : ActParams P) (g : ImageGeometry P) (d : Desk P)
        → Success (λ _ _. batch_in_bounds P p.actions g ≡ true) (check_bounds P config M p g d)
    unfolding check_bounds
    check_bounds-Success p g d = checks-Success _ _ d (λ _ h. in_bounds g p.actions _ refl h)

    -- Where all checks of an act pass, its batch is cleared.
    pub admit-IsCleared :
        (p : ActParams P) (token : P.Token) (d : Desk P)
        → Success (λ a _. IsCleared config M p token (turned M d) a) (admit P config M p token d)
    unfolding admit wait_busy writes IsTurn IsBatch IsKnown
    admit-IsCleared p token d =
        let d0 = turned M d in
        Success-then _ (λ _ s. s ≡ d0) _ _ d refl
          λ _ s0 e0.
            Success-then _ (λ _ s. IsTurn token p d0 s) _ _ s0
              (rw e0 (check_turn-Success p token d0))
              λ _ s1 (e1, live, held).
                Success-then _ (λ _ s. IsBatch p d0 s) _ _ s1 (rw e1 (check_batch-Success p d0))
                  λ _ s2 (e2, limits, granted).
                    Success-then _ (λ f s. IsKnown p d0 f s) _ _ s2
                      (rw e2 (find_frame-Success p d0))
                      λ f s3 (e3, known).
                        Success-then _ (λ o s. Looked P config M d0 o s) _ _ s3
                          (rw e3 (target_region-Success P config M d0))
                          λ region s4 (w1, found, e4).
                            Success-then _ (λ b s. Shot P config M d0 w1 region b s) _ _ s4
                              (rw e4 (taken_fingerprint-Success P config M p.frame_id d0 w1 region))
                              λ before s5 (w2, shot, e5).
                                Success-then _
                                  (λ _ _. Fresh P config M p f.snapshot before (at_world P w2 d0)) _
                                  _ s5
                                  (rw e5 (
                                    check_fresh-Success P config M p f.snapshot before
                                      (at_world P w2 d0)))
                                  λ _ s6 (current, named, fresh).
                                    Success-then _
                                      (λ _ _.
                                        batch_in_bounds P p.actions (geometry_of P f.frame) ≡ true)
                                      _ _ s6 (check_bounds-Success p (geometry_of P f.frame) s6)
                                      λ _ s7 bounded. answer-Success _ _ s7 (record {
                                        live = live;
                                        held = held;
                                        limits = limits;
                                        authorized = granted;
                                        frame = f;
                                        known = known;
                                        shown = record {
                                          geometry = refl;
                                          targeted = w1;
                                          region = found;
                                          seen = w2;
                                          before = shot;
                                          current = current;
                                          named = named;
                                          fresh = fresh;
                                          bounded = bounded;
                                        };
                                      })
