-- ===== src/Act/Fresh.antt =====
-- The look at the screen before a batch: target_region, the fingerprint and the staleness check of
-- `act`.
use oc_computer_use.Prelude.{
  ◌≡◌, ◌⊎◌, refl, inl, inr, Option, none, some, Bool, true, false, is_some, if◌then◌else◌,
}
use oc_computer_use.Errors.{Text, Result, ok, err}
use oc_computer_use.Platform.{Platform}
use oc_computer_use.Session.{DisplayBounds, ResolvedSessionTarget}
use oc_computer_use.Actions.{batch_in_bounds}
use oc_computer_use.Frames.{ScreenSnapshot, StoredFrame}
use oc_computer_use.Stale.{StaleFrameVerdict, check}
use oc_computer_use.Queue.{World}
use oc_computer_use.Screen.{
  CaptureRegion, refresh_resolved_target, target_crop_region, fingerprint_snapshot,
}
use oc_computer_use.Exec.{answer, reads, performs, ◌>>=◌}
use oc_computer_use.Exec.Rules.{
  Success, Success-then, Success-any, reads-then, fail-Success, answer-Success,
}
use oc_computer_use.Act.{RuntimeConfig, Machine, ActParams, Desk, Step, calls, next_counter}
use oc_computer_use.Act.Admit.{
  Admitted, target_region, crop_of, or_stale, current_frame, frame_or_next, check_fresh,
  reject_stale, geometry_of,
}

module _ (P : Platform) where
  abbrev pub at_world : World P → Desk P → Desk P
  at_world w d = record d { world = w }

  -- What a call that succeeds returns and leaves.
  pub calls-Success :
      {A : Type 0} (f : World P → Result A × World P) (d : Desk P)
      → Success (λ a s. (w : World P) × (f d.world ≡ (ok a, w)) × (s ≡ at_world w d)) (calls P f d)
  unfolding calls performs
  calls-Success {A = A} f d = go (f d.world).0 (f d.world).1 refl
    where
      go :
          (r : Result A) (w : World P)
          → f d.world ≡ (r, w)
          → Success
              (λ a s. (v : World P) × (f d.world ≡ (ok a, v)) × (s ≡ at_world v d))
              (some r, at_world w d)
      go (ok a) w e = (w, e, refl)
      go (err x) w e = tt

module _ (P : Platform) (config : RuntimeConfig P) (M : Machine P) where
  -- The part of the screen that a session is about, looked for in `w`: all of it in a session that is
  -- bound to no window; else the part that the window covers once it is found again, or all of it for a
  -- window without bounds.
  pub data IsTargetRegion (w : World P) : Option (CaptureRegion P) → World P → Type 0 where
    unbound : w.session.resolved_target ≡ none → IsTargetRegion w none w
    without_bounds :
        {w1 : World P} (q r : ResolvedSessionTarget P)
        → w.session.resolved_target ≡ some q
        → refresh_resolved_target P M.screen w ≡ (ok r, w1)
        → w1.session.target_bounds ≡ none
        → IsTargetRegion w none w1
    with_bounds :
        {w1 w2 : World P} {o : Option (CaptureRegion P)} (q r : ResolvedSessionTarget P)
        (b : DisplayBounds P)
        → w.session.resolved_target ≡ some q
        → refresh_resolved_target P M.screen w ≡ (ok r, w1)
        → w1.session.target_bounds ≡ some b
        → target_crop_region P M.screen b w1 ≡ (ok o, w2)
        → IsTargetRegion w o w2

  -- The session's current frame or, where it has none, the one that would be named next.
  abbrev pub IsCurrent : Desk P → Text → Type 0
  IsCurrent d id =
      (d.world.session.current_frame_id ≡ some id)
      ⊎ ((d.world.session.current_frame_id ≡ none) × (id ≡ M.new_frame_id d.runtime.frame_counter))

  -- The frame `f` that the caller names is not stale, by the check of stale frames, against the
  -- fingerprint that was taken, in the state `d`, of the part of the screen that the session is about,
  -- at the time it was taken; and the actions lie in it.
  pub record IsFresh (p : ActParams P) (f : StoredFrame P) (d : Desk P) (a : Admitted P)
      : Type 0 where
    pub geometry : a.geometry ≡ geometry_of P f.frame
    pub targeted : World P
    pub region : IsTargetRegion d.world a.region targeted
    pub seen : World P
    pub before : fingerprint_snapshot P M.screen a.region targeted ≡ (ok a.before, seen)
    pub current : Text
    pub named : IsCurrent (at_world P seen d) current
    pub fresh :
        (check P config.stale (M.utc_now seen) f.snapshot a.before p.frame_id current).is_stale
        ≡ false
    pub bounded : batch_in_bounds P p.actions a.geometry ≡ true

  abbrev pub Looked : Desk P → Option (CaptureRegion P) → Desk P → Type 0
  Looked d o s = (w : World P) × IsTargetRegion d.world o w × (s ≡ at_world P w d)

  crop_of-Success :
      (d : Desk P) (w1 : World P) (q r : ResolvedSessionTarget P) (b : Option (DisplayBounds P))
      → d.world.session.resolved_target ≡ some q
      → refresh_resolved_target P M.screen d.world ≡ (ok r, w1)
      → w1.session.target_bounds ≡ b
      → Success (λ o s. Looked d o s) (crop_of P config M b (at_world P w1 d))
  unfolding crop_of
  crop_of-Success d w1 q r none bound found e =
      answer-Success _ _ _ (w1, without_bounds q r bound found e, refl)
  crop_of-Success d w1 q r (some b) bound found e =
      mapped (calls P (target_crop_region P M.screen b) (at_world P w1 d))
        (calls-Success P (target_crop_region P M.screen b) (at_world P w1 d))
    where
      mapped :
          (x : Option (Result (Option (CaptureRegion P))) × Desk P)
          → Success
              (λ o s.
                (w : World P) × (target_crop_region P M.screen b w1 ≡ (ok o, w))
                × (s ≡ at_world P w d))
              x
          → Success (λ o s. Looked d o s) x
      mapped (none, s) h = tt
      mapped (some (err _), s) h = tt
      mapped (some (ok o), s) (w, cropped, same) =
          (w, with_bounds q r b bound found e cropped, same)

  pub target_region-Success :
      (d : Desk P) → Success (λ o s. Looked d o s) (target_region P config M d)
  unfolding target_region
  target_region-Success d = reads-then _ _ _ d (go d.world.session.resolved_target refl)
    where
      again : Step P (Option (CaptureRegion P))
      again = calls P (refresh_resolved_target P M.screen) >>= λ (_ : ResolvedSessionTarget P).
          reads (λ d. d.world.session.target_bounds) >>= λ (b : Option (DisplayBounds P)).
          crop_of P config M b

      go :
          (o : Option (ResolvedSessionTarget P))
          → d.world.session.resolved_target ≡ o
          → Success (λ o s. Looked d o s) ((if is_some o then again else answer none) d)
      go none e = answer-Success _ _ d (d.world, unbound e, refl)
      go (some q) e =
          Success-then _ _ _ _ d (calls-Success P (refresh_resolved_target P M.screen) d)
            λ r s (w1, found, same).
              rw same (
                reads-then _ _ _ _ (crop_of-Success d w1 q r w1.session.target_bounds e found refl))

  abbrev pub Shot : Desk P → World P → Option (CaptureRegion P) → ScreenSnapshot → Desk P → Type 0
  Shot d w1 region b s =
      (w : World P) × (fingerprint_snapshot P M.screen region w1 ≡ (ok b, w)) × (s ≡ at_world P w d)

  pub taken_fingerprint-Success :
      (id : Text) (d : Desk P) (w1 : World P) (region : Option (CaptureRegion P))
      → Success
          (λ b s. Shot d w1 region b s)
          (calls P
            (λ w. or_stale P config M id (fingerprint_snapshot P M.screen region w))
            (at_world P w1 d))
  unfolding calls performs
  taken_fingerprint-Success id d w1 region =
      go (fingerprint_snapshot P M.screen region w1).0 (fingerprint_snapshot P M.screen region w1).1
        refl
    where
      go :
          (r : Result ScreenSnapshot) (w : World P)
          → fingerprint_snapshot P M.screen region w1 ≡ (r, w)
          → (let (q, v) = or_stale P config M id (r, w) in
              Success (λ b s. Shot d w1 region b s) (some q, at_world P v d))
      go (ok b) w e = (w, e, refl)
      go (err x) w e = tt

  abbrev pub Fresh : ActParams P → ScreenSnapshot → ScreenSnapshot → Desk P → Type 0
  Fresh p f b d =
      (current : Text) × IsCurrent d current
      × ((check P config.stale (M.utc_now d.world) f b p.frame_id current).is_stale ≡ false)

  current_frame-Success :
      (d : Desk P)
      → Success (λ id s. IsCurrent d id × (s.world ≡ d.world)) (current_frame P config M d)
  unfolding current_frame frame_or_next next_counter performs answer ◌>>=◌
  current_frame-Success d = reads-then _ _ _ d (go d.world.session.current_frame_id refl)
    where
      go :
          (o : Option Text)
          → d.world.session.current_frame_id ≡ o
          → Success (λ id s. IsCurrent d id × (s.world ≡ d.world)) (frame_or_next P config M o d)
      go none e = (inr (e, refl), refl)
      go (some id) e = (inl e, refl)

  reject_stale-Success :
      (Q : Type 0) (v : StaleFrameVerdict P) (d : Desk P)
      → Success (λ _ _. Q) (reject_stale P config M v d)
  unfolding reject_stale
  reject_stale-Success Q v d =
      reads-then _ _ _ d
        (Success-then _ (λ _ _. Unit) _ _ d (Success-any _) (λ _ d1 _. fail-Success _ _ d1))

  pub check_fresh-Success :
      (p : ActParams P) (f b : ScreenSnapshot) (d : Desk P)
      → Success (λ _ _. Fresh p f b d) (check_fresh P config M p f b d)
  unfolding check_fresh
  check_fresh-Success p f b d =
      Success-then _ (λ id s. IsCurrent d id × (s.world ≡ d.world)) _ _ d (current_frame-Success d)
        λ current d1 (named, same). reads-then _ _ _ d1 (
          go current d1 named same
            (check P config.stale (M.utc_now d1.world) f b p.frame_id current).is_stale refl)
    where
      go :
          (current : Text) (d1 : Desk P)
          → IsCurrent d current
          → d1.world ≡ d.world
          → (stale : Bool)
          → (check P config.stale (M.utc_now d1.world) f b p.frame_id current).is_stale ≡ stale
          → Success
              (λ _ _. Fresh p f b d)
              ((if stale
                  then reject_stale P config M
                      (check P config.stale (M.utc_now d1.world) f b p.frame_id current)
                  else answer tt)
                d1)
      go current d1 named same true h =
          reject_stale-Success (Fresh p f b d)
            (check P config.stale (M.utc_now d1.world) f b p.frame_id current) d1
      go current d1 named same false h = answer-Success _ _ d1 (current, named, rw (← same) h)
