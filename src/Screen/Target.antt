-- ===== src/Screen/Target.antt =====
-- A session stays bound to its window.
use oc_computer_use.Prelude.{
  ℕ, ◌⊎◌, arith, ◌≡◌, ◌≢◌, refl, Option, none, some, Bool, true, false, Bool-cases, inl, inr,
  if◌then◌else◌,
}
use oc_computer_use.Errors.{CuError, Result, ok, err}
use oc_computer_use.Platform.{Platform}
use oc_computer_use.Session.{Session, SessionTarget, ResolvedSessionTarget, set_resolved_target}
use oc_computer_use.Queue.{World}
use oc_computer_use.Screen.{
  Screen, agrees, or_resolved, is_same_window, accept, rescope, resolve_for,
  refresh_resolved_target,
}

module _ (P : Platform) where
  -- The session of the world is bound to `r`, with its bounds.
  pub record IsBound (r : ResolvedSessionTarget P) (w : World P) : Type 0 where
    pub window : w.session.resolved_target ≡ some r
    pub bounds : w.session.target_bounds ≡ r.bounds

  accept-IsBound :
      (t : SessionTarget) (m : Result (Option (ResolvedSessionTarget P))) (w : World P)
      {r : ResolvedSessionTarget P}
      → (accept P t m w).0 ≡ ok r
      → (is_same_window P t r ≡ true) × IsBound r (accept P t m w).1
  unfolding set_resolved_target
  accept-IsBound t (err _) w h = absurd (cc)
  accept-IsBound t (ok none) w h = absurd (cc)
  accept-IsBound t (ok (some q)) w {r} h = elim (Bool-cases (is_same_window P t q)) [
    | inl e ↦
        (let same : q ≡ r = same_result (is_same_window P t q) e h in
          rw (← same, e) (refl, record { window = refl; bounds = refl }))
    | inr e ↦ absurd (no_result (is_same_window P t q) e h)
  ]
    where
      taken : Bool → Result (ResolvedSessionTarget P) × World P
      taken b = if b then (ok q, rescope P q w) else (err CuError.target_unavailable, w)

      same_result : (b : Bool) → b ≡ true → (taken b).0 ≡ ok r → q ≡ r
      same_result true e k = cc
      same_result false e k = absurd (cc)

      no_result : (b : Bool) → b ≡ false → (taken b).0 ≢ ok r
      no_result true e k = cc
      no_result false e k = cc

  -- A constraint that is absent, or that names `n`.
  abbrev pub IsMet : Option ℕ → ℕ → Type 0
  IsMet constraint n = (constraint ≡ none) ⊎ (constraint ≡ some n)

  agrees-IsMet : (o : Option ℕ) (n : ℕ) → agrees o n ≡ true → IsMet o n
  agrees-IsMet none n h = inl refl
  agrees-IsMet (some t) n h = inr (let same : n ≡ t = ground arith in rw same refl)

  -- Every constraint of the target holds of the window.
  pub record IsNamed (t : SessionTarget) (r : ResolvedSessionTarget P) : Type 0 where
    pub window : IsMet t.window_id r.window_id
    pub bundle : IsMet t.bundle_id r.bundle_id
    pub process : IsMet t.pid r.pid

  is_same_window-IsNamed :
      (t : SessionTarget) (r : ResolvedSessionTarget P) → is_same_window P t r ≡ true → IsNamed t r
  unfolding is_same_window
  is_same_window-IsNamed t r h = record {
    window = agrees-IsMet t.window_id r.window_id (ground arith);
    bundle = agrees-IsMet t.bundle_id r.bundle_id (ground arith);
    process = agrees-IsMet t.pid r.pid (ground arith);
  }

  -- The same window of the same process of the same application.
  pub record IsSame (q r : ResolvedSessionTarget P) : Type 0 where
    pub window : r.window_id ≡ q.window_id
    pub bundle : r.bundle_id ≡ q.bundle_id
    pub process : r.pid ≡ q.pid

  -- The window `r` is the one that the session is for: the one that its target names or, in a session
  -- without a target, the one that it is bound to.
  pub data IsWanted (s : Session P) (r : ResolvedSessionTarget P) : Type 0 where
    by_target : (t : SessionTarget) → s.target ≡ some t → IsNamed t r → IsWanted s r
    by_binding :
        (q : ResolvedSessionTarget P)
        → s.target ≡ none
        → s.resolved_target ≡ some q
        → IsSame q r
        → IsWanted s r

  met : (n m : ℕ) → IsMet (some n) m → m ≡ n
  met n m (inl h) = absurd (cc)
  met n m (inr h) = cc

  wanted :
      (s : Session P) (r : ResolvedSessionTarget P) (a : Option SessionTarget)
      (b : Option (ResolvedSessionTarget P)) (t : SessionTarget)
      → s.target ≡ a
      → s.resolved_target ≡ b
      → or_resolved P a b ≡ some t
      → IsNamed t r
      → IsWanted s r
  wanted s r (some u) b t ea eb e n = by_target u ea (let same : u ≡ t = cc in rw same n)
  wanted s r none none t ea eb e n = absurd (cc)
  wanted s r none (some q) t ea eb e n = by_binding q ea eb (
      same (record { bundle_id = some q.bundle_id; pid = some q.pid; window_id = some q.window_id })
        refl cc)
    where
      same :
          (u : SessionTarget)
          → u ≡ record {
            bundle_id = some q.bundle_id;
            pid = some q.pid;
            window_id = some q.window_id;
          }
          → t ≡ u
          → IsSame q r
      same u k l =
          let m : IsNamed
              (record {
                bundle_id = some q.bundle_id;
                pid = some q.pid;
                window_id = some q.window_id;
              })
              r =
            rw (← k, ← l) n in
          record {
            window = met q.window_id r.window_id m.window;
            bundle = met q.bundle_id r.bundle_id m.bundle;
            process = met q.pid r.pid m.process;
          }

  found_window :
      (D : Screen P) (w : World P) {r : ResolvedSessionTarget P}
      → (refresh_resolved_target P D w).0 ≡ ok r
      → (t : SessionTarget) × (or_resolved P w.session.target w.session.resolved_target ≡ some t)
        × (is_same_window P t r ≡ true)
        × IsBound r (refresh_resolved_target P D w).1
  unfolding refresh_resolved_target
  found_window D w {r} h = go (or_resolved P w.session.target w.session.resolved_target) refl h
    where
      go :
          (o : Option SessionTarget)
          → or_resolved P w.session.target w.session.resolved_target ≡ o
          → (resolve_for P D o w).0 ≡ ok r
          → (t : SessionTarget) × (or_resolved P w.session.target w.session.resolved_target
              ≡ some t)
            × (is_same_window P t r ≡ true)
            × IsBound r (resolve_for P D o w).1
      go none e h' = absurd (cc)
      go (some t) e h' =
          (let (m, w') = D.resolve_target t w in
            let (a, b) = accept-IsBound t m w' h' in (t, e, a, b))

  -- A refresh that succeeds found the window that the session is for: all of the constraints of the
  -- session's target hold of it or, in a session without a target, it is the window, of the process and
  -- the application, that the session is bound to. The session is bound to it, and to its bounds, then.
  pub refresh_resolved_target-IsBound :
      (D : Screen P) (w : World P) {r : ResolvedSessionTarget P}
      → (refresh_resolved_target P D w).0 ≡ ok r
      → IsWanted w.session r × IsBound r (refresh_resolved_target P D w).1
  refresh_resolved_target-IsBound D w {r} h =
      let (t, e, named, bound) = found_window D w h in
      (
        wanted w.session r w.session.target w.session.resolved_target t refl refl e
            (is_same_window-IsNamed t r named),
        bound,
      )
