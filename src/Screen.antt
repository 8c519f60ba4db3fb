-- ===== src/Screen.antt =====
-- cu-runtime/src/runtime.rs: the session's window and the fingerprint of what it shows, and
-- cu-runtime/src/stabilizer.rs.
pub mod Target
pub mod Stabilizer
use oc_computer_use.Prelude.{
  ℕ, Option, none, some, Bool, true, false, not, ◌&&◌, ◌||◌, List, [], ◌∷◌, ◌==◌, is_some,
  if◌then◌else◌,
}
use oc_computer_use.Errors.{Text, CuError, Result, ok, err}
use oc_computer_use.Platform.{Platform}
use oc_computer_use.Session.{
  Session, SessionTarget, ResolvedSessionTarget, DisplayBounds, set_resolved_target,
}
use oc_computer_use.Frames.{ScreenSnapshot}
use oc_computer_use.Queue.{World}

-- Whether a constraint of the target holds of what was resolved.
abbrev pub agrees : Option ℕ → ℕ → Bool
agrees none n = true
agrees (some t) n = n == t

module _ (P : Platform) where
  open P use {F64, f64_sub, f64_mul, f64_max, f64_epsilon}

  pub record DisplayInfo : Type 0 where
    pub id : Text
    pub bounds : DisplayBounds P
    pub scale_factor : F64

  -- In pixels, relative to the display's corner.
  pub record CaptureRegion : Type 0 where
    pub x : F64
    pub y : F64
    pub width : F64
    pub height : F64

  -- The driver's methods that look at the screen, with what each leaves of the world. A
  -- `QuickSnapshot` is given as the `ScreenSnapshot` that it converts to.
  pub record Screen : Type 0 where
    pub resolve_target :
        SessionTarget → World P → Result (Option (ResolvedSessionTarget P)) × World P
    pub list_displays : World P → Result (List DisplayInfo) × World P
    pub quick_snapshot : Text → World P → Result ScreenSnapshot × World P
    pub quick_snapshot_region : Text → CaptureRegion → World P → Result ScreenSnapshot × World P

  abbrev pub target_of_resolved : Option (ResolvedSessionTarget P) → Option SessionTarget
  target_of_resolved none = none
  target_of_resolved (some r) =
      some (record { bundle_id = some r.bundle_id; pid = some r.pid; window_id = some r.window_id })

  abbrev pub or_resolved :
      Option SessionTarget → Option (ResolvedSessionTarget P) → Option SessionTarget
  or_resolved (some t) r = some t
  or_resolved none r = target_of_resolved r

  unfoldable pub is_same_window : SessionTarget → ResolvedSessionTarget P → Bool
  is_same_window t r =
      agrees t.window_id r.window_id && agrees t.bundle_id r.bundle_id && agrees t.pid r.pid

  abbrev pub rescope : ResolvedSessionTarget P → World P → World P
  rescope r w = record w { session = set_resolved_target P (some r) w.session }

  abbrev pub accept :
      SessionTarget
      → Result (Option (ResolvedSessionTarget P))
      → World P
      → Result (ResolvedSessionTarget P) × World P
  accept t (err _) w = (err CuError.target_unavailable, w)
  accept t (ok none) w = (err CuError.target_unavailable, w)
  accept t (ok (some r)) w =
      if is_same_window t r then (ok r, rescope r w) else (err CuError.target_unavailable, w)

  module _ (D : Screen) where
    open D use {resolve_target, list_displays, quick_snapshot, quick_snapshot_region}

    abbrev pub resolve_for :
        Option SessionTarget → World P → Result (ResolvedSessionTarget P) × World P
    resolve_for none w = (err CuError.target_unavailable, w)
    resolve_for (some t) w = let (r, w') = resolve_target t w in accept t r w'

    unfoldable pub refresh_resolved_target : World P → Result (ResolvedSessionTarget P) × World P
    unfolding is_same_window
    refresh_resolved_target w =
        resolve_for (or_resolved w.session.target w.session.resolved_target) w

    abbrev pub find_display : Text → List DisplayInfo → Option DisplayInfo
    find_display id ds = go ds
      where
        go : List DisplayInfo → Option DisplayInfo
        go [] = none
        go (d ∷ rest) = if d.id == id then some d else go rest

    abbrev pub crop : DisplayBounds P → Option DisplayInfo → Result (Option CaptureRegion)
    crop b none = err CuError.driver
    crop b (some d) =
        (let s = f64_max d.scale_factor f64_epsilon in
          ok (
            some (record {
              x = f64_mul (f64_sub b.x d.bounds.x) s;
              y = f64_mul (f64_sub b.y d.bounds.y) s;
              width = f64_mul b.width s;
              height = f64_mul b.height s;
            })))

    abbrev pub crop_on :
        DisplayBounds P → Text → Result (List DisplayInfo) → Result (Option CaptureRegion)
    crop_on b id (err e) = err e
    crop_on b id (ok ds) = crop b (find_display id ds)

    abbrev pub is_scoped : Session P → Bool
    is_scoped s = is_some s.target || is_some s.resolved_target

    unfoldable pub target_crop_region :
        DisplayBounds P → World P → Result (Option CaptureRegion) × World P
    target_crop_region b w =
        if not (is_some w.session.target) && not (is_some w.session.resolved_target)
        then (ok none, w)
        else (let (ds, w') = list_displays w in (crop_on b w.session.display_id ds, w'))

    -- The application of the snapshot is the session's own window.
    abbrev pub pin :
        Option (ResolvedSessionTarget P) → Result ScreenSnapshot → Result ScreenSnapshot
    pin r (err e) = err e
    pin none (ok q) = ok q
    pin (some r) (ok q) =
        ok (record q { active_application = some r.bundle_id; active_window_title = none })

    abbrev pub fingerprint_region : CaptureRegion → World P → Result ScreenSnapshot × World P
    fingerprint_region region w =
        let (q, w') = quick_snapshot_region w.session.display_id region w in
        (pin w'.session.resolved_target q, w')

    unfoldable pub fingerprint_snapshot :
        Option CaptureRegion → World P → Result ScreenSnapshot × World P
    fingerprint_snapshot none w = quick_snapshot w.session.display_id w
    fingerprint_snapshot (some region) w =
        if is_scoped w.session
        then fingerprint_region region w
        else quick_snapshot w.session.display_id w
