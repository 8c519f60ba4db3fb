-- ===== src/Act/Observed.antt =====
-- What an observation that succeeds leaves behind.
use oc_computer_use.Prelude.{◌≡◌, Option, some}
use oc_computer_use.Errors.{Text, ok}
use oc_computer_use.Platform.{Platform}
use oc_computer_use.Policy.{unwrap_or}
use oc_computer_use.Frames.{StoredFrame, FrameStore, get}
use oc_computer_use.Queue.{World}
use oc_computer_use.Screen.{CaptureRegion}
use oc_computer_use.Act.{
  RuntimeConfig, CaptureRequest, CapturedFrame, Machine, ObserveParams, ObserveResult, Desk,
}
use oc_computer_use.Act.Observe.{Scope, bounds_in}
use oc_computer_use.Act.Captured.{IsCropOf, IsScope, IsRegion}

module _ (P : Platform) where
  module _ (config : RuntimeConfig P) (M : Machine P) where
    -- The capture `c` for the window `sc`, from the world `w`: what the driver gave for the part of the
    -- display that the window covers, and, for a window, that crop, give or take a pixel.
    pub record IsCaptured (p : ObserveParams P) (display : Text) (w : World P) (sc : Scope P)
        (c : CapturedFrame P) : Type 0 where
      pub region : Option (CaptureRegion P)
      pub listed : World P
      pub covered : IsRegion P config M display w sc region listed
      pub request : CaptureRequest P
      pub asked : request.region ≡ region
      pub asked_display : request.display_id ≡ display
      pub asked_width : request.max_width ≡ unwrap_or config.observe_max_width p.max_width
      pub shot : World P
      pub taken : M.capture request listed ≡ (ok c, shot)
      pub isolated : IsCropOf P (unwrap_or config.observe_max_width p.max_width) sc region c

    -- The capture behind an observation that began in `d`.
    pub record IsSeen (p : ObserveParams P) (d : Desk P) (sc : Scope P) (c : CapturedFrame P)
        : Type 0 where
      pub prepared : World P
      pub made : M.create_frames_dir d.world ≡ (ok tt, prepared)
      pub scoped : World P
      pub window : IsScope P config M prepared sc scoped
      pub captured : IsCaptured p (unwrap_or d.world.session.display_id p.display_id) scoped sc c

    -- The result `r` of an observation that began in `d` and ended in `d'`.
    pub record IsObserved (p : ObserveParams P) (d : Desk P) (r : ObserveResult P) (d' : Desk P)
        : Type 0 where
      pub scope : Scope P
      pub captured : CapturedFrame P
      pub seen : IsSeen p d scope captured
      pub target : r.target_bounds ≡ bounds_in P scope
      pub size : (r.width ≡ captured.width) × (r.height ≡ captured.height)
      pub named : r.frame_id ≡ M.new_frame_id d.runtime.frame_counter
      pub stored : StoredFrame P
      pub found : get P r.frame_id d'.runtime.frames ≡ some stored
      pub image : stored.frame.image ≡ captured.image
      pub width : stored.frame.width ≡ captured.width
      pub height : stored.frame.height ≡ captured.height
      pub bounds : stored.frame.bounds ≡ unwrap_or captured.bounds (bounds_in P scope)
      pub current : d'.world.session.current_frame_id ≡ some r.frame_id

    IsAt : FrameStore P → Desk P → Type 0
    IsAt fs d = d.runtime.frames ≡ fs

    -- The store and the current frame once `f` is stored as `g`.
    IsStored : Text → StoredFrame P → Desk P → Type 0
    IsStored id g s =
        (get P id s.runtime.frames ≡ some g) × (s.world.session.current_frame_id ≡ some id)
