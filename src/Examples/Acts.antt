-- ===== src/Examples/Acts.antt =====
-- Concrete inputs for the theorems on `act` and `observe`: one key is pressed in session 7.
use oc_computer_use.Coordinates.{image_pixel_to_global, to_image_pixels}
use oc_computer_use.Session.{verify_read_tokens}
use oc_computer_use.Prelude.{◌*◌}
use oc_computer_use.Coordinates.{CoordinateSpace}
use oc_computer_use.Inspect.Guarded.{IsInspected, inspect_session-IsInspected}
use oc_computer_use.Inspect.{Codec, InspectParams, InspectResult, inspect_session}
use oc_computer_use.Screen.{refresh_resolved_target}
use oc_computer_use.Screen.Stabilizer.{shoot}
use oc_computer_use.Queue.{World}
use oc_computer_use.Screen.{CaptureRegion}
use oc_computer_use.Frames.{get}
use oc_computer_use.Prelude.{lookup, insert}
use oc_computer_use.Act.{calls}
use oc_computer_use.Session.{verify}
use oc_computer_use.Exec.{◌>>=◌, checks, performs, reads, answer}
use oc_computer_use.Prelude.{
  ℕ, ◌+◌, ◌≤◌, ◌≡◌, ◌≢◌, ◌⊎◌, refl, Option, none, some, true, false, [], ◌∷◌, arith,
}
use oc_computer_use.Errors.{Text, CuError, RiskLevel, ok, err}
use oc_computer_use.Platform.Sample.{sample}
use oc_computer_use.Session.{SessionState, verify_control_token}
use oc_computer_use.Policy.{TakeoverPolicy}
use oc_computer_use.Actions.{ComputerAction}
use oc_computer_use.Frames.{ScreenFrame, FrameStore, new, insert_frame}
use oc_computer_use.Requests.{RequestKey}
use oc_computer_use.Stale.{StaleFramePolicy}
use oc_computer_use.Runtime.Start.{TraceMode}
use oc_computer_use.Act.{RuntimeConfig, Machine, ActParams, ObserveParams, ObserveResult, Desk}
use oc_computer_use.Act.Batch.{act_session, begin_scope}
use oc_computer_use.Act.Scope.{IsClosed, act_closes}
use oc_computer_use.Act.Replies.{IsTimely, act_replies}
use oc_computer_use.Examples.{session_of, runtime_of}
use oc_computer_use.Examples.Queues.{screen, driver, world}
use oc_computer_use.Examples.Screens.{snapshot, still_screen, stabilizer_config}

abbrev pub config : RuntimeConfig sample
config = record {
  stale = record {
    threshold = 20;
    max_age_secs = 30;
    app_change_is_stale = true;
    policy = StaleFramePolicy.visual_match;
  };
  stabilizer = stabilizer_config;
  observe_max_width = 10;
  observe_format = 2;
  observe_jpeg_quality = 80;
  trace_mode = TraceMode.disabled;
  takeover_policy = TakeoverPolicy.auto_pause;
}

-- Frame n is named n + 10, and nobody else is at work.
abbrev pub machine : Machine sample
machine = record {
  driver = driver;
  screen = still_screen;
  capture = λ q w. (
    ok (record {
      display_id = 0;
      width = 10;
      height = 10;
      scale_factor = 1000;
      bounds = screen;
      image = 9;
      captured_at = w.now;
    }),
    w,
  );
  tap_active = λ w. true;
  create_frames_dir = λ w. (ok tt, w);
  record_action = λ r w. (ok tt, w);
  is_degraded = λ w. false;
  warnings = λ w. ([], w);
  utc_now = λ w. w.now;
  new_frame_id = λ n. n + 10;
  others = λ w rt. (w, rt);
}

abbrev frame : ScreenFrame sample
frame = record {
  frame_id = 9;
  session_id = 7;
  captured_at = 0;
  image = 9;
  width = 10;
  height = 10;
  display_id = 0;
  bounds = screen;
  scale_factor = 1000;
}

abbrev store : FrameStore sample
store = insert_frame sample frame snapshot (new sample 2)

abbrev desk : Desk sample
desk = record {
  world = record world { session = session_of SessionState.active };
  runtime = record (runtime_of SessionState.active) { frames = store };
  emitted = [];
}

abbrev params : ActParams sample
params = record {
  session_id = 7;
  frame_id = 9;
  actions = ComputerAction.key (36 ∷ []) ∷ [];
  control_token = some 1;
  wait_policy = none;
  fixed_wait_ms = none;
  return_screenshot = none;
  risk_level = RiskLevel.low;
  requires_confirmation = none;
  policy_context = none;
}

abbrev request : Option RequestKey
request = some (record { connection_id = 3; request_id = 4 })

act_closes_example :
    ((e : CuError) × ((verify_control_token sample desk.world.session (some 1) ≡ err e)
        ⊎ (desk.world.session.state ≢ SessionState.active))
      × (act_session sample config machine params request desk ≡ (some (err e), desk)))
    ⊎ ((verify_control_token sample desk.world.session (some 1) ≡ ok tt)
        × (desk.world.session.state ≡ SessionState.active)
        × IsClosed sample request
            (begin_scope sample config machine request 7 desk).0
            (act_session sample config machine params request desk).1)
act_closes_example = act_closes sample config machine params request desk

machine-IsTimely : (token : ℕ) → IsTimely sample config machine token
machine-IsTimely token = record {
  slept = λ ns w h. sums w.now ns;
  slept_live = λ ns w h. sums w.now ns;
  shot = shot;
}
  where
    sums : (a b : ℕ) → a + b ≤ a + b
    sums a b = omega arith

    shot :
        (id : Text) (region : Option (CaptureRegion sample)) (w : World sample)
        → w.now ≤ (shoot sample driver still_screen token id region region w).1.now
    shot id none w = omega arith
    shot id (some r) w = omega arith

act_replies_example : (act_session sample config machine params request desk).0 ≢ none
act_replies_example =
    act_replies sample config machine (omega arith) machine-IsTimely params request desk

abbrev observe_params : ObserveParams sample
observe_params = record {
  session_id = some 7;
  display_id = none;
  observation_token = some 2;
  control_token = none;
  include_cursor = none;
  max_width = none;
  image_format = none;
  jpeg_quality = none;
  include_image = none;
}

-- The session is bound to a window as large as its display.
abbrev windowed : Desk sample
windowed = record desk { world = world }

abbrev windowed_machine : Machine sample
windowed_machine = record machine {
  screen = record still_screen {
    list_displays = λ w. (ok (record { id = 0; bounds = screen; scale_factor = 1000 } ∷ []), w);
  };
}

abbrev observed : ObserveResult sample
observed = record {
  session_id = 7;
  frame_id = 10;
  width = 10;
  height = 10;
  display_id = 0;
  scale_factor = 1000;
  active_application = some 3;
  active_window = none;
  image = none;
  is_png = false;
  captured_at = 0;
  target_bounds = some screen;
  window_id = some 6;
}

abbrev inspect_params : InspectParams sample
inspect_params = record {
  session_id = 7;
  frame_id = 9;
  region = record {
    x = 2000;
    y = 3000;
    width = 4000;
    height = 5000;
    coordinate_space = CoordinateSpace.image_pixels;
  };
  observation_token = some 2;
  control_token = none;
  scale = none;
}

-- An image is its number of pixels.
abbrev pub codec : Codec
codec = record {
  Image = ℕ;
  decode = λ n. ok 100;
  crop_imm = λ x y w h img. w * h;
  resize = λ w h img. w * h;
  encode = λ img. ok img;
}

abbrev shown : InspectResult sample
shown = record {
  session_id = 7;
  frame_id = 9;
  width = 4;
  height = 5;
  image = 20;
  source_image_rect = record { x = 2; y = 3; width = 4; height = 5 };
  global_origin = record { x = 2000; y = 3000 };
  normalized_1000_origin = record { x = 200000; y = 300000 };
}

inspects :
    (inspect_session sample windowed_machine codec inspect_params windowed).0 ≡ some (ok shown)
unfolding inspect_session ◌>>=◌ checks reads answer calls performs verify_read_tokens verify get
    lookup insert_frame new insert refresh_resolved_target image_pixel_to_global to_image_pixels
inspects = refl

inspect_session-IsInspected_example :
    IsInspected sample windowed_machine codec inspect_params windowed shown
inspect_session-IsInspected_example =
    inspect_session-IsInspected sample windowed_machine codec inspect_params windowed inspects
