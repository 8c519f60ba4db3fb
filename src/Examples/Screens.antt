-- ===== src/Examples/Screens.antt =====
-- Concrete inputs for the theorems on the session's window and on the wait for a quiet screen.
use oc_computer_use.Prelude.{refl, none, some, [], ◌∷◌}
use oc_computer_use.Errors.{ok}
use oc_computer_use.Platform.Sample.{sample}
use oc_computer_use.Frames.{ScreenSnapshot}
use oc_computer_use.Screen.{Screen, is_same_window, refresh_resolved_target}
use oc_computer_use.Screen.Target.{IsWanted, IsBound, refresh_resolved_target-IsBound}
use oc_computer_use.Screen.Stabilizer.{StabilizerConfig}
use oc_computer_use.Examples.Queues.{world, window}

abbrev pub snapshot : ScreenSnapshot
snapshot = record {
  thumbnail = 7 ∷ [];
  thumb_width = 1;
  thumb_height = 1;
  active_application = none;
  active_window_title = none;
  display_id = 0;
  captured_at = 0;
}

-- A screen that never changes, and a driver that finds the window.
abbrev pub still_screen : Screen sample
still_screen = record {
  resolve_target = λ t w. (ok (some window), w);
  list_displays = λ w. (ok [], w);
  quick_snapshot = λ d w. (ok snapshot, w);
  quick_snapshot_region = λ d r w. (ok snapshot, w);
}

refresh_resolved_target-IsBound_example :
    IsWanted sample world.session window
    × IsBound sample window (refresh_resolved_target sample still_screen world).1
unfolding refresh_resolved_target is_same_window
refresh_resolved_target-IsBound_example =
    refresh_resolved_target-IsBound sample still_screen world {r = window} refl

abbrev pub stabilizer_config : StabilizerConfig sample
stabilizer_config = record {
  initial_delay_ms = 10;
  sample_interval_ms = 20;
  required_stable_samples = 2;
  difference_threshold = 5;
  max_wait_ms = 1000;
}
