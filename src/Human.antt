-- ===== src/Human.antt =====
-- cu-runtime/src/human_input.rs: what the runtime knows of the human's input, and how long its own
-- input went on after it. Times are nanoseconds of the monotonic clock.
pub mod Latency
use oc_computer_use.Prelude.{
  ℕ, ◌+◌, ◌-◌, ◌*◌, ◌/◌, ◌%◌, Option, none, some, Bool, true, false, leb, if◌then◌else◌,
}
use oc_computer_use.Platform.{Platform}

abbrev pub millis : ℕ → ℕ
millis ns = ns / 1000000

-- The milliseconds from the second moment to the first, none if they are the other way round.
abbrev pub between : Option ℕ → Option ℕ → Option ℕ
between (some later) (some earlier) = some (millis (later - earlier))
between _ _ = none

-- A counter of type `u64`.
abbrev pub count : ℕ → ℕ
count n = (n + 1) % 18446744073709551616

module _ (P : Platform) where
  open P use {Store}

  -- The hook is what the runtime registered: it cancels the tokens of the batches under way.
  pub record HumanInputMonitor : Type 0 where
    pub last_human : Option ℕ
    pub pending_real_takeover : Bool
    pub pending_takeover : Bool
    pub last_latency_ms : Option ℕ
    pub human_event_at : Option ℕ
    pub event_callback_at : Option ℕ
    pub takeover_started_at : Option ℕ
    pub last_synthetic_event_at : Option ℕ
    pub synthetic_count : ℕ
    pub human_event_generation : ℕ
    pub real_takeover_hook : Option (Store → Store)

  unfoldable pub new_monitor : HumanInputMonitor
  new_monitor = record {
    last_human = none;
    pending_real_takeover = false;
    pending_takeover = false;
    last_latency_ms = none;
    human_event_at = none;
    event_callback_at = none;
    takeover_started_at = none;
    last_synthetic_event_at = none;
    synthetic_count = 0;
    human_event_generation = 0;
    real_takeover_hook = none;
  }

  unfoldable pub set_real_takeover_hook : (Store → Store) → HumanInputMonitor → HumanInputMonitor
  set_real_takeover_hook f h = record h { real_takeover_hook = some f }

  unfoldable pub clear_real_takeover_hook : HumanInputMonitor → HumanInputMonitor
  clear_real_takeover_hook h = record h { real_takeover_hook = none }

  abbrev pub run_hook : Option (Store → Store) → Store → Store
  run_hook none st = st
  run_hook (some f) st = f st

  unfoldable pub fire_real_takeover_hook : HumanInputMonitor → Store → Store
  fire_real_takeover_hook h st = run_hook h.real_takeover_hook st

  unfoldable pub consume_real_takeover : HumanInputMonitor → Bool × HumanInputMonitor
  consume_real_takeover h = (h.pending_real_takeover, record h { pending_real_takeover = false })

  unfoldable pub consume_takeover : HumanInputMonitor → Bool × HumanInputMonitor
  consume_takeover h = (h.pending_takeover, record h { pending_takeover = false })

  unfoldable pub reset_monitor : HumanInputMonitor → HumanInputMonitor
  reset_monitor h = record h {
    pending_real_takeover = false;
    pending_takeover = false;
    last_human = none;
    last_latency_ms = none;
    human_event_at = none;
    event_callback_at = none;
    takeover_started_at = none;
    last_synthetic_event_at = none;
    synthetic_count = 0;
    human_event_generation = 0;
  }

  unfoldable pub record_human_event : ℕ → ℕ → HumanInputMonitor → Store → HumanInputMonitor × Store
  unfolding fire_real_takeover_hook
  record_human_event event_instant now h st = (
    record h {
      last_human = some now;
      last_latency_ms = some (millis (now - event_instant));
      human_event_at = some event_instant;
      pending_real_takeover = true;
      human_event_generation = count h.human_event_generation;
    },
    fire_real_takeover_hook h st,
  )

  unfoldable pub record_heuristic_detection : HumanInputMonitor → HumanInputMonitor
  record_heuristic_detection h = record h { pending_takeover = true }

  unfoldable pub mark_takeover_started : ℕ → HumanInputMonitor → HumanInputMonitor
  mark_takeover_started now h = record h { takeover_started_at = some now }

  unfoldable pub record_synthetic_event : ℕ → HumanInputMonitor → HumanInputMonitor
  record_synthetic_event instant h = record h {
    last_synthetic_event_at = some instant;
    synthetic_count = count h.synthetic_count;
  }

  abbrev pub stop_ms : Option ℕ → Option ℕ → Option ℕ
  stop_ms (some s) (some h) = some (millis (s - h))
  stop_ms none (some h) = some 0
  stop_ms _ none = none

  unfoldable pub human_to_input_stop_ms : HumanInputMonitor → Option ℕ
  human_to_input_stop_ms h = stop_ms h.last_synthetic_event_at h.human_event_at

  unfoldable pub agent_input_to_human_ms : HumanInputMonitor → Option ℕ
  agent_input_to_human_ms h = between h.human_event_at h.last_synthetic_event_at

  unfoldable pub event_to_takeover_ms : HumanInputMonitor → Option ℕ
  event_to_takeover_ms h = between h.takeover_started_at h.human_event_at

  abbrev pub seconds_since : ℕ → Option ℕ → Option ℕ
  seconds_since now none = none
  seconds_since now (some t) = some ((now - t) / 1000000000)

  unfoldable pub idle_secs : ℕ → HumanInputMonitor → Option ℕ
  idle_secs now h = seconds_since now h.last_human

  -- `checked_sub`, or the moment itself.
  abbrev pub before_now : ℕ → ℕ → ℕ
  before_now now ns = if leb ns now then now - ns else now

  unfoldable pub on_human_event : ℕ → ℕ → HumanInputMonitor → Store → HumanInputMonitor × Store
  unfolding fire_real_takeover_hook
  on_human_event latency_ms now h st = (
    record h {
      last_human = some now;
      last_latency_ms = some latency_ms;
      human_event_at = some (before_now now (latency_ms * 1000000));
      event_callback_at = some now;
      pending_real_takeover = true;
      human_event_generation = count h.human_event_generation;
    },
    fire_real_takeover_hook h st,
  )
