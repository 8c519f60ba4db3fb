-- ===== src/Human/Latency.antt =====
-- What the monitor's figures measure.
use oc_computer_use.Prelude.{ℕ, ◌+◌, ◌-◌, ◌*◌, ◌≤◌, ◌<◌, ◌≡◌, ◌≢◌, refl, some, true, false, arith}
use oc_computer_use.Platform.{Platform}
use oc_computer_use.Human.{
  HumanInputMonitor, on_human_event, record_synthetic_event, consume_real_takeover,
  human_to_input_stop_ms, run_hook, millis,
}

module _ (P : Platform) where
  open P use {Store}

  -- After a hardware event that was noticed `latency_ms` late, a later input of the runtime counts
  -- from the event itself, not from when it was noticed; the batch's hook has run, the takeover is
  -- pending for the first that asks and for no other, and the generation differs.
  pub on_human_event_lem :
      (latency_ms now later : ℕ) (h : HumanInputMonitor P) (st : Store)
      → latency_ms * 1000000 ≤ now
      → now ≤ later
      → h.human_event_generation < 18446744073709551616
      → let (h', st') = on_human_event P latency_ms now h st in
        (human_to_input_stop_ms P (record_synthetic_event P later h')
          ≡ some (millis (later - now) + latency_ms))
        × (st' ≡ run_hook P h.real_takeover_hook st)
        × ((consume_real_takeover P h').0 ≡ true)
        × ((consume_real_takeover P (consume_real_takeover P h').1).0 ≡ false)
        × (h'.human_event_generation ≢ h.human_event_generation)
  unfolding on_human_event record_synthetic_event human_to_input_stop_ms consume_real_takeover
  on_human_event_lem latency_ms now later h st early late small =
      (ground arith, refl, refl, refl, λ e. ground arith)
