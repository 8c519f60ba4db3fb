-- ===== src/Act/Gate.antt =====
-- The test of a session's state.
use oc_computer_use.Prelude.{◌≡◌, refl, arith}
use oc_computer_use.Errors.{ok}
use oc_computer_use.Platform.{Platform}
use oc_computer_use.Session.{Session, SessionState}
use oc_computer_use.Runtime.{gate_active}

pub gate_active-active :
    (P : Platform) (s : Session P) → gate_active P s ≡ ok tt → s.state ≡ SessionState.active
unfolding gate_active
gate_active-active P s h = state_active s.state refl h
  where
    state_active :
        (t : SessionState) → s.state ≡ t → gate_active P s ≡ ok tt → s.state ≡ SessionState.active
    state_active SessionState.active e h = e
    state_active SessionState.starting e h = absurd (ground arith)
    state_active SessionState.paused e h = absurd (ground arith)
    state_active SessionState.user_takeover e h = absurd (ground arith)
    state_active SessionState.stopping e h = absurd (ground arith)
    state_active SessionState.stopped e h = absurd (ground arith)
    state_active SessionState.failed e h = absurd (ground arith)
