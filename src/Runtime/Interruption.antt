-- ===== src/Runtime/Interruption.antt =====
-- What the human's input and a shutdown do to the sessions.
use oc_computer_use.Prelude.{
  ◌≡◌, refl, inl, inr, some, true, false, nat_eq, lookup, lookup-insert_self, Bool-cases, All,
  if◌then◌else◌,
}
use oc_computer_use.Errors.{Text}
use oc_computer_use.Platform.{Platform}
use oc_computer_use.Session.{
  Session, SessionState, transition, cancel_in_flight, legal, enter, sync_pointer_mode,
}
use oc_computer_use.Session.Cancelling.{cancel_all_cancels}
use oc_computer_use.Runtime.{Runtime}
use oc_computer_use.Runtime.Cancel.{takeover_hook, take_from}

module _ (P : Platform) where
  open P use {Store, is_cancelled}

  -- The state that a takeover leaves a session in, and its batches: cancelled, all of them.
  pub record Interrupted (id : Text) (s : Session P) (rt : Runtime P) : Type 0 where
    pub after : Session P
    pub found : lookup id rt.sessions ≡ some after
    pub state :
        after.state
        ≡ (if legal s.state SessionState.user_takeover then SessionState.user_takeover else s.state)
    pub aborted : All (λ t. is_cancelled t rt.store ≡ true) s.batch_tokens

  take_from_lem :
      (id : Text) (s : Session P) (rt : Runtime P)
      → lookup id rt.sessions ≡ some s
      → s.id ≡ id
      → All (λ t. is_cancelled t rt.store ≡ true) s.batch_tokens
      → Interrupted id s (take_from P s rt)
  unfolding transition enter sync_pointer_mode cancel_in_flight
  take_from_lem id s rt h i w = elim (Bool-cases (legal s.state SessionState.user_takeover)) [
    | inl q ↦
        rw (q, take_from, transition)
          (record {
            after = sync_pointer_mode P SessionState.user_takeover (record s {
              state = SessionState.user_takeover;
              user_takeover = true;
              paused = false;
            });
            found = rw⁻¹ i (lookup-insert_self s.id _ rt.sessions);
            state = rw q refl;
            aborted = cancel_all_cancels P s.batch_tokens rt.store;
          })
    | inr q ↦
        rw (q, take_from, transition)
          (record { after = s; found = h; state = rw q refl; aborted = w })
  ]

  -- When the human acts, every batch of the session that holds the lock, if it is known under its
  -- own id, is cancelled, whatever its state, and the session is taken over if the table allows it
  -- from its state.
  pub takeover_hook_interrupts :
      (id : Text) (rt : Runtime P) {s : Session P}
      → rt.control_lock ≡ some id
      → lookup id rt.sessions ≡ some s
      → s.id ≡ id
      → Interrupted id s (takeover_hook P rt)
  unfolding takeover_hook cancel_in_flight
  takeover_hook_interrupts id rt {s = s} l h i =
      rw (l, h, takeover_hook)
        (take_from_lem id s (record rt { store = cancel_in_flight P s rt.store }) h i
          (cancel_all_cancels P s.batch_tokens rt.store))
