-- ===== src/Examples/Sessions.antt =====
-- The theorems about one session, its tokens and the error codes, at concrete inputs.
use oc_computer_use.Prelude.{
  ℕ, none, some, true, false, List, [], ◌∷◌, ◌≡◌, refl, arith, nat_eq, ◌↔◌, All,
}
use oc_computer_use.Errors.{CuError, ok, err}
use oc_computer_use.Security.{same_digest}
use oc_computer_use.Security.Compare.{same_digest_iff}
use oc_computer_use.Platform.Sample.{sample, no_tokens, Flags, mark}
use oc_computer_use.Session.{
  Session, SessionState, PointerMode, verify_control_token, verify_read_tokens, verify, transition,
  legal, mode_of,
}
use oc_computer_use.Session.Coherence.{IsCoherent, transition-IsCoherent}
use oc_computer_use.Session.Cancelling.{transition_cancels}
use oc_computer_use.Examples.{session_of, busy_session}

-- The busy session after it is paused, and the flags after that.
abbrev paused_session : Session sample
paused_session = record (busy_session SessionState.paused) {
  paused = true;
  virtual_pointer = record {
    x = 0;
    y = 0;
    display_id = 0;
    visible = true;
    mode = PointerMode.paused;
  };
}

abbrev flags_after : Flags
flags_after = (0, mark 5 true (λ t. false))

pauses :
    transition sample (busy_session SessionState.active) SessionState.paused no_tokens
    ≡ ok (paused_session, flags_after)
unfolding transition
pauses = refl

transition-IsCoherent_example :
    (paused_session.state ≡ SessionState.paused)
    × IsCoherent sample paused_session
    × (paused_session.virtual_pointer.mode ≡ mode_of SessionState.paused)
    × (legal SessionState.active SessionState.paused ≡ true)
transition-IsCoherent_example =
    transition-IsCoherent sample (busy_session SessionState.active) SessionState.paused no_tokens
      (refl, refl) pauses

transition_cancels_example :
    All (λ b. sample.is_cancelled b flags_after ≡ true) (5 ∷ [])
    × ((u : ℕ)
        → All (λ b. sample.same b u ≡ false) (5 ∷ [])
        → sample.is_cancelled u flags_after ≡ sample.is_cancelled u no_tokens)
transition_cancels_example =
    transition_cancels sample (busy_session SessionState.active) SessionState.paused no_tokens refl
      pauses

abbrev failed_session : Session sample
failed_session = session_of SessionState.failed

fails :
    transition sample (session_of SessionState.stopping) SessionState.failed no_tokens
    ≡ ok (failed_session, no_tokens)
unfolding transition
fails = refl

released :
    transition sample (session_of SessionState.user_takeover) SessionState.active no_tokens
    ≡ ok (session_of SessionState.active, no_tokens)
unfolding transition
released = refl

verified : verify_control_token sample (session_of SessionState.active) (some 1) ≡ ok tt
unfolding verify_control_token verify
verified = refl

unread :
    verify_read_tokens sample (session_of SessionState.active) none none
    ≡ err CuError.observation_token_required
unfolding verify_read_tokens verify
unread = refl

same_digest_iff_example :
    (same_digest (17 ∷ 255 ∷ []) (17 ∷ 254 ∷ []) ≡ true)
    ↔ (◌≡◌ {A = List ℕ} (17 ∷ 255 ∷ []) (17 ∷ 254 ∷ []))
same_digest_iff_example =
    same_digest_iff (17 ∷ 255 ∷ []) (17 ∷ 254 ∷ []) (ground arith) (ground arith)
