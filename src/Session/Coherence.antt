-- ===== src/Session/Coherence.antt =====
-- The state and the two flags of a session agree, and a finished session stays finished.
use oc_computer_use.Prelude.{◌≡◌, ◌⊎◌, Bool, true, false, arith}
use oc_computer_use.Errors.{ok}
use oc_computer_use.Platform.{Platform}
use oc_computer_use.Session.{Session, SessionState, transition, mode_of, legal}

module _ (P : Platform) where
  open P use {Store}

  -- What `paused` and `user_takeover` say in each state. A session that stops keeps its flags.
  abbrev pub Flags : SessionState → Bool → Bool → Type 0
  Flags SessionState.active paused takeover = (paused ≡ false) × (takeover ≡ false)
  Flags SessionState.starting paused takeover = (paused ≡ false) × (takeover ≡ false)
  Flags SessionState.paused paused takeover = (paused ≡ true) × (takeover ≡ false)
  Flags SessionState.user_takeover paused takeover = (paused ≡ false) × (takeover ≡ true)
  Flags _ paused takeover = (paused ≡ false) ⊎ (takeover ≡ false)

  abbrev pub IsCoherent : Session P → Type 0
  IsCoherent s = Flags s.state s.paused s.user_takeover

  -- A transition that succeeds ends in the state asked for, keeps the flags in step with it, and
  -- leaves the pointer in the mode of that state; the table allowed it.
  pub transition-IsCoherent :
      (s : Session P) (t : SessionState) (st : Store) {r : Session P × Store}
      → IsCoherent s
      → transition P s t st ≡ ok r
      → (r.0.state ≡ t)
        × IsCoherent r.0
        × (r.0.virtual_pointer.mode ≡ mode_of t)
        × (legal s.state t ≡ true)
  unfolding transition
  transition-IsCoherent s SessionState.paused st h q = ground arith
  transition-IsCoherent s t st h q = ground arith

  -- Finished: no transition of the table leads back to work from here.
  abbrev pub finished : SessionState → Bool
  finished SessionState.stopping = true
  finished SessionState.stopped = true
  finished SessionState.failed = true
  finished _ = false

  transition-finished :
      (s : Session P) (t : SessionState) (st : Store) {r : Session P × Store}
      → finished s.state ≡ true
      → transition P s t st ≡ ok r
      → finished r.0.state ≡ true
  unfolding transition
  transition-finished s SessionState.paused st h q = ground arith
  transition-finished s t st h q = ground arith

  -- The sessions that `transition` makes of one, in any number of successful calls.
  pub data Reaches (s : Session P) : Session P → Type 0 where
    here : Reaches s s
    next :
        {u : Session P} {r : Session P × Store} (t : SessionState) (st : Store)
        → Reaches s u
        → transition P u t st ≡ ok r
        → Reaches s r.0

  -- A session that is stopping, stopped or failed is never active, paused or taken over again,
  -- whatever transitions are asked of it.
  pub Reaches-finished :
      {s u : Session P} → finished s.state ≡ true → Reaches s u → finished u.state ≡ true
  Reaches-finished h here = h
  Reaches-finished h (next {u = u} t st r q) = transition-finished u t st (Reaches-finished h r) q

  -- A session that the human took over is paused by no transition, and made active only by one that
  -- asks for `active`.
  pub takeover_exit :
      (s : Session P) (t : SessionState) (st : Store) {r : Session P × Store}
      → s.state ≡ SessionState.user_takeover
      → transition P s t st ≡ ok r
      → (t ≡ SessionState.active) ⊎ (finished r.0.state ≡ true)
  unfolding transition
  takeover_exit s SessionState.paused st h q = ground arith
  takeover_exit s t st h q = ground arith
