-- ===== src/Runtime/Exclusive.antt =====
-- The control lock and the sessions: a session that is not stopped holds the lock.
pub mod Steps
pub mod Stopping
pub mod Interrupts
pub mod Starting
pub mod Reach
use oc_computer_use.Prelude.{
  ◌≡◌, ◌∙◌, sym, refl, ◌⊎◌, inl, inr, ◌≢◌, Option, none, some, Bool, true, false, List, [], arith,
  ◌==◌, ==_iff, nat_eq, lookup, insert, lookup-insert_self, lookup-insert_other, Bool-cases,
  Option-cases,
}
use oc_computer_use.Errors.{Text, CuError, Result, ok, err}
use oc_computer_use.Platform.{Platform}
use oc_computer_use.Session.{Session, SessionState, transition}
use oc_computer_use.Session.Lock.{ControlLock, try_acquire, release, is_held_by}
use oc_computer_use.Session.Coherence.{finished}
use oc_computer_use.Runtime.{Runtime, Outcome, put, emit, emit_if_traced}

module _ (P : Platform) where
  open P use {Store}

  -- Every session stands under its own id, and is stopped or holds the lock.
  pub record Excl (lock : ControlLock) (m : List (Text × Session P)) : Type 0 where
    pub ids : (id : Text) (s : Session P) → lookup id m ≡ some s → s.id ≡ id
    pub live :
        (id : Text) (s : Session P)
        → lookup id m ≡ some s
        → (s.state ≡ SessionState.stopped) ⊎ (lock ≡ some id)

  abbrev pub IsExclusive : Runtime P → Type 0
  IsExclusive rt = Excl rt.control_lock rt.sessions

  pub insert-Excl :
      (lock : ControlLock) (m : List (Text × Session P)) (s : Session P)
      → (s.state ≡ SessionState.stopped) ⊎ (lock ≡ some s.id)
      → Excl lock m
      → Excl lock (insert s.id s m)
  insert-Excl lock m s h x = record {
    ids = λ id u e. elim (Bool-cases (s.id == id)) [
      | inl q ↦ ground (arith, lookup-insert_self s.id s m)
      | inr q ↦ x.ids id u (sym (lookup-insert_other s.id id s m q) ∙ e)
    ];
    live = λ id u e. elim (Bool-cases (s.id == id)) [
      | inl q ↦ ground (arith, lookup-insert_self s.id s m)
      | inr q ↦ x.live id u (sym (lookup-insert_other s.id id s m q) ∙ e)
    ];
  }

  -- A stopped session gives up the lock, and only its own.
  pub release-Excl :
      (lock : ControlLock) (m : List (Text × Session P)) (s : Session P)
      → s.state ≡ SessionState.stopped
      → Excl lock m
      → Excl (release lock s.id) (insert s.id s m)
  unfolding release
  release-Excl lock m s h x = record {
    ids = (insert-Excl lock m s (inl h) x).ids;
    live = λ id u e. elim (Bool-cases (s.id == id)) [
      | inl q ↦ ground (arith, lookup-insert_self s.id s m)
      | inr q ↦ ground (arith, x.live id u (sym (lookup-insert_other s.id id s m q) ∙ e))
    ];
  }

  pub acquire_lem :
      (lock lock' : ControlLock) (id : Text)
      → try_acquire lock id ≡ ok lock'
      → (lock' ≡ some id) × ((j : Text) → lock ≡ some j → j ≡ id)
  unfolding try_acquire
  acquire_lem none lock' id e = (ground arith, λ j q. cc)
  acquire_lem (some h) lock' id e = (ground arith, λ j q. ground arith)

  -- Whoever acquires the lock finds every other session stopped.
  pub acquire-Excl :
      (lock lock' : ControlLock) (m : List (Text × Session P)) (s : Session P)
      → try_acquire lock s.id ≡ ok lock'
      → Excl lock m
      → Excl lock' (insert s.id s m)
  acquire-Excl lock lock' m s e x =
      let (held, only) = acquire_lem lock lock' s.id e in
      insert-Excl lock' m s (inr held) (record {
        ids = x.ids;
        live = λ id u q. elim (x.live id u q) [
          | inl stopped ↦ inl stopped
          | inr h ↦ inr (ground (arith, only id h))
        ];
      })

  pub transition_id :
      (s : Session P) (t : SessionState) (st : Store) (s' : Session P) (st' : Store)
      → transition P s t st ≡ ok (s', st')
      → s'.id ≡ s.id
  unfolding transition
  transition_id s SessionState.paused st s' st' h = ground arith
  transition_id s t st s' st' h = ground arith

  -- Work goes on only from a session that is not stopped.
  pub transition_from_live :
      (s : Session P) (t : SessionState) (st : Store) (s' : Session P) (st' : Store)
      → finished P t ≡ false
      → transition P s t st ≡ ok (s', st')
      → s.state ≢ SessionState.stopped
  unfolding transition
  transition_from_live s SessionState.paused st s' st' f h = λ e. ground arith
  transition_from_live s t st s' st' f h = λ e. ground arith

  -- A session put back after a transition keeps the lock that it holds.
  pub replace-Excl :
      (rt : Runtime P) (id : Text) (s s' : Session P)
      → lookup id rt.sessions ≡ some s
      → s.state ≢ SessionState.stopped
      → s'.id ≡ s.id
      → IsExclusive rt
      → Excl rt.control_lock (insert s'.id s' rt.sessions)
  replace-Excl rt id s s' e n i x =
      insert-Excl rt.control_lock rt.sessions s'
        (elim (x.live id s e) [
          | inl stopped ↦ absurd (n stopped)
          | inr held ↦ inr (ground (arith, x.ids id s e))
        ])
        x
