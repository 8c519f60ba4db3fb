-- ===== src/Daemon/Told.antt =====
-- What the success of a request says of its parts.
use oc_computer_use.Prelude.{◌≡◌, refl, none, some, Bool, true, false, lookup, nat_eq}
use oc_computer_use.Errors.{Text, CuError, Result, ok, err}
use oc_computer_use.Platform.{Platform}
use oc_computer_use.Session.{Session}
use oc_computer_use.Runtime.{Runtime, Outcome}
use oc_computer_use.Runtime.Rights.{found_session}
use oc_computer_use.Exec.{Reply, fails_if, stop_if, checks, resume, performs, ◌>>=◌}
use oc_computer_use.Exec.Rules.{Success, checks-then}
use oc_computer_use.Act.{RuntimeConfig, Machine, Desk, Step}
use oc_computer_use.Act.Batch.{desk_for}
use oc_computer_use.Daemon.{Host}
use oc_computer_use.Daemon.Gates.{on_runtime, on_session}

-- The code ended with a success.
abbrev pub IsOk : {A : Type 0} → Reply A → Type 0
IsOk none = ⊥
IsOk (some (err _)) = ⊥
IsOk (some (ok _)) = Unit

module _ {S A Q : Type 0} where
  pub told : (x : Reply A × S) → Success (λ _ _. Q) x → IsOk x.0 → Q
  told (none, s) q h = absurd h
  told (some (err _), s) q h = absurd h
  told (some (ok _), s) q h = q

  pub always : Q → (x : Reply A × S) → Success (λ _ _. Q) x
  always q (none, s) = tt
  always q (some (err _), s) = tt
  always q (some (ok _), s) = q

-- A success passed its first check.
pub first_check :
    {S A : Type 0} (test : S → Result (Unit {0})) (rest : Unit {0} → S → Reply A × S) (s : S)
    → Success (λ _ _. test s ≡ ok tt) ((checks test >>= rest) s)
first_check {A = A} test rest s =
    checks-then _ test rest s (λ a e. always {Q = test s ≡ ok tt} e (rest a s))

moved :
    {S T A : Type 0} (Q : Type 0) (x : Reply A × S) (t : T)
    → Success (λ _ _. Q) x
    → Success (λ _ _. Q) (x.0, t)
moved Q (none, s) t q = tt
moved Q (some (err _), s) t q = tt
moved Q (some (ok _), s) t q = q

-- An early return under a condition is no success.
pub running-IsOk :
    {S B : Type 0} (s : S) (test : S → Bool) (reason : S → CuError)
    (rest : Unit {0} → S → Reply B × S)
    → IsOk ((fails_if test reason >>= rest) s).0
    → (test s ≡ false) × IsOk (rest tt s).0
unfolding fails_if ◌>>=◌
running-IsOk {B = B} s test reason rest h = go (test s) h
  where
    go :
        (c : Bool)
        → IsOk (resume (stop_if c (reason s) s).0 rest (stop_if c (reason s) s).1).0
        → (c ≡ false) × IsOk (rest tt s).0
    go true h = absurd h
    go false h = (refl, h)

module _ (P : Platform) where
  pub on_runtime-Success :
      {A Q : Type 0} (f : Runtime P → Outcome P A) (h : Host P)
      → ((a : A) → (f h.runtime).0 ≡ ok a → Q)
      → Success (λ _ _. Q) (on_runtime P f h)
  unfolding on_runtime performs
  on_runtime-Success {A = A} {Q = Q} f h k =
      go (f h.runtime).0 (record h { runtime = (f h.runtime).1 }) k
    where
      go : (r : Result A) (s : Host P) → ((a : A) → r ≡ ok a → Q) → Success (λ _ _. Q) (some r, s)
      go (ok a) s k = k a refl
      go (err e) s k = tt

  module _ (config : RuntimeConfig P) (M : Machine P) where
    pub on_session-Success :
        {A : Type 0} (Q : Session P → Type 0) (id : Text) (m : Step P A) (h : Host P)
        → ((s : Session P)
            → Success (λ _ _. Q s) (m (desk_for P config M s h.human h.now h.runtime)))
        → Success
            (λ _ _. (s : Session P) × (lookup id h.runtime.sessions ≡ some s) × Q s)
            (on_session P config M id m h)
    unfolding on_session
    on_session-Success {A = A} Q id m h k = checks-then _ _ _ h λ s found.
        moved _ (m (desk_for P config M s h.human h.now h.runtime)) _
          (wrapped s (found_session P id h.runtime s found) _ (k s))
      where
        wrapped :
            (s : Session P)
            → lookup id h.runtime.sessions ≡ some s
            → (x : Reply A × Desk P) → Success (λ _ _. Q s) x
            → Success (λ _ _. (s : Session P) × (lookup id h.runtime.sessions ≡ some s) × Q s) x
        wrapped s e (none, d) q = tt
        wrapped s e (some (err _), d) q = tt
        wrapped s e (some (ok _), d) q = (s, e, q)
