-- ===== src/Exec.antt =====
-- Code with early returns: an `async fn` of the runtime that changes a state and returns a `Result`.
-- What it wrote before an error stays written. A reply `none` stands for a loop that ran out of the
-- rounds given to it in the model.
pub mod Rules
use oc_computer_use.Prelude.{Option, none, some, Bool, true, false}
use oc_computer_use.Errors.{CuError, Result, ok, err}

abbrev pub Reply : Type 0 → Type 0
Reply A = Option (Result A)

abbrev pub Exec : Type 0 → Type 0 → Type 0
Exec S A = S → Reply A × S

module _ {S A : Type 0} where
  unfoldable pub answer : A → Exec S A
  answer a s = (some (ok a), s)

  unfoldable pub fail : CuError → Exec S A
  fail e s = (some (err e), s)

  unfoldable pub exhausted : Exec S A
  exhausted s = (none, s)

  -- What the code computes from the state, and what it calls: the `?` after it ends the code.
  unfoldable pub reads : (S → A) → Exec S A
  reads f s = (some (ok (f s)), s)

  unfoldable pub checks : (S → Result A) → Exec S A
  checks f s = (some (f s), s)

  unfoldable pub performs : (S → Result A × S) → Exec S A
  performs f s = let (r, s') = f s in (some r, s')

module _ {S : Type 0} where
  unfoldable pub writes : (S → S) → Exec S (Unit {0})
  writes f s = (some (ok tt), f s)

  abbrev pub stop_if : Bool → CuError → Exec S (Unit {0})
  stop_if true e s = (some (err e), s)
  stop_if false e s = (some (ok tt), s)

  -- An early return under a condition.
  unfoldable pub fails_if : (S → Bool) → (S → CuError) → Exec S (Unit {0})
  fails_if b e s = stop_if (b s) (e s) s

module _ {S A B : Type 0} where
  abbrev pub resume : Reply A → (A → Exec S B) → Exec S B
  resume none f s = (none, s)
  resume (some (err e)) f s = (some (err e), s)
  resume (some (ok a)) f s = f a s

  infixl 5 ◌>>=◌ ◌>>◌
  unfoldable pub ◌>>=◌ : Exec S A → (A → Exec S B) → Exec S B
  ◌>>=◌ m f s = let (r, s') = m s in resume r f s'

  abbrev pub ◌>>◌ : Exec S A → Exec S B → Exec S B
  m >> n = m >>= λ _. n
