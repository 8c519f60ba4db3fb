-- ===== src/Exec/Rules.antt =====
-- How to reason about code with early returns: what it keeps, what a success says, and that it replies.
use oc_computer_use.Prelude.{◌⊎◌, inl, inr}
use oc_computer_use.Prelude.{◌≡◌, ◌≢◌, refl, none, some, Bool, true, false, if◌then◌else◌}
use oc_computer_use.Errors.{CuError, Result, ok, err}
use oc_computer_use.Exec.{
  Reply, Exec, answer, fail, reads, checks, performs, writes, fails_if, stop_if, resume, ◌>>=◌,
}

module _ {S A : Type 0} where
  -- `m` keeps `P`, on every way out of it.
  pub record Keeps (P : S → Type 0) (m : Exec S A) : Type 0 where
    pub at : (s : S) → P s → P (m s).1

  -- `m` does not run out of rounds.
  pub record Replies (m : Exec S A) : Type 0 where
    pub at : (s : S) → (m s).0 ≢ none

  -- If it is a success, its value and the state satisfy `Q`.
  abbrev pub Success : (A → S → Type 0) → Reply A × S → Type 0
  Success Q (none, s) = Unit
  Success Q (some (err e), s) = Unit
  Success Q (some (ok a), s) = Q a s

-- The code that leaves the state alone.
module _ {T B : Type 0} {K : T → Type 0} where
  pub Keeps-checks : (test : T → Result B) → Keeps K (checks test)
  unfolding checks
  Keeps-checks test = record { at = λ _ before. before }

  pub Keeps-reads : (look : T → B) → Keeps K (reads look)
  unfolding reads
  Keeps-reads look = record { at = λ _ before. before }

  pub Keeps-fail : (reason : CuError) → Keeps K (fail {A = B} reason)
  unfolding fail
  Keeps-fail reason = record { at = λ _ before. before }

  pub Keeps-answer : (value : B) → Keeps K (answer value)
  unfolding answer
  Keeps-answer value = record { at = λ _ before. before }

  pub Keeps-if :
      (test : Bool) (yes_part no_part : Exec T B)
      → Keeps K yes_part
      → Keeps K no_part
      → Keeps K (if test then yes_part else no_part)
  Keeps-if false _ no_part _ second = second
  Keeps-if true yes_part _ first _ = first

module _ {S : Type 0} {P : S → Type 0} where
  pub Keeps-fails_if : (b : S → Bool) (e : S → CuError) → Keeps P (fails_if b e)
  unfolding fails_if
  Keeps-fails_if b e = record { at = λ s h. go (b s) (e s) s h }
    where
      go : (c : Bool) (x : CuError) (s : S) → P s → P (stop_if c x s).1
      go true x s h = h
      go false x s h = h

module _ {S A B : Type 0} where
  resume_keeps :
      {K : S → Type 0} (reply : Reply A) (rest : A → Exec S B) (after : S)
      → K after
      → ((value : A) → Keeps K (rest value))
      → K (resume reply rest after).1
  resume_keeps (some (ok value)) rest after k later = (later value).at after k
  resume_keeps (some (err _)) rest after k later = k
  resume_keeps none rest after k later = k

  pub Keeps-bind :
      {K : S → Type 0} (first : Exec S A) (rest : A → Exec S B)
      → Keeps K first
      → ((value : A) → Keeps K (rest value))
      → Keeps K (first >>= rest)
  unfolding ◌>>=◌
  Keeps-bind first rest now later = record {
    at = λ before k. resume_keeps (first before).0 rest (first before).1 (now.at before k) later;
  }

  resume-Replies :
      (r : Reply A) (f : A → Exec S B) (s : S)
      → r ≢ none
      → ((a : A) → Replies (f a))
      → (resume r f s).0 ≢ none
  resume-Replies none f s h k = absurd (h refl)
  resume-Replies (some (err e)) f s h k = cc
  resume-Replies (some (ok a)) f s h k = (k a).at s

  pub Replies-bind :
      (m : Exec S A) (f : A → Exec S B) → Replies m → ((a : A) → Replies (f a)) → Replies (m >>= f)
  unfolding ◌>>=◌
  Replies-bind m f rm rf = record {
    at = λ s. let (r, s') = m s in resume-Replies r f s' (rm.at s) rf;
  }

  resume_then :
      (Q : B → S → Type 0) (R : A → S → Type 0) (r : Reply A) (f : A → Exec S B) (s : S)
      → Success R (r, s)
      → ((a : A) (s' : S) → R a s' → Success Q (f a s'))
      → Success Q (resume r f s)
  resume_then Q R none f s h k = tt
  resume_then Q R (some (err e)) f s h k = tt
  resume_then Q R (some (ok a)) f s h k = k a s h

  -- The rule for a `do` block: what the first part says holds for the rest.
  pub Success-then :
      (Q : B → S → Type 0) (R : A → S → Type 0) (m : Exec S A) (f : A → Exec S B) (s : S)
      → Success R (m s)
      → ((a : A) (s' : S) → R a s' → Success Q (f a s'))
      → Success Q ((m >>= f) s)
  unfolding ◌>>=◌
  Success-then Q R m f s h k = let (r, s') = m s in resume_then Q R r f s' h k

module _ {S A : Type 0} where
  -- A success is the one that it is.
  pub Success-self : (x : Reply A × S) → Success (λ a s. x ≡ (some (ok a), s)) x
  Success-self (none, s) = tt
  Success-self (some (err e), s) = tt
  Success-self (some (ok a), s) = refl

  pub Success-any : (x : Reply A × S) → Success (λ a s. Unit) x
  Success-any (none, s) = tt
  Success-any (some (err e), s) = tt
  Success-any (some (ok a), s) = tt

module _ {S A : Type 0} where
  pub Replies-answer : (a : A) → Replies {S = S} (answer a)
  unfolding answer
  Replies-answer a = record { at = λ s. cc }

  pub Replies-fail : (e : CuError) → Replies {S = S} (fail {A = A} e)
  unfolding fail
  Replies-fail e = record { at = λ s. cc }

  pub Replies-reads : (f : S → A) → Replies (reads f)
  unfolding reads
  Replies-reads f = record { at = λ s. cc }

  pub Replies-checks : (f : S → Result A) → Replies (checks f)
  unfolding checks
  Replies-checks f = record { at = λ s. cc }

  pub Replies-performs : (f : S → Result A × S) → Replies (performs f)
  unfolding performs
  Replies-performs f = record { at = λ s. cc }

  pub Replies-if :
      (test : Bool) (yes_part no_part : Exec S A)
      → Replies yes_part
      → Replies no_part
      → Replies (if test then yes_part else no_part)
  Replies-if false _ no_part _ second = second
  Replies-if true yes_part _ first _ = first

module _ {S : Type 0} where
  pub Replies-writes : (f : S → S) → Replies (writes f)
  unfolding writes
  Replies-writes f = record { at = λ s. cc }

  pub Replies-fails_if : (b : S → Bool) (e : S → CuError) → Replies (fails_if b e)
  unfolding fails_if
  Replies-fails_if b e = record { at = λ s. go (b s) (e s) s }
    where
      go : (c : Bool) (x : CuError) (s : S) → (stop_if c x s).0 ≢ none
      go true x s = cc
      go false x s = cc

pub ruleset keeps_rules =
    (Keeps-answer, Keeps-fail, Keeps-reads, Keeps-checks, Keeps-if, Keeps-fails_if, Keeps-bind)

pub ruleset reply_rules = (
  Replies-answer, Replies-fail, Replies-reads, Replies-checks, Replies-performs, Replies-if,
  Replies-writes, Replies-fails_if, Replies-bind,
)

module _ {S : Type 0} where
  pub fails_if-Success :
      (Q : Unit {0} → S → Type 0) (b : S → Bool) (e : S → CuError) (s : S)
      → (b s ≡ false → Q tt s)
      → Success Q (fails_if b e s)
  unfolding fails_if
  fails_if-Success Q b e s k = go (b s) k
    where
      go : (c : Bool) → (c ≡ false → Q tt s) → Success Q (stop_if c (e s) s)
      go true k = tt
      go false k = k refl

  pub fails_if-then :
      {B : Type 0} (Q : B → S → Type 0) (b : S → Bool) (e : S → CuError) (f : Unit {0} → Exec S B)
      (s : S)
      → (b s ≡ false → Success Q (f tt s))
      → Success Q ((fails_if b e >>= f) s)
  unfolding fails_if ◌>>=◌
  fails_if-then Q b e f s k = go (b s) k
    where
      go :
          (c : Bool)
          → (c ≡ false → Success Q (f tt s))
          → Success Q (resume (stop_if c (e s) s).0 f (stop_if c (e s) s).1)
      go true k = tt
      go false k = k refl

module _ {S A : Type 0} where
  pub checks-Success :
      (Q : A → S → Type 0) (f : S → Result A) (s : S)
      → ((a : A) → f s ≡ ok a → Q a s)
      → Success Q (checks f s)
  unfolding checks
  checks-Success Q f s k = go (f s) k
    where
      go : (r : Result A) → ((a : A) → r ≡ ok a → Q a s) → Success Q (some r, s)
      go (err e) k = tt
      go (ok a) k = k a refl

  pub checks-then :
      {B : Type 0} (Q : B → S → Type 0) (f : S → Result A) (g : A → Exec S B) (s : S)
      → ((a : A) → f s ≡ ok a → Success Q (g a s))
      → Success Q ((checks f >>= g) s)
  unfolding checks ◌>>=◌
  checks-then Q f g s k = go (f s) k
    where
      go :
          (r : Result A)
          → ((a : A) → r ≡ ok a → Success Q (g a s))
          → Success Q (resume (some r) g s)
      go (err e) k = tt
      go (ok a) k = k a refl

  pub reads-then :
      {B : Type 0} (Q : B → S → Type 0) (f : S → A) (g : A → Exec S B) (s : S)
      → Success Q (g (f s) s)
      → Success Q ((reads f >>= g) s)
  unfolding reads ◌>>=◌
  reads-then Q f g s h = h

  pub fail-Success : (Q : A → S → Type 0) (e : CuError) (s : S) → Success Q (fail e s)
  unfolding fail
  fail-Success Q e s = tt

  pub answer-Success : (Q : A → S → Type 0) (a : A) (s : S) → Q a s → Success Q (answer a s)
  unfolding answer
  answer-Success Q a s h = h

module _ {S A B : Type 0} where
  -- A block replies if its first part does and the rest does after it.
  pub replies-then :
      (m : Exec S A) (f : A → Exec S B) (s : S)
      → (m s).0 ≢ none
      → ((a : A) → (m s).0 ≡ some (ok a) → (f a (m s).1).0 ≢ none)
      → ((m >>= f) s).0 ≢ none
  unfolding ◌>>=◌
  replies-then m f s h k = let (r, s') = m s in go r s' h k
    where
      go :
          (r : Reply A) (s' : S)
          → r ≢ none
          → ((a : A) → r ≡ some (ok a) → (f a s').0 ≢ none)
          → (resume r f s').0 ≢ none
      go none s' h k = absurd (h refl)
      go (some (err e)) s' h k = cc
      go (some (ok a)) s' h k = k a refl

  -- A check ends the code with its error, or lets it go on.
  pub checks-cases :
      (f : S → Result A) (g : A → Exec S B) (s : S)
      → ((e : CuError) × ((checks f >>= g) s ≡ (some (err e), s)))
        ⊎ ((a : A) × (f s ≡ ok a) × ((checks f >>= g) s ≡ g a s))
  unfolding checks ◌>>=◌
  checks-cases f g s = go (f s)
    where
      go :
          (r : Result A)
          → ((e : CuError) × (resume (some r) g s ≡ (some (err e), s)))
            ⊎ ((a : A) × (r ≡ ok a) × (resume (some r) g s ≡ g a s))
      go (err e) = inl (e, refl)
      go (ok a) = inr (a, refl, refl)

module _ {S A : Type 0} where
  pub Success-at :
      (Q : A → S → Type 0) (x : Reply A × S) {a : A} → Success Q x → x.0 ≡ some (ok a) → Q a x.1
  Success-at Q (none, s) h e = absurd (cc)
  Success-at Q (some (err _), s) h e = absurd (cc)
  Success-at Q (some (ok b), s) {a} h e = let same : b ≡ a = cc in rw (← same) h

  pub Success-with :
      (R : A → S → Type 0) (K : S → Type 0) (x : Reply A × S)
      → Success R x
      → K x.1
      → Success (λ a s. R a s × K s) x
  Success-with R K (none, s) h k = tt
  Success-with R K (some (err _), s) h k = tt
  Success-with R K (some (ok a), s) h k = (h, k)

  pub Success-keeps :
      (K : S → Type 0) (m : Exec S A) (s : S) → Keeps K m → K s → Success (λ _ s'. K s') (m s)
  Success-keeps K m s k h = go (m s).0 (m s).1 (k.at s h)
    where
      go : (r : Reply A) (s' : S) → K s' → Success (λ _ s'. K s') (r, s')
      go none s' h = tt
      go (some (err _)) s' h = tt
      go (some (ok a)) s' h = h
