-- ===== src/Base/Postconditions.antt =====
-- Postconditions of stateful code: one for a return and one for an exception.
use mathlib.Core.Path.{◌≡◌}
use mathlib.Core.Path.{refl}
use mathlib.Core.Bool.{Bool, true, false}
use oort_agent.Base.Compare.{if◌then◌else◌}
use oort_agent.Base.Exceptions.{
  Exception, Result, ok, raise, Outcome, returns, throws, ◌>>=◌, try_catch, attempt,
}

abbrev pub Ensures :
    {S A : Type 0} → Outcome S A → (A → S → Type 0) → (Exception → S → Type 0) → Type 0
Ensures (returns a s) Q E = Q a s
Ensures (throws e s) Q E = E e s

module _ {S A : Type 0} (E : Exception → S → Type 0) where
  pub Ensures->>= :
      {B : Type 0} (o : Outcome S A) (f : A → S → Outcome S B) (P : A → S → Type 0)
      (Q : B → S → Type 0)
      → Ensures o P E
      → ((a : A) (s : S) → P a s → Ensures (f a s) Q E)
      → Ensures (elim o [ returns a s ↦ f a s | throws e s ↦ throws e s ]) Q E
  Ensures->>= (returns a s) f P Q h k = k a s h
  Ensures->>= (throws e s) f P Q h k = h

  pub Ensures-try_catch :
      (m : S → Outcome S A) (h : Exception → S → Outcome S A) (Q : A → S → Type 0)
      (E' : Exception → S → Type 0) (s : S)
      → Ensures (m s) Q E'
      → ((e : Exception) (s' : S) → E' e s' → Ensures (h e s') Q E)
      → Ensures (try_catch m h s) Q E
  Ensures-try_catch m h Q E' s p k = go (m s) p
    where
      go :
          (o : Outcome S A)
          → Ensures o Q E'
          → Ensures (elim o [ returns a s' ↦ returns a s' | throws e s' ↦ h e s' ]) Q E
      go (returns a s') q = q
      go (throws e s') q = k e s' q

module _ {S A : Type 0} (Q : A → S → Type 0) (E : Exception → S → Type 0) (s : S) where
  -- Rules for the statements: an expression that may throw, and a test.
  pub Ensures-attempt :
      {B : Type 0} (f : S → Result B) (k : B → S → Outcome S A)
      → ((b : B) → f s ≡ ok b → Ensures (k b s) Q E)
      → ((e : Exception) → f s ≡ raise e → E e s)
      → Ensures ((attempt f >>= k) s) Q E
  Ensures-attempt {B} f k good bad = go (f s) good bad
    where
      go :
          (r : Result B)
          → ((b : B) → r ≡ ok b → Ensures (k b s) Q E)
          → ((e : Exception) → r ≡ raise e → E e s)
          → Ensures ((attempt (λ _. r) >>= k) s) Q E
      go (ok b) g h = g b refl
      go (raise e) g h = h e refl

  pub Ensures-if :
      (b : Bool) (x y : S → Outcome S A)
      → (b ≡ true → Ensures (x s) Q E)
      → (b ≡ false → Ensures (y s) Q E)
      → Ensures ((if b then x else y) s) Q E
  Ensures-if true x y h k = h refl
  Ensures-if false x y h k = k refl

-- The rule for a sequence, which knows how the first statement ended.
pub Ensures-bind :
    {S A B : Type 0} (Q : B → S → Type 0) (E : Exception → S → Type 0) (m : S → Outcome S A)
    (f : A → S → Outcome S B) (s : S)
    → ((a : A) (s' : S) → m s ≡ returns a s' → Ensures (f a s') Q E)
    → ((e : Exception) (s' : S) → m s ≡ throws e s' → E e s')
    → Ensures ((m >>= f) s) Q E
Ensures-bind {S} {A} {B} Q E m f s h k = go (m s) h k
  where
    go :
        (o : Outcome S A)
        → ((a : A) (s' : S) → o ≡ returns a s' → Ensures (f a s') Q E)
        → ((e : Exception) (s' : S) → o ≡ throws e s' → E e s')
        → Ensures (elim o [ returns a s' ↦ f a s' | throws e s' ↦ throws e s' ]) Q E
    go (returns a s') h k = h a s' refl
    go (throws e s') h k = k e s' refl

pub Ensures-weaken :
    {S A : Type 0} (o : Outcome S A) (Q : A → S → Type 0) (E E' : Exception → S → Type 0)
    → ((e : Exception) (s : S) → E e s → E' e s)
    → Ensures o Q E
    → Ensures o Q E'
Ensures-weaken (returns a s) Q E E' k h = h
Ensures-weaken (throws e s) Q E E' k h = k e s h

-- A postcondition read off a known outcome.
pub Ensures-returns :
    {S A : Type 0} {o : Outcome S A} (Q : A → S → Type 0) (E : Exception → S → Type 0) (a : A)
    (s : S)
    → Ensures o Q E
    → o ≡ returns a s
    → Q a s
Ensures-returns Q E a s h e = rw e at h

pub Ensures-throws :
    {S A : Type 0} {o : Outcome S A} (Q : A → S → Type 0) (E : Exception → S → Type 0)
    (x : Exception) (s : S)
    → Ensures o Q E
    → o ≡ throws x s
    → E x s
Ensures-throws Q E x s h e = rw e at h

pub Ensures-map :
    {S A : Type 0} (o : Outcome S A) (Q Q' : A → S → Type 0) (E E' : Exception → S → Type 0)
    → ((a : A) (s : S) → Q a s → Q' a s)
    → ((e : Exception) (s : S) → E e s → E' e s)
    → Ensures o Q E
    → Ensures o Q' E'
Ensures-map (returns a s) Q Q' E E' k k' h = k a s h
Ensures-map (throws e s) Q Q' E E' k k' h = k' e s h
