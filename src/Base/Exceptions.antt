-- ===== src/Base/Exceptions.antt =====
-- C++ exceptions as values, for code without and with state.
use Prim.Native.Nat.{ℕ}
use mathlib.Core.Bool.{Bool, true, false}
use mathlib.Core.Path.{◌≡◌, refl}
use mathlib.Core.Logic.{◌⊎◌, inl, inr}
use oort_agent.Base.Text.{Bytes}

abbrev pub Errno : Type 0
Errno = ℕ

-- The exception classes that the program throws, catches or lets pass. `system_error` is derived
-- from `runtime_error`; `out_of_range`, `length_error` and `invalid_argument` are `logic_error`s,
-- and `json_exception` is `nlohmann::json::exception` with its `what()`. A read through the null
-- pointer kills the process: no handler takes it.
pub data Exception : Type 0 where
  system_error : Errno → Bytes → Exception
  runtime_error : Bytes → Exception
  out_of_range : Exception
  invalid_argument : Bytes → Exception
  json_exception : Bytes → Exception
  length_error : Exception
  null_dereference : Exception

-- `catch (const runtime_error &)` takes a `system_error` too.
abbrev pub is_runtime_error : Exception → Bool
is_runtime_error (system_error n m) = true
is_runtime_error (runtime_error m) = true
is_runtime_error out_of_range = false
is_runtime_error (invalid_argument m) = false
is_runtime_error (json_exception m) = false
is_runtime_error length_error = false
is_runtime_error null_dereference = false

pub data Result {ℓ} (A : Type ℓ) : Type ℓ where
  ok : A → Result A
  raise : Exception → Result A

abbrev pub then_ok {ℓ κ} : {A : Type ℓ} {B : Type κ} → Result A → (A → Result B) → Result B
then_ok (ok a) f = f a
then_ok (raise e) f = raise e

pub Result-cases {ℓ} :
    {A : Type ℓ} (r : Result A) → ((a : A) × (r ≡ ok a)) ⊎ ((e : Exception) × (r ≡ raise e))
Result-cases (ok a) = inl (a, refl)
Result-cases (raise e) = inr (e, refl)

-- What a run of stateful code leaves: the new state, with a value or an exception.
pub data Outcome (S A : Type 0) : Type 0 where
  returns : A → S → Outcome S A
  throws : Exception → S → Outcome S A

abbrev pub state_of : {S A : Type 0} → Outcome S A → S
state_of (returns a s) = s
state_of (throws e s) = s

infixl 5 ◌>>=◌ ◌>>◌
abbrev pub ◌>>=◌ : {S A B : Type 0} → (S → Outcome S A) → (A → S → Outcome S B) → S → Outcome S B
◌>>=◌ m f s = elim (m s) [ returns a s' ↦ f a s' | throws e s' ↦ throws e s' ]

abbrev pub ◌>>◌ : {S A B : Type 0} → (S → Outcome S A) → (S → Outcome S B) → S → Outcome S B
m >> k = m >>= λ _. k

abbrev pub pure : {S A : Type 0} → A → S → Outcome S A
pure a s = returns a s

abbrev pub throw : {S A : Type 0} → Exception → S → Outcome S A
throw e s = throws e s

-- An expression with no effect, at its place in a statement sequence.
abbrev pub lift : {S A : Type 0} → Result A → S → Outcome S A
lift (ok a) s = returns a s
lift (raise e) s = throws e s

-- `try { m } catch (...) { h }`, the handler given the exception.
abbrev pub try_catch :
    {S A : Type 0} → (S → Outcome S A) → (Exception → S → Outcome S A) → S → Outcome S A
try_catch m h s = elim (m s) [ returns a s' ↦ returns a s' | throws e s' ↦ h e s' ]

-- A system call that returns a value beside the new state, and a read of the state.
abbrev pub call : {S A : Type 0} → (S → A × S) → S → Outcome S A
call f s = returns (f s).0 (f s).1

abbrev pub reads : {S A : Type 0} → (S → A) → S → Outcome S A
reads f s = returns (f s) s

-- An expression that reads the state and may throw.
abbrev pub attempt : {S A : Type 0} → (S → Result A) → S → Outcome S A
attempt f s = lift (f s) s

pub Outcome-cases :
    {S A : Type 0} (o : Outcome S A)
    → ((a : A) × (s : S) × (o ≡ returns a s)) ⊎ ((e : Exception) × (s : S) × (o ≡ throws e s))
Outcome-cases (returns a s) = inl (a, s, refl)
Outcome-cases (throws e s) = inr (e, s, refl)
