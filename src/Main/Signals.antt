-- ===== src/Main/Signals.antt =====
-- The signals of agent/server/main-api-server.cpp.
use oort_agent.Base.{ℕ, Bool, true, false, ◌==◌, if◌then◌else◌, List, [], ◌∷◌, ◌++◌}

-- The numbers of the signals on Linux.
abbrev pub quit_signals : List ℕ
quit_signals = 3 ∷ 2 ∷ 15 ∷ 1 ∷ []

abbrev pub sigchld : ℕ
sigchld = 17

-- What is blocked, and for each signal that is handled what is blocked in its handler.
pub record SignalState : Type 0 where
  pub blocked : List ℕ
  pub handled : List (ℕ × List ℕ)

abbrev pub new_signals : SignalState
new_signals = record { blocked = []; handled = [] }

unfoldable pub handle_all : List ℕ → List ℕ → List (ℕ × List ℕ) → List (ℕ × List ℕ)
handle_all mask [] handled = handled
handle_all mask (sig ∷ sigs) handled = handle_all mask sigs ((sig, mask) ∷ handled)

unfoldable pub set_up_unix_signals : List ℕ → List ℕ → SignalState → SignalState
unfolding handle_all
set_up_unix_signals quit block s = record {
  blocked = block ++ s.blocked;
  handled = handle_all quit quit s.handled;
}

-- Whether a signal is blocked, and whether it has a handler.
unfoldable pub contains : ℕ → List ℕ → Bool
contains sig [] = false
contains sig (x ∷ xs) = let rest = contains sig xs in if sig == x then true else rest

unfoldable pub has_key : ℕ → List (ℕ × List ℕ) → Bool
has_key sig [] = false
has_key sig ((x, mask) ∷ xs) = let rest = has_key sig xs in if sig == x then true else rest

unfoldable pub is_blocked : ℕ → SignalState → Bool
unfolding contains
is_blocked sig s = contains sig s.blocked

unfoldable pub is_handled : ℕ → SignalState → Bool
unfolding has_key
is_handled sig s = has_key sig s.handled
