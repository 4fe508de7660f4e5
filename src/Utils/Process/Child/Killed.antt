-- ===== src/Utils/Process/Child/Killed.antt =====
-- That runProcessGetOutput (agent/server/impl/Utils.cpp) ends with the child, and when it kills
-- it.
use oort_agent.Base.{
  ℕ, ◌≤◌, ◌≡◌, refl, ◌⊎◌, inl, inr, Bool, true, false, not, ◌||◌, Option, none, List, [], ◌∷◌, ◌++◌,
  Bytes, length, pos, ltb_ℤ,
}
use oort_agent.Utils.Process.{read_into_string}
use oort_agent.Utils.Process.Limits.{stream, read_into_string_lem}
use oort_agent.Utils.Process.Child.{
  Wait, child_signal, interrupted, timed_out, wait_failed, WaitStatus, seen, timer, Setup,
  ProcessEnd, finished, exit_status, killed, parent, run_process_get_output,
}

-- SIGCHLD comes, with no wait failing before it.
unfoldable pub Signalled : List Wait → Type 0
Signalled [] = ⊥
Signalled (child_signal ∷ waits) = Unit
Signalled (interrupted ∷ waits) = Signalled waits
Signalled (timed_out ∷ waits) = Signalled waits
Signalled (wait_failed n ∷ waits) = ⊥

-- The time is over before SIGCHLD comes.
unfoldable pub IsLate : List Wait → Type 0
IsLate [] = ⊥
IsLate (child_signal ∷ waits) = ⊥
IsLate (interrupted ∷ waits) = IsLate waits
IsLate (timed_out ∷ waits) = Unit
IsLate (wait_failed n ∷ waits) = ⊥

timer_seen : (waits : List Wait) → Signalled waits → (timer waits).1 ≡ seen
unfolding timer Signalled
timer_seen [] h = absurd h
timer_seen (child_signal ∷ waits) h = refl
timer_seen (interrupted ∷ waits) h = timer_seen waits h
timer_seen (timed_out ∷ waits) h = timer_seen waits h
timer_seen (wait_failed n ∷ waits) h = absurd h

timer-IsLate : (waits : List Wait) → (timer waits).0 ≡ true → IsLate waits
unfolding timer IsLate
timer-IsLate [] h = absurd cc
timer-IsLate (child_signal ∷ waits) h = absurd cc
timer-IsLate (interrupted ∷ waits) h = timer-IsLate waits h
timer-IsLate (timed_out ∷ waits) h = tt
timer-IsLate (wait_failed n ∷ waits) h = absurd cc

killed_if_late : (waits : List Wait) → IsLate waits → (timer waits).0 ≡ true
unfolding timer IsLate
killed_if_late [] h = absurd h
killed_if_late (child_signal ∷ waits) h = absurd h
killed_if_late (interrupted ∷ waits) h = killed_if_late waits h
killed_if_late (timed_out ∷ waits) h = refl
killed_if_late (wait_failed n ∷ waits) h = absurd h

-- Pipe and fork succeed, and pthread_sigmask returns nothing below zero.
pub record IsSetUp (u : Setup) : Type 0 where
  pub masked : ltb_ℤ u.sigmask (pos 0) ≡ false
  pub piped : u.pipe ≡ none
  pub forked : u.fork ≡ none

module _ (max : ℕ) (waits : List Wait) (reads : List (Option Bytes)) (waitpid : Bool → WaitStatus)
    (u : Setup) (output : Bytes) where
  -- What holds of the end: whether the child was killed, the status, and the output.
  abbrev pub EndsWell : ProcessEnd → Type 0
  EndsWell end =
      (kill : Bool) × (out : Bytes) × (end ≡ finished (exit_status (waitpid kill)) out)
      × (length out ≤ max)
      × (kill ≡ true → IsLate waits ⊎ ((read_into_string max reads output).0 ≡ false))
      × (IsLate waits → kill ≡ true)
      × (kill ≡ false → out ≡ output ++ stream reads)

  -- Once the child is set up, and if SIGCHLD comes with no wait failing before,
  -- runProcessGetOutput returns the status of the child with an output within the limit. It has
  -- killed the child if the time was over before, and only then or if the output was not read to
  -- its end; with no kill the output is all that the child wrote.
  pub run_process_get_output_lem :
      IsSetUp u
      → Signalled waits
      → length output ≤ max
      → EndsWell (run_process_get_output max waits reads waitpid u output)
  unfolding run_process_get_output parent
  run_process_get_output_lem s signal short =
      let (bound, whole) = read_into_string_lem max reads output short in
      (
        killed max waits reads waitpid output,
        (read_into_string max reads output).1,
        rw (s.masked, s.piped, s.forked, parent, timer_seen waits signal) refl,
        bound,
        (λ k. cause (timer waits).0 (read_into_string max reads output).0 k (timer-IsLate waits)),
        (λ late. rw (killed_if_late waits late) refl),
        (λ k. whole (unkilled (timer waits).0 (read_into_string max reads output).0 k)),
      )
    where
      cause :
          (a b : Bool)
          → (a || not b) ≡ true
          → (a ≡ true → IsLate waits)
          → IsLate waits ⊎ (b ≡ false)
      cause true b k f = inl (f refl)
      cause false true k f = absurd cc
      cause false false k f = inr refl

      unkilled : (a b : Bool) → (a || not b) ≡ false → b ≡ true
      unkilled true b k = absurd cc
      unkilled false true k = refl
      unkilled false false k = absurd cc
