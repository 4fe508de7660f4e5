-- ===== src/Utils/Process/Child.antt =====
-- runProcessGetOutput of agent/server/impl/Utils.cpp. What the calls return is given: those that
-- set up the child, what the parent reads, the ends of the waits of the thread that keeps the
-- time, and the status that waitpid gives for a child that was killed or not.
pub mod Killed
use oort_agent.Base.{
  ℕ, ◌+◌, Bool, true, false, not, ◌||◌, Option, none, some, List, [], ◌∷◌, Bytes, codes, Errno,
  Exception, system_error, if◌then◌else◌, ℤ, pos, ltb_ℤ,
}
use oort_agent.Utils.Process.{read_into_string}

-- How sigtimedwait ends: with SIGCHLD, with EINTR, with EAGAIN, or with another error.
pub data Wait : Type 0 where
  child_signal : Wait
  interrupted : Wait
  timed_out : Wait
  wait_failed : Errno → Wait

-- What waitpid stores: the child ended by itself, or by a signal.
pub data WaitStatus : Type 0 where
  exited_with : ℕ → WaitStatus
  signaled : ℕ → WaitStatus

-- How the thread ends: by `break`, by an exception, which no one catches in it, or not yet.
pub data TimerEnd : Type 0 where
  seen : TimerEnd
  thrown : Errno → TimerEnd
  still_waiting : TimerEnd

-- The loop of the thread: whether it killed the child, and how it ended.
unfoldable pub timer : List Wait → Bool × TimerEnd
timer [] = (false, still_waiting)
timer (child_signal ∷ waits) = (false, seen)
timer (interrupted ∷ waits) = timer waits
timer (timed_out ∷ waits) = (true, (timer waits).1)
timer (wait_failed n ∷ waits) = (false, thrown n)

-- What pthread_sigmask returns, the errno behind it, and the errors of pipe and fork, if any.
pub record Setup : Type 0 where
  pub sigmask : ℤ
  pub errno : Errno
  pub pipe : Option Errno
  pub fork : Option Errno

pub data ProcessEnd : Type 0 where
  -- The status that is returned, and the output.
  finished : ℕ → Bytes → ProcessEnd
  throws_error : Exception → ProcessEnd
  -- std::terminate, for the exception of the thread.
  terminated : ProcessEnd
  -- The join waits.
  hangs : ProcessEnd

-- WIFSIGNALED, WTERMSIG and WEXITSTATUS.
abbrev pub exit_status : WaitStatus → ℕ
exit_status (exited_with n) = n
exit_status (signaled n) = 128 + n

module _ (max_output_size : ℕ) (waits : List Wait) (reads : List (Option Bytes))
    (waitpid : Bool → WaitStatus) where
  -- Whether the child was sent SIGKILL, by the thread or for its output.
  abbrev pub killed : Bytes → Bool
  killed output = (timer waits).0 || not (read_into_string max_output_size reads output).0

  -- The branch of the parent.
  unfoldable pub parent : Bytes → ProcessEnd
  unfolding timer read_into_string
  parent output = elim (timer waits).1 [
    | seen ↦
        finished (exit_status (waitpid (killed output)))
          (read_into_string max_output_size reads output).1
    | thrown n ↦ terminated
    | still_waiting ↦ hangs
  ]

  unfoldable pub run_process_get_output : Setup → Bytes → ProcessEnd
  unfolding parent
  run_process_get_output u output =
      if ltb_ℤ u.sigmask (pos 0)
      then throws_error (system_error u.errno (codes "pthread_sigmask"))
      else elim u.pipe [
        | some n ↦ throws_error (system_error n (codes "creating pipe"))
        | none ↦ elim u.fork [
          | some n ↦ throws_error (system_error n (codes "forking"))
          | none ↦ parent output
        ]
      ]

-- The branch of the child, where execv returned: `exit(RUN_ERROR_STATUS)`.
abbrev pub child_status : WaitStatus
child_status = exited_with 127
