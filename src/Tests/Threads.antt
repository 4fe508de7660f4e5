-- ===== src/Tests/Threads.antt =====
-- The bus server, the cleaner's worker and the processes of agent/server/impl at concrete runs.
use oort_agent.Base.{
  ℕ, ◌+◌, ◌<◌, ◌≤◌, ◌≡◌, refl, ◌⊎◌, Bool, true, false, Option, none, some, List, [], ◌∷◌, Bytes,
  codes, ltb, if◌then◌else◌, arith, pos,
}
use oort_agent.Bus.{
  BusError, all_ifaces_down, linux_exception, other_exception, Weather, new_server, server_task,
  reconnect, is_linux,
}
use oort_agent.Bus.Ends.{Ends, IsUp, IsDown, Thrown, Abnormal, server_task_ends}
use oort_agent.Bus.Reconnects.{ComesUp, reconnect-IsUp}
use oort_agent.Cleaner.Worker.{Chance, Task, waiting, exited, stop_worker, worker_run}
use oort_agent.Cleaner.Worker.Stops.{IsCalm, stop_worker_lem}
use oort_agent.Utils.Process.Child.{
  Wait, child_signal, interrupted, timed_out, WaitStatus, exited_with, signaled, Setup,
  run_process_get_output,
}
use oort_agent.Utils.Process.Child.Killed.{Signalled, EndsWell, run_process_get_output_lem}

-- The interface goes down at the tick 7 and is up again from the tick 20 on.
abbrev outage : Option ℕ → Weather
outage stop = record {
  stopped_at = stop;
  call = λ k. if ltb k 7 then none else if ltb k 20 then some all_ifaces_down else none;
}

server_task_ends_example :
    Ends
      (server_task (outage (some 40)) 41 new_server)
      IsDown
      (λ e s. Thrown (outage (some 40)) 0 4 e ⊎ Abnormal (outage (some 40)) 40 refl e s)
server_task_ends_example = server_task_ends (outage (some 40)) 40 refl 41 (omega arith)

-- From the start of the outage on.
abbrev down : Weather
down = record { stopped_at = none; call = λ k. if ltb k 20 then some all_ifaces_down else none }

down-ComesUp : ComesUp down 20
down-ComesUp = record {
  unstopped = refl;
  works = λ k late. up k late;
  fails_so = λ k e f. so (ltb k 20) e f;
}
  where
    up : (k : ℕ) → 20 ≤ k → (if ltb k 20 then some all_ifaces_down else none) ≡ none
    up k late = ground arith

    so :
        (b : Bool) (e : BusError)
        → (if b then some all_ifaces_down else none) ≡ some e
        → is_linux e ≡ true
    so true all_ifaces_down f = refl
    so true linux_exception f = refl
    so true other_exception f = absurd cc
    so false e f = absurd cc

reconnect-IsUp_example :
    Ends (reconnect down 40 new_server) (λ s. IsUp s × (s.tick < 20 + 10)) (λ e s. ⊥)
reconnect-IsUp_example =
    reconnect-IsUp down 20 down-ComesUp 40 new_server (omega arith) (omega arith) (omega arith)

abbrev asleep : Task
asleep = record { worker_running = true; running_sem = 0; place = waiting }

stop_worker_lem_example :
    ((a b c : Chance) (rest : List Chance)
      → (worker_run (a ∷ b ∷ c ∷ rest) (stop_worker asleep)).place ≡ exited)
    × (IsCalm waiting → (bs : List Chance) → IsCalm (worker_run bs (stop_worker asleep)).place)
stop_worker_lem_example = stop_worker_lem asleep

abbrev fine : Setup
fine = record { sigmask = pos 0; errno = 0; pipe = none; fork = none }

-- A process that writes, and is killed when its second is over.
abbrev waits : List Wait
waits = interrupted ∷ timed_out ∷ child_signal ∷ []

abbrev chunks : List (Option Bytes)
chunks = some (codes "{}") ∷ some [] ∷ []

abbrev status : Bool → WaitStatus
status kill = if kill then signaled 9 else exited_with 0

run_process_get_output_lem_example :
    EndsWell 65536 waits chunks status fine []
      (run_process_get_output 65536 waits chunks status fine [])
unfolding Signalled
run_process_get_output_lem_example =
    run_process_get_output_lem 65536 waits chunks status fine []
      (record { masked = refl; piped = refl; forked = refl }) tt (omega arith)
