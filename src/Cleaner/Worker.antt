-- ===== src/Cleaner/Worker.antt =====
-- The worker thread of agent/server/impl/Cleaner.cpp, its start and its stop: the places in the
-- loop of cleanupTask, the flag `workerRunning` and the value of `runningSem`.
pub mod Stops
use oort_agent.Base.{ℕ, Bool, true, false, ◌&&◌, List, [], ◌∷◌, if◌then◌else◌}
use oort_agent.Command.{trywait, post}

pub data Place : Type 0 where
  -- At the test of the loop.
  testing : Place
  -- In the call of timedwait.
  waiting : Place
  -- Behind it, where `true` stands for ETIMEDOUT.
  woken : Bool → Place
  -- In doCleanup.
  cleaning : Place
  -- Behind the loop.
  exited : Place

pub record Task : Type 0 where
  pub worker_running : Bool
  pub running_sem : ℕ
  pub place : Place

-- A Cleaner as it is constructed has a semaphore of one, and no thread.
abbrev pub new_task : Task
new_task = record { worker_running = false; running_sem = 1; place = exited }

-- scheduleCleanup: `wait` takes the one, and the thread starts at its loop.
unfoldable pub schedule_cleanup : Task → Task
unfolding trywait
schedule_cleanup t = record {
  worker_running = true;
  running_sem = (trywait t.running_sem).1;
  place = testing;
}

-- stopWorker up to the call of `join`.
unfoldable pub stop_worker : Task → Task
unfolding post
stop_worker t = record t { worker_running = false; running_sem = post t.running_sem }

-- What happens to a wait meanwhile: nothing, or its time is over, or a signal ends it.
pub data Chance : Type 0 where
  goes_on : Chance
  timed_out : Chance
  interrupted : Chance

-- Where a wait is that cannot take the semaphore.
abbrev pub blocked_at : Chance → Place
blocked_at goes_on = waiting
blocked_at timed_out = woken true
blocked_at interrupted = woken false

-- A step of the thread. A wait that can take the semaphore does so.
unfoldable pub worker_step : Chance → Task → Place → Task
unfolding trywait
worker_step chance t testing = record t { place = if t.worker_running then waiting else exited }
worker_step chance t waiting =
    if (trywait t.running_sem).0
    then record t { running_sem = (trywait t.running_sem).1; place = woken false }
    else record t { place = blocked_at chance }
worker_step chance t (woken late) = record t {
  place = if t.worker_running && late then cleaning else testing;
}
worker_step chance t cleaning = record t { place = testing }
worker_step chance t exited = record t { place = exited }

unfoldable pub worker_run : List Chance → Task → Task
unfolding worker_step
worker_run [] t = t
worker_run (chance ∷ rest) t = worker_run rest (worker_step chance t t.place)
