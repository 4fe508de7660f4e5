-- ===== src/Cleaner/Worker/Stops.antt =====
-- That the worker of agent/server/impl/Cleaner.cpp ends when it is stopped.
use oort_agent.Base.{◌≡◌, refl, inl, inr, false, Bool-cases, List, [], ◌∷◌}
use oort_agent.Command.{trywait, post}
use oort_agent.Cleaner.Worker.{
  Chance, goes_on, timed_out, interrupted, blocked_at, Task, Place, testing, waiting, woken,
  cleaning, exited, stop_worker, worker_step, worker_run,
}

exited_stays :
    (rest : List Chance) (t : Task) → t.place ≡ exited → (worker_run rest t).place ≡ exited
unfolding worker_run worker_step
exited_stays [] t e = e
exited_stays (b ∷ rest) t e = exited_stays rest (worker_step b t t.place) (rw (e, worker_step) refl)

-- The worker is not in a round of cleaning.
unfoldable pub IsCalm : Place → Type 0
IsCalm testing = Unit
IsCalm waiting = Unit
IsCalm (woken late) = Unit
IsCalm cleaning = ⊥
IsCalm exited = Unit

-- With the flag down no round is begun.
record IsResting (t : Task) : Type 0 where
  is_off : t.worker_running ≡ false
  is_calm : IsCalm t.place

step-IsResting :
    (b : Chance) (t : Task) (p : Place)
    → t.worker_running ≡ false
    → IsCalm p
    → IsResting (worker_step b t p)
unfolding worker_step IsCalm
step-IsResting b t testing off n = record { is_off = off; is_calm = rw off tt }
step-IsResting b t waiting off n = elim (Bool-cases (trywait t.running_sem).0) [
  | inl taken ↦ rw taken (record { is_off = off; is_calm = tt })
  | inr blocked ↦ rw blocked (record { is_off = off; is_calm = calm b })
]
  where
    calm : (b : Chance) → IsCalm (blocked_at b)
    calm goes_on = tt
    calm timed_out = tt
    calm interrupted = tt
step-IsResting b t (woken late) off n = record { is_off = off; is_calm = rw off tt }
step-IsResting b t cleaning off n = absurd n
step-IsResting b t exited off n = record { is_off = off; is_calm = tt }

run-IsResting : (bs : List Chance) (t : Task) → IsResting t → IsCalm (worker_run bs t).place
unfolding worker_run
run-IsResting [] t r = r.is_calm
run-IsResting (b ∷ bs) t r =
    run-IsResting bs (worker_step b t t.place) (step-IsResting b t t.place r.is_off r.is_calm)

-- Wherever the worker is when stopWorker is called, however its waits end, if they do: after three
-- steps of the thread it has ended, so that the join returns; and unless it is in a round of
-- cleaning at the call, it is in none at any time behind it.
pub stop_worker_lem :
    (t : Task)
    → ((a b c : Chance) (rest : List Chance)
        → (worker_run (a ∷ b ∷ c ∷ rest) (stop_worker t)).place ≡ exited)
      × (IsCalm t.place → (bs : List Chance) → IsCalm (worker_run bs (stop_worker t)).place)
unfolding worker_run worker_step stop_worker post
stop_worker_lem t = (
  (λ a b c rest. exited_stays rest (third a b c t.place) (ends a b c t.place)),
  (λ calm bs. run-IsResting bs (stop_worker t) (record { is_off = refl; is_calm = calm })),
)
  where
    third : Chance → Chance → Chance → Place → Task
    third a b c p =
        let t0 = record (stop_worker t) { place = p } in
        let t1 = worker_step a t0 p in
        let t2 = worker_step b t1 t1.place in worker_step c t2 t2.place

    ends : (a b c : Chance) (p : Place) → (third a b c p).place ≡ exited
    ends a b c testing = refl
    ends a b c waiting = refl
    ends a b c (woken late) = refl
    ends a b c cleaning = refl
    ends a b c exited = refl
