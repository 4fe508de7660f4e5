-- ===== src/Cleaner/Task.antt =====
-- The worker of the Cleaner (agent/server/impl/Cleaner.cpp) over any number of rounds.
use oort_agent.Base.{
  ◌≡◌, refl, inl, inr, Errno, Exception, null_dereference, Has, Ensures-map, ◌&&◌, List, [], ◌∷◌,
  Bytes, Outcome, Ensures, Ensures->>=, Ensures-if, ℤ,
}
use oort_agent.Posix.{FileSystem, failed}
use oort_agent.Posix.Laws.{IsLawful}
use oort_agent.Cleaner.{Cleaner, Wake, clean_old_files, do_cleanup, cleanup_task}
use oort_agent.Cleaner.Safety.{
  IsPaired, Spares, Spares-trans, Listed, NotOpened, OwnIn, clean_old_files_safe,
}

module _ (F : FileSystem) (L : IsLawful F) where
  Own : F.State → Unit {0} → F.State → Type 0
  Own = Spares F IsPaired

  -- A null pointer is used for one of the directories, which cannot be opened.
  abbrev pub Crashed : List Bytes → F.State → Exception → F.State → Type 0
  Crashed dirs s e t =
      (e ≡ null_dereference)
      × ((dir : Bytes) × Has dir dirs × ((n : Errno) × (F.readdir dir t ≡ failed n)))
      × Spares F IsPaired s tt t

  clean_old_files-Own :
      (max_age : ℤ) (dir : Bytes) (dirs : List Bytes) (s : F.State)
      → Has dir dirs
      → Ensures (clean_old_files F max_age dir s) (Own s) (Crashed dirs s)
  unfolding Own
  clean_old_files-Own max_age dir dirs s listed =
      Ensures-map (clean_old_files F max_age dir s)
        (Listed F L dir max_age s (λ flist. Spares F (OwnIn F L flist) s)) (Spares F IsPaired s)
        (NotOpened F L dir s) (Crashed dirs s)
        (λ u t (flist, q, h) p. elim (h p) [ inl e ↦ inl e | inr r ↦ inr r.1 ])
        (λ e t (null, same, (n, fails)).
          (null, (dir, listed, (n, rw same fails)), λ p. inl (rw same refl)))
        (clean_old_files_safe F L max_age dir s)

  -- A part behind another one.
  Own-then :
      (dirs : List Bytes) (s t : F.State) (m : F.State → Outcome F.State (Unit {0}))
      → Spares F IsPaired s tt t
      → Ensures (m t) (Own t) (Crashed dirs t)
      → Ensures (m t) (Own s) (Crashed dirs s)
  unfolding Own
  Own-then dirs s t m h =
      Ensures-map (m t) (Spares F IsPaired t) (Spares F IsPaired s) (Crashed dirs t)
        (Crashed dirs s) (λ u v k. Spares-trans F L IsPaired s t h v k)
        (λ e v (null, where_, k). (null, where_, Spares-trans F L IsPaired s t h v k))

  do_cleanup-Own :
      (max_age : ℤ) (all dirs : List Bytes) (s : F.State)
      → ((dir : Bytes) → Has dir dirs → Has dir all)
      → Ensures (do_cleanup F max_age dirs s) (Own s) (Crashed all s)
  unfolding do_cleanup Own
  do_cleanup-Own max_age all [] s sub = λ q. inl refl
  do_cleanup-Own max_age all (dir ∷ dirs) s sub =
      Ensures->>= (Crashed all s) (clean_old_files F max_age dir s) _ (Spares F IsPaired s)
        (Spares F IsPaired s) (clean_old_files-Own max_age dir all s (sub dir (inl refl)))
        (λ u t h.
          Own-then all s t (do_cleanup F max_age dirs) h
            (do_cleanup-Own max_age all dirs t (λ d l. sub d (inr l))))

  -- On a lawful system the worker of the cleaner, whatever its settings are and however its waits
  -- end, changes no file whose name does not end as metadata or data files do, and ends by no
  -- exception but the use of a null pointer for one of the directories that are set, which then
  -- cannot be opened.
  pub cleanup_task_safe :
      (c : Cleaner) (wakes : List Wake) (s : F.State)
      → Ensures (cleanup_task F c wakes s) (Spares F IsPaired s) (Crashed c.cleanup_dirs s)
  unfolding cleanup_task Own
  cleanup_task_safe c [] s = λ q. inl refl
  cleanup_task_safe c (wake ∷ wakes) s =
      let next = record c { worker_running = wake.worker_running } in
      let E = Crashed c.cleanup_dirs s in
      Ensures-if (Spares F IsPaired s) E s c.worker_running _ _
        (λ e.
          Ensures-if (Spares F IsPaired s) E s (wake.worker_running && wake.timed_out) _ _
            (λ r.
              Ensures->>= E (do_cleanup F c.max_age c.cleanup_dirs s) _ (Spares F IsPaired s)
                (Spares F IsPaired s)
                (do_cleanup-Own c.max_age c.cleanup_dirs c.cleanup_dirs s (λ d l. l))
                (λ u t h.
                  Own-then c.cleanup_dirs s t (cleanup_task F next wakes) h
                    (cleanup_task_safe next wakes t)))
            (λ r. cleanup_task_safe next wakes s))
        (λ e q. inl refl)
