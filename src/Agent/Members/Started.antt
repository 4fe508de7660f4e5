-- ===== src/Agent/Members/Started.antt =====
-- What the constructor of agent/server/impl/Agent.cpp leaves.
use oort_agent.Base.{
  ◌≡◌, refl, ◌∙◌, inl, inr, true, false, not, Bool-cases, Option-cases, List, [], ◌∷◌, Bytes, codes,
  ◌==◌, Exception, runtime_error, is_runtime_error, Ensures, Ensures-weaken, Ensures-map,
  Ensures->>=, Ensures-if, throw, Bool,
}
use oort_agent.Posix.{FileSystem, Sys, Sys-cases}
use oort_agent.Posix.Laws.{IsLawful}
use oort_agent.Config.{AgentConfig}
use oort_agent.Cleaner.{set_cleanup_dirs, set_cleanup_interval, set_max_age}
use oort_agent.Cleaner.Worker.{new_task, testing, schedule_cleanup}
use oort_agent.Command.{trywait}
use oort_agent.Cache
use oort_agent.Agent.Disk.{default_limits}
use oort_agent.Agent.Move.{eexist}
use oort_agent.Agent.Pairs.{work_dirs}
use oort_agent.Agent.Members.{
  Members, Utsname, create_dirs, fresh_members, set_up, construct, all_dirs,
}

module _ (F : FileSystem) (laws : IsLawful F) where
  -- All files are as they were.
  abbrev pub Keeps : F.State → F.State → Type 0
  Keeps s s' = (q : Bytes) → F.contents q s' ≡ F.contents q s

  create_dirs-Ensures :
      (dirs : List Bytes) (s : F.State)
      → Ensures
          (create_dirs F dirs s)
          (λ u. Keeps s)
          (λ e s'. (is_runtime_error e ≡ true) × Keeps s s')
  unfolding create_dirs
  create_dirs-Ensures [] s = λ q. refl
  create_dirs-Ensures (dir ∷ dirs) s = elim (Option-cases (F.mkdir dir s).0) [
    | inl made ↦ rw made (after_made (create_dirs-Ensures dirs (F.mkdir dir s).1))
    | inr (n, e) ↦ elim (Bool-cases (n == eexist)) [
      | inl there ↦ rw (e, there) (after_made (create_dirs-Ensures dirs (F.mkdir dir s).1))
      | inr other ↦ rw (e, other) (refl, kept)
    ]
  ]
    where
      kept : Keeps s (F.mkdir dir s).1
      kept q = laws.mkdir_keeps dir q s

      after_made :
          Ensures
            (create_dirs F dirs (F.mkdir dir s).1)
            (λ u. Keeps (F.mkdir dir s).1)
            (λ e s'. (is_runtime_error e ≡ true) × Keeps (F.mkdir dir s).1 s')
          → Ensures
              (create_dirs F dirs (F.mkdir dir s).1)
              (λ u. Keeps s)
              (λ e s'. (is_runtime_error e ≡ true) × Keeps s s')
      after_made =
          Ensures-map (create_dirs F dirs (F.mkdir dir s).1) (λ u. Keeps (F.mkdir dir s).1)
            (λ u. Keeps s) (λ e s'. (is_runtime_error e ≡ true) × Keeps (F.mkdir dir s).1 s')
            (λ e s'. (is_runtime_error e ≡ true) × Keeps s s') (λ u s' k q. k q ∙ kept q)
            (λ e s' (r, k). (r, λ q. k q ∙ kept q))

  module _ (uname : F.State → Sys Utsname) (Options : Type 0) (cfg : AgentConfig) where
    -- An agent that is ready: its directories are those below the work directory, the cleaner has
    -- the settings and its thread runs, no topic is refused yet, and no limit of free space is
    -- set.
    pub record IsStarted (m : Members Options) : Type 0 where
      pub was_initialized : cfg.initialized ≡ true
      pub work_dirs_set : m.dirs ≡ work_dirs cfg.workdir
      pub cleans_all : m.cleaner.cleanup_dirs ≡ all_dirs (work_dirs cfg.workdir)
      pub interval_set : m.cleaner.cleanup_interval ≡ cfg.cleanup_interval
      pub max_age_set : m.cleaner.max_age ≡ cfg.max_age
      pub task_runs : m.task ≡ record { worker_running = true; running_sem = 0; place = testing }
      pub no_topics : m.allowed_topics ≡ []
      pub no_client : m.has_uavcan_client ≡ false
      pub no_adcs : m.has_adcs ≡ false
      pub no_limits : m.limits ≡ default_limits

    abbrev Unstarted : F.State → Exception → F.State → Type 0
    Unstarted s e s' = (is_runtime_error e ≡ true) × Keeps s s'

    module _ (s0 : F.State) where
      set_up-Ensures :
          (buf : Utsname) (m : Members Options) (s : F.State)
          → cfg.initialized ≡ true
          → m.allowed_topics ≡ []
          → m.has_adcs ≡ false
          → m.limits ≡ default_limits
          → m.task ≡ new_task
          → Keeps s0 s
          → Ensures
              (set_up F uname Options cfg buf m s)
              (λ m s'. IsStarted m × Keeps s0 s')
              (Unstarted s0)
      unfolding set_up set_cleanup_dirs set_cleanup_interval set_max_age schedule_cleanup trywait
      set_up-Ensures buf m s i topics adcs limits task before =
          Ensures->>= (Unstarted s0) (create_dirs F (all_dirs (work_dirs cfg.workdir)) s) _
            (λ u. Keeps s) (λ m s'. IsStarted m × Keeps s0 s')
            (Ensures-weaken _ (λ u. Keeps s) (Unstarted s) (Unstarted s0)
              (λ e s' (r, k). (r, λ q. k q ∙ before q))
              (create_dirs-Ensures (all_dirs (work_dirs cfg.workdir)) s))
            λ u s' k. (
              record {
                was_initialized = i;
                work_dirs_set = refl;
                cleans_all = refl;
                interval_set = refl;
                max_age_set = refl;
                task_runs = rw task refl;
                no_topics = topics;
                no_client = refl;
                no_adcs = adcs;
                no_limits = limits;
              },
              λ q. k q ∙ before q,
            )

    -- For a lawful system: the constructor returns an agent whose directories are those below the
    -- work directory, whose cleaner has the settings and runs, and which has no limit of free
    -- space, whatever the configuration says of one; or it throws a runtime_error (a system_error
    -- may be one). It changes the content of no file.
    pub construct_lem :
        (s : F.State)
        → Ensures (construct F uname Options cfg s) (λ m s'. IsStarted m × Keeps s s') (Unstarted s)
    unfolding construct Cache.create
    construct_lem s =
        Ensures-if (λ m s'. IsStarted m × Keeps s s') (Unstarted s) _ (not cfg.initialized)
          (throw (runtime_error (codes "configuration not initialized"))) _ (λ never. (refl, kept))
          λ i. elim (Sys-cases (uname (clocked s))) [
            | inr (n, e) ↦ rw e (refl, kept)
            | inl (buf, e) ↦ rw e (
                set_up-Ensures s buf
                  (fresh_members (Cache.create F.steady_clock 5000 s).0
                    (Cache.create F.steady_clock 5000 (F.steady_clock s).1).0
                    (Cache.create F.steady_clock 10000 (F.steady_clock (F.steady_clock s).1).1).0)
                  (clocked s) (initialized_of cfg.initialized i) refl refl refl refl kept)
          ]
      where
        clocked : F.State → F.State
        clocked t = (F.steady_clock (F.steady_clock (F.steady_clock t).1).1).1

        initialized_of : (b : Bool) → not b ≡ false → b ≡ true
        initialized_of true e = refl
        initialized_of false e = absurd cc

        kept : Keeps s (clocked s)
        kept q =
            laws.clock_keeps q _ ∙ laws.clock_keeps q (F.steady_clock s).1 ∙ laws.clock_keeps q s
