-- ===== src/Agent/Members.antt =====
-- The members of the class Agent (agent/server/impl/Agent.h and Agent.cpp), its constructor with
-- create_dirs, its destructor, and its setters.
pub mod Started
use oort_agent.Base.{
  ℕ, Bool, true, false, not, none, some, List, [], ◌∷◌, ◌++◌, Bytes, codes, ◌==◌, if◌then◌else◌,
  system_error, runtime_error, Outcome, returns, throws, ◌>>=◌, ◌>>◌, pure, throw, call, ℤ, pos,
}
use oort_agent.Posix.{FileSystem, Sys, done, failed}
use oort_agent.Cache
use oort_agent.Cache.{Cache}
use oort_agent.Config.{AgentConfig}
use oort_agent.Cleaner.{Cleaner, set_cleanup_dirs, set_cleanup_interval, set_max_age}
use oort_agent.Cleaner.Worker.{Task, schedule_cleanup, stop_worker, new_task}
use oort_agent.Agent.Disk.{FreeLimits, default_limits}
use oort_agent.Agent.Move.{Io, eexist}
use oort_agent.Agent.Pairs.{Dirs, work_dirs}
use oort_agent.Agent.World.{TransferMeta}

pub record Members (Options : Type 0) : Type 0 where
  pub cleaner : Cleaner
  pub task : Task
  pub has_uavcan_client : Bool
  pub has_adcs : Bool
  pub dir_cache : Cache (List Bytes)
  pub metafile_cache : Cache (List Bytes)
  pub meta_cache : Cache (TransferMeta Options)
  pub workdir : Bytes
  pub max_query : ℤ
  pub allowed_topics : List Bytes
  pub limits : FreeLimits
  pub dirs : Dirs
  pub nodename : Bytes
  pub machine : Bytes

-- What is read of `struct utsname`.
pub record Utsname : Type 0 where
  pub nodename : Bytes
  pub machine : Bytes

abbrev pub set_uav_client : {Options : Type 0} → Bool → Members Options → Members Options
set_uav_client client m = record m { has_uavcan_client = client }

abbrev pub set_adcs_mgr : {Options : Type 0} → Bool → Members Options → Members Options
set_adcs_mgr mgr m = record m { has_adcs = mgr }

abbrev pub set_max_query : {Options : Type 0} → ℤ → Members Options → Members Options
set_max_query max m = record m { max_query = max }

-- The destructor.
abbrev pub destroy : {Options : Type 0} → Members Options → Members Options
destroy m = record m { task = stop_worker m.task }

abbrev pub all_dirs : Dirs → List Bytes
all_dirs dirs = dirs.transfer_dir ∷ dirs.upload_dir ∷ dirs.upgrade_dir ∷ dirs.deadletter_dir ∷ []

-- The initialisers of the members, with the caches.
abbrev pub fresh_members :
    {Options : Type 0}
    → Cache (List Bytes)
    → Cache (List Bytes)
    → Cache (TransferMeta Options)
    → Members Options
fresh_members dir_cache metafile_cache meta_cache = record {
  cleaner = record {
    cleanup_dirs = [];
    cleanup_interval = pos 3600;
    max_age = pos 86400;
    worker_running = false;
  };
  task = new_task;
  has_uavcan_client = false;
  has_adcs = false;
  dir_cache = dir_cache;
  metafile_cache = metafile_cache;
  meta_cache = meta_cache;
  workdir = [];
  max_query = pos 50;
  allowed_topics = [];
  limits = default_limits;
  dirs = record { transfer_dir = []; upload_dir = []; upgrade_dir = []; deadletter_dir = [] };
  nodename = [];
  machine = [];
}

module _ (F : FileSystem) where
  unfoldable pub create_dirs : List Bytes → Io F (Unit {0})
  create_dirs [] = pure tt
  create_dirs (dir ∷ dirs) =
      let rest = create_dirs dirs in
      (do
        made ← call (F.mkdir dir)
        elim made [
          | none ↦ rest
          | some n ↦
              if n == eexist
              then rest
              else throw (runtime_error (codes "Error initializing directory " ++ dir))
        ])

  module _ (uname : F.State → Sys Utsname) (Options : Type 0) where
    -- The members as they are initialised, before the body of the constructor: three caches, each
    -- of which reads the clock.
    abbrev pub initial : Io F (Members Options)
    initial = do
      dir_cache ← call (Cache.create F.steady_clock 5000)
      metafile_cache ← call (Cache.create F.steady_clock 5000)
      meta_cache ← call (Cache.create F.steady_clock 10000)
      pure (fresh_members dir_cache metafile_cache meta_cache)

    -- The body behind `uname`.
    unfoldable pub set_up : AgentConfig → Utsname → Members Options → Io F (Members Options)
    unfolding create_dirs set_cleanup_dirs set_cleanup_interval set_max_age schedule_cleanup
        work_dirs
    set_up cfg buf m =
        let dirs = work_dirs cfg.workdir in
        (do
          _ ← create_dirs (all_dirs dirs)
          pure (record m {
            nodename = buf.nodename;
            machine = buf.machine;
            workdir = cfg.workdir;
            dirs = dirs;
            cleaner =
                record (set_max_age cfg.max_age (
                  set_cleanup_interval cfg.cleanup_interval
                    (set_cleanup_dirs (all_dirs dirs) m.cleaner))) { worker_running = true };
            task = schedule_cleanup m.task;
            has_uavcan_client = false;
          }))

    unfoldable pub construct : AgentConfig → Io F (Members Options)
    unfolding set_up
    construct cfg = do
      m ← initial
      if not cfg.initialized
          then throw (runtime_error (codes "configuration not initialized"))
          else (λ s. elim (uname s) [
            | failed n ↦ throws (system_error n (codes "initializing uname")) s
            | done buf ↦ set_up cfg buf m s
          ])
