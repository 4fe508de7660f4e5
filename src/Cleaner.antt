-- ===== src/Cleaner.antt =====
-- The class Cleaner of agent/server/impl/Cleaner.cpp, which removes old files from the agent's
-- directories. A round of the loop is given how its wait ends; Cleaner.Worker is its thread.
pub mod Safety
pub mod Task
pub mod Worker
pub mod Thorough
use oort_agent.Base.{
  ℕ, Bool, true, false, ◌&&◌, not, List, [], ◌∷◌, ◌++◌, Bytes, codes, if◌then◌else◌, Outcome,
  returns, throws, ◌>>=◌, ◌>>◌, pure, lift, call, reads, attempt, ℤ, pos,
}
use oort_agent.Posix.{FileSystem}
use oort_agent.Utils.Paths.{ends_with}
use oort_agent.Files.{old_files}
use oort_agent.Agent.Move.{Io}
use oort_agent.Agent.Pairs.{meta_ext, data_ext, meta_file}

pub record Cleaner : Type 0 where
  pub cleanup_dirs : List Bytes
  pub cleanup_interval : ℤ
  pub max_age : ℤ
  pub worker_running : Bool

unfoldable pub set_cleanup_dirs : List Bytes → Cleaner → Cleaner
set_cleanup_dirs dirs c = record c { cleanup_dirs = dirs }

unfoldable pub set_cleanup_interval : ℤ → Cleaner → Cleaner
set_cleanup_interval interval c = record c { cleanup_interval = interval }

unfoldable pub set_max_age : ℤ → Cleaner → Cleaner
set_max_age age c = record c { max_age = age }

-- How a wait of the worker ends: after its time or by a post, and whether it is still to run.
pub record Wake : Type 0 where
  pub timed_out : Bool
  pub worker_running : Bool

module _ (F : FileSystem) where
  -- Pass 1: remove old metadata files.
  unfoldable pub remove_meta : List Bytes → Io F (Unit {0})
  remove_meta [] = pure tt
  remove_meta (f ∷ flist) =
      let rest = remove_meta flist in
      if ends_with f meta_ext then (do _ ← call (F.unlink f); rest) else rest

  -- Pass 2: remove old data files that have no metadata.
  unfoldable pub remove_orphans : List Bytes → Io F (Unit {0})
  unfolding meta_file
  remove_orphans [] = pure tt
  remove_orphans (f ∷ flist) =
      let rest = remove_orphans flist in
      if ends_with f data_ext
      then (do
        twin ← lift (meta_file f)
        readable ← reads (F.readable twin)
        if not readable then (do _ ← call (F.unlink f); rest) else rest)
      else rest

  unfoldable pub clean_old_files : ℤ → Bytes → Io F (Unit {0})
  unfolding remove_meta remove_orphans
  clean_old_files max_age dir = do
    flist ← attempt (old_files F dir max_age)
    _ ← remove_meta flist
    remove_orphans flist

  -- doCleanup, over the directories that are set.
  unfoldable pub do_cleanup : ℤ → List Bytes → Io F (Unit {0})
  unfolding clean_old_files
  do_cleanup max_age [] = pure tt
  do_cleanup max_age (dir ∷ dirs) = do _ ← clean_old_files max_age dir; do_cleanup max_age dirs

  -- The loop of cleanupTask, as far as the waits go.
  unfoldable pub cleanup_task : Cleaner → List Wake → Io F (Unit {0})
  unfolding do_cleanup
  cleanup_task c [] = pure tt
  cleanup_task c (wake ∷ wakes) =
      let rest = cleanup_task (record c { worker_running = wake.worker_running }) wakes in
      if c.worker_running
      then if wake.worker_running && wake.timed_out
        then (do _ ← do_cleanup c.max_age c.cleanup_dirs; rest)
        else rest
      else pure tt
