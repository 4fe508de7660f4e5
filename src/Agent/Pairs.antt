-- ===== src/Agent/Pairs.antt =====
-- The pairs of a file and its metadata, and Agent::endeaden, which moves both to the dead-letter
-- box (agent/server/impl/Agent.h and Agent.cpp).
pub mod Dead
use oort_agent.Base.{
  ℕ, Bool, true, false, not, ◌||◌, List, [], ◌∷◌, ◌++◌, Bytes, codes, if◌then◌else◌, Result, ok,
  raise, then_ok, Outcome, returns, throws, ◌>>=◌, ◌>>◌, pure, lift, call,
}
use oort_agent.Posix.{FileSystem}
use oort_agent.Utils.Paths.{tailname, ends_with, starts_with, chop}

abbrev pub meta_ext : Bytes
meta_ext = codes ".meta.oort"

abbrev pub data_ext : Bytes
data_ext = codes ".data.oort"

unfoldable pub meta_file : Bytes → Result Bytes
meta_file datafile = then_ok (chop datafile data_ext) λ root. ok (root ++ meta_ext)

unfoldable pub data_file : Bytes → Result Bytes
data_file metafile = then_ok (chop metafile meta_ext) λ root. ok (root ++ data_ext)

-- The directories that the constructor makes below the work directory.
pub record Dirs : Type 0 where
  pub transfer_dir : Bytes
  pub upload_dir : Bytes
  pub upgrade_dir : Bytes
  pub deadletter_dir : Bytes

-- The constructor's names.
unfoldable pub work_dirs : Bytes → Dirs
work_dirs workdir = record {
  transfer_dir = workdir ++ codes "/transfers";
  upload_dir = workdir ++ codes "/uploads";
  upgrade_dir = workdir ++ codes "/upgrades";
  deadletter_dir = workdir ++ codes "/dead";
}

module _ (F : FileSystem) (dirs : Dirs) where
  abbrev pub is_inside : Bytes → Bool
  is_inside filepath =
      starts_with filepath dirs.transfer_dir
      || (starts_with filepath dirs.upload_dir || starts_with filepath dirs.upgrade_dir)

  abbrev pub dead_path : Bytes → Bytes
  dead_path filepath = dirs.deadletter_dir ++ b'/' ∷ tailname filepath

  -- The two renames; a failure is only logged.
  unfoldable pub bury : Bytes → Bytes → F.State → Outcome F.State (Unit {0})
  bury filepath twin = do
    _ ← call (F.rename filepath (dead_path filepath))
    _ ← call (F.rename twin (dead_path twin))
    pure tt

  unfoldable pub endeaden : Bytes → F.State → Outcome F.State (Unit {0})
  unfolding meta_file data_file bury
  endeaden filepath =
      if is_inside filepath
      then if ends_with filepath meta_ext
        then (do twin ← lift (data_file filepath); bury filepath twin)
        else if ends_with filepath data_ext
        then (do twin ← lift (meta_file filepath); bury filepath twin)
        else pure tt
      else pure tt
