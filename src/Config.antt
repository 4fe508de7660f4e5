-- ===== src/Config.antt =====
-- The class AgentConfig of agent/server/impl/Config.h and Config.cpp. `getopt` is the list of the
-- options it finds, each with its argument; what goes to `cerr` is left out.
pub mod Numbers
pub mod Options
pub mod Ready
pub mod Usage
use oort_agent.Base.{
  ℕ, zero, suc, ◌+◌, ◌*◌, ◌-◌, ◌%◌, ◌^◌, Bool, true, false, not, ◌&&◌, ◌||◌, Option, none, some,
  List, [], ◌∷◌, ◌++◌, Bytes, codes, bytes_eq, leb, ltb, ◌==◌, if◌then◌else◌, Exception,
  out_of_range, invalid_argument, Result, ok, raise, ℤ, pos, negsuc,
}
use oort_agent.Posix.{FileSystem, Stat, Sys, done, failed}
use oort_agent.Files.{check_path}
use oort_agent.Log.{LogSettings}

-- Which members no option has set.
pub record UseDefaults : Type 0 where
  pub minfree : Bool
  pub interval : Bool
  pub maxage : Bool
  pub port : Bool
  pub loglevel : Bool
  pub shim_node_id : Bool

pub record AgentConfig : Type 0 where
  pub initialized : Bool
  pub want_usage : Bool
  pub workdir : Bytes
  pub min_free_mb : ℤ
  pub min_free_pct : ℤ
  pub cleanup_interval : ℤ
  pub max_age : ℤ
  pub port : ℤ
  pub can_interface : Bytes
  pub can_interface_enabled : Bool
  pub uavcan_node_id : ℕ
  pub shim_node_id : ℕ
  pub use_defaults : UseDefaults
  pub log : LogSettings

module _ (F : FileSystem) (euid : ℕ) where
  unfoldable pub check_stat : Sys Stat → Result (Unit {0})
  check_stat (failed n) = raise (invalid_argument (codes "directory not found"))
  check_stat (done buf) =
      if not buf.is_directory
      then raise (invalid_argument (codes "not a directory"))
      else if not (buf.uid == euid)
      then raise (invalid_argument (codes "directory not owned by current user"))
      else if not buf.owner_rwx
      then raise (invalid_argument (codes "incorrect permissions on directory (must be u=rwx)"))
      else ok tt

  unfoldable pub check_dir : Bytes → F.State → Result (Unit {0})
  unfolding check_stat
  check_dir dir s =
      if not (check_path dir)
      then raise (invalid_argument (codes "directory not absolute"))
      else check_stat (F.stat dir s)
