-- ===== src/Agent/Status.antt =====
-- Agent::ping, getDiskfree, getUsername, getSysinfo and collector_info of
-- agent/server/impl/Agent.cpp. The user database and the version strings are parameters.
pub mod Username
pub mod Topics
use oort_agent.Base.{
  ℕ, zero, suc, ◌*◌, Bool, true, false, Option, none, some, List, [], Bytes, codes, ltb,
  if◌then◌else◌, Outcome, returns, throws, ◌>>=◌, pure, reads, lift, ℤ,
}
use oort_agent.Posix.{FileSystem}
use oort_agent.Utils.Response.{ResponseCode, answer}
use oort_agent.Files.{file_names}
use oort_agent.Cache
use oort_agent.Agent.Disk.{disk_free}
use oort_agent.Agent.Pairs.{Dirs}
use oort_agent.Agent.Members.{Members}

unfoldable pub ping : ResponseCode Bytes
ping = answer (codes "PONG")

-- What getpwuid_r gives with a buffer of some length: the name of the user, no user or another
-- error, or ERANGE.
pub data Passwd : Type 0 where
  user : Bytes → Passwd
  no_user : Passwd
  erange : Passwd

abbrev pub max_buflen : ℕ
max_buflen = 10 * 1024

-- The loop of getUsername from a length on, and what the last call gave. The length doubles: from
-- 128 on there are at most 7 rounds.
unfoldable pub username_loop : (ℕ → Passwd) → ℕ → ℕ → Passwd → Passwd
username_loop getpwuid_r zero buflen last = last
username_loop getpwuid_r (suc rounds) buflen last = elim (ltb buflen max_buflen) [
  | false ↦ last
  | true ↦ elim (getpwuid_r buflen) [
    | user name ↦ user name
    | no_user ↦ no_user
    | erange ↦ username_loop getpwuid_r rounds (buflen * 2) erange
  ]
]

-- `pwdr` is NULL unless a user was found.
abbrev pub name_of : Passwd → Bytes
name_of (user name) = name
name_of no_user = []
name_of erange = []

unfoldable pub get_username : (ℕ → Passwd) → Bytes
unfolding username_loop
get_username getpwuid_r = name_of (username_loop getpwuid_r 8 128 erange)

pub record SystemInfo : Type 0 where
  pub version : Bytes
  pub build : Bytes
  pub diskfree : ℤ
  pub workdir : Bytes
  pub uploads : Bytes
  pub agent_upgrades : Bytes
  pub dead : Bytes
  pub username : Bytes
  pub nodename : Bytes
  pub machine : Bytes

pub record InfoResponse : Type 0 where
  pub sysinfo : SystemInfo
  pub topics : List Bytes
  pub files : List Bytes
  pub dead : List Bytes

-- `topics` is `none` where the request does not set them.
pub record InfoRequest : Type 0 where
  pub topics : Option (List Bytes)

module _ (F : FileSystem) (Options : Type 0) (getpwuid_r : ℕ → Passwd)
    (release_version build_version : Bytes) where
  -- The members, and the system.
  abbrev pub AgentState : Type 0
  AgentState = Members Options × F.State

  unfoldable pub get_diskfree : Members Options → F.State → ℤ
  unfolding disk_free
  get_diskfree m s = disk_free (F.statvfs m.workdir s)

  unfoldable pub get_sysinfo : Members Options → F.State → SystemInfo
  unfolding get_diskfree get_username
  get_sysinfo m s = record {
    version = release_version;
    build = build_version;
    diskfree = get_diskfree m s;
    workdir = m.dirs.transfer_dir;
    uploads = m.dirs.upload_dir;
    agent_upgrades = m.dirs.upgrade_dir;
    dead = m.dirs.deadletter_dir;
    username = get_username getpwuid_r;
    nodename = m.nodename;
    machine = m.machine;
  }

  -- `dir_cache.get(dir)`
  unfoldable pub dir_files : Bytes → AgentState → Outcome AgentState (List Bytes)
  dir_files dir (m, s) =
      elim (Cache.get F.steady_clock (λ d t. lift (file_names F d t) t) dir m.dir_cache s) [
        | returns names (c, s') ↦ returns names (record m { dir_cache = c }, s')
        | throws e (c, s') ↦ throws e (record m { dir_cache = c }, s')
      ]

  unfoldable pub set_topics : Option (List Bytes) → Members Options → Members Options
  set_topics none m = m
  set_topics (some topics) m = record m { allowed_topics = topics }

  unfoldable pub collector_info :
      InfoRequest → AgentState → Outcome AgentState (ResponseCode InfoResponse)
  unfolding set_topics get_sysinfo dir_files
  collector_info req (m, s) =
      let m = set_topics req.topics m in
      let sysinfo = get_sysinfo m s in
      (do
        files ← dir_files m.dirs.transfer_dir
        dead ← dir_files m.dirs.deadletter_dir
        pure (
            answer (record {
              sysinfo = sysinfo;
              topics = m.allowed_topics;
              files = files;
              dead = dead;
            })))
        (m, s)
