-- ===== src/Tests/Starts.antt =====
-- The start of the agent and its status (agent/server/impl/Agent.cpp) at concrete data.
use oort_agent.Base.{
  ℕ, ok, ◌≡◌, true, false, none, some, [], ◌∷◌, codes, is_runtime_error, Ensures, pos, negsuc,
}
use oort_agent.Posix.{Sys, done}
use oort_agent.Posix.Memory.{memory, Disk}
use oort_agent.Posix.Memory.Lawful.{memory-IsLawful}
use oort_agent.Log.{info_level}
use oort_agent.Config.{AgentConfig}
use oort_agent.Agent.Members.{Utsname, construct, fresh_members}
use oort_agent.Agent.Members.Started.{IsStarted, Keeps, construct_lem}
use oort_agent.Agent.Status.{Passwd}
use oort_agent.Agent.Status.Username.{needs}
use oort_agent.Agent.Status.Topics.{Governs, Tells, collector_info-Governs}
use oort_agent.Agent.Handlers.{Outside, Served, collector_info}
use oort_agent.Tests.Feeds.{naturals, manager}
use oort_agent.Cache.{Cache}

abbrev config : AgentConfig
config = record {
  initialized = true;
  want_usage = false;
  workdir = codes "/oort";
  min_free_mb = pos 100;
  min_free_pct = negsuc 0;
  cleanup_interval = pos 60;
  max_age = pos 600;
  port = pos 2005;
  can_interface = [];
  can_interface_enabled = false;
  uavcan_node_id = 0;
  shim_node_id = 0;
  use_defaults = record {
    minfree = false;
    interval = false;
    maxage = false;
    port = true;
    loglevel = true;
    shim_node_id = true;
  };
  log = record { l_level = info_level; using_syslog = false; l_ident = [] };
}

abbrev disk : Disk
disk = record { files = (codes "/oort/transfers/a", codes "hello") ∷ []; millis = 0 }

abbrev uname : Disk → Sys Utsname
uname s = done (record { nodename = codes "sat"; machine = codes "armv7" })

construct_lem_example :
    Ensures
      (construct memory uname ℕ config disk)
      (λ m s.
        IsStarted memory memory-IsLawful uname ℕ config m × Keeps memory memory-IsLawful disk s)
      (λ e s. (is_runtime_error e ≡ true) × Keeps memory memory-IsLawful disk s)
construct_lem_example = construct_lem memory memory-IsLawful uname ℕ config disk

-- An entry of 300 bytes.
abbrev passwd : ℕ → Passwd
passwd = needs 300 (codes "oort")

abbrev empty : {T : Type 0} → Cache T
empty = record {
  enabled = true;
  ttl_ms = 5000;
  cache_last_cleaned_at = 0;
  contents = [];
  gets = 0;
  hits = 0;
  cleaned = 0;
}

abbrev pub outside : Outside memory ℕ naturals
outside = record {
  crc32 = λ n block. n;
  urandom = λ s n. n;
  from_json = λ text. none;
  to_json = λ tm. [];
  getpwuid_r = passwd;
  release_version = codes "1.0";
  build_version = codes "1";
  api_version = codes "1";
  to_float = λ a. a;
  from_float = λ a. a;
  to_string = λ n. [];
  bus = λ u. ok (record {
    can_stat = pos 0;
    was_successful = false;
    response = record { status = 0; reason = []; mode = 0; target = []; quat = []; vector = [] };
  });
  to_integer = pos;
  seconds = λ n. 0;
  system_clock = λ s. 0;
}

abbrev pub served : Served memory ℕ naturals
served = record {
  members = fresh_members empty empty empty;
  sys = disk;
  latch = 1;
  manager = manager;
}

collector_info-Governs_example :
    Ensures
      (collector_info memory ℕ naturals outside
        (record { topics = some (codes "images" ∷ []) })
        served)
      (λ r w.
        Governs memory ℕ naturals outside (codes "images" ∷ []) w
        × Tells memory ℕ naturals outside (codes "images" ∷ []) r)
      (λ e. Governs memory ℕ naturals outside (codes "images" ∷ []))
collector_info-Governs_example =
    collector_info-Governs memory ℕ naturals outside (codes "images") [] served
