-- ===== src/Tests/Cleaning.antt =====
-- A round of the cleaner (agent/server/impl/Cleaner.cpp) and the course of main-api-server.cpp, at
-- concrete data.
use oort_agent.Base.{
  ℕ, ◌≡◌, refl, true, false, none, [], ◌∷◌, Bytes, codes, bytes_eq_refl, lookup, lookup-erase,
  Ensures, pos, negsuc, arith,
}
use oort_agent.Posix.Memory.{memory, Disk, file_unlink, has_file}
use oort_agent.Posix.Memory.Lawful.{memory-IsLawful}
use oort_agent.Log.{info_level}
use oort_agent.Config.{AgentConfig}
use oort_agent.Cache.{Cache}
use oort_agent.Agent.Members.{Members, fresh_members}
use oort_agent.Cleaner.{clean_old_files}
use oort_agent.Cleaner.Safety.{Listed, NotOpened}
use oort_agent.Cleaner.Thorough.{MayRemove, IsCleaned, clean_old_files-IsCleaned}

memory-MayRemove : MayRemove memory
memory-MayRemove = record { unlinks = λ p s. gone p s; unreadable = λ p s e. unreadable p s e }
  where
    gone : (p : Bytes) (s : Disk) → lookup p (file_unlink p s).1.files ≡ none
    gone p s = ground (arith, lookup-erase p p s.files, bytes_eq_refl p)

    unreadable : (p : Bytes) (s : Disk) → lookup p s.files ≡ none → has_file p s ≡ false
    unreadable p s e = rw (e, has_file) refl

-- A pair, 100000 seconds after it was written.
abbrev disk : Disk
disk = record {
  files = (codes "/t/a.meta.oort", codes "{}") ∷ (codes "/t/a.data.oort", codes "hello") ∷ [];
  millis = 100000;
}

clean_old_files-IsCleaned_example :
    Ensures
      (clean_old_files memory (pos 86400) (codes "/t") disk)
      (Listed memory memory-IsLawful
        (codes "/t")
        (pos 86400)
        disk
        (λ flist. IsCleaned memory memory-IsLawful memory-MayRemove flist disk))
      (NotOpened memory memory-IsLawful (codes "/t") disk)
clean_old_files-IsCleaned_example =
    clean_old_files-IsCleaned memory memory-IsLawful memory-MayRemove (pos 86400) (codes "/t") disk

abbrev config : AgentConfig
config = record {
  initialized = true;
  want_usage = false;
  workdir = codes "/oort";
  min_free_mb = negsuc 0;
  min_free_pct = pos 20;
  cleanup_interval = pos 60;
  max_age = pos 600;
  port = pos 2005;
  can_interface = codes "can0";
  can_interface_enabled = true;
  uavcan_node_id = 7;
  shim_node_id = 50;
  use_defaults = record {
    minfree = true;
    interval = false;
    maxage = false;
    port = true;
    loglevel = true;
    shim_node_id = true;
  };
  log = record { l_level = info_level; using_syslog = false; l_ident = [] };
}

abbrev empty : {T : Type 0} → Cache T
empty = record {
  enabled = true;
  ttl_ms = 5000;
  cache_last_cleaned_at = 0;
  contents = [];
  gets = 0;
  hits = 0;
  cleaned = 0;
}

abbrev members : Members ℕ
members = fresh_members empty empty empty
