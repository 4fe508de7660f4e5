-- ===== src/Tests/Handlers.antt =====
-- The handlers of agent/server/impl/Agent.cpp, the cache and the cleaner in the system in memory.
use oort_agent.Base.{
  last_of, last_of-append, ℕ, ◌≡◌, refl, true, false, Option, none, some, List, [], ◌∷◌, ◌++◌,
  Bytes, codes, bytes_eq, Outcome, runtime_error, ◌∙◌, ◌≤◌, returns, throws, Ensures, lookup, arith,
  pos,
}
use oort_agent.Posix.Memory
use oort_agent.Posix.Memory.{memory, Disk}
use oort_agent.Posix.Memory.Lawful.{memory-IsLawful, fresh_apart, staged_apart}
use oort_agent.Utils.Uuid.{mk_uuid}
use oort_agent.Cache.{Cache, get, create}
use oort_agent.Cache.Fresh.{get-Fresh, Fresh, Failed}
use oort_agent.Files.{FileInfo}
use oort_agent.Cleaner.{Cleaner, Wake, clean_old_files, cleanup_task}
use oort_agent.Cleaner.Safety.{Listed, NotOpened, clean_old_files_safe, Spares, OwnIn, IsPaired}
use oort_agent.Cleaner.Task.{Crashed, cleanup_task_safe}
use oort_agent.Agent.Disk.{default_limits}
use oort_agent.Agent.Move.Posts.{IsApart}
use oort_agent.Agent.Pairs.{Dirs, work_dirs, data_ext}
use oort_agent.Agent.Pairs.Dead.{Ends, endeaden_lem}
use oort_agent.Agent.World.{TransferMeta, World}
use oort_agent.Agent.Query.{query_available}
use oort_agent.Agent.Query.Bounds.{IsTrue, query_available_bounded, IsAvailable}
use oort_agent.Agent.Send.{SendFileRequest, Setting, send_file}
use oort_agent.Agent.Send.Safety.{send_file_safe, Sent, Unsent, path_of}
use oort_agent.Tests.Sums.{sum_crc}

abbrev pub dirs : Dirs
dirs = work_dirs (codes "/oort")

abbrev source : Bytes
source = codes "/data/image"

abbrev pub disk : Disk
disk = record {
  files =
      (codes "/oort/uploads/a.meta.oort", codes "{}")
      ∷ (codes "/oort/uploads/a.data.oort", codes "hello")
      ∷ (source, codes "pixels")
      ∷ [];
  millis = 5000;
}

-- The clock of the system as the function that the cache calls, and a function that is cached.
abbrev length_fn : Bytes → Disk → Outcome Disk Bytes
length_fn key s = elim (lookup key s.files) [
  | none ↦ throws (runtime_error (codes "no file")) s
  | some content ↦ returns content s
]

grows : (s : Disk) → (memory.steady_clock s).0 ≤ (memory.steady_clock (memory.steady_clock s).1).0
grows s = memory-IsLawful.clock_grows s

abbrev cache : Cache Bytes
cache = record {
  enabled = true;
  ttl_ms = 5000;
  cache_last_cleaned_at = 0;
  contents = [];
  gets = 0;
  hits = 0;
  cleaned = 0;
}

get-Fresh_example :
    Ensures
      (get memory.steady_clock length_fn source cache disk)
      (Fresh memory.steady_clock grows length_fn 5000 5000 source)
      (Failed memory.steady_clock grows length_fn 5000 5000 source)
get-Fresh_example = get-Fresh memory.steady_clock grows length_fn source cache disk tt

endeaden_lem_example : Ends memory dirs (codes "/oort/uploads/a.meta.oort") disk
endeaden_lem_example = endeaden_lem memory dirs (codes "/oort/uploads/a.meta.oort") disk

clean_old_files_safe_example :
    Ensures
      (clean_old_files memory (pos 100) (codes "/oort/uploads") disk)
      (Listed memory memory-IsLawful
        (codes "/oort/uploads")
        (pos 100)
        disk
        (λ flist. Spares memory (OwnIn memory memory-IsLawful flist) disk))
      (NotOpened memory memory-IsLawful (codes "/oort/uploads") disk)
clean_old_files_safe_example =
    clean_old_files_safe memory memory-IsLawful (pos 100) (codes "/oort/uploads") disk

abbrev cleaner : Cleaner
cleaner = record {
  cleanup_dirs = codes "/oort/uploads" ∷ [];
  cleanup_interval = pos 3600;
  max_age = pos 100;
  worker_running = true;
}

abbrev wakes : List Wake
wakes =
    record { timed_out = true; worker_running = true }
    ∷ record { timed_out = false; worker_running = false }
    ∷ []

cleanup_task_safe_example :
    Ensures
      (cleanup_task memory cleaner wakes disk)
      (Spares memory IsPaired disk)
      (Crashed memory memory-IsLawful cleaner.cleanup_dirs disk)
cleanup_task_safe_example = cleanup_task_safe memory memory-IsLawful cleaner wakes disk

abbrev file_info : FileInfo
file_info = record {
  id = codes "a";
  path = source;
  size = 5;
  created = 0;
  modified = 0;
  crc32 = codes "00000214";
}

abbrev pub from_json : Bytes → Option (TransferMeta (Unit {0}))
from_json text = some (record {
  meta_version = codes "1";
  topic = codes "news";
  destination = codes "ground";
  node = codes "sat";
  time = 0;
  file_info = file_info;
  send_options = tt;
})

abbrev pub world : World memory (Unit {0})
world = record {
  sys = disk;
  metafile_cache = (create memory.steady_clock 5000 disk).0;
  meta_cache = (create memory.steady_clock 10000 disk).0;
}

query_available_bounded_example :
    Ensures
      (query_available memory (Unit {0}) dirs sum_crc from_json (pos 50) (codes "news") world)
      (IsAvailable memory (Unit {0}) dirs sum_crc from_json memory-IsLawful (codes "news") 50)
      (λ e w. IsTrue memory (Unit {0}) dirs sum_crc from_json memory-IsLawful w.meta_cache)
unfolding create
query_available_bounded_example =
    query_available_bounded memory (Unit {0}) dirs sum_crc from_json memory-IsLawful (codes "news")
      50 world (omega arith) tt

abbrev pub setting : Setting (Unit {0})
setting = record {
  dirs = dirs;
  limits = default_limits;
  allowed_topics = [];
  nodename = codes "sat";
  api_version = codes "1";
  to_json = λ tm. tm.topic;
}

abbrev request : SendFileRequest (Unit {0})
request = record {
  filepath = source;
  topic = codes "news";
  destination = codes "ground";
  options = tt;
}

abbrev urand : ℕ → ℕ
urand i = i

abbrev file_path : Bytes → Bytes
file_path = path_of memory memory-IsLawful (Unit {0}) sum_crc setting urand request (codes "pixels")

-- The new name ends in a letter that no temporary name ends in.
ends_in_t : last_of 0 (file_path data_ext) ≡ b't'
ends_in_t =
    last_of-append 0 b'/' dirs.transfer_dir (mk_uuid urand ++ data_ext)
    ∙ last_of-append b'/' b'.' (mk_uuid urand) (codes "data.oort")

source-IsApart : IsApart memory source (file_path data_ext)
source-IsApart = record {
  dir_apart = λ t d s e. staged_apart (file_path data_ext) d (omega (arith, ends_in_t));
  file_apart = λ t f s e.
      let same : Memory.fresh t s ≡ f = cc in
      rw (← same) (
        fresh_apart source t s (omega arith),
        fresh_apart (file_path data_ext) t s (omega (arith, ends_in_t)),
      );
}

send_file_safe_example :
    Ensures
      (send_file memory (Unit {0}) sum_crc setting urand request disk)
      (Sent memory memory-IsLawful (Unit {0}) sum_crc setting urand request (codes "pixels"))
      (Unsent memory memory-IsLawful (Unit {0}) sum_crc setting urand request (codes "pixels"))
unfolding lookup bytes_eq work_dirs
send_file_safe_example =
    send_file_safe memory memory-IsLawful (Unit {0}) sum_crc setting urand request (codes "pixels")
      disk refl source-IsApart refl
