-- ===== src/Agent/Served.antt =====
-- What the requests leave of the settings of the agent (agent/server/impl/Agent.h), whatever they
-- are. The requests are served one after the other.
use oort_agent.Base.{
  ℕ, Bool, true, false, ◌≡◌, refl, ◌∙◌, some, Option, none, List, Bytes, if◌then◌else◌, Result, ok,
  raise, out_of_range, Outcome, returns, throws, Ensures, Ensures->>=, Ensures-returns, lift, ℤ,
  pos, ◌<◌, ◌^◌, ap,
}
use oort_agent.Posix.{FileSystem}
use oort_agent.Files.{file_names}
use oort_agent.Cache
use oort_agent.Cache.{Cache}
use oort_agent.Utils.Response.{Reply, ResponseCode, answer, refusal}
use oort_agent.Cleaner.{Cleaner}
use oort_agent.Cleaner.Worker.{Task}
use oort_agent.Adcs.Numbers.{Arithmetic}
use oort_agent.Command.Answers.{adcs_command_lem}
use oort_agent.Agent.Disk.{FreeLimits}
use oort_agent.Agent.Pairs.{Dirs}
use oort_agent.Agent.World.{TransferMeta, World}
use oort_agent.Agent.Members.{Members}
use oort_agent.Agent.Status
use oort_agent.Agent.Status.{Passwd, InfoRequest, InfoResponse, dir_files, set_topics, AgentState}
use oort_agent.Agent.Handlers.{
  Outside, Served, setting_of, models, agent, with_world, world_of, collector_info,
}
use oort_agent.Router.{Request, Onion, Parsers}
use oort_agent.Router.Laws.{IsOnion}
use oort_agent.Router.Impl.{Printers, main_url}
use oort_agent.Router
use oort_agent.Router.Keeps.{main_url-Keeps}
use oort_agent.Posix.Laws.{IsLawful}
use oort_agent.Agent.Retrieve.Stays.{Keeps, meta-Stays, retrieve_file-Stays}
use oort_agent.Router.Rules.{Answered}
use oort_agent.Agent.Query.{AvailableFiles, query_available}
use oort_agent.Agent.Query.Bounds.{IsAvailable, IsTrue, query_available_bounded}

-- The members but for the caches and the topics.
pub record Settings : Type 0 where
  pub cleaner : Cleaner
  pub task : Task
  pub has_uavcan_client : Bool
  pub has_adcs : Bool
  pub workdir : Bytes
  pub max_query : ℤ
  pub limits : FreeLimits
  pub dirs : Dirs
  pub nodename : Bytes
  pub machine : Bytes

abbrev pub settings_of : {Options : Type 0} → Members Options → Settings
settings_of m = record {
  cleaner = m.cleaner;
  task = m.task;
  has_uavcan_client = m.has_uavcan_client;
  has_adcs = m.has_adcs;
  workdir = m.workdir;
  max_query = m.max_query;
  limits = m.limits;
  dirs = m.dirs;
  nodename = m.nodename;
  machine = m.machine;
}

module _ (F : FileSystem) (Options : Type 0) (getpwuid_r : ℕ → Passwd) (release build : Bytes)
    (g : Settings) (c : Cache (TransferMeta Options)) where
  abbrev Unchanged : AgentState F Options getpwuid_r release build → Type 0
  Unchanged p = (settings_of p.0 ≡ g) × (p.0.meta_cache ≡ c)

  dir_files-Unchanged :
      (dir : Bytes) (p : AgentState F Options getpwuid_r release build)
      → Unchanged p
      → Ensures
          (dir_files F Options getpwuid_r release build dir p)
          (λ names. Unchanged)
          (λ e. Unchanged)
  unfolding dir_files
  dir_files-Unchanged dir (m, s) h =
      kept (Cache.get F.steady_clock (λ d t. lift (file_names F d t) t) dir m.dir_cache s)
    where
      kept :
          (o : Outcome (Cache (List Bytes) × F.State) (List Bytes))
          → Ensures
              (elim o [
                | returns names (c, s') ↦ returns names (record m { dir_cache = c }, s')
                | throws e (c, s') ↦ throws e (record m { dir_cache = c }, s')
              ])
              (λ names. Unchanged)
              (λ e. Unchanged)
      kept (returns names (c, s')) = h
      kept (throws e (c, s')) = h

  collector_info-Unchanged :
      (req : InfoRequest) (p : AgentState F Options getpwuid_r release build)
      → Unchanged p
      → Ensures
          (Status.collector_info F Options getpwuid_r release build req p)
          (λ r. Unchanged)
          (λ e. Unchanged)
  unfolding Status.collector_info set_topics
  collector_info-Unchanged req (m, s) h =
      let m' = set_topics F Options getpwuid_r release build req.topics m in
      Ensures->>= (λ e. Unchanged)
        (dir_files F Options getpwuid_r release build m'.dirs.transfer_dir (m', s)) _
        (λ names. Unchanged) (λ r. Unchanged)
        (dir_files-Unchanged m'.dirs.transfer_dir (m', s) (told req.topics))
        λ files p a.
          Ensures->>= (λ e. Unchanged)
            (dir_files F Options getpwuid_r release build m'.dirs.deadletter_dir p) _
            (λ names. Unchanged) (λ r. Unchanged) (dir_files-Unchanged m'.dirs.deadletter_dir p a)
            λ dead q b. b
    where
      told :
          (topics : Option (List Bytes))
          → Unchanged (set_topics F Options getpwuid_r release build topics m, s)
      told none = h
      told (some ts) = h

module _ (F : FileSystem) (L : IsLawful F) (Options : Type 0) (N : Arithmetic)
    (X : Outside F Options N) (g : Settings) (n limit : ℕ) (small : limit < 2 ^ 64)
    (limited : g.max_query ≡ pos limit) where
  -- The entries of the cache of metadata were read from their files.
  abbrev pub HasTrueCache : Served F Options N → Type 0
  HasTrueCache w = IsTrue F Options w.members.dirs X.crc32 X.from_json L w.members.meta_cache

  -- The settings, the value of the latch, and the cache.
  abbrev pub IsSettled : Served F Options N → Type 0
  IsSettled w = (settings_of w.members ≡ g) × (w.latch ≡ n) × HasTrueCache w

  abbrev Settles : {R : Type 0} → Outcome (Served F Options N) R → Type 0
  Settles o = Ensures o (λ r. IsSettled) (λ e. IsSettled)

  on_world-Settles :
      {R : Type 0} (o : Outcome (World F Options) R) (w : Served F Options N)
      → IsSettled w
      → Keeps F L Options X.crc32 X.from_json w.members.dirs o
      → Settles (elim o [
        | returns a v ↦ returns a (with_world F Options N X v w)
        | throws e v ↦ throws e (with_world F Options N X v w)
      ])
  on_world-Settles (returns a v) w (same, latched, filled) h = (same, latched, h)
  on_world-Settles (throws e v) w (same, latched, filled) h = (same, latched, h)

  -- A query with the limit of the settings.
  query-Keeps :
      (topic : Bytes) (w : Served F Options N)
      → IsSettled w
      → Keeps F L Options X.crc32 X.from_json w.members.dirs (
          query_available F Options w.members.dirs X.crc32 X.from_json w.members.max_query topic
            (world_of F Options N X w))
  query-Keeps topic w (same, latched, filled) =
      at w.members.max_query (ap (λ h. h.max_query) same ∙ limited)
    where
      found :
          (o : Outcome (World F Options) (ResponseCode AvailableFiles))
          → Ensures o
              (IsAvailable F Options w.members.dirs X.crc32 X.from_json L topic limit)
              (λ e v. IsTrue F Options w.members.dirs X.crc32 X.from_json L v.meta_cache)
          → Keeps F L Options X.crc32 X.from_json w.members.dirs o
      found (returns (answer a) v) h = h.3
      found (returns (refusal m) v) h = absurd h
      found (throws e v) h = h

      at :
          (max_query : ℤ)
          → max_query ≡ pos limit
          → Keeps F L Options X.crc32 X.from_json w.members.dirs (
              query_available F Options w.members.dirs X.crc32 X.from_json max_query topic
                (world_of F Options N X w))
      at max_query e = rw e (
          found _ (
            query_available_bounded F Options w.members.dirs X.crc32 X.from_json L topic limit
              (world_of F Options N X w) small filled))

  collector_info-Settles :
      (req : InfoRequest) (w : Served F Options N)
      → IsSettled w
      → Settles (collector_info F Options N X req w)
  collector_info-Settles req w (same, latched, filled) = go _ (
      collector_info-Unchanged F Options X.getpwuid_r X.release_version X.build_version
        (settings_of w.members) w.members.meta_cache req (w.members, w.sys) (refl, refl))
    where
      transfer :
          (m : Members Options)
          → settings_of m ≡ settings_of w.members
          → m.meta_cache ≡ w.members.meta_cache
          → IsTrue F Options m.dirs X.crc32 X.from_json L m.meta_cache
      transfer m e f = at m.dirs m.meta_cache (ap (λ h. h.dirs) e) f
        where
          at :
              (dirs : Dirs) (c : Cache (TransferMeta Options))
              → dirs ≡ w.members.dirs
              → c ≡ w.members.meta_cache
              → IsTrue F Options dirs X.crc32 X.from_json L c
          at dirs c p q = rw (p, q) filled

      go :
          (o : Outcome (Members Options × F.State) (ResponseCode InfoResponse))
          → Ensures o
              (λ r p.
                (settings_of p.0 ≡ settings_of w.members) × (p.0.meta_cache ≡ w.members.meta_cache))
              (λ e p.
                (settings_of p.0 ≡ settings_of w.members) × (p.0.meta_cache ≡ w.members.meta_cache))
          → Settles (elim o [
            | returns a (m, s) ↦ returns a (record w { members = m; sys = s })
            | throws e (m, s) ↦ throws e (record w { members = m; sys = s })
          ])
      go (returns a (m, s)) (e, f) = (e ∙ same, latched, transfer m e f)
      go (throws x (m, s)) (e, f) = (e ∙ same, latched, transfer m e f)

  -- The answer of adcs_command, with the latch behind it.
  called-Settles :
      {R : Type 0} (q : Result R) (l : ℕ) (w : Served F Options N)
      → IsSettled w
      → l ≡ w.latch
      → Settles (elim q [
        | ok r ↦ returns r (record w { latch = l })
        | raise e ↦ throws e (record w { latch = l })
      ])
  called-Settles (ok r) l w (same, latched, filled) e = (same, e ∙ latched, filled)
  called-Settles (raise x) l w (same, latched, filled) e = (same, e ∙ latched, filled)

  on_sys-Settles :
      {R : Type 0} (o : Outcome F.State R) (w : Served F Options N)
      → IsSettled w
      → Settles (elim o [
        | returns a s ↦ returns a (record w { sys = s })
        | throws e s ↦ throws e (record w { sys = s })
      ])
  on_sys-Settles (returns a s) w i = i
  on_sys-Settles (throws e s) w i = i

  -- The answer of the manager, or none.
  asked-Settles :
      {R : Type 0} (b : Bool) (r q : R) (v w : Served F Options N)
      → IsSettled v
      → IsSettled w
      → Settles (if b then returns r v else returns q w)
  asked-Settles true r q v w h i = h
  asked-Settles false r q v w h i = i

  module _ (O : Onion) (laws : IsOnion O) (J : Printers (models Options N))
      (P : Parsers (models Options N).Send (models Options N).Retrieve (models Options N).Command)
      (parse_info : Bytes → Result InfoRequest) (no_info : InfoRequest) where
    agent-Keeps :
        Router.Keeps.Keeps
          (models Options N)
          (agent F Options N X)
          J
          O
          laws
          P
          parse_info
          no_info
          IsSettled
    unfolding agent
    agent-Keeps = record {
      query_available_keeps = λ t w i. on_world-Settles _ w i (query-Keeps t w i);
      retrieve_file_keeps = λ r w i. on_world-Settles _ w i (
          retrieve_file-Stays F L Options X.crc32 X.from_json
            (setting_of w.members X.api_version X.to_json) r (world_of F Options N X w) out_of_range
            i.2);
      send_file_keeps = λ r w i. on_sys-Settles _ w i;
      adcs_get_keeps = λ w i. asked-Settles w.members.has_adcs _ _ _ w i i;
      adcs_command_keeps = λ r w i.
          called-Settles _ _ w i
            (adcs_command_lem X.to_float X.from_float X.to_string X.bus F
              w.members.has_uavcan_client r w.latch).0;
      tfrs_get_keeps = λ w i. asked-Settles w.members.has_adcs _ _ _ w i i;
      ping_keeps = λ w i. i;
      collector_info_keeps = collector_info-Settles;
      meta_keeps = λ u w i. on_world-Settles _ w i (
          meta-Stays F L Options X.crc32 X.from_json w.members.dirs u (world_of F Options N X w)
            out_of_range i.2);
    }

module _ (F : FileSystem) (L : IsLawful F) (Options : Type 0) (N : Arithmetic)
    (X : Outside F Options N) (O : Onion) (laws : IsOnion O) (J : Printers (models Options N))
    (P : Parsers (models Options N).Send (models Options N).Retrieve (models Options N).Command)
    (parse_info : Bytes → Result InfoRequest) (no_info : InfoRequest) where
  -- The server for a request.
  abbrev pub serve : Request → Served F Options N → Outcome (Served F Options N) (Option Reply)
  serve = main_url (models Options N) (agent F Options N X) J O P parse_info no_info

  -- The states behind requests that were answered, one after the other.
  pub data Serves : Served F Options N → Served F Options N → Type 0 where
    idle : (w : Served F Options N) → Serves w w
    then_serves :
        (w v u : Served F Options N) (req : Request) (r : Option Reply)
        → Serves w v
        → serve req v ≡ returns r u
        → Serves w u

  -- What query_available may answer, in the terms of the start.
  abbrev pub Offers : ℕ → Served F Options N → Served F Options N → Type 0
  Offers n w u =
      (topic : Bytes)
      → Ensures ((agent F Options N X).query_available topic u)
          (λ r v.
            IsAvailable F Options w.members.dirs X.crc32 X.from_json L topic n r
              (world_of F Options N X v))
          (λ e v. Unit {0})

  module _ (limit : ℕ) (small : limit < 2 ^ 64) (v : Served F Options N)
      (limited : v.members.max_query ≡ pos limit) where
    abbrev Same : Served F Options N → Type 0
    Same = IsSettled F L Options N X (settings_of v.members) v.latch limit small limited

    step_settled :
        (req : Request) (r : Option Reply) (u t : Served F Options N)
        → Same u
        → serve req u ≡ returns r t
        → Same t
    step_settled req r u t i e = read r (
        Ensures-returns (Answered (λ q. Same) (λ x. Same) u) (λ x. Same) r t
          (main_url-Keeps (models Options N) (agent F Options N X) J O laws P parse_info no_info
            Same
            (agent-Keeps F L Options N X (settings_of v.members) v.latch limit small limited O laws
              J P parse_info no_info)
            req u i)
          e)
      where
        read : (r : Option Reply) → Answered (λ q. Same) (λ x. Same) u r t → Same t
        read none h = absurd h
        read (some r) h = h

    settled : (u t : Served F Options N) → Serves u t → Same u → Same t
    settled u t (idle _) i = i
    settled u t (then_serves _ x _ req r before e) i =
        step_settled req r x t (settled u x before i) e

  offered :
      (n : ℕ) (w u : Served F Options N)
      → n < 2 ^ 64
      → u.members.max_query ≡ pos n
      → u.members.dirs ≡ w.members.dirs
      → IsTrue F Options u.members.dirs X.crc32 X.from_json L u.members.meta_cache
      → Offers n w u
  unfolding agent
  offered n w u small limit same filled topic =
      at u.members.dirs u.members.max_query limit same filled
    where
      go :
          (o : Outcome (World F Options) (ResponseCode AvailableFiles))
          → Ensures o
              (IsAvailable F Options w.members.dirs X.crc32 X.from_json L topic n)
              (λ e v. IsTrue F Options w.members.dirs X.crc32 X.from_json L v.meta_cache)
          → Ensures
              (elim o [
                | returns a v ↦ returns a (with_world F Options N X v u)
                | throws e v ↦ throws e (with_world F Options N X v u)
              ])
              (λ r v.
                IsAvailable F Options w.members.dirs X.crc32 X.from_json L topic n r
                  (world_of F Options N X v))
              (λ e v. Unit {0})
      go (returns a v) h = h
      go (throws e v) h = tt

      at :
          (dirs : Dirs) (max_query : ℤ)
          → max_query ≡ pos n
          → dirs ≡ w.members.dirs
          → IsTrue F Options dirs X.crc32 X.from_json L u.members.meta_cache
          → Ensures
              (elim (query_available F Options dirs X.crc32 X.from_json max_query topic
                (world_of F Options N X u)) [
                  | returns a v ↦ returns a (with_world F Options N X v u)
                  | throws e v ↦ throws e (with_world F Options N X v u)
                ])
              (λ r v.
                IsAvailable F Options w.members.dirs X.crc32 X.from_json L topic n r
                  (world_of F Options N X v))
              (λ e v. Unit {0})
      at dirs max_query e d filled =
          rw (e, d)
            (go _ (
              query_available_bounded F Options w.members.dirs X.crc32 X.from_json L topic n
                (world_of F Options N X u) small (rw d at filled)))

  -- For a library that picks a route whose pattern matches, a limit below 2^64, and a cache whose
  -- entries were read from their files: whatever requests the agent behind its routers has
  -- answered, one after the other, its settings and the latch are as they were at the start, and
  -- query_available keeps to the limit of the start. It answers with at most so many files, with
  -- exactly so many if it says that there are more, and each is recorded, with the topic, in
  -- metadata that was parsed from what a file of the upload directory held.
  pub serve_lem :
      (n : ℕ) (w u : Served F Options N)
      → n < 2 ^ 64
      → w.members.max_query ≡ pos n
      → IsTrue F Options w.members.dirs X.crc32 X.from_json L w.members.meta_cache
      → Serves w u
      → (settings_of u.members ≡ settings_of w.members) × (u.latch ≡ w.latch) × Offers n w u
  serve_lem n w u small limit filled run =
      let (same, latched, filled') = settled n small w limit w u run (refl, refl, filled) in
      (
        same,
        latched,
        offered n w u small (ap (λ g. g.max_query) same ∙ limit) (ap (λ g. g.dirs) same) filled',
      )
