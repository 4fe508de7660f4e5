-- ===== src/Agent/Status/Topics.antt =====
-- That the topics which the collector sets (Agent::collector_info) govern what the SDK may send
-- (Agent::send_file, agent/server/impl/Agent.cpp).
use oort_agent.Base.{
  ℕ, ◌≡◌, refl, inl, inr, Bool, true, false, ◌&&◌, Bool-cases, some, List, ◌∷◌, Bytes, codes, ◌++◌,
  Outcome, returns, throws, Ensures, Ensures->>=, lift,
}
use oort_agent.Posix.{FileSystem}
use oort_agent.Files.{check_path, file_names}
use oort_agent.Cache
use oort_agent.Cache.{Cache}
use oort_agent.Utils.Response.{ResponseCode, answer, refusal}
use oort_agent.Adcs.Numbers.{Arithmetic}
use oort_agent.Agent.Members.{Members}
use oort_agent.Agent.Send
use oort_agent.Agent.Send.{SendFileRequest, Setting, is_allowed, check_topic, matches_topic_re}
use oort_agent.Agent.Status
use oort_agent.Agent.Status.{Passwd, InfoRequest, InfoResponse, dir_files, set_topics, AgentState}
use oort_agent.Agent.Handlers.{Outside, Served, setting_of, send_file, collector_info}

module _ (F : FileSystem) (Options : Type 0) (getpwuid_r : ℕ → Passwd) (release build : Bytes) where
  -- The members allow these topics.
  abbrev pub Allows : List Bytes → AgentState F Options getpwuid_r release build → Type 0
  Allows topics p = p.0.allowed_topics ≡ topics

  dir_files-Allows :
      (topics : List Bytes) (dir : Bytes) (p : AgentState F Options getpwuid_r release build)
      → Allows topics p
      → Ensures
          (dir_files F Options getpwuid_r release build dir p)
          (λ names. Allows topics)
          (λ e. Allows topics)
  unfolding dir_files
  dir_files-Allows topics dir (m, s) h =
      kept (Cache.get F.steady_clock (λ d t. lift (file_names F d t) t) dir m.dir_cache s)
    where
      kept :
          (o : Outcome (Cache (List Bytes) × F.State) (List Bytes))
          → Ensures
              (elim o [
                | returns names (c, s') ↦ returns names (record m { dir_cache = c }, s')
                | throws e (c, s') ↦ throws e (record m { dir_cache = c }, s')
              ])
              (λ names. Allows topics)
              (λ e. Allows topics)
      kept (returns names (c, s')) = h
      kept (throws e (c, s')) = h

  -- A report that names these topics.
  abbrev pub Reports :
      List Bytes
      → ResponseCode InfoResponse
      → AgentState F Options getpwuid_r release build
      → Type 0
  Reports topics r p = Allows topics p × ((i : InfoResponse) × (r ≡ answer i) × (i.topics ≡ topics))

  pub collector_info-Allows :
      (topics : List Bytes) (p : AgentState F Options getpwuid_r release build)
      → Ensures
          (Status.collector_info F Options getpwuid_r release build
            (record { topics = some topics })
            p)
          (Reports topics)
          (λ e. Allows topics)
  unfolding Status.collector_info set_topics
  collector_info-Allows topics (m, s) =
      let m' = record m { allowed_topics = topics } in
      Ensures->>= (λ e. Allows topics)
        (dir_files F Options getpwuid_r release build m.dirs.transfer_dir (m', s)) _
        (λ names. Allows topics) (Reports topics)
        (dir_files-Allows topics m.dirs.transfer_dir (m', s) refl)
        λ files p a.
          Ensures->>= (λ e. Allows topics)
            (dir_files F Options getpwuid_r release build m.dirs.deadletter_dir p) _
            (λ names. Allows topics) (Reports topics)
            (dir_files-Allows topics m.dirs.deadletter_dir p a) λ dead q b. (b, (_, refl, refl))

module _ (F : FileSystem) (Options : Type 0) (N : Arithmetic) (X : Outside F Options N) where
  -- A request to send is refused and does nothing.
  abbrev pub Refused : SendFileRequest Options → Served F Options N → Type 0
  Refused req w = (m : Bytes) × (send_file F Options N X req w ≡ returns (refusal m) w)

  -- Requests for other topics than these are refused.
  abbrev pub Governs : List Bytes → Served F Options N → Type 0
  Governs topics w =
      (req : SendFileRequest Options) → is_allowed req.topic topics ≡ false → Refused req w

  send_file-refused :
      (g : Setting Options) (urand : ℕ → ℕ) (req : SendFileRequest Options) (s : F.State)
      → check_topic g.allowed_topics req.topic ≡ false
      → (m : Bytes) × (Send.send_file F Options X.crc32 g urand req s ≡ returns (refusal m) s)
  unfolding Send.send_file
  send_file-refused g urand req s no_topic = elim (Bool-cases (check_path req.filepath)) [
    | inr relative ↦
        (codes "File path " ++ (req.filepath ++ codes " is not absolute"), rw relative refl)
    | inl absolute ↦
        (codes "Topic " ++ (req.topic ++ codes " is not allowed"), rw (absolute, no_topic) refl)
  ]

  unlisted :
      (topic t : Bytes) (ts : List Bytes)
      → is_allowed topic (t ∷ ts) ≡ false
      → check_topic (t ∷ ts) topic ≡ false
  unfolding check_topic
  unlisted topic t ts e = never (matches_topic_re topic) (is_allowed topic (t ∷ ts)) e
    where
      never : (a b : Bool) → b ≡ false → (a && b) ≡ false
      never true b f = f
      never false b f = refl

  refuse :
      (t : Bytes) (ts : List Bytes) (w : Served F Options N)
      → w.members.allowed_topics ≡ t ∷ ts
      → Governs (t ∷ ts) w
  refuse t ts w e req other =
      let (m, sent) =
        send_file-refused (setting_of w.members X.api_version X.to_json) (X.urandom w.sys) req w.sys
          (rw e (unlisted req.topic t ts other)) in
      (m, rw (sent, send_file) refl)

  -- The answer tells these topics.
  abbrev pub Tells : List Bytes → ResponseCode InfoResponse → Type 0
  Tells topics r = (i : InfoResponse) × (r ≡ answer i) × (i.topics ≡ topics)

  -- Once the collector has called info with a list of topics that is not empty, every request to
  -- send a file with a topic that is not among them is refused with nothing changed, even if the
  -- call of info ended with an exception; and its answer tells these topics.
  pub collector_info-Governs :
      (t : Bytes) (ts : List Bytes) (w : Served F Options N)
      → Ensures
          (collector_info F Options N X (record { topics = some (t ∷ ts) }) w)
          (λ r w'. Governs (t ∷ ts) w' × Tells (t ∷ ts) r)
          (λ e. Governs (t ∷ ts))
  collector_info-Governs t ts w =
      go
        (Status.collector_info F Options X.getpwuid_r X.release_version X.build_version
          (record { topics = some (t ∷ ts) }) (w.members, w.sys))
        (collector_info-Allows F Options X.getpwuid_r X.release_version X.build_version (t ∷ ts)
          (w.members, w.sys))
    where
      go :
          (o : Outcome (Members Options × F.State) (ResponseCode InfoResponse))
          → Ensures o
              (Reports F Options X.getpwuid_r X.release_version X.build_version (t ∷ ts))
              (λ e. Allows F Options X.getpwuid_r X.release_version X.build_version (t ∷ ts))
          → Ensures
              (elim o [
                | returns a (m, s) ↦ returns a (record w { members = m; sys = s })
                | throws e (m, s) ↦ throws e (record w { members = m; sys = s })
              ])
              (λ r w'. Governs (t ∷ ts) w' × Tells (t ∷ ts) r)
              (λ e. Governs (t ∷ ts))
      go (returns a (m, s)) (allows, tells) = (refuse t ts _ allows, tells)
      go (throws e (m, s)) allows = refuse t ts _ allows
