-- ===== src/Agent/Handlers.antt =====
-- The class Agent as a whole: the methods of agent/server/impl/Agent.cpp that answer requests,
-- over the members, the system, the latch of adcs_command and the manager of the feeds, as the
-- interface that the routers call. The bus, zlib, the random bytes, the JSON of the metadata and
-- the system's clock are parameters.
use oort_agent.Base.{
  ℕ, Option, none, some, Bytes, if◌then◌else◌, Result, ok, raise, Outcome, returns, throws, pure, ℤ,
}
use oort_agent.Posix.{FileSystem}
use oort_agent.Files.{FileInfo}
use oort_agent.Utils.Response.{ResponseCode}
use oort_agent.Adaptor.{AdcsCommandRequest, AdcsCommandResponse, UavRequest}
use oort_agent.Adcs.Numbers.{Arithmetic}
use oort_agent.Adcs
use oort_agent.Adcs.{AdcsManager, AdcsResponse, TfrsResponse}
use oort_agent.Command
use oort_agent.Command.{BusReply}
use oort_agent.Agent.World.{TransferMeta, World}
use oort_agent.Agent.Query
use oort_agent.Agent.Query.{AvailableFiles}
use oort_agent.Agent.Send
use oort_agent.Agent.Send.{SendFileRequest, Setting}
use oort_agent.Agent.Retrieve
use oort_agent.Agent.Retrieve.{RetrieveFileRequest}
use oort_agent.Agent.Members.{Members}
use oort_agent.Agent.Status
use oort_agent.Agent.Status.{Passwd, InfoRequest, InfoResponse}
use oort_agent.Router.Impl.{Models, AgentApi}

-- What send_file and retrieve_file read of the members.
abbrev pub setting_of :
    {Options : Type 0} → Members Options → Bytes → (TransferMeta Options → Bytes) → Setting Options
setting_of m api_version to_json = record {
  dirs = m.dirs;
  limits = m.limits;
  allowed_topics = m.allowed_topics;
  nodename = m.nodename;
  api_version = api_version;
  to_json = to_json;
}

-- What is not under the agent's control.
pub record Outside (F : FileSystem) (Options : Type 0) (N : Arithmetic) : Type 0 where
  pub crc32 : ℕ → Bytes → ℕ
  pub urandom : F.State → ℕ → ℕ
  pub from_json : Bytes → Option (TransferMeta Options)
  pub to_json : TransferMeta Options → Bytes
  pub getpwuid_r : ℕ → Passwd
  pub release_version : Bytes
  pub build_version : Bytes
  pub api_version : Bytes
  pub to_float : N.Api → N.Float
  pub from_float : N.Float → N.Api
  pub to_string : ℤ → Bytes
  pub bus : UavRequest N.Float → Result (BusReply N.Float)
  pub to_integer : ℕ → ℤ
  pub seconds : ℤ → N.Double
  pub system_clock : F.State → ℕ

pub record Served (F : FileSystem) (Options : Type 0) (N : Arithmetic) : Type 0 where
  pub members : Members Options
  pub sys : F.State
  pub latch : ℕ
  pub manager : AdcsManager N

abbrev pub models : Type 0 → Arithmetic → Models
models Options N = record {
  Send = SendFileRequest Options;
  Retrieve = RetrieveFileRequest;
  Command = AdcsCommandRequest N.Api;
  Info = InfoRequest;
  Available = AvailableFiles;
  FileInfo = FileInfo;
  Sent = Bytes;
  Adcs = AdcsResponse N;
  Commanded = AdcsCommandResponse N.Api;
  Tfrs = TfrsResponse N;
  Ping = Bytes;
  InfoResponse = InfoResponse;
  Meta = TransferMeta Options;
}

module _ (F : FileSystem) (Options : Type 0) (N : Arithmetic) (X : Outside F Options N) where
  -- The world of the handlers of files, out of the state and back into it.
  abbrev pub world_of : Served F Options N → World F Options
  world_of w = record {
    sys = w.sys;
    metafile_cache = w.members.metafile_cache;
    meta_cache = w.members.meta_cache;
  }

  abbrev pub with_world : World F Options → Served F Options N → Served F Options N
  with_world v w = record w {
    sys = v.sys;
    members = record w.members { metafile_cache = v.metafile_cache; meta_cache = v.meta_cache };
  }

  abbrev pub on_world :
      {A : Type 0}
      → (World F Options → Outcome (World F Options) A)
      → Served F Options N
      → Outcome (Served F Options N) A
  on_world m w = elim (m (world_of w)) [
    | returns a v ↦ returns a (with_world v w)
    | throws e v ↦ throws e (with_world v w)
  ]

  -- send_file is the one that looks at the topics.
  abbrev pub send_file :
      SendFileRequest Options
      → Served F Options N
      → Outcome (Served F Options N) (ResponseCode Bytes)
  send_file req w =
      elim (Send.send_file F Options X.crc32 (setting_of w.members X.api_version X.to_json)
        (X.urandom w.sys) req w.sys) [
          | returns a s ↦ returns a (record w { sys = s })
          | throws e s ↦ throws e (record w { sys = s })
        ]

  abbrev pub collector_info :
      InfoRequest → Served F Options N → Outcome (Served F Options N) (ResponseCode InfoResponse)
  collector_info req w =
      elim (Status.collector_info F Options X.getpwuid_r X.release_version X.build_version req
        (w.members, w.sys)) [
          | returns a (m, s) ↦ returns a (record w { members = m; sys = s })
          | throws e (m, s) ↦ throws e (record w { members = m; sys = s })
        ]

  -- The answer of the manager, if `adcs` is set.
  abbrev adcs_get :
      Served F Options N → Outcome (Served F Options N) (ResponseCode (AdcsResponse N))
  adcs_get w =
      let asked = Adcs.get_adcs N X.to_integer X.seconds (X.system_clock w.sys) w.manager in
      if w.members.has_adcs
      then returns (Command.adcs_get (some asked.0)) (record w { manager = asked.1 })
      else returns (Command.adcs_get none) w

  abbrev tfrs_get :
      Served F Options N → Outcome (Served F Options N) (ResponseCode (TfrsResponse N))
  tfrs_get w =
      let asked = Adcs.get_tfrs N X.to_integer X.seconds (X.system_clock w.sys) w.manager in
      if w.members.has_adcs
      then returns (Command.tfrs_get (some asked.0)) (record w { manager = asked.1 })
      else returns (Command.tfrs_get none) w

  abbrev adcs_command :
      AdcsCommandRequest N.Api
      → Served F Options N
      → Outcome (Served F Options N) (ResponseCode (AdcsCommandResponse N.Api))
  adcs_command req w =
      let called =
        Command.adcs_command X.to_float X.from_float X.to_string X.bus F w.members.has_uavcan_client
          req w.latch in
      elim called.0 [
        | ok answered ↦ returns answered (record w { latch = called.1 })
        | raise e ↦ throws e (record w { latch = called.1 })
      ]

  unfoldable pub agent : AgentApi (Served F Options N) (models Options N)
  agent = record {
    query_available = λ topic w.
        on_world
          (Query.query_available F Options w.members.dirs X.crc32 X.from_json w.members.max_query
            topic)
          w;
    retrieve_file = λ req w.
        on_world
          (Retrieve.retrieve_file F Options X.crc32 (setting_of w.members X.api_version X.to_json)
            X.from_json req)
          w;
    send_file = send_file;
    adcs_get = adcs_get;
    adcs_command = adcs_command;
    tfrs_get = tfrs_get;
    ping = pure Status.ping;
    collector_info = collector_info;
    meta = λ uuid w. on_world (Query.meta F Options w.members.dirs X.crc32 X.from_json uuid) w;
  }
