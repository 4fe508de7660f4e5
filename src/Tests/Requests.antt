-- ===== src/Tests/Requests.antt =====
-- The agent behind the routers, serving requests at concrete data.
use oort_agent.Base.{
  arith, ℕ, ◌≡◌, refl, some, none, [], ◌∷◌, Bytes, codes, Result, ok, Option, bytes_eq, Outcome,
  returns,
}
use oort_agent.Posix.Memory.{memory}
use oort_agent.Posix.Memory.Lawful.{memory-IsLawful}
use oort_agent.Adaptor.{AdcsCommandRequest}
use oort_agent.Utils.Response.{Reply, deliver_response}
use oort_agent.Utils.Paths.{starts_with}
use oort_agent.Cache
use oort_agent.Files.{file_names}
use oort_agent.Agent.Status
use oort_agent.Agent.Status.{InfoRequest}
use oort_agent.Agent.Send.{SendFileRequest}
use oort_agent.Agent.Retrieve.{RetrieveFileRequest}
use oort_agent.Agent.Handlers.{models, Served, agent}
use oort_agent.Agent.Served.{idle, then_serves, serve_lem, settings_of, Offers, serve}
use oort_agent.Router.{
  Request, get, post, Parsers, dispatch, ping_route, info_route, get_post_data, check_method,
  processed,
}
use oort_agent.Router.Impl.{Printers, main_url, below, collector_impl, deliver}
use oort_agent.Tests.Feeds.{naturals}
use oort_agent.Tests.Routes.{first_match, onion, onion-IsOnion}
use oort_agent.Tests.Starts.{served, outside}

abbrev printers : Printers (models ℕ naturals)
printers = record {
  available = λ a. ok ([]);
  file_info = λ f. ok ([]);
  sent = λ uuid. ok (uuid);
  adcs = λ a. ok ([]);
  commanded = λ c. ok ([]);
  tfrs = λ t. ok ([]);
  ping = λ p. ok (p);
  info = λ i. ok ([]);
  meta = λ m. ok ([]);
  error = λ e. ok (e.message);
}

abbrev no_send : SendFileRequest ℕ
no_send = record { filepath = []; topic = []; destination = []; options = 0 }

abbrev no_retrieve : RetrieveFileRequest
no_retrieve = record { id = []; save_path = [] }

abbrev no_command : AdcsCommandRequest ℕ
no_command = record {
  command = [];
  aperture = none;
  target = none;
  angle = none;
  quat = none;
  vector = none;
}

abbrev parsers : Parsers (SendFileRequest ℕ) RetrieveFileRequest (AdcsCommandRequest ℕ)
parsers = record {
  send = λ text. ok no_send;
  no_send = no_send;
  retrieve = λ text. ok no_retrieve;
  no_retrieve = no_retrieve;
  command = λ text. ok no_command;
  no_command = no_command;
}

-- The collector sets a topic, whatever the text is.
abbrev parse_info : Bytes → Result InfoRequest
parse_info text = ok (record { topics = some (codes "images" ∷ []) })

abbrev no_info : InfoRequest
no_info = record { topics = none }

abbrev ping : Request
ping = record { path = codes "collector/v1/ping"; method = get; body = none }

abbrev serves :
    Request → Served memory ℕ naturals → Outcome (Served memory ℕ naturals) (Option Reply)
serves =
    serve memory memory-IsLawful ℕ naturals outside onion onion-IsOnion printers parsers parse_info
      no_info

-- The ping is answered.
pinged : serves ping served ≡ returns (some (record { status = 200; body = codes "PONG" })) served
unfolding main_url below dispatch collector_impl ping_route check_method processed deliver
    deliver_response agent Status.ping first_match starts_with bytes_eq
pinged = refl

abbrev info : Request
info = record { path = codes "collector/v1/info"; method = post; body = some (codes "{}") }

-- Info is answered, and sets the topics.
informed :
    (r : Option Reply) × (u : Served memory ℕ naturals) × (serves info served ≡ returns r u)
    × (u.members.allowed_topics ≡ codes "images" ∷ [])
unfolding main_url below dispatch collector_impl info_route check_method processed deliver
    deliver_response agent Status.collector_info Status.set_topics Status.dir_files
    Status.get_sysinfo first_match starts_with bytes_eq get_post_data Cache.get file_names
informed = (_, _, refl, refl)

serve_lem_example :
    let u = informed.1 in
    (settings_of u.members ≡ settings_of served.members)
    × (u.latch ≡ served.latch)
    × Offers memory memory-IsLawful ℕ naturals outside onion onion-IsOnion printers parsers
        parse_info no_info 50 served u
serve_lem_example =
    serve_lem memory memory-IsLawful ℕ naturals outside onion onion-IsOnion printers parsers
      parse_info no_info 50 served informed.1 (omega arith) refl tt
      (then_serves served served informed.1 info informed.0
        (then_serves served served served ping _ (idle served) pinged) informed.2)
