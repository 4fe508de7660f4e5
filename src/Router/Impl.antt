-- ===== src/Router/Impl.antt =====
-- SdkApiImpl and CollectorApiImpl of agent/server/impl, which answer what the agent's methods
-- return, and the URLs of agent/server/main-api-server.cpp. The agent is an interface here:
-- oort_agent.Agent.Handlers has it.
use oort_agent.Base.{Option, List, [], ◌∷◌, Bytes, codes, Result, Outcome, ◌>>=◌, pure, lift}
use oort_agent.Utils.Response.{Reply, ErrorResponse, ResponseCode, deliver_response}
use oort_agent.Router.{
  Request, Onion, Handler, Route, SdkApi, Parsers, CollectorApi, sdk_routes, collector_routes,
  processed, dispatch, any_url, not_implemented,
}

-- The types of the requests and of the results.
pub record Models : Type 1 where
  pub Send : Type 0
  pub Retrieve : Type 0
  pub Command : Type 0
  pub Info : Type 0
  pub Available : Type 0
  pub FileInfo : Type 0
  pub Sent : Type 0
  pub Adcs : Type 0
  pub Commanded : Type 0
  pub Tfrs : Type 0
  pub Ping : Type 0
  pub InfoResponse : Type 0
  pub Meta : Type 0

-- The methods of the agent that answer requests.
pub record AgentApi (W : Type 0) (M : Models) : Type 0 where
  pub query_available : Bytes → W → Outcome W (ResponseCode M.Available)
  pub retrieve_file : M.Retrieve → W → Outcome W (ResponseCode M.FileInfo)
  pub send_file : M.Send → W → Outcome W (ResponseCode M.Sent)
  pub adcs_get : W → Outcome W (ResponseCode M.Adcs)
  pub adcs_command : M.Command → W → Outcome W (ResponseCode M.Commanded)
  pub tfrs_get : W → Outcome W (ResponseCode M.Tfrs)
  pub ping : W → Outcome W (ResponseCode M.Ping)
  pub collector_info : M.Info → W → Outcome W (ResponseCode M.InfoResponse)
  pub meta : Bytes → W → Outcome W (ResponseCode M.Meta)

-- The JSON of each result, or what its printing throws.
pub record Printers (M : Models) : Type 0 where
  pub available : M.Available → Result Bytes
  pub file_info : M.FileInfo → Result Bytes
  pub sent : M.Sent → Result Bytes
  pub adcs : M.Adcs → Result Bytes
  pub commanded : M.Commanded → Result Bytes
  pub tfrs : M.Tfrs → Result Bytes
  pub ping : M.Ping → Result Bytes
  pub info : M.InfoResponse → Result Bytes
  pub meta : M.Meta → Result Bytes
  pub error : ErrorResponse → Result Bytes

module _ {W : Type 0} (M : Models) (A : AgentApi W M) (J : Printers M) where
  -- `auto resp = m_agent->...; deliverResponse(response, resp);`
  unfoldable pub deliver :
      {R : Type 0} → (R → Result Bytes) → (W → Outcome W (ResponseCode R)) → Handler W
  unfolding deliver_response
  deliver to_json method = do resp ← method; lift (deliver_response to_json J.error resp)

  unfoldable pub sdk_impl : SdkApi W M.Send M.Retrieve M.Command
  unfolding deliver
  sdk_impl = record {
    query_available_files = λ topic. deliver J.available (A.query_available topic);
    retrieve_file = λ req. deliver J.file_info (A.retrieve_file req);
    send_file = λ req. deliver J.sent (A.send_file req);
    adcs_get = deliver J.adcs A.adcs_get;
    adcs_post = λ req. deliver J.commanded (A.adcs_command req);
    tfrs_get = deliver J.tfrs A.tfrs_get;
  }

  unfoldable pub collector_impl : CollectorApi W M.Info
  unfolding deliver
  collector_impl = record {
    ping = deliver J.ping A.ping;
    info = λ req. deliver J.info (A.collector_info req);
    meta = λ uuid. deliver J.meta (A.meta uuid);
  }

  module _ (O : Onion) (P : Parsers M.Send M.Retrieve M.Command)
      (parse_info : Bytes → Result M.Info) (no_info : M.Info) where
    -- A router below a prefix, for the rest of the path.
    unfoldable pub below : Bytes → List (Route W) → Request → W → Outcome W (Option Reply)
    unfolding dispatch
    below prefix routes req = dispatch O routes (record req { path = O.rest prefix req.path })

    -- What `main` adds to the server's URL.
    abbrev pub main_routes : List (Route W)
    main_routes =
        (
          codes "^collector/",
          below (codes "^collector/") (collector_routes O collector_impl parse_info no_info),
        )
        ∷ (codes "^sdk/", below (codes "^sdk/") (sdk_routes O sdk_impl P))
        ∷ (any_url, λ req. processed (pure not_implemented))
        ∷ []

    unfoldable pub main_url : Request → W → Outcome W (Option Reply)
    unfolding below sdk_impl collector_impl dispatch
    main_url = dispatch O main_routes
