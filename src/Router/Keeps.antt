-- ===== src/Router/Keeps.antt =====
-- What the methods of the agent keep, the server of agent/server/main-api-server.cpp keeps.
use oort_agent.Base.{inr, inl, Bytes, codes, Result, ok, raise, lift, Outcome, Ensures, Ensures->>=}
use oort_agent.Utils.Response.{Reply, ResponseCode, deliver_response}
use oort_agent.Router.{Request, Onion, Parsers, processed, meta_url, query_url}
use oort_agent.Router.Laws.{IsOnion}
use oort_agent.Router.Rules.{Answered, dispatch-Ensures, sdk_dispatch, SdkPromises}
use oort_agent.Router.Collector.{CollectorPromises, collector_dispatch}
use oort_agent.Router.Impl.{
  Models, AgentApi, Printers, deliver, sdk_impl, collector_impl, main_routes, main_url, below,
}

module _ {W : Type 0} (M : Models) (A : AgentApi W M) (J : Printers M) (O : Onion)
    (laws : IsOnion O) (P : Parsers M.Send M.Retrieve M.Command)
    (parse_info : Bytes → Result M.Info) (no_info : M.Info) (I : W → Type 0) where
  -- However the call ends.
  abbrev pub Kept : {R : Type 0} → Outcome W R → Type 0
  Kept o = Ensures o (λ r s. I s) (λ e s. I s)

  pub record Keeps : Type 0 where
    pub query_available_keeps : (t : Bytes) (w : W) → I w → Kept (A.query_available t w)
    pub retrieve_file_keeps : (r : M.Retrieve) (w : W) → I w → Kept (A.retrieve_file r w)
    pub send_file_keeps : (r : M.Send) (w : W) → I w → Kept (A.send_file r w)
    pub adcs_get_keeps : (w : W) → I w → Kept (A.adcs_get w)
    pub adcs_command_keeps : (r : M.Command) (w : W) → I w → Kept (A.adcs_command r w)
    pub tfrs_get_keeps : (w : W) → I w → Kept (A.tfrs_get w)
    pub ping_keeps : (w : W) → I w → Kept (A.ping w)
    pub collector_info_keeps : (r : M.Info) (w : W) → I w → Kept (A.collector_info r w)
    pub meta_keeps : (u : Bytes) (w : W) → I w → Kept (A.meta u w)

  delivered :
      {R : Type 0} (to_json : R → Result Bytes) (method : W → Outcome W (ResponseCode R)) (w : W)
      → Kept (method w)
      → Kept (deliver M A J to_json method w)
  unfolding deliver
  delivered {R} to_json method w h =
      Ensures->>= (λ e s. I s) (method w) _ (λ r s. I s) (λ r s. I s) h
        λ r s i. printed (deliver_response to_json J.error r) s i
    where
      printed : (p : Result Reply) (s : W) → I s → Kept (lift p s)
      printed (ok r) s i = i
      printed (raise e) s i = i

  module _ (k : Keeps) (req : Request) (w : W) (i : I w) where
    abbrev below_prefix : Bytes → Request
    below_prefix prefix = record req { path = O.rest prefix req.path }

    sdk_promises :
        SdkPromises (λ r s. I s) (λ e s. I s) w O (sdk_impl M A J) P (below_prefix (codes "^sdk/"))
    unfolding sdk_impl
    sdk_promises =
        let path = O.rest (codes "^sdk/") req.path in
        record {
          query_kept = λ m g t.
              delivered J.available (A.query_available (O.group query_url path)) w
                (k.query_available_keeps (O.group query_url path) w i);
          send_kept = λ r m p e. delivered J.sent (A.send_file r) w (k.send_file_keeps r w i);
          retrieve_kept =
              λ r m p e. delivered J.file_info (A.retrieve_file r) w (k.retrieve_file_keeps r w i);
          adcs_get_kept = λ m g. delivered J.adcs A.adcs_get w (k.adcs_get_keeps w i);
          adcs_post_kept =
              λ r m p e. delivered J.commanded (A.adcs_command r) w (k.adcs_command_keeps r w i);
          tfrs_kept = λ m g. delivered J.tfrs A.tfrs_get w (k.tfrs_get_keeps w i);
          bad_method_kept = i;
          bad_request_kept = λ m. i;
          not_implemented_kept = i;
          escape_kept = λ e n u. i;
        }

    collector_promises :
        CollectorPromises
          (λ r s. I s)
          (λ e s. I s)
          w
          O
          (collector_impl M A J)
          parse_info
          no_info
          (below_prefix (codes "^collector/"))
    unfolding collector_impl
    collector_promises =
        let uuid = O.group meta_url (O.rest (codes "^collector/") req.path) in
        record {
          ping_kept = λ g. delivered J.ping A.ping w (k.ping_keeps w i);
          info_kept =
              λ r p e. delivered J.info (A.collector_info r) w (k.collector_info_keeps r w i);
          info_raised = λ e p u. i;
          meta_kept = λ g. delivered J.meta (A.meta uuid) w (k.meta_keeps uuid w i);
          bad_method_kept = i;
          not_implemented_kept = i;
        }

    -- A property of the state that every method keeps holds behind every request, which is
    -- answered or ends by an exception.
    pub main_url-Keeps :
        Ensures
          (main_url M A J O P parse_info no_info req w)
          (Answered (λ r s. I s) (λ e s. I s) w)
          (λ e s. I s)
    unfolding main_url below processed
    main_url-Keeps =
        dispatch-Ensures (λ r s. I s) (λ e s. I s) w O req
          (main_routes M A J O P parse_info no_info) laws
          (inr (inr (inl (laws.any_matches req.path))))
          (
            (λ m.
                collector_dispatch (λ r s. I s) (λ e s. I s) w O (collector_impl M A J) parse_info
                  no_info (below_prefix (codes "^collector/")) laws collector_promises),
            (
              (λ m.
                  sdk_dispatch (λ r s. I s) (λ e s. I s) w O (sdk_impl M A J) P
                    (below_prefix (codes "^sdk/")) laws sdk_promises),
              ((λ m. i), tt),
            ),
          )
