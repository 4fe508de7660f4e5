-- ===== src/Router/Statuses.antt =====
-- With which codes the server of agent/server/main-api-server.cpp answers, and which exceptions
-- can leave its handlers.
use oort_agent.Base.{
  lift, ok, raise, then_ok, ℕ, ◌≡◌, refl, ◌⊎◌, inl, inr, Bool, true, false, Bytes, codes, Exception,
  Result, raise, Outcome, Ensures, Ensures->>=, Ensures-weaken,
}
use oort_agent.Utils.Response.{
  Reply, ErrorResponse, ResponseCode, answer, refusal, deliver_response,
}
use oort_agent.Router.{post, Request, Onion, Parsers, processed, get_post_data, meta_url, query_url}
use oort_agent.Router.Laws.{IsOnion}
use oort_agent.Router.Rules.{
  Answered, dispatch-Ensures, sdk_dispatch, SdkPromises, Unparsed, is_json_exception,
}
use oort_agent.Router.Collector.{CollectorPromises, collector_dispatch}
use oort_agent.Router.Impl.{
  Models, AgentApi, Printers, deliver, sdk_impl, collector_impl, below, main_routes, main_url,
}

-- The codes of the answers.
pub data IsStatus : ℕ → Type 0 where
  is_ok : IsStatus 200
  is_bad_request : IsStatus 400
  is_not_allowed : IsStatus 405
  is_not_implemented : IsStatus 501

abbrev pub HasStatus : {W : Type 0} → Reply → W → Type 0
HasStatus r w = IsStatus r.status

module _ {W : Type 0} (M : Models) (A : AgentApi W M) (J : Printers M) (O : Onion)
    (laws : IsOnion O) (P : Parsers M.Send M.Retrieve M.Command)
    (parse_info : Bytes → Result M.Info) (no_info : M.Info) where
  -- The methods of the agent throw nothing but what `E` allows.
  pub record Throws (E : Exception → W → Type 0) : Type 0 where
    pub query_available_throws :
        (t : Bytes) (w : W) → Ensures (A.query_available t w) (λ r s. Unit {0}) E
    pub retrieve_file_throws :
        (r : M.Retrieve) (w : W) → Ensures (A.retrieve_file r w) (λ r s. Unit {0}) E
    pub send_file_throws : (r : M.Send) (w : W) → Ensures (A.send_file r w) (λ r s. Unit {0}) E
    pub adcs_get_throws : (w : W) → Ensures (A.adcs_get w) (λ r s. Unit {0}) E
    pub adcs_command_throws :
        (r : M.Command) (w : W) → Ensures (A.adcs_command r w) (λ r s. Unit {0}) E
    pub tfrs_get_throws : (w : W) → Ensures (A.tfrs_get w) (λ r s. Unit {0}) E
    pub ping_throws : (w : W) → Ensures (A.ping w) (λ r s. Unit {0}) E
    pub collector_info_throws :
        (r : M.Info) (w : W) → Ensures (A.collector_info r w) (λ r s. Unit {0}) E
    pub meta_throws : (u : Bytes) (w : W) → Ensures (A.meta u w) (λ r s. Unit {0}) E

  -- The printing of a result throws nothing but what `D` allows.
  abbrev pub Printed : {R : Type 0} → (R → Result Bytes) → (Exception → Type 0) → Type 0
  Printed {R} to_json D = (r : R) (e : Exception) → to_json r ≡ raise e → D e

  pub record Prints (D : Exception → Type 0) : Type 0 where
    pub available_printed : Printed J.available D
    pub file_info_printed : Printed J.file_info D
    pub sent_printed : Printed J.sent D
    pub adcs_printed : Printed J.adcs D
    pub commanded_printed : Printed J.commanded D
    pub tfrs_printed : Printed J.tfrs D
    pub ping_printed : Printed J.ping D
    pub info_printed : Printed J.info D
    pub meta_printed : Printed J.meta D
    pub error_printed : Printed J.error D

  module _ (E : Exception → W → Type 0) (D : Exception → Type 0) (prints : Prints D) where
    abbrev Fails : Exception → W → Type 0
    Fails e s = E e s ⊎ D e

    deliver-HasStatus :
        {R : Type 0} (to_json : R → Result Bytes) (method : W → Outcome W (ResponseCode R)) (w : W)
        → Printed to_json D
        → Ensures (method w) (λ r s. Unit {0}) E
        → Ensures (deliver M A J to_json method w) HasStatus Fails
    unfolding deliver deliver_response
    deliver-HasStatus {R} to_json method w p h =
        Ensures->>= Fails (method w) _ (λ r s. Unit {0}) HasStatus
          (Ensures-weaken (method w) (λ r s. Unit {0}) E Fails (λ e s x. inl x) h)
          λ r s u. status r s
      where
        printed :
            {R : Type 0} (q : R → Result Bytes) (r : R) (b : Result Bytes) (n : ℕ) (s : W)
            → Printed q D
            → q r ≡ b
            → IsStatus n
            → Ensures
                (lift (then_ok b λ text. ok (record { status = n; body = text })) s)
                HasStatus
                Fails
        printed q r (ok text) n s p e h = h
        printed q r (raise x) n s p e h = inr (p r x e)

        status :
            (r : ResponseCode R) (s : W)
            → Ensures (lift (deliver_response to_json J.error r) s) HasStatus Fails
        status (answer a) s = printed to_json a (to_json a) 200 s p refl is_ok
        status (refusal m) s =
            let sent : ErrorResponse = record { status = 400; message = m } in
            printed J.error sent (J.error sent) 400 s prints.error_printed refl is_bad_request

    -- A body of v1/info that does not parse.
    abbrev pub Uncaught : Request → W → Exception → W → Type 0
    Uncaught req w e s =
        (req.method ≡ post) × (get_post_data parse_info no_info req.body ≡ raise e) × (s ≡ w)

    abbrev pub Escapes : Request → W → Exception → W → Type 0
    Escapes req w e s = (E e s ⊎ D e) ⊎ Uncaught req w e s

    -- The parsers of the SDK's requests throw exceptions of the class json::exception alone.
    abbrev pub OnlyJson : Request → Type 0
    OnlyJson req = (e : Exception) → Unparsed P req e → is_json_exception e ≡ true

    module _ (throws_only : Throws E) (req : Request) (w : W) where
      served :
          {R : Type 0} (to_json : R → Result Bytes) (method : W → Outcome W (ResponseCode R))
          → Printed to_json D
          → Ensures (method w) (λ r s. Unit {0}) E
          → Ensures (deliver M A J to_json method w) HasStatus (Escapes req w)
      served to_json method p h =
          Ensures-weaken (deliver M A J to_json method w) HasStatus Fails (Escapes req w)
            (λ e s x. inl x) (deliver-HasStatus to_json method w p h)

      collector_promises :
          CollectorPromises HasStatus
            (Escapes req w)
            w
            O
            (collector_impl M A J)
            parse_info
            no_info
            req
      unfolding collector_impl
      collector_promises = record {
        ping_kept = λ g. served J.ping A.ping prints.ping_printed (throws_only.ping_throws w);
        info_kept = λ r p e.
            served J.info (A.collector_info r) prints.info_printed
              (throws_only.collector_info_throws r w);
        info_raised = λ e p u. inr (p, u, refl);
        meta_kept = λ g.
            served J.meta (A.meta (O.group meta_url req.path)) prints.meta_printed
              (throws_only.meta_throws (O.group meta_url req.path) w);
        bad_method_kept = is_not_allowed;
        not_implemented_kept = is_not_implemented;
      }

      sdk_promises : OnlyJson req → SdkPromises HasStatus (Escapes req w) w O (sdk_impl M A J) P req
      unfolding sdk_impl
      sdk_promises only = record {
        query_kept = λ m g t.
            served J.available (A.query_available (O.group query_url req.path))
              prints.available_printed
              (throws_only.query_available_throws (O.group query_url req.path) w);
        send_kept = λ r m p e.
            served J.sent (A.send_file r) prints.sent_printed (throws_only.send_file_throws r w);
        retrieve_kept = λ r m p e.
            served J.file_info (A.retrieve_file r) prints.file_info_printed
              (throws_only.retrieve_file_throws r w);
        adcs_get_kept =
            λ m g. served J.adcs A.adcs_get prints.adcs_printed (throws_only.adcs_get_throws w);
        adcs_post_kept = λ r m p e.
            served J.commanded (A.adcs_command r) prints.commanded_printed
              (throws_only.adcs_command_throws r w);
        tfrs_kept =
            λ m g. served J.tfrs A.tfrs_get prints.tfrs_printed (throws_only.tfrs_get_throws w);
        bad_method_kept = is_not_allowed;
        bad_request_kept = λ m. is_bad_request;
        not_implemented_kept = is_not_implemented;
        escape_kept = λ e n u. absurd (clash (is_json_exception e) (only e u) n);
      }
        where
          clash : (b : Bool) → b ≡ true → b ≡ false → ⊥
          clash b t f = cc

    -- For a library that picks a route whose pattern matches, and parsers of the SDK that throw
    -- json::exception alone: the server answers every request that it returns from with 200, 400,
    -- 405 or 501; an exception that leaves it is one that a method of the agent throws, or one
    -- that the printing of a response throws, or that of the parser for a body of v1/info, which
    -- nothing catches, and in this last case nothing has changed.
    pub main_url_lem :
        Throws E
        → (req : Request) (w : W) → OnlyJson req
        → Ensures
            (main_url M A J O P parse_info no_info req w)
            (Answered HasStatus (Escapes req w) w)
            (Escapes req w)
    unfolding main_url below processed
    main_url_lem throws_only req w only =
        dispatch-Ensures HasStatus (Escapes req w) w O req
          (main_routes M A J O P parse_info no_info) laws
          (inr (inr (inl (laws.any_matches req.path))))
          (
            (λ m.
                collector_dispatch HasStatus (Escapes req w) w O (collector_impl M A J) parse_info
                  no_info (within (codes "^collector/")) laws
                  (collector_promises throws_only (within (codes "^collector/")) w)),
            (
              (λ m.
                  sdk_dispatch HasStatus (Escapes req w) w O (sdk_impl M A J) P
                    (within (codes "^sdk/")) laws
                    (sdk_promises throws_only (within (codes "^sdk/")) w only)),
              ((λ m. is_not_implemented), tt),
            ),
          )
      where
        within : Bytes → Request
        within prefix = record req { path = O.rest prefix req.path }
