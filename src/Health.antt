-- ===== src/Health.antt =====
-- The health check of agent/server/impl/AgentUAVCANServer.cpp: parseHealthcheckResponse and
-- healthCheckHandler. The JSON library is an interface, and so is the process that is run.
pub mod Ends
pub mod Bounded
use oort_agent.Base.{
  ℕ, ◌+◌, ◌%◌, ◌≡◌, Bool, true, false, not, List, [], ◌∷◌, ◌++◌, Bytes, codes, length, ltb, ◌==◌,
  if◌then◌else◌, ℤ, pos, negsuc,
}

-- What the handler tells apart of what is thrown: `json_error` is any other exception of the JSON
-- library.
pub data Failure : Type 0 where
  json_parse_error : Failure
  json_type_error : Failure
  json_error : Failure
  system_failure : Failure
  runtime_failure : Bytes → Failure

pub data Check (A : Type 0) : Type 0 where
  value : A → Check A
  fails : Failure → Check A

-- The calls of the JSON library that the code makes; `Float` is its numbers with a point.
pub record JsonLib : Type 1 where
  pub Json : Type 0
  pub Float : Type 0
  pub parse : Bytes → Check Json
  pub at : Json → Bytes → Check Json
  pub is_array : Json → Bool
  pub is_number_unsigned : Json → Bool
  pub is_boolean : Json → Bool
  pub elements : Json → List Json
  pub get_int64 : Json → Check ℤ
  pub get_uint32 : Json → Check ℕ
  pub get_bool : Json → Check Bool
  pub get_int32 : Json → Check ℤ
  pub get_float : Json → Check Float

-- PayloadHealthCheck::Response.
pub record HealthResponse (Float : Type 0) : Type 0 where
  pub response_code : ℕ
  pub health_state : ℕ
  pub schema_version : ℕ
  pub need_hard_reset : Bool
  pub timestamp : ℕ
  pub imetric_feeds : List ℕ
  pub imetric : List ℤ
  pub fmetric_feeds : List ℕ
  pub fmetric : List Float

-- How the process ends: with its status and output, or with an exception.
pub data ProcessRun : Type 0 where
  exited : ℕ → Bytes → ProcessRun
  not_run : Failure → ProcessRun

abbrev pub max_array_len : ℕ
max_array_len = 255

-- The constants of the source.
abbrev pub code_of : Failure → ℕ
code_of json_parse_error = 22
code_of json_type_error = 22
code_of json_error = 52
code_of system_failure = 51
code_of (runtime_failure m) = 50

module _ (L : JsonLib) where
  abbrev pub Response : Type 0
  Response = HealthResponse L.Float

  -- The state of the response at the end of the parsing, or where it failed.
  pub data Parsed : Type 0 where
    parsed : Response → Parsed
    stopped : Failure → Response → Parsed

  abbrev pub Rest : Type 0
  Rest = Response → Parsed

  abbrev pub step : {A : Type 0} → Check A → (A → Rest) → Rest
  step (value a) k r = k a r
  step (fails f) k r = stopped f r

  abbrev pub require : Bool → Bytes → Rest → Rest
  require true message k r = k r
  require false message k r = stopped (runtime_failure message) r

  -- VALIDATE_ARRAY
  unfoldable pub validate_array : L.Json → Bytes → Rest → Rest
  validate_array obj name k = step (L.at obj name) λ a.
      require (L.is_array a) (codes "Invalid type for " ++ name) (
        step (L.at obj name) λ b.
          require (not (ltb max_array_len (length (L.elements b))))
            (codes "Invalid array size for " ++ name) k)

  -- `for (auto& it : j.at(name)) { push_back(it); }`
  unfoldable pub push_all :
      {A : Type 0} → (L.Json → Check A) → (A → Response → Response) → List L.Json → Rest → Rest
  push_all get push [] k r = k r
  push_all get push (it ∷ items) k r = elim (get it) [
    | fails f ↦ stopped f r
    | value a ↦ push_all get push items k (push a r)
  ]

  abbrev pub push_imetric : ℤ → Response → Response
  push_imetric n r = record r { imetric = r.imetric ++ n ∷ [] }

  abbrev pub push_imetric_feed : ℕ → Response → Response
  push_imetric_feed n r = record r { imetric_feeds = r.imetric_feeds ++ n ∷ [] }

  abbrev pub push_fmetric : L.Float → Response → Response
  push_fmetric x r = record r { fmetric = r.fmetric ++ x ∷ [] }

  abbrev pub push_fmetric_feed : ℕ → Response → Response
  push_fmetric_feed n r = record r { fmetric_feeds = r.fmetric_feeds ++ n ∷ [] }

  -- The four loops at the end.
  unfoldable pub push_metrics : L.Json → Rest
  unfolding push_all
  push_metrics j = step (L.at j (codes "int_metrics")) λ a.
      push_all L.get_int32 push_imetric (L.elements a) (
        step (L.at j (codes "int_metric_counts")) λ b.
          push_all L.get_uint32 push_imetric_feed (L.elements b) (
            step (L.at j (codes "float_metrics")) λ c.
              push_all L.get_float push_fmetric (L.elements c) (
                step (L.at j (codes "float_metric_counts"))
                  λ d. push_all L.get_uint32 push_fmetric_feed (L.elements d) parsed)))

  -- The three tests of types and the three `get_to`.
  unfoldable pub read_header : L.Json → Rest → Rest
  read_header j k = step (L.at j (codes "schema_version")) λ v.
      require (L.is_number_unsigned v) (codes "Invalid type for schema_version") (
        step (L.at j (codes "payload_timestamp")) λ t.
          require (L.is_number_unsigned t) (codes "Invalid type for payload_timestamp") (
            step (L.at j (codes "need_hard_reset")) λ h.
              require (L.is_boolean h) (codes "Invalid type for need_hard_reset") (
                step (L.get_uint32 v) λ version r.
                  step (L.get_uint32 t)
                    (λ time s.
                      step (L.get_bool h) (λ reset u. k (record u { need_hard_reset = reset }))
                        (record s { timestamp = time }))
                    (record r { schema_version = version }))))

  -- Behind the test of the version.
  unfoldable pub read_valid : L.Json → Rest
  unfolding validate_array read_header push_metrics
  read_valid j = validate_array j (codes "int_metrics") (
      validate_array j (codes "float_metrics") (
        validate_array j (codes "int_metric_counts")
          (validate_array j (codes "float_metric_counts") (read_header j (push_metrics j)))))

  abbrev pub is_version : ℤ → Bool
  is_version (pos n) = n == 1
  is_version (negsuc n) = false

  unfoldable pub parse_healthcheck_response : Bytes → Rest
  unfolding read_valid
  parse_healthcheck_response hk_output = step (L.parse hk_output) λ j.
      step (L.at j (codes "version")) λ v. step (L.get_int64 v) λ version.
        require (is_version version) (codes "Invalid version in JSON healthcheck response")
          (read_valid j)

  -- The `catch` blocks.
  abbrev pub answer_of : Parsed → Response
  answer_of (parsed r) = r
  answer_of (stopped f r) = record r { response_code = code_of f }

  unfoldable pub health_check : ProcessRun → Response → Response
  unfolding parse_healthcheck_response
  health_check (not_run f) r = record r { response_code = code_of f }
  health_check (exited status hk_output) r =
      answer_of (parse_healthcheck_response hk_output (record r { health_state = status % 256 }))
