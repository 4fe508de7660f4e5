-- ===== src/Router.antt =====
-- The routers of agent/server/router and the part of agent/server/main-api-server.cpp that puts
-- them under their prefixes. The library onion is an interface: how a pattern matches a path, the
-- group of a match, and what a match of a prefix leaves of the path. It tries the routes in their
-- order. The parser of a request's JSON is a parameter.
pub mod Laws
pub mod Rules
pub mod Collector
pub mod Impl
pub mod Statuses
pub mod Keeps
use oort_agent.Base.{
  ℕ, Bool, true, false, Option, none, some, List, [], ◌∷◌, ◌++◌, Bytes, codes, if◌then◌else◌,
  Exception, Result, ok, raise, system_error, runtime_error, out_of_range, invalid_argument,
  json_exception, length_error, null_dereference, Outcome, returns, throws, pure, throw,
}
use oort_agent.Adaptor.{c_str}
use oort_agent.Utils.Response.{Reply}

-- The methods that the code tells apart.
pub data Method : Type 0 where
  get : Method
  post : Method
  other_method : Method

pub record Request : Type 0 where
  pub path : Bytes
  pub method : Method
  pub body : Option Bytes

-- What is used of onion's URLs: which of the routes takes a path, the group "1" of the match of a
-- pattern, and the rest of a path behind a prefix.
pub record Onion : Type 1 where
  pub matches : Bytes → Bytes → Bool
  pub choose : {A : Type 0} → List (Bytes × A) → Bytes → Option A
  pub group : Bytes → Bytes → Bytes
  pub rest : Bytes → Bytes → Bytes

abbrev pub is_get : Method → Bool
is_get get = true
is_get post = false
is_get other_method = false

abbrev pub is_post : Method → Bool
is_post get = false
is_post post = true
is_post other_method = false

-- `BadMethod`
abbrev pub bad_method : Reply
bad_method = record { status = 405; body = codes "Method not allowed" }

-- The last route of each router.
abbrev pub not_implemented : Reply
not_implemented = record { status = 501; body = codes "Method not implemented" }

-- What ParseRequest answers; `std::endl` is a newline.
abbrev pub bad_request : Bytes → Reply
bad_request what = record { status = 400; body = codes "Bad request: " ++ (what ++ b'\n' ∷ []) }

-- Handlers of requests, with the state that they work on.
abbrev pub Handler : Type 0 → Type 0
Handler W = W → Outcome W Reply

-- GetPostData: without data the value stays as it was constructed. `parse` takes a C string.
unfoldable pub get_post_data : {A : Type 0} → (Bytes → Result A) → A → Option Bytes → Result A
unfolding c_str
get_post_data parse var none = ok var
get_post_data parse var (some data_) = parse (c_str data_)

-- `CheckMethod`, with the rest of the handler behind it.
unfoldable pub check_method : {W : Type 0} → Bool → Handler W → Handler W
check_method same rest w = if same then rest w else returns bad_method w

-- `ParseRequest`: exceptions of the class json::exception are answered.
unfoldable pub parse_request : {W A : Type 0} → Result A → (A → Handler W) → Handler W
parse_request (ok a) rest w = rest a w
parse_request (raise (json_exception what)) rest w = returns (bad_request what) w
parse_request (raise (system_error n m)) rest w = throws (system_error n m) w
parse_request (raise (runtime_error m)) rest w = throws (runtime_error m) w
parse_request (raise out_of_range) rest w = throws out_of_range w
parse_request (raise (invalid_argument m)) rest w = throws (invalid_argument m) w
parse_request (raise length_error) rest w = throws length_error w
parse_request (raise null_dereference) rest w = throws null_dereference w

-- A route: its pattern, and the handler for a request; `none` is a request that is not processed.
abbrev pub Route : Type 0 → Type 0
Route W = Bytes × (Request → W → Outcome W (Option Reply))

-- `return OCS_PROCESSED`
unfoldable pub processed : {W : Type 0} → Handler W → W → Outcome W (Option Reply)
processed handler w = elim (handler w) [
  | returns r w' ↦ returns (some r) w'
  | throws e w' ↦ throws e w'
]

-- A request for the routes that were added, one of which the library picks.
unfoldable pub dispatch :
    {W : Type 0} → Onion → List (Route W) → Request → W → Outcome W (Option Reply)
dispatch O routes req w = elim (O.choose routes req.path) [
  | none ↦ returns none w
  | some handler ↦ handler req w
]

-- The abstract methods of the class SdkApiRouter.
pub record SdkApi (W Send Retrieve Command : Type 0) : Type 0 where
  pub query_available_files : Bytes → Handler W
  pub retrieve_file : Retrieve → Handler W
  pub send_file : Send → Handler W
  pub adcs_get : Handler W
  pub adcs_post : Command → Handler W
  pub tfrs_get : Handler W

-- The parsers of the requests, and the values that they are parsed into.
pub record Parsers (Send Retrieve Command : Type 0) : Type 0 where
  pub send : Bytes → Result Send
  pub no_send : Send
  pub retrieve : Bytes → Result Retrieve
  pub no_retrieve : Retrieve
  pub command : Bytes → Result Command
  pub no_command : Command

abbrev pub query_url : Bytes
query_url = codes "^v1/query_available_files/([-_[:alnum:]]+)$"

abbrev pub send_url : Bytes
send_url = codes "^v1/send_file$"

abbrev pub retrieve_url : Bytes
retrieve_url = codes "^v1/retrieve_file$"

abbrev pub adcs_url : Bytes
adcs_url = codes "^v1/adcs$"

abbrev pub tfrs_url : Bytes
tfrs_url = codes "^v1/tfrs$"

abbrev pub any_url : Bytes
any_url = codes "^.*"

module _ {W Send Retrieve Command : Type 0} (O : Onion) (H : SdkApi W Send Retrieve Command)
    (P : Parsers Send Retrieve Command) where
  unfoldable pub query_route : Request → Handler W
  unfolding check_method
  query_route req =
      check_method (is_get req.method) (H.query_available_files (O.group query_url req.path))

  unfoldable pub send_route : Request → Handler W
  unfolding check_method parse_request get_post_data
  send_route req =
      check_method (is_post req.method)
        (parse_request (get_post_data P.send P.no_send req.body) H.send_file)

  unfoldable pub retrieve_route : Request → Handler W
  unfolding check_method parse_request get_post_data
  retrieve_route req =
      check_method (is_post req.method)
        (parse_request (get_post_data P.retrieve P.no_retrieve req.body) H.retrieve_file)

  unfoldable pub adcs_route : Request → Handler W
  unfolding parse_request get_post_data
  adcs_route req w =
      if is_get req.method
      then H.adcs_get w
      else if is_post req.method
      then parse_request (get_post_data P.command P.no_command req.body) H.adcs_post w
      else returns bad_method w

  unfoldable pub tfrs_route : Request → Handler W
  unfolding check_method
  tfrs_route req = check_method (is_get req.method) H.tfrs_get

  -- The constructor SdkApiRouter.
  abbrev pub sdk_routes : List (Route W)
  sdk_routes =
      (query_url, λ req. processed (query_route req))
      ∷ (send_url, λ req. processed (send_route req))
      ∷ (retrieve_url, λ req. processed (retrieve_route req))
      ∷ (adcs_url, λ req. processed (adcs_route req))
      ∷ (tfrs_url, λ req. processed (tfrs_route req))
      ∷ (any_url, λ req. processed (pure not_implemented))
      ∷ []

-- The abstract methods of the class CollectorApiRouter.
pub record CollectorApi (W Info : Type 0) : Type 0 where
  pub ping : Handler W
  pub info : Info → Handler W
  pub meta : Bytes → Handler W

abbrev pub meta_url : Bytes
meta_url = codes "^v1/meta/([-[:xdigit:]]+)$"

module _ {W Info : Type 0} (O : Onion) (H : CollectorApi W Info) (parse : Bytes → Result Info)
    (no_info : Info) where
  unfoldable pub ping_route : Request → Handler W
  unfolding check_method
  ping_route req = check_method (is_get req.method) H.ping

  -- GetPostData stands outside of a `try` block here.
  unfoldable pub info_route : Request → Handler W
  unfolding check_method get_post_data
  info_route req = check_method (is_post req.method) λ w.
      elim (get_post_data parse no_info req.body) [ ok ireq ↦ H.info ireq w | raise e ↦ throws e w ]

  unfoldable pub meta_route : Request → Handler W
  unfolding check_method
  meta_route req = check_method (is_get req.method) (H.meta (O.group meta_url req.path))

  -- The constructor CollectorApiRouter.
  abbrev pub collector_routes : List (Route W)
  collector_routes =
      (codes "v1/ping", λ req. processed (ping_route req))
      ∷ (codes "v1/info", λ req. processed (info_route req))
      ∷ (meta_url, λ req. processed (meta_route req))
      ∷ (any_url, λ req. processed (pure not_implemented))
      ∷ []
