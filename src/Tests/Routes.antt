-- ===== src/Tests/Routes.antt =====
-- The routers of agent/server/router and the server of main-api-server.cpp at concrete requests.
use oort_agent.Base.{
  ℕ, suc, ◌≡◌, refl, ◌⊎◌, inl, inr, Bool, true, false, ◌&&◌, ◌||◌, ◌++◌, length, ◌-◌, Bool-cases,
  Option, none, some, List, [], ◌∷◌, Bytes, codes, bytes_eq, drop, if◌then◌else◌, Exception, Result,
  ok, raise, json_exception, system_error, runtime_error, out_of_range, invalid_argument,
  length_error, null_dereference, Outcome, returns, Ensures,
}
use oort_agent.Utils.Paths.{starts_with}
use oort_agent.Utils.Response.{Reply, ResponseCode, answer}
use oort_agent.Agent.Send.{matches_topic_re}
use oort_agent.Router.{
  post, Request, Onion, SdkApi, Parsers, query_url, any_url, get_post_data, dispatch, sdk_routes,
}
use oort_agent.Router.Laws.{IsOnion, Covers, Chosen}
use oort_agent.Router.Rules.{Answered, Unparsed, is_json_exception, sdk_dispatch}
use oort_agent.Router.Impl.{Models, AgentApi, Printers, main_url}
use oort_agent.Router.Statuses.{HasStatus, Escapes, Prints, main_url_lem}

abbrev prefix : Bytes
prefix = codes "v1/query_available_files/"

abbrev matches : Bytes → Bytes → Bool
matches p path =
    if bytes_eq p any_url
    then true
    else if bytes_eq p query_url
    then starts_with path prefix && matches_topic_re (drop 25 path)
    else bytes_eq (drop 1 p) (path ++ codes "$")
      || starts_with path (drop 1 p)
      || starts_with path p

unfoldable pub first_match : {A : Type 0} → List (Bytes × A) → Bytes → Option A
first_match [] path = none
first_match ((p, a) ∷ routes) path =
    let later = first_match routes path in if matches p path then some a else later

-- A library that knows the patterns, and takes the first route that fits.
abbrev pub onion : Onion
onion = record {
  matches = matches;
  choose = first_match;
  group = λ p path. drop 25 path;
  rest = λ p path. drop (length p - 1) path;
}

first_match-Chosen :
    {A : Type 0} (routes : List (Bytes × A)) (path : Bytes)
    → Covers onion path routes
    → (a : A) × (first_match routes path ≡ some a) × Chosen onion path routes a
unfolding first_match
first_match-Chosen [] path c = absurd c
first_match-Chosen ((p, b) ∷ routes) path c = elim (Bool-cases (matches p path)) [
  | inl same ↦ (b, rw (same, first_match) refl, inl (same, refl))
  | inr other ↦
      let (a, e, later) = first_match-Chosen routes path (remaining c other) in
      (a, rw (other, first_match) e, inr later)
]
  where
    remaining :
        (matches p path ≡ true) ⊎ Covers onion path routes
        → matches p path ≡ false
        → Covers onion path routes
    remaining (inl same) other = absurd (clash (matches p path) same other)
      where
        clash : (b : Bool) → b ≡ true → b ≡ false → ⊥
        clash b t f = cc
    remaining (inr later) other = later

pub onion-IsOnion : IsOnion onion
unfolding bytes_eq
onion-IsOnion = record {
  chooses = first_match-Chosen;
  any_matches = λ path. refl;
  group_topic = λ path m. second (starts_with path prefix) (matches_topic_re (drop 25 path)) m;
}
  where
    second : (a b : Bool) → (a && b) ≡ true → b ≡ true
    second true b e = e
    second false b e = absurd cc

-- Handlers that write down what they were called with.
abbrev log_call : Bytes → List Bytes → Outcome (List Bytes) Reply
log_call name log = returns (record { status = 200; body = [] }) (name ∷ log)

abbrev api : SdkApi (List Bytes) Bytes Bytes Bytes
api = record {
  query_available_files = log_call;
  retrieve_file = log_call;
  send_file = log_call;
  adcs_get = log_call (codes "adcs_get");
  adcs_post = log_call;
  tfrs_get = log_call (codes "tfrs_get");
}

abbrev parse : Bytes → Result Bytes
parse text =
    if bytes_eq text (codes "{") then raise (json_exception (codes "end of input")) else ok text

abbrev parsers : Parsers Bytes Bytes Bytes
parsers = record {
  send = parse;
  no_send = [];
  retrieve = parse;
  no_retrieve = [];
  command = parse;
  no_command = [];
}

abbrev broken : Request
broken = record { path = codes "v1/send_file"; method = post; body = some (codes "{") }

only_json :
    (e : Exception) (m : Bytes)
    → ◌≡◌ {A = Result Bytes} (raise (json_exception m)) (raise e)
    → is_json_exception e ≡ true
only_json (json_exception m) k p = refl
only_json (system_error n m) k p = absurd cc
only_json (runtime_error m) k p = absurd cc
only_json out_of_range k p = absurd cc
only_json (invalid_argument m) k p = absurd cc
only_json length_error k p = absurd cc
only_json null_dereference k p = absurd cc

broken-OnlyJson : (e : Exception) → Unparsed parsers broken e → is_json_exception e ≡ true
unfolding get_post_data bytes_eq
broken-OnlyJson e (inl p) = only_json e _ p
broken-OnlyJson e (inr (inl p)) = only_json e _ p
broken-OnlyJson e (inr (inr p)) = only_json e _ p

-- A body that does not parse reaches no handler.
sdk_dispatch_example :
    Ensures
      (dispatch onion (sdk_routes onion api parsers) broken [])
      (Answered (λ r log. log ≡ []) (λ e log. ⊥) [])
      (λ e log. ⊥)
unfolding get_post_data bytes_eq starts_with
sdk_dispatch_example =
    sdk_dispatch (λ r log. log ≡ []) (λ e log. ⊥) [] onion api parsers broken onion-IsOnion
      (record {
        query_kept = λ m g t. absurd cc;
        send_kept = λ r m p e. absurd cc;
        retrieve_kept = λ r m p e. absurd cc;
        adcs_get_kept = λ m g. absurd cc;
        adcs_post_kept = λ r m p e. absurd cc;
        tfrs_kept = λ m g. absurd cc;
        bad_method_kept = refl;
        bad_request_kept = λ m. refl;
        not_implemented_kept = refl;
        escape_kept = λ e n u. clash (is_json_exception e) (broken-OnlyJson e u) n;
      })
  where
    clash : (b : Bool) → b ≡ true → b ≡ false → ⊥
    clash b t f = cc

-- An agent that answers every request with the number of the requests before it.
abbrev count : ℕ → Outcome ℕ (ResponseCode ℕ)
count n = returns (answer n) (suc n)

abbrev types : Models
types = record {
  Send = Bytes;
  Retrieve = Bytes;
  Command = Bytes;
  Info = Bytes;
  Available = ℕ;
  FileInfo = ℕ;
  Sent = ℕ;
  Adcs = ℕ;
  Commanded = ℕ;
  Tfrs = ℕ;
  Ping = ℕ;
  InfoResponse = ℕ;
  Meta = ℕ;
}

abbrev counter : AgentApi ℕ types
counter = record {
  query_available = λ t. count;
  retrieve_file = λ r. count;
  send_file = λ r. count;
  adcs_get = count;
  adcs_command = λ r. count;
  tfrs_get = count;
  ping = count;
  collector_info = λ r. count;
  meta = λ u. count;
}

abbrev printers : Printers types
printers = record {
  available = λ n. ok (n ∷ []);
  file_info = λ n. ok (n ∷ []);
  sent = λ n. ok (n ∷ []);
  adcs = λ n. ok (n ∷ []);
  commanded = λ n. ok (n ∷ []);
  tfrs = λ n. ok (n ∷ []);
  ping = λ n. ok (n ∷ []);
  info = λ n. ok (n ∷ []);
  meta = λ n. ok (n ∷ []);
  error = λ e. ok (e.message);
}

abbrev Nothing : Exception → ℕ → Type 0
Nothing e n = ⊥

-- What `dump` throws.
abbrev IsDumped : Exception → Type 0
IsDumped e = is_json_exception e ≡ true

printers-Prints : Prints types counter printers onion onion-IsOnion parsers parse [] IsDumped
printers-Prints = record {
  available_printed = λ r e q. absurd cc;
  file_info_printed = λ r e q. absurd cc;
  sent_printed = λ r e q. absurd cc;
  adcs_printed = λ r e q. absurd cc;
  commanded_printed = λ r e q. absurd cc;
  tfrs_printed = λ r e q. absurd cc;
  ping_printed = λ r e q. absurd cc;
  info_printed = λ r e q. absurd cc;
  meta_printed = λ r e q. absurd cc;
  error_printed = λ r e q. absurd cc;
}

main_url_lem_example :
    Ensures
      (main_url types counter printers onion parsers parse [] broken 7)
      (Answered HasStatus
        (Escapes types counter printers onion onion-IsOnion parsers parse [] Nothing IsDumped
          printers-Prints broken 7)
        7)
      (Escapes types counter printers onion onion-IsOnion parsers parse [] Nothing IsDumped
        printers-Prints broken 7)
main_url_lem_example =
    main_url_lem types counter printers onion onion-IsOnion parsers parse [] Nothing IsDumped
      printers-Prints
      (record {
        query_available_throws = λ t n. tt;
        retrieve_file_throws = λ r n. tt;
        send_file_throws = λ r n. tt;
        adcs_get_throws = λ n. tt;
        adcs_command_throws = λ r n. tt;
        tfrs_get_throws = λ n. tt;
        ping_throws = λ n. tt;
        collector_info_throws = λ r n. tt;
        meta_throws = λ u n. tt;
      })
      broken 7 broken-OnlyJson
