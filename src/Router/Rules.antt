-- ===== src/Router/Rules.antt =====
-- What the routes of agent/server/router guarantee to the handlers, and which answers they give by
-- themselves.
use oort_agent.Base.{
  ◌≡◌, refl, ◌⊎◌, inl, inr, Bool, true, false, Option, none, some, List, [], ◌∷◌, Bytes, Exception,
  Result, ok, raise, system_error, runtime_error, out_of_range, invalid_argument, json_exception,
  length_error, null_dereference, Outcome, returns, throws, Ensures, All, pure, Bool-cases,
}
use oort_agent.Utils.Response.{Reply}
use oort_agent.Agent.Send.{matches_topic_re}
use oort_agent.Router.{
  Method, get, post, other_method, Request, Onion, Handler, Route, is_get, is_post, bad_method,
  not_implemented, bad_request, get_post_data, check_method, parse_request, processed, dispatch,
  SdkApi, Parsers, query_url, send_url, retrieve_url, adcs_url, tfrs_url, query_route, send_route,
  retrieve_route, adcs_route, tfrs_route, sdk_routes,
}
use oort_agent.Router.Laws.{IsOnion, Covers, Chosen}

abbrev pub is_json_exception : Exception → Bool
is_json_exception (system_error n m) = false
is_json_exception (runtime_error m) = false
is_json_exception out_of_range = false
is_json_exception (invalid_argument m) = false
is_json_exception (json_exception m) = true
is_json_exception length_error = false
is_json_exception null_dereference = false

pub is_get_iff : (m : Method) → is_get m ≡ true → m ≡ get
is_get_iff get e = refl
is_get_iff post e = absurd cc
is_get_iff other_method e = absurd cc

pub is_post_iff : (m : Method) → is_post m ≡ true → m ≡ post
is_post_iff get e = absurd cc
is_post_iff post e = refl
is_post_iff other_method e = absurd cc

-- A parser of the SDK's router throws the exception for the body.
abbrev pub Unparsed :
    {Send Retrieve Command : Type 0} → Parsers Send Retrieve Command → Request → Exception → Type 0
Unparsed P req e =
    (get_post_data P.send P.no_send req.body ≡ raise e)
    ⊎ ((get_post_data P.retrieve P.no_retrieve req.body ≡ raise e)
        ⊎ (get_post_data P.command P.no_command req.body ≡ raise e))

module _ {W : Type 0} (Q : Reply → W → Type 0) (E : Exception → W → Type 0) (w : W) where
  pub check_method-Ensures :
      (same : Bool) (rest : Handler W)
      → (same ≡ true → Ensures (rest w) Q E)
      → (same ≡ false → Q bad_method w)
      → Ensures (check_method same rest w) Q E
  unfolding check_method
  check_method-Ensures true rest h k = h refl
  check_method-Ensures false rest h k = k refl

  pub parse_request-Ensures :
      {A : Type 0} (r : Result A) (rest : A → Handler W)
      → ((a : A) → r ≡ ok a → Ensures (rest a w) Q E)
      → ((m : Bytes) → r ≡ raise (json_exception m) → Q (bad_request m) w)
      → ((e : Exception) → r ≡ raise e → is_json_exception e ≡ false → E e w)
      → Ensures (parse_request r rest w) Q E
  unfolding parse_request
  parse_request-Ensures (ok a) rest h j k = h a refl
  parse_request-Ensures (raise (json_exception m)) rest h j k = j m refl
  parse_request-Ensures (raise (system_error n m)) rest h j k = k _ refl refl
  parse_request-Ensures (raise (runtime_error m)) rest h j k = k _ refl refl
  parse_request-Ensures (raise out_of_range) rest h j k = k _ refl refl
  parse_request-Ensures (raise (invalid_argument m)) rest h j k = k _ refl refl
  parse_request-Ensures (raise length_error) rest h j k = k _ refl refl
  parse_request-Ensures (raise null_dereference) rest h j k = k _ refl refl

  -- A processed request.
  abbrev pub Answered : Option Reply → W → Type 0
  Answered none s = ⊥
  Answered (some r) s = Q r s

  pub processed-Ensures :
      (handler : Handler W) → Ensures (handler w) Q E → Ensures (processed handler w) Answered E
  unfolding processed
  processed-Ensures handler h = go (handler w) h
    where
      go :
          (o : Outcome W Reply)
          → Ensures o Q E
          → Ensures
              (elim o [ returns r w' ↦ returns (some r) w' | throws e w' ↦ throws e w' ])
              Answered
              E
      go (returns r w') q = q
      go (throws e w') q = q

  -- Every route that takes the path keeps its promise.
  abbrev pub Promises : Onion → Request → List (Route W) → Type 0
  Promises O req =
      All (λ route. O.matches route.0 req.path ≡ true → Ensures (route.1 req w) Answered E)

  pub dispatch-Ensures :
      (O : Onion) (req : Request) (routes : List (Route W))
      → IsOnion O
      → Covers O req.path routes
      → Promises O req routes
      → Ensures (dispatch O routes req w) Answered E
  unfolding dispatch
  dispatch-Ensures O req routes laws c h =
      let (handler, e, chosen) = laws.chooses routes req.path c in
      rw (e, dispatch) (promised routes handler chosen h)
    where
      promised :
          (routes : List (Route W)) (handler : Request → W → Outcome W (Option Reply))
          → Chosen O req.path routes handler
          → Promises O req routes
          → Ensures (handler req w) Answered E
      promised [] handler c h = absurd c
      promised ((pattern_, b) ∷ routes) handler (inl (same, e)) h = rw e (h.0 same)
      promised ((pattern_, b) ∷ routes) handler (inr later) h = promised routes handler later h.1

  -- What the routes of the SDK ask of its handlers: a question comes with GET and a well-formed
  -- topic, a request with POST and what was parsed of its body.
  module _ {Send Retrieve Command : Type 0} (O : Onion) (H : SdkApi W Send Retrieve Command)
      (P : Parsers Send Retrieve Command) (req : Request) where
    pub record SdkPromises : Type 0 where
      pub query_kept :
          O.matches query_url req.path ≡ true
          → req.method ≡ get
          → matches_topic_re (O.group query_url req.path) ≡ true
          → Ensures (H.query_available_files (O.group query_url req.path) w) Q E
      pub send_kept :
          (r : Send)
          → O.matches send_url req.path ≡ true
          → req.method ≡ post
          → get_post_data P.send P.no_send req.body ≡ ok r
          → Ensures (H.send_file r w) Q E
      pub retrieve_kept :
          (r : Retrieve)
          → O.matches retrieve_url req.path ≡ true
          → req.method ≡ post
          → get_post_data P.retrieve P.no_retrieve req.body ≡ ok r
          → Ensures (H.retrieve_file r w) Q E
      pub adcs_get_kept :
          O.matches adcs_url req.path ≡ true → req.method ≡ get → Ensures (H.adcs_get w) Q E
      pub adcs_post_kept :
          (r : Command)
          → O.matches adcs_url req.path ≡ true
          → req.method ≡ post
          → get_post_data P.command P.no_command req.body ≡ ok r
          → Ensures (H.adcs_post r w) Q E
      pub tfrs_kept :
          O.matches tfrs_url req.path ≡ true → req.method ≡ get → Ensures (H.tfrs_get w) Q E
      -- What the router answers by itself, with the state as it was.
      pub bad_method_kept : Q bad_method w
      pub bad_request_kept : (m : Bytes) → Q (bad_request m) w
      pub not_implemented_kept : Q not_implemented w
      -- An exception of a parser that is no json::exception.
      pub escape_kept : (e : Exception) → is_json_exception e ≡ false → Unparsed P req e → E e w

    -- For a library that picks a route whose pattern matches: the router of the SDK processes
    -- every request, and it ends as the promises of the handlers say, where each is called only
    -- for a path and with the method of its route, with a topic of the characters of the pattern,
    -- and with what its body was parsed into; or, with nothing changed, it ends with 405, 400 or
    -- 501, or with an exception of a parser that is no json::exception.
    pub sdk_dispatch :
        IsOnion O → SdkPromises → Ensures (dispatch O (sdk_routes O H P) req w) Answered E
    unfolding query_route send_route retrieve_route adcs_route tfrs_route
    sdk_dispatch laws k =
        dispatch-Ensures O req (sdk_routes O H P) laws
          (inr (inr (inr (inr (inr (inl (laws.any_matches req.path)))))))
          (
            (λ m. processed-Ensures (query_route O H P req) (
                asked (H.query_available_files (O.group query_url req.path))
                  (λ g. k.query_kept m g (laws.group_topic req.path m)))),
            (
              (λ m. processed-Ensures (send_route O H P req) (
                  posted (get_post_data P.send P.no_send req.body) H.send_file (λ x e. inl e)
                    (λ r. k.send_kept r m))),
              (
                (λ m. processed-Ensures (retrieve_route O H P req) (
                    posted (get_post_data P.retrieve P.no_retrieve req.body) H.retrieve_file
                      (λ x e. inr (inl e)) (λ r. k.retrieve_kept r m))),
                (
                  (λ m. processed-Ensures (adcs_route O H P req) (adcs m)),
                  (
                    (λ m.
                        processed-Ensures (tfrs_route O H P req)
                          (asked H.tfrs_get (k.tfrs_kept m))),
                    ((λ m. processed-Ensures (pure not_implemented) k.not_implemented_kept), tt),
                  ),
                ),
              ),
            ),
          )
      where
        parsed :
            {A : Type 0} (r : Result A) (rest : A → Handler W)
            → ((e : Exception) → r ≡ raise e → Unparsed P req e)
            → ((a : A) → r ≡ ok a → Ensures (rest a w) Q E)
            → Ensures (parse_request r rest w) Q E
        parsed {A} r rest u h =
            parse_request-Ensures r rest h (λ m e. k.bad_request_kept m)
              (λ x e n. k.escape_kept x n (u x e))

        asked :
            (rest : Handler W)
            → (req.method ≡ get → Ensures (rest w) Q E)
            → Ensures (check_method (is_get req.method) rest w) Q E
        asked rest h =
            check_method-Ensures (is_get req.method) rest (λ g. h (is_get_iff _ g))
              (λ b. k.bad_method_kept)

        posted :
            {A : Type 0} (r : Result A) (rest : A → Handler W)
            → ((e : Exception) → r ≡ raise e → Unparsed P req e)
            → ((a : A) → req.method ≡ post → r ≡ ok a → Ensures (rest a w) Q E)
            → Ensures (check_method (is_post req.method) (parse_request r rest) w) Q E
        posted {A} r rest u h =
            check_method-Ensures (is_post req.method) (parse_request r rest)
              (λ g. parsed r rest u (λ a. h a (is_post_iff _ g))) (λ b. k.bad_method_kept)

        adcs : O.matches adcs_url req.path ≡ true → Ensures (adcs_route O H P req w) Q E
        adcs m = elim (Bool-cases (is_get req.method)) [
          | inl g ↦ rw g (k.adcs_get_kept m (is_get_iff _ g))
          | inr no_get ↦ elim (Bool-cases (is_post req.method)) [
            | inl p ↦
                rw (no_get, p)
                  (parsed (get_post_data P.command P.no_command req.body) H.adcs_post
                    (λ x e. inr (inr e)) (λ a. k.adcs_post_kept a m (is_post_iff _ p)))
            | inr no_post ↦ rw (no_get, no_post) k.bad_method_kept
          ]
        ]
