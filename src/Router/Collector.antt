-- ===== src/Router/Collector.antt =====
-- What the routes of agent/server/router/CollectorApiRouter.cpp guarantee to the handlers.
use oort_agent.Base.{◌≡◌, refl, inl, inr, Bytes, Exception, Result, ok, raise, throws, Ensures}
use oort_agent.Utils.Response.{Reply}
use oort_agent.Router.{
  get, post, Request, Onion, Handler, CollectorApi, is_get, is_post, bad_method, not_implemented,
  get_post_data, check_method, processed, dispatch, ping_route, info_route, meta_route, meta_url,
  collector_routes,
}
use oort_agent.Router.Laws.{IsOnion}
use oort_agent.Router.Rules.{
  Answered, check_method-Ensures, processed-Ensures, dispatch-Ensures, is_get_iff, is_post_iff,
}

module _ {W : Type 0} (Q : Reply → W → Type 0) (E : Exception → W → Type 0) (w : W) {Info : Type 0}
    (O : Onion) (H : CollectorApi W Info) (parse : Bytes → Result Info) (no_info : Info)
    (req : Request) where
  -- What the routes of the collector ask of its handlers: a question comes with GET, a request
  -- with POST and what was parsed of its body; nothing catches what the parser throws.
  pub record CollectorPromises : Type 0 where
    pub ping_kept : req.method ≡ get → Ensures (H.ping w) Q E
    pub info_kept :
        (r : Info)
        → req.method ≡ post
        → get_post_data parse no_info req.body ≡ ok r
        → Ensures (H.info r w) Q E
    pub info_raised :
        (e : Exception) → req.method ≡ post → get_post_data parse no_info req.body ≡ raise e → E e w
    pub meta_kept : req.method ≡ get → Ensures (H.meta (O.group meta_url req.path) w) Q E
    pub bad_method_kept : Q bad_method w
    pub not_implemented_kept : Q not_implemented w

  -- A request for the collector's router ends as the promises say.
  pub collector_dispatch :
      IsOnion O
      → CollectorPromises
      → Ensures (dispatch O (collector_routes O H parse no_info) req w) (Answered Q E w) E
  unfolding ping_route info_route meta_route processed
  collector_dispatch laws k =
      dispatch-Ensures Q E w O req (collector_routes O H parse no_info) laws
        (inr (inr (inr (inl (laws.any_matches req.path)))))
        (
          (λ m.
              processed-Ensures Q E w (ping_route O H parse no_info req)
                (asked H.ping k.ping_kept)),
          (
            (λ m. processed-Ensures Q E w (info_route O H parse no_info req) (
                check_method-Ensures Q E w (is_post req.method)
                  (λ w. elim (get_post_data parse no_info req.body) [
                    | ok ireq ↦ H.info ireq w
                    | raise e ↦ throws e w
                  ])
                  (λ p. told (get_post_data parse no_info req.body) refl (is_post_iff req.method p))
                  (λ b. k.bad_method_kept))),
            (
              (λ m.
                  processed-Ensures Q E w (meta_route O H parse no_info req)
                    (asked (H.meta (O.group meta_url req.path)) k.meta_kept)),
              ((λ m. k.not_implemented_kept), tt),
            ),
          ),
        )
    where
      asked :
          (rest : Handler W)
          → (req.method ≡ get → Ensures (rest w) Q E)
          → Ensures (check_method (is_get req.method) rest w) Q E
      asked rest h =
          check_method-Ensures Q E w (is_get req.method) rest (λ g. h (is_get_iff _ g))
            (λ b. k.bad_method_kept)

      told :
          (r : Result Info)
          → get_post_data parse no_info req.body ≡ r
          → req.method ≡ post
          → Ensures (elim r [ ok ireq ↦ H.info ireq w | raise e ↦ throws e w ]) Q E
      told (ok ireq) e p = k.info_kept ireq p e
      told (raise x) e p = k.info_raised x p e
