-- ===== src/Health/Bounded.antt =====
-- What the health check (agent/server/impl/AgentUAVCANServer.cpp) answers fits the service's
-- arrays.
use oort_agent.Base.{
  ℕ, ◌+◌, ◌%◌, ◌≤◌, ◌≡◌, sym, ◌∙◌, [], ◌∷◌, Bytes, codes, length, length-append, arith,
}
use oort_agent.Health.{
  value, JsonLib, ProcessRun, exited, not_run, Response, Parsed, parsed, stopped, Rest, step,
  push_all, push_imetric, push_imetric_feed, push_fmetric, push_fmetric_feed, push_metrics,
  read_header, parse_healthcheck_response, is_version, read_valid, answer_of, health_check,
}
use oort_agent.Health.Ends.{
  Within, IsBounded, state_of, Ends, weak, step-Ends, require-Ends, push_all-Ends,
  validate_array-Ends,
}

module _ (L : JsonLib) where
  abbrev Bounded : Response L → Type 0
  Bounded = IsBounded L

  -- An array of the object that was found to be short.
  abbrev IsShort : L.Json → Bytes → Type 0
  IsShort j name = (b : L.Json) × (L.at j name ≡ value b) × (length (L.elements b) ≤ 255)

  short :
      (j : L.Json) (name : Bytes) (b : L.Json)
      → IsShort j name
      → L.at j name ≡ value b
      → length (L.elements b) ≤ 255
  short j name b (a, e, h) d = rw (same a b (sym e ∙ d)) h
    where
      same : (a b : L.Json) → value a ≡ value b → b ≡ a
      same a b q = cc

  floats :
      (j : L.Json) (r : Response L) (na nb : ℕ)
      → na ≤ 255
      → nb ≤ 255
      → IsShort j (codes "float_metrics")
      → IsShort j (codes "float_metric_counts")
      → Within L na nb 0 0 r
      → Ends L Bounded (
          step L
            (L.at j (codes "float_metrics"))
            (λ c. push_all L L.get_float (push_fmetric L) (L.elements c) (
              step L
                (L.at j (codes "float_metric_counts"))
                (λ d. push_all L L.get_uint32 (push_fmetric_feed L) (L.elements d) parsed)))
            r)
  unfolding Ends state_of
  floats j r na nb ha hb fm fc h =
      step-Ends L Bounded (L.at j (codes "float_metrics")) _ r (weak L na nb 0 0 r ha hb z z h)
        λ c e.
          let lc = short j (codes "float_metrics") c fm e in
          let nc = 0 + length (L.elements c) in
          push_all-Ends L Bounded L.get_float (push_fmetric L) (λ n. Within L na nb n 0)
            (λ n x r h.
              let (i, j, k, l) = h in (i, j, omega (arith, length-append r.fmetric (x ∷ []), k), l))
            (λ n r t h. weak L na nb n 0 r ha hb t z h) (L.elements c) _ 0 r h (omega (arith, lc))
            λ r h.
              step-Ends L Bounded (L.at j (codes "float_metric_counts")) _ r
                (weak L na nb nc 0 r ha hb (omega (arith, lc)) z h)
                λ d e.
                  let ld = short j (codes "float_metric_counts") d fc e in
                  push_all-Ends L Bounded L.get_uint32 (push_fmetric_feed L)
                    (λ n. Within L na nb nc n)
                    (λ n x r h.
                      let (i, j, k, l) = h in
                      (i, j, k, omega (arith, length-append r.fmetric_feeds (x ∷ []), l)))
                    (λ n r t h. weak L na nb nc n r ha hb (omega (arith, lc)) t h) (L.elements d)
                    parsed 0 r h (omega (arith, ld))
                    λ r h.
                      weak L na nb nc (0 + length (L.elements d)) r ha hb (omega (arith, lc))
                        (omega (arith, ld)) h
    where
      z : 0 ≤ 255
      z = omega arith

  push_metrics-Ends :
      (j : L.Json) (r : Response L)
      → IsShort j (codes "int_metrics")
      → IsShort j (codes "int_metric_counts")
      → IsShort j (codes "float_metrics")
      → IsShort j (codes "float_metric_counts")
      → Within L 0 0 0 0 r
      → Ends L Bounded (push_metrics L j r)
  unfolding push_metrics Ends state_of
  push_metrics-Ends j r im ic fm fc h =
      step-Ends L Bounded (L.at j (codes "int_metrics")) _ r (weak L 0 0 0 0 r z z z z h) λ a e.
        let la = short j (codes "int_metrics") a im e in
        let na = 0 + length (L.elements a) in
        push_all-Ends L Bounded L.get_int32 (push_imetric L) (λ n. Within L n 0 0 0)
          (λ n x r h.
            let (i, j, k, l) = h in (omega (arith, length-append r.imetric (x ∷ []), i), j, k, l))
          (λ n r t h. weak L n 0 0 0 r t z z z h) (L.elements a) _ 0 r h (omega (arith, la))
          λ r h.
            step-Ends L Bounded (L.at j (codes "int_metric_counts")) _ r
              (weak L na 0 0 0 r (omega (arith, la)) z z z h)
              λ b e.
                let lb = short j (codes "int_metric_counts") b ic e in
                let nb = 0 + length (L.elements b) in
                push_all-Ends L Bounded L.get_uint32 (push_imetric_feed L) (λ n. Within L na n 0 0)
                  (λ n x r h.
                    let (i, j, k, l) = h in
                    (i, omega (arith, length-append r.imetric_feeds (x ∷ []), j), k, l))
                  (λ n r t h. weak L na n 0 0 r (omega (arith, la)) t z z h) (L.elements b) _ 0 r h
                  (omega (arith, lb))
                  λ r h. floats j r na nb (omega (arith, la)) (omega (arith, lb)) fm fc h
    where
      z : 0 ≤ 255
      z = omega arith

  read_header-Ends :
      (j : L.Json) (k : Rest L) (r : Response L)
      → Within L 0 0 0 0 r
      → ((r : Response L) → Within L 0 0 0 0 r → Ends L Bounded (k r))
      → Ends L Bounded (read_header L j k r)
  unfolding read_header
  read_header-Ends j k r h f = step-Ends L Bounded (L.at j (codes "schema_version")) _ r b λ v e.
      require-Ends L Bounded (L.is_number_unsigned v) _ _ r b λ e.
        step-Ends L Bounded (L.at j (codes "payload_timestamp")) _ r b λ t e.
          require-Ends L Bounded (L.is_number_unsigned t) _ _ r b λ e.
            step-Ends L Bounded (L.at j (codes "need_hard_reset")) _ r b λ i e.
              require-Ends L Bounded (L.is_boolean i) _ _ r b λ e.
                step-Ends L Bounded (L.get_uint32 v) _ r b λ version e.
                  step-Ends L Bounded (L.get_uint32 t) _ _ b
                    λ time e. step-Ends L Bounded (L.get_bool i) _ _ b λ reset e. f _ h
    where
      b : Bounded r
      b = weak L 0 0 0 0 r (omega arith) (omega arith) (omega arith) (omega arith) h

  read_valid-Ends :
      (j : L.Json) (s : Response L) → Within L 0 0 0 0 s → Ends L Bounded (read_valid L j s)
  unfolding read_valid
  read_valid-Ends j s h = validate_array-Ends L Bounded j (codes "int_metrics") _ s b λ im e lim.
      validate_array-Ends L Bounded j (codes "float_metrics") _ s b λ fm e' lfm.
        validate_array-Ends L Bounded j (codes "int_metric_counts") _ s b λ ic e'' lic.
          validate_array-Ends L Bounded j (codes "float_metric_counts") _ s b λ fc e3 lfc.
            read_header-Ends j (push_metrics L j) s h
              λ r h. push_metrics-Ends j r (im, e, lim) (ic, e'', lic) (fm, e', lfm) (fc, e3, lfc) h
    where
      b : Bounded s
      b = weak L 0 0 0 0 s (omega arith) (omega arith) (omega arith) (omega arith) h

  parse-Ends :
      (hk_output : Bytes) (s : Response L)
      → Within L 0 0 0 0 s
      → Ends L Bounded (parse_healthcheck_response L hk_output s)
  unfolding parse_healthcheck_response
  parse-Ends hk_output s h = step-Ends L Bounded (L.parse hk_output) _ s b λ j e.
      step-Ends L Bounded (L.at j (codes "version")) _ s b λ v e.
        step-Ends L Bounded (L.get_int64 v) _ s b λ version e.
          require-Ends L Bounded (is_version L version)
            (codes "Invalid version in JSON healthcheck response") (read_valid L j) s b
            λ e. read_valid-Ends j s h
    where
      b : Bounded s
      b = weak L 0 0 0 0 s (omega arith) (omega arith) (omega arith) (omega arith) h

  -- Whatever the process does and prints and whatever the JSON library makes of it, a response
  -- with empty arrays is filled with at most the 255 elements that each array of the service
  -- takes.
  pub health_check-IsBounded :
      (run : ProcessRun) (r : Response L) → Within L 0 0 0 0 r → IsBounded L (health_check L run r)
  unfolding health_check Ends state_of
  health_check-IsBounded (not_run f) r h =
      weak L 0 0 0 0 r (omega arith) (omega arith) (omega arith) (omega arith) h
  health_check-IsBounded (exited status hk_output) r h =
      answered (parse_healthcheck_response L hk_output s) (parse-Ends hk_output s h)
    where
      s : Response L
      s = record r { health_state = status % 256 }

      answered : (o : Parsed L) → Ends L Bounded o → Bounded (answer_of L o)
      answered (parsed r) h = h
      answered (stopped f r) h = h
