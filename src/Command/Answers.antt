-- ===== src/Command/Answers.antt =====
-- What Agent::adcs_command (agent/server/impl/Agent.cpp) answers.
use oort_agent.Base.{
  ℕ, zero, suc, ◌≡◌, ◌≢◌, refl, inl, inr, Bool, true, false, not, ◌||◌, Bool-cases, ◌++◌, Bytes,
  codes, bytes_eq, if◌then◌else◌, Exception, Result, ok, raise, then_ok, ◌∙◌, ℤ, arith,
}
use oort_agent.Posix.{FileSystem}
use oort_agent.Utils.Response.{ResponseCode, answer, refusal}
use oort_agent.Agent.Query.{what}
use oort_agent.Adaptor.{
  AdcsCommandRequest, AdcsCommandResponse, UavRequest, adapt_request, adapt_response,
}
use oort_agent.Adaptor.Requests.{adapt_request_lem, IsSendable}
use oort_agent.Command.{
  BusReply, failure, is_positive, read_reply, client_command, adcs_command, deliver,
}

module _ {A B : Type 0} (to_uav : A → B) (to_api : B → A) (to_string : ℤ → Bytes)
    (bus : UavRequest B → Result (BusReply B)) (F : FileSystem) where
  delivered :
      (x r : AdcsCommandResponse A)
      → deliver to_uav to_api to_string bus x ≡ answer r
      → (bytes_eq x.status (codes "OK") ≡ true) × (r ≡ x)
  delivered x r e = go (bytes_eq x.status (codes "OK")) refl e
    where
      go :
          (b : Bool)
          → bytes_eq x.status (codes "OK") ≡ b
          → (if b then answer x else refusal x.reason) ≡ answer r
          → (bytes_eq x.status (codes "OK") ≡ true) × (r ≡ x)
      go true h q = (h, cc)
      go false h q = absurd cc

  -- A failure is never delivered as a result.
  not_failed :
      (m : Bytes) (r : AdcsCommandResponse A)
      → deliver to_uav to_api to_string bus (failure m) ≡ answer r
      → ⊥
  unfolding bytes_eq
  not_failed m r e = cc

  -- The result is the reply of a successful call of the bus.
  abbrev pub IsReplied : AdcsCommandRequest A → AdcsCommandResponse A → Type 0
  IsReplied req r =
      (u : UavRequest B) × (reply : BusReply B) × (adapt_request to_uav req ≡ ok u)
      × IsSendable u
      × (bus u ≡ ok reply)
      × (reply.was_successful ≡ true)
      × (r ≡ adapt_response to_api reply.response)

  -- The exception is one of the bus.
  abbrev pub IsThrown : AdcsCommandRequest A → Exception → Type 0
  IsThrown req e =
      (u : UavRequest B) × (adapt_request to_uav req ≡ ok u) × IsSendable u × (bus u ≡ raise e)

  succeeded : (a b : Bool) → not a || not b ≡ false → b ≡ true
  succeeded a b h = ground (arith, h)

  read :
      (reply : BusReply B) (r : AdcsCommandResponse A)
      → deliver to_uav to_api to_string bus (read_reply to_uav to_api to_string bus reply)
        ≡ answer r
      → (reply.was_successful ≡ true) × (r ≡ adapt_response to_api reply.response)
  unfolding read_reply
  read reply r d =
      elim (Bool-cases (not (is_positive reply.can_stat) || not reply.was_successful)) [
        | inl bad ↦ absurd (
            not_failed (codes "Error contacting service: " ++ to_string reply.can_stat) r
              (rw (bad, read_reply) at d))
        | inr good ↦ (
          succeeded (is_positive reply.can_stat) reply.was_successful good,
          (delivered (adapt_response to_api reply.response) r (rw (good, read_reply) at d)).1,
        )
      ]

  -- How the call behind the latch ends.
  abbrev Called : AdcsCommandRequest A → Result (ResponseCode (AdcsCommandResponse A)) → Type 0
  Called req result =
      ((r : AdcsCommandResponse A) → result ≡ ok (answer r) → IsReplied req r)
      × ((e : Exception) → result ≡ raise e → IsThrown req e)

  abbrev called : AdcsCommandRequest A → Result (ResponseCode (AdcsCommandResponse A))
  called req =
      then_ok (client_command to_uav to_api to_string bus F req)
        λ result. ok (deliver to_uav to_api to_string bus result)

  client_good :
      (req : AdcsCommandRequest A) (u : UavRequest B)
      → adapt_request to_uav req ≡ ok u
      → client_command to_uav to_api to_string bus F req
        ≡ then_ok (bus u) λ reply. ok (read_reply to_uav to_api to_string bus reply)
  unfolding client_command
  client_good req u q = rw (q, client_command) refl

  client_bad :
      (req : AdcsCommandRequest A) (e : Exception)
      → adapt_request to_uav req ≡ raise e
      → client_command to_uav to_api to_string bus F req ≡ ok (failure (what F e))
  unfolding client_command
  client_bad req e q = rw (q, client_command) refl

  sent : (req : AdcsCommandRequest A) → Called req (called req)
  sent req = elim (adapt_request_lem to_uav req) [
    | inr (m, q, why) ↦
        rw (client_bad req _ q)
          ((λ r e. absurd (not_failed _ r (ok_injective e))), (λ e x. absurd cc))
    | inl (u, q, fits) ↦ rw (client_good req u q) (answered u q fits (bus u) refl)
  ]
    where
      ok_injective : {R : Type 0} {x y : R} → ok x ≡ ok y → x ≡ y
      ok_injective e = cc

      raise_same :
          (y x : Exception)
          → ◌≡◌ {A = Result (ResponseCode (AdcsCommandResponse A))} (raise y) (raise x)
          → ◌≡◌ {A = Result (BusReply B)} (raise y) (raise x)
      raise_same y x d = cc

      answered :
          (u : UavRequest B)
          → adapt_request to_uav req ≡ ok u
          → IsSendable u
          → (b : Result (BusReply B)) → bus u ≡ b
          → Called req (
              then_ok
                (then_ok b λ reply. ok (read_reply to_uav to_api to_string bus reply))
                λ result. ok (deliver to_uav to_api to_string bus result))
      answered u q fits (ok reply) e = (
        (λ r d.
            let (success, same) = read reply r (ok_injective d) in
            (u, reply, q, fits, e, success, same)),
        (λ x d. absurd cc),
      )
      answered u q fits (raise y) e =
          ((λ r d. absurd cc), (λ x d. (u, q, fits, e ∙ raise_same y x d)))

  pub adcs_command_lem :
      (has_client : Bool) (req : AdcsCommandRequest A) (latch : ℕ)
      → let called = adcs_command to_uav to_api to_string bus F has_client req latch in
        (called.1 ≡ latch)
        × ((r : AdcsCommandResponse A)
            → called.0 ≡ ok (answer r)
            → (has_client ≡ true) × (latch ≢ 0) × IsReplied req r)
        × ((e : Exception)
            → called.0 ≡ raise e
            → (has_client ≡ true) × (latch ≢ 0) × IsThrown req e)
  unfolding adcs_command
  adcs_command_lem false req latch = (refl, (λ r e. absurd cc), (λ x e. absurd cc))
  adcs_command_lem true req zero = (refl, (λ r e. absurd cc), (λ x e. absurd cc))
  adcs_command_lem true req (suc n) = (
    refl,
    (λ r e. (refl, (λ z. absurd (omega arith)), (sent req).0 r e)),
    (λ x e. (refl, (λ z. absurd (omega arith)), (sent req).1 x e)),
  )
