-- ===== src/Command.antt =====
-- The attitude control commands: Agent::adcs_command, adcs_get and tfrs_get of
-- agent/server/impl/Agent.cpp, AgentUAVCANClient::AdcsCommand of AgentUAVCANClient.cpp, and the
-- semaphore of Utils.cpp that lets one request through at a time. The blocking call of the bus is
-- a parameter.
pub mod Latch
pub mod Answers
pub mod Client
use oort_agent.Base.{
  ℕ, zero, suc, ◌+◌, ◌-◌, Bool, true, false, not, ◌||◌, Option, none, some, List, [], ◌∷◌, ◌++◌,
  Bytes, codes, bytes_eq, if◌then◌else◌, Exception, Result, ok, raise, runtime_error, then_ok, ℤ,
  pos, negsuc,
}
use oort_agent.Utils.Response.{ResponseCode, answer, refusal}
use oort_agent.Adaptor.{
  AdcsCommandRequest, AdcsCommandResponse, UavRequest, UavResponse, adapt_request, adapt_response,
}
use oort_agent.Agent.Query.{what}
use oort_agent.Posix.{FileSystem}

-- sem_trywait on the value of a semaphore: whether it succeeds, and the new value; and sem_post.
unfoldable pub trywait : ℕ → Bool × ℕ
trywait zero = (false, zero)
trywait (suc n) = (true, n)

unfoldable pub post : ℕ → ℕ
post n = suc n

-- `~sem_guard()`
unfoldable pub release : Bool → ℕ → ℕ
unfolding post
release owned n = if owned then post n else n

-- What comes back from the bus.
pub record BusReply (B : Type 0) : Type 0 where
  pub can_stat : ℤ
  pub was_successful : Bool
  pub response : UavResponse B

abbrev pub is_positive : ℤ → Bool
is_positive (pos zero) = false
is_positive (pos (suc n)) = true
is_positive (negsuc n) = false

-- A response of which the status and the reason are set.
abbrev pub failure : {A : Type 0} → Bytes → AdcsCommandResponse A
failure reason = record {
  status = codes "FAIL";
  reason = reason;
  mode = [];
  target = none;
  quat = none;
  vector = none;
}

module _ {A B : Type 0} (to_uav : A → B) (to_api : B → A) (to_string : ℤ → Bytes)
    (bus : UavRequest B → Result (BusReply B)) where
  -- Behind the conversion.
  unfoldable pub read_reply : BusReply B → AdcsCommandResponse A
  read_reply reply =
      if not (is_positive reply.can_stat) || not reply.was_successful
      then failure (codes "Error contacting service: " ++ to_string reply.can_stat)
      else adapt_response to_api reply.response

  -- AgentUAVCANClient::AdcsCommand. The conversion throws nothing but a `runtime_error`, which
  -- is caught, so that the other classes do not matter; what the call of the bus throws is not.
  unfoldable pub client_command :
      (F : FileSystem) → AdcsCommandRequest A → Result (AdcsCommandResponse A)
  unfolding read_reply
  client_command F req = elim (adapt_request to_uav req) [
    | raise e ↦ ok (failure (what F e))
    | ok can_req ↦ then_ok (bus can_req) λ reply. ok (read_reply reply)
  ]

  abbrev pub deliver : AdcsCommandResponse A → ResponseCode (AdcsCommandResponse A)
  deliver result =
      if bytes_eq result.status (codes "OK") then answer result else refusal result.reason

  -- Agent::adcs_command, with the value of the latch before and behind it. The guard releases it
  -- on a return and on an exception.
  unfoldable pub adcs_command :
      (F : FileSystem)
      → Bool
      → AdcsCommandRequest A
      → ℕ
      → Result (ResponseCode (AdcsCommandResponse A)) × ℕ
  unfolding client_command trywait release bytes_eq
  adcs_command F has_client req latch =
      if not has_client
      then (ok (refusal (codes "Adcs interface is unavailable")), latch)
      else if (trywait latch).0
      then (
        then_ok (client_command F req) (λ result. ok (deliver result)),
        release true (trywait latch).1,
      )
      else (ok (refusal (codes "Request in progress")), release false (trywait latch).1)

-- adcs_get and tfrs_get, for the answer of the manager if there is one.
unfoldable pub adcs_get : {A : Type 0} → Option A → ResponseCode A
adcs_get none = refusal (codes "Adcs interface is unavailable")
adcs_get (some response) = answer response

unfoldable pub tfrs_get : {A : Type 0} → Option A → ResponseCode A
tfrs_get none = refusal (codes "Tfrs interface is unavailable")
tfrs_get (some response) = answer response
