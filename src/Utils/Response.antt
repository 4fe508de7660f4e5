-- ===== src/Utils/Response.antt =====
-- ResponseCode and deliverResponse of agent/server/impl/Utils.h. The library onion sends a
-- response with the code 200 unless another is set; the printers of JSON are parameters.
use oort_agent.Base.{ℕ, Bytes, Result, ok, then_ok}

pub data Code : Type 0 where
  http_ok : Code
  http_bad_request : Code

abbrev pub status_of : Code → ℕ
status_of http_ok = 200
status_of http_bad_request = 400

-- With the code Ok the result counts, and otherwise the message of `err`.
pub data ResponseCode (A : Type 0) : Type 0 where
  answer : A → ResponseCode A
  refusal : Bytes → ResponseCode A

abbrev pub code : {A : Type 0} → ResponseCode A → Code
code (answer a) = http_ok
code (refusal message) = http_bad_request

pub record ErrorResponse : Type 0 where
  pub status : ℕ
  pub message : Bytes

-- What goes out.
pub record Reply : Type 0 where
  pub status : ℕ
  pub body : Bytes

-- to_jsonstr may throw: `dump` does on a text that is not UTF-8.
unfoldable pub deliver_response :
    {A : Type 0}
    → (A → Result Bytes)
    → (ErrorResponse → Result Bytes)
    → ResponseCode A
    → Result Reply
deliver_response to_json error_to_json (answer a) =
    then_ok (to_json a) λ text. ok (record { status = 200; body = text })
deliver_response to_json error_to_json (refusal message) =
    then_ok (error_to_json (record { status = status_of http_bad_request; message = message }))
      λ text. ok (record { status = status_of http_bad_request; body = text })
