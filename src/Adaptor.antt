-- ===== src/Adaptor.antt =====
-- agent/server/impl/Adaptor.h and Adaptor.cpp: the conversions between the types of the UAVCAN bus
-- and those of the HTTP API. Both sides' types are generated: what the code reads and sets of them
-- are records here, with the numbers of each side as a type and the conversions as parameters.
pub mod Modes
pub mod Requests
use oort_agent.Base.{
  ℕ, ◌+◌, Bool, true, false, Option, none, some, List, [], ◌∷◌, ◌++◌, Bytes, codes, bytes_eq,
  length, ltb, ◌==◌, if◌then◌else◌, Result, ok, raise, runtime_error, then_ok,
}

-- The cases of a switch, and the tests of a chain of `if`s, with what is returned for each.
unfoldable pub switch : List (ℕ × Bytes) → ℕ → Bytes → Bytes
switch [] code default = default
switch ((c, name) ∷ cases) code default =
    let rest = switch cases code default in if code == c then name else rest

unfoldable pub chain : List (Bytes × ℕ) → Bytes → ℕ → ℕ
chain [] src default = default
chain ((name, c) ∷ tests) src default =
    let rest = chain tests src default in if bytes_eq src name then c else rest

-- The table of DecodeAcsMode.
abbrev pub decode_cases : List (ℕ × Bytes)
decode_cases =
    (0, codes "NO-OP")
    ∷ (1, codes "BDOT")
    ∷ (2, codes "DETUMBLE")
    ∷ (3, codes "SUNPOINT")
    ∷ (4, codes "NADIRPOINTYAW")
    ∷ (5, codes "SUNSPIN")
    ∷ (6, codes "NADIRPOINTSUN")
    ∷ (7, codes "SUNPOINTNADIR")
    ∷ (8, codes "LATLONTRACK")
    ∷ (9, codes "INERTIALPOINT")
    ∷ []

-- The table of EncodeAcsMode.
abbrev pub encode_tests : List (Bytes × ℕ)
encode_tests =
    (codes "NO-OP", 0)
    ∷ (codes "BDOT", 1)
    ∷ (codes "DETUMBLE", 2)
    ∷ (codes "SUNPOINT", 3)
    ∷ (codes "NADIRPOINTYAW", 4)
    ∷ (codes "SUNSPIN", 5)
    ∷ (codes "NADIRPOINTSUN", 6)
    ∷ (codes "SUNPOINTNADIR", 7)
    ∷ (codes "LATLONTRACK", 8)
    ∷ (codes "INERTIALPOINT", 9)
    ∷ []

unfoldable pub decode_acs_mode : ℕ → Bytes
unfolding switch
decode_acs_mode mode = switch decode_cases mode (codes "UNKNOWN")

unfoldable pub encode_acs_mode : Bytes → ℕ
unfolding chain bytes_eq
encode_acs_mode src = chain encode_tests src 255

pub record Quat (A : Type 0) : Type 0 where
  pub q1 : A
  pub q2 : A
  pub q3 : A
  pub q4 : A

pub record Xyz (A : Type 0) : Type 0 where
  pub x : A
  pub y : A
  pub z : A

pub record Target (A : Type 0) : Type 0 where
  pub lat : A
  pub lon : A

-- The overloads of Adapt for these; `number` converts between the numbers of the two sides.
abbrev pub adapt_quat : {A B : Type 0} → (A → B) → Quat A → Quat B
adapt_quat number src = record {
  q1 = number src.q1;
  q2 = number src.q2;
  q3 = number src.q3;
  q4 = number src.q4;
}

abbrev pub adapt_xyz : {A B : Type 0} → (A → B) → Xyz A → Xyz B
adapt_xyz number src = record { x = number src.x; y = number src.y; z = number src.z }

abbrev pub adapt_target : {A B : Type 0} → (A → B) → Target A → Target B
adapt_target number src = record { lat = number src.lat; lon = number src.lon }

-- An optional field of the API, and a UAVCAN array of at most one element.
abbrev pub to_array : {A B : Type 0} → (A → B) → Option A → List B
to_array f none = []
to_array f (some a) = f a ∷ []

abbrev pub front : {A B : Type 0} → (A → B) → List A → Option B
front f [] = none
front f (a ∷ rest) = some (f a)

-- What a `const char *` of a text shows: the text up to its first NUL.
unfoldable pub c_str : Bytes → Bytes
c_str [] = []
c_str (b ∷ s) = let rest = c_str s in if b == 0 then [] else b ∷ rest

pub record AdcsCommandRequest (A : Type 0) : Type 0 where
  pub command : Bytes
  pub aperture : Option Bytes
  pub target : Option (Target A)
  pub angle : Option A
  pub quat : Option (Quat A)
  pub vector : Option (Xyz A)

pub record UavRequest (B : Type 0) : Type 0 where
  pub adcs_command : ℕ
  pub aperture : Bytes
  pub target : List (Target B)
  pub angle : List B
  pub quat : List (Quat B)
  pub vector : List (Xyz B)

pub record AdcsCommandResponse (A : Type 0) : Type 0 where
  pub status : Bytes
  pub reason : Bytes
  pub mode : Bytes
  pub target : Option (Target A)
  pub quat : Option (Quat A)
  pub vector : Option (Xyz A)

pub record UavResponse (B : Type 0) : Type 0 where
  pub status : ℕ
  pub reason : Bytes
  pub mode : ℕ
  pub target : List (Target B)
  pub quat : List (Quat B)
  pub vector : List (Xyz B)

-- `u_req.aperture.capacity()`, of the service's definition.
abbrev pub aperture_capacity : ℕ
aperture_capacity = 25

unfoldable pub adapt_command : Bytes → Result ℕ
unfolding bytes_eq
adapt_command mode =
    if bytes_eq mode (codes "IDLE")
    then ok 0
    else if bytes_eq mode (codes "NADIR")
    then ok 1
    else if bytes_eq mode (codes "TRACK")
    then ok 2
    else raise (runtime_error (codes "Cannot translate command " ++ mode))

-- A request that names no aperture has none in the array.
unfoldable pub adapt_aperture : Option Bytes → Result Bytes
unfolding c_str
adapt_aperture none = ok []
adapt_aperture (some ap) =
    if ltb aperture_capacity (length ap)
    then raise (runtime_error (codes "Invalid aperture specification"))
    else ok (c_str ap)

unfoldable pub adapt_request :
    {A B : Type 0} → (A → B) → AdcsCommandRequest A → Result (UavRequest B)
unfolding adapt_command adapt_aperture
adapt_request number o_req = then_ok (adapt_command o_req.command) λ command.
    then_ok (adapt_aperture o_req.aperture) λ aperture. ok (record {
      adcs_command = command;
      aperture = aperture;
      target = to_array (adapt_target number) o_req.target;
      angle = to_array number o_req.angle;
      quat = to_array (adapt_quat number) o_req.quat;
      vector = to_array (adapt_xyz number) o_req.vector;
    })

abbrev pub status_name : ℕ → Bytes
status_name status =
    if status == 0 then codes "OK" else if status == 1 then codes "FAIL" else codes "UNKNOWN"

unfoldable pub adapt_response : {A B : Type 0} → (B → A) → UavResponse B → AdcsCommandResponse A
unfolding decode_acs_mode c_str
adapt_response number u_resp = record {
  status = status_name u_resp.status;
  reason = c_str u_resp.reason;
  mode = decode_acs_mode u_resp.mode;
  target = front (adapt_target number) u_resp.target;
  quat = front (adapt_quat number) u_resp.quat;
  vector = front (adapt_xyz number) u_resp.vector;
}
