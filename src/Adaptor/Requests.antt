-- ===== src/Adaptor/Requests.antt =====
-- Which requests Adapt (agent/server/impl/Adaptor.cpp) takes, and what it makes of them.
use oort_agent.Base.{
  ℕ, ◌≤◌, ◌<◌, ◌≡◌, refl, ap, ◌⊎◌, inl, inr, false, Bool-cases, Option, none, some, [], ◌∷◌, Bytes,
  codes, bytes_eq, length, ltb, arith, ok, raise, runtime_error, ◌++◌, bytes_eq_iff, ltb→lt,
}
use oort_agent.Adaptor.{
  AdcsCommandRequest, UavRequest, adapt_command, adapt_aperture, adapt_request, c_str, to_array,
  adapt_target, adapt_quat, adapt_xyz, aperture_capacity,
}

c_str_shorter : (s : Bytes) → length (c_str s) ≤ length s
unfolding c_str
c_str_shorter [] = omega arith
c_str_shorter (b ∷ s) = ground (arith, c_str_shorter s)

adapt_command_lem :
    (mode : Bytes)
    → ((n : ℕ) × (adapt_command mode ≡ ok n) × (n < 3))
      ⊎ ((m : Bytes) × (adapt_command mode ≡ raise (runtime_error m))
          × ((mode ≡ codes "IDLE" → ⊥) × (mode ≡ codes "NADIR" → ⊥) × (mode ≡ codes "TRACK" → ⊥)))
unfolding adapt_command
adapt_command_lem mode = elim (Bool-cases (bytes_eq mode (codes "IDLE"))) [
  | inl idle ↦ inl (0, rw (idle, adapt_command) refl, omega arith)
  | inr no_idle ↦ elim (Bool-cases (bytes_eq mode (codes "NADIR"))) [
    | inl nadir ↦ inl (1, rw (no_idle, nadir, adapt_command) refl, omega arith)
    | inr no_nadir ↦ elim (Bool-cases (bytes_eq mode (codes "TRACK"))) [
      | inl track ↦ inl (2, rw (no_idle, no_nadir, track, adapt_command) refl, omega arith)
      | inr no_track ↦ inr (
        codes "Cannot translate command " ++ mode,
        rw (no_idle, no_nadir, no_track, adapt_command) refl,
        (
          differs mode (codes "IDLE") no_idle,
          differs mode (codes "NADIR") no_nadir,
          differs mode (codes "TRACK") no_track,
        ),
      )
    ]
  ]
]
  where
    differs : (a b : Bytes) → bytes_eq a b ≡ false → a ≡ b → ⊥
    differs a b h e = ground (arith, bytes_eq_iff a b)

adapt_aperture_lem :
    (aperture : Option Bytes)
    → ((ap : Bytes) × (adapt_aperture aperture ≡ ok ap) × (length ap ≤ aperture_capacity))
      ⊎ ((m : Bytes) × (adapt_aperture aperture ≡ raise (runtime_error m))
          × ((ap : Bytes) × (aperture ≡ some ap) × (aperture_capacity < length ap)))
unfolding adapt_aperture
adapt_aperture_lem none = inl ([], refl, omega arith)
adapt_aperture_lem (some ap) = elim (Bool-cases (ltb aperture_capacity (length ap))) [
  | inl long ↦ inr (
    codes "Invalid aperture specification",
    rw (long, adapt_aperture) refl,
    (ap, refl, ltb→lt _ _ long),
  )
  | inr fits ↦
      inl (c_str ap, rw (fits, adapt_aperture) refl, ground (arith, fits, c_str_shorter ap))
]

-- What the definition of the service allows.
abbrev pub IsSendable : {B : Type 0} → UavRequest B → Type 0
IsSendable u =
    (u.adcs_command < 3)
    × (length u.aperture ≤ 25)
    × (length u.target ≤ 1)
    × (length u.angle ≤ 1)
    × (length u.quat ≤ 1)
    × (length u.vector ≤ 1)

-- The command is none of the three.
abbrev pub IsUnknown : Bytes → Type 0
IsUnknown mode = (mode ≡ codes "IDLE" → ⊥) × (mode ≡ codes "NADIR" → ⊥) × (mode ≡ codes "TRACK" → ⊥)

to_array_short : {A B : Type 0} (f : A → B) (o : Option A) → length (to_array f o) ≤ 1
to_array_short f none = omega arith
to_array_short f (some a) = omega arith

-- A request is translated into one that the service definition allows, or the translation throws a
-- runtime_error and the command is none of the three or the aperture has more than 25 bytes.
pub adapt_request_lem :
    {A B : Type 0} (number : A → B) (req : AdcsCommandRequest A)
    → ((u : UavRequest B) × (adapt_request number req ≡ ok u) × IsSendable u)
      ⊎ ((m : Bytes) × (adapt_request number req ≡ raise (runtime_error m))
          × (IsUnknown req.command
              ⊎ ((ap : Bytes) × (req.aperture ≡ some ap) × (aperture_capacity < length ap))))
unfolding adapt_request
adapt_request_lem {A} {B} number req = elim (adapt_command_lem req.command) [
  | inr (m, e, unknown) ↦ inr (m, rw (e, adapt_request) refl, inl unknown)
  | inl (n, e, small) ↦ elim (adapt_aperture_lem req.aperture) [
    | inr (m, d, long) ↦ inr (m, rw (e, d, adapt_request) refl, inr long)
    | inl (ap, d, short) ↦
        let sent : UavRequest B = record {
          adcs_command = n;
          aperture = ap;
          target = to_array (adapt_target number) req.target;
          angle = to_array number req.angle;
          quat = to_array (adapt_quat number) req.quat;
          vector = to_array (adapt_xyz number) req.vector;
        } in
        inl (
          sent,
          rw (e, d, adapt_request) refl,
          (
            small,
            short,
            to_array_short _ req.target,
            to_array_short _ req.angle,
            to_array_short _ req.quat,
            to_array_short _ req.vector,
          ),
        )
  ]
]
