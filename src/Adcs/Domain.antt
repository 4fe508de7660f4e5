-- ===== src/Adcs/Domain.antt =====
-- Where agent/server/impl/Adcs.cpp takes inverse sines and cosines, and when it gives a place at
-- all.
use oort_agent.Base.{◌≡◌, refl, ◌⊎◌, inl, inr, true, false, Bool, Bool-cases, if◌then◌else◌, ℕ, ℤ}
use oort_agent.Adcs.Numbers.{Arithmetic, IsSound}
use oort_agent.Adcs.Geometry.{
  acos_safe, asin_safe, one, two, nought, r_earth, rad2deg, dcm_02, xyz_norm, derive_euler_angles,
  derive_control_error_angle_deg, derive_lat_deg, derive_lon_deg, derive_altitude,
}
use oort_agent.Adaptor.{Xyz}
use oort_agent.Adcs.{Feed, AdcsHk, convert}

module _ (N : Arithmetic) where
  -- What a clamped argument is: 1 above 1, -1 below -1, and otherwise, in the domain of the
  -- inverse functions or not a number, the argument itself.
  abbrev pub Clamped : N.Double → N.Double → Type 0
  Clamped a b =
      ((N.lt (one N) a ≡ true) × (b ≡ one N))
      ⊎ (((N.lt a (N.neg (one N)) ≡ true) × (b ≡ N.neg (one N)))
          ⊎ ((N.lt (one N) a ≡ false) × (N.lt a (N.neg (one N)) ≡ false) × (b ≡ a)))

  -- The value of `f` at a clamped argument.
  abbrev pub At : (N.Double → N.Double) → N.Double → N.Double → Type 0
  At f a v = (b : N.Double) × Clamped a b × (v ≡ f b)

  module _ (s : IsSound N) where
    clamp :
        (f : N.Double → N.Double) (a : N.Double)
        → At f a (if N.lt (one N) (N.fabs a) then f (N.copysign (one N) a) else f a)
    clamp f a = elim (Bool-cases (N.lt (one N) (N.fabs a))) [
      | inl out ↦ (N.copysign (one N) a, outer (s.fabs_splits a out), rw out refl)
      | inr inside ↦ (
        a,
        inr (
            inr (
              within (N.lt (one N) a) inside (s.fabs_above a),
              within (N.lt a (N.neg (one N))) inside (s.fabs_below a),
              refl,
            )),
        rw inside refl,
      )
    ]
      where
        outer :
            (N.lt (one N) a ≡ true) ⊎ (N.lt a (N.neg (one N)) ≡ true)
            → Clamped a (N.copysign (one N) a)
        outer (inl above) = inl (above, s.copysign_above a above)
        outer (inr below) = inr (inl (below, s.copysign_below a below))

        within :
            (b : Bool)
            → N.lt (one N) (N.fabs a) ≡ false
            → (b ≡ true → N.lt (one N) (N.fabs a) ≡ true)
            → b ≡ false
        within false i h = refl
        within true i h = absurd (clash (N.lt (one N) (N.fabs a)) (h refl) i)
          where
            clash : (c : Bool) → c ≡ true → c ≡ false → ⊥
            clash c t f = cc

    acos_safe-At : (a : N.Double) → At N.acos a (acos_safe N a)
    unfolding acos_safe
    acos_safe-At a = clamp N.acos a

    asin_safe-At : (a : N.Double) → At N.asin a (asin_safe N a)
    unfolding asin_safe
    asin_safe-At a = clamp N.asin a

    -- Latitude, longitude and altitude for a position: all three are 0 unless the position is
    -- above the surface.
    abbrev pub IsPlace : Xyz N.Api → N.Api → N.Api → N.Api → Type 0
    IsPlace r lat lon altitude =
        ((N.lt (r_earth N) (xyz_norm N r) ≡ false)
          × (lat ≡ N.to_api (nought N))
          × (lon ≡ N.to_api (nought N))
          × (altitude ≡ N.to_api (nought N)))
        ⊎ ((N.lt (r_earth N) (xyz_norm N r) ≡ true)
            × ((v : N.Double) × At N.asin (N.div (N.of_api r.z) (xyz_norm N r)) v
                × (lat ≡ N.to_api (rad2deg N v)))
            × (altitude ≡ N.to_api (N.sub (xyz_norm N r) (r_earth N))))

    derive-IsPlace :
        (r : Xyz N.Api)
        → IsPlace r
            (N.to_api (derive_lat_deg N r))
            (N.to_api (derive_lon_deg N r))
            (N.to_api (derive_altitude N r))
    unfolding derive_lat_deg derive_lon_deg derive_altitude
    derive-IsPlace r = elim (Bool-cases (N.lt (r_earth N) (xyz_norm N r))) [
      | inl above ↦ inr (
        above,
        (asin_safe N (N.div (N.of_api r.z) (xyz_norm N r)), asin_safe-At _, rw above refl),
        rw above refl,
      )
      | inr below ↦ inl (below, rw below refl, rw below refl, rw below refl)
    ]

    -- For copysign and fabs as C documents them: in the housekeeping data made of a message, the
    -- control error angle and the pitch are taken from an inverse cosine or sine at the clamped
    -- argument, which is 1 for one above 1, -1 for one below -1, and any other argument itself;
    -- the place is 0 in latitude, longitude and altitude unless the position is above the surface,
    -- and then the latitude too is taken at a clamped argument.
    pub convert_domain :
        (to_integer : ℕ → ℤ) (old : AdcsHk N) (feed : Feed N)
        → let hk = convert N to_integer old feed in
          ((v : N.Double) × At N.acos (N.widen feed.control_error_q.q4) v
            × (hk.control_error_angle_deg ≡ N.to_api (N.mul (two N) (rad2deg N v))))
          × ((v : N.Double) × At N.asin (N.neg (dcm_02 N feed.q_bo_est)) v
              × (hk.euler_angles.pitch ≡ N.to_api (rad2deg N v)))
          × IsPlace hk.r_ecef hk.lat_deg hk.lon_deg hk.altitude
    unfolding convert derive_euler_angles derive_control_error_angle_deg
    convert_domain to_integer old feed = (
      (acos_safe N (N.widen feed.control_error_q.q4), acos_safe-At _, refl),
      (asin_safe N (N.neg (dcm_02 N feed.q_bo_est)), asin_safe-At _, refl),
      derive-IsPlace _,
    )
