-- ===== src/Adcs/Geometry.antt =====
-- The derived values of agent/server/impl/Adcs.cpp: angles, latitude, longitude and altitude.
use oort_agent.Base.{codes, if◌then◌else◌, pos}
use oort_agent.Adaptor.{Quat, Xyz}
use oort_agent.Adcs.Numbers.{Arithmetic}

pub record Euler (A : Type 0) : Type 0 where
  pub roll : A
  pub pitch : A
  pub yaw : A

module _ (N : Arithmetic) where
  abbrev pub r_earth : N.Double
  r_earth = N.literal (codes "6371000.0")

  -- The literals 2.0 and 0.0.
  abbrev pub two : N.Double
  two = N.literal (codes "2.0")

  abbrev pub nought : N.Double
  nought = N.literal (codes "0.0")

  abbrev pub one : N.Double
  one = N.literal (codes "1.0")

  abbrev pub rad2deg : N.Double → N.Double
  rad2deg a = N.mul (N.div (N.literal (codes "180.0")) N.m_pi) a

  unfoldable pub acos_safe : N.Double → N.Double
  acos_safe a = if N.lt one (N.fabs a) then N.acos (N.copysign one a) else N.acos a

  unfoldable pub asin_safe : N.Double → N.Double
  asin_safe a = if N.lt one (N.fabs a) then N.asin (N.copysign one a) else N.asin a

  -- `2 * M_PI`, the integer converted.
  abbrev pub two_pi : N.Double
  two_pi = N.mul (N.of_int (pos 2)) N.m_pi

  -- `theta < 0.0` brings theta into the circle.
  abbrev pub positive_angle : N.Double → N.Double
  positive_angle theta = if N.lt theta nought then N.add theta two_pi else theta

  unfoldable pub get_gha : N.Double → N.Double
  get_gha unix_timestamp =
      let jd =
        N.add (N.div unix_timestamp (N.of_int (pos 86400))) (N.literal (codes "2440587.5")) in
      let c1 = N.literal (codes "1.72027916940703639e-2") in
      let c1p2p = N.add c1 two_pi in
      let thgr70 = N.literal (codes "1.7321343856509374") in
      let fk5r = N.literal (codes "5.07551419432269442e-15") in
      let days50 = N.sub (N.sub jd (N.literal (codes "2400000.5"))) (N.literal (codes "33281.0")) in
      let ts70 = N.sub days50 (N.literal (codes "7305.0")) in
      let ids70 = N.to_int (N.add ts70 (N.literal (codes "1.0e-8"))) in
      let ds70 = N.of_int ids70 in
      let trfac = N.sub ts70 ds70 in
      let theta =
        N.add (N.add (N.add thgr70 (N.mul c1 ds70)) (N.mul c1p2p trfac))
          (N.mul (N.mul ts70 ts70) fk5r) in
      positive_angle (N.fmod theta two_pi)

  -- The overload for the API's vectors; no call is made of the other.
  unfoldable pub xyz_norm : Xyz N.Api → N.Double
  xyz_norm v =
      N.sqrt
        (N.add (N.add (N.pow (N.of_api v.x) 2) (N.pow (N.of_api v.y) 2)) (N.pow (N.of_api v.z) 2))

  unfoldable pub derive_control_error_angle_deg : Quat N.Float → N.Double
  unfolding acos_safe
  derive_control_error_angle_deg control_error_q =
      N.mul two (rad2deg (acos_safe (N.widen control_error_q.q4)))

  -- Products of fields are products of floats; pow takes and gives doubles.
  abbrev dcm_00 : Quat N.Float → N.Double
  dcm_00 q =
      N.sub
        (N.sub (N.add (N.pow (N.widen q.q4) 2) (N.pow (N.widen q.q1) 2)) (N.pow (N.widen q.q2) 2))
        (N.pow (N.widen q.q3) 2)

  abbrev dcm_01 : Quat N.Float → N.Double
  dcm_01 q = N.mul two (N.widen (N.fadd (N.fmul q.q1 q.q2) (N.fmul q.q3 q.q4)))

  abbrev pub dcm_02 : Quat N.Float → N.Double
  dcm_02 q = N.mul two (N.widen (N.fsub (N.fmul q.q1 q.q3) (N.fmul q.q2 q.q4)))

  abbrev dcm_12 : Quat N.Float → N.Double
  dcm_12 q = N.mul two (N.widen (N.fadd (N.fmul q.q2 q.q3) (N.fmul q.q1 q.q4)))

  abbrev dcm_22 : Quat N.Float → N.Double
  dcm_22 q =
      N.add
        (N.sub (N.sub (N.pow (N.widen q.q4) 2) (N.pow (N.widen q.q1) 2)) (N.pow (N.widen q.q2) 2))
        (N.pow (N.widen q.q3) 2)

  unfoldable pub derive_euler_angles : Quat N.Float → Euler N.Api
  unfolding asin_safe
  derive_euler_angles q = record {
    roll = N.to_api (rad2deg (N.atan2 (dcm_12 q) (dcm_22 q)));
    pitch = N.to_api (rad2deg (asin_safe (N.neg (dcm_02 q))));
    yaw = N.to_api (rad2deg (N.atan2 (dcm_01 q) (dcm_00 q)));
  }

  unfoldable pub derive_lat_deg : Xyz N.Api → N.Double
  unfolding xyz_norm asin_safe
  derive_lat_deg r_ecef =
      let r_sat = xyz_norm r_ecef in
      if N.lt r_earth r_sat then rad2deg (asin_safe (N.div (N.of_api r_ecef.z) r_sat)) else nought

  unfoldable pub derive_lon_deg : Xyz N.Api → N.Double
  unfolding xyz_norm
  derive_lon_deg r_ecef =
      let r_sat = xyz_norm r_ecef in
      if N.lt r_earth r_sat
      then rad2deg (N.atan2 (N.div (N.of_api r_ecef.y) r_sat) (N.div (N.of_api r_ecef.x) r_sat))
      else nought

  unfoldable pub derive_altitude : Xyz N.Api → N.Double
  unfolding xyz_norm
  derive_altitude r_ecef =
      let r_sat = xyz_norm r_ecef in if N.lt r_earth r_sat then N.sub r_sat r_earth else nought

  unfoldable pub derive_r_ecef : N.Double → Xyz N.Float → Xyz N.Api
  unfolding get_gha
  derive_r_ecef unix_timestamp r_eci =
      let gha = get_gha unix_timestamp in
      record {
        x =
            N.to_api
              (N.add (N.mul (N.cos gha) (N.widen r_eci.x)) (N.mul (N.sin gha) (N.widen r_eci.y)));
        y = N.to_api (
            N.add (N.mul (N.neg (N.sin gha)) (N.widen r_eci.x))
              (N.mul (N.cos gha) (N.widen r_eci.y)));
        z = N.to_api (N.widen r_eci.z);
      }
