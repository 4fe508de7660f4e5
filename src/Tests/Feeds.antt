-- ===== src/Tests/Feeds.antt =====
-- The ADCS feed of agent/server/impl/Adcs.cpp at concrete data: numbers are natural numbers here,
-- for which a magnitude above 1 is brought back to 1.
use oort_agent.Base.{
  ℕ, ◌+◌, ◌-◌, ◌*◌, ◌/◌, ◌≡◌, inl, arith, refl, true, false, none, List, [], ◌∷◌, ltb, pos,
  pos_part,
}
use oort_agent.Adaptor.{Quat, Xyz}
use oort_agent.Adcs.Numbers.{Arithmetic, IsSound}
use oort_agent.Adcs.Geometry.{two, rad2deg}
use oort_agent.Adcs.{Feed, AdcsHk, AdcsManager, convert, set_adcs}
use oort_agent.Adcs.Domain.{At, IsPlace, convert_domain}
use oort_agent.Adcs.Latest.{
  Event, adcs_message, adcs_question, tfrs_question, run, promised, run_lem,
}

abbrev pub naturals : Arithmetic
naturals = record {
  Double = ℕ;
  Float = ℕ;
  Api = ℕ;
  widen = λ a. a;
  to_api = λ a. a;
  of_api = λ a. a;
  fadd = λ a b. a + b;
  fsub = λ a b. a - b;
  fmul = λ a b. a * b;
  literal = λ text. 1;
  m_pi = 3;
  add = λ a b. a + b;
  sub = λ a b. a - b;
  mul = λ a b. a * b;
  div = λ a b. a / b;
  neg = λ a. 0;
  lt = ltb;
  of_int = pos_part;
  to_int = pos;
  sqrt = λ a. a;
  pow = λ a n. a * a;
  fabs = λ a. a;
  copysign = λ a b. a;
  fmod = λ a b. a;
  cos = λ a. 1;
  sin = λ a. 1;
  acos = λ a. a;
  asin = λ a. a;
  atan2 = λ a b. a;
}

naturals-IsSound : IsSound naturals
naturals-IsSound = record {
  copysign_above = λ a h. refl;
  copysign_below = λ a h. ground (arith, h);
  fabs_splits = λ a h. inl h;
  fabs_above = λ a h. h;
  fabs_below = λ a h. ground (arith, h);
}

abbrev quat : Quat ℕ
quat = record { q1 = 1; q2 = 2; q3 = 3; q4 = 4 }

abbrev xyz : Xyz ℕ
xyz = record { x = 5; y = 6; z = 7 }

abbrev feed : Feed naturals
feed = record {
  acs_mode_active = 5;
  control_error_q = quat;
  q_bo_est = quat;
  latlontrack_lat = 1;
  lease_active = true;
  eclipse_flag = false;
  q_bi_est = quat;
  latlontrack_lon = 2;
  r_eci = xyz;
  latlontrack_body_vector = xyz;
  omega_bo_est = xyz;
  acs_mode_cmd = 3;
  v_eci = xyz;
  qcf = quat;
  lease_time_remaining = 60;
  unix_timestamp = 1;
  omega_bi_est = xyz;
  control_error_omega = xyz;
}

abbrev hk : AdcsHk naturals
hk = record {
  control_error_angle_deg = 0;
  acs_mode_active = [];
  euler_angles = record { roll = 0; pitch = 0; yaw = 0 };
  control_error_q = quat;
  lat_deg = 0;
  q_bo_est = quat;
  latlontrack_lat = 0;
  lease_active = pos 0;
  lon_deg = 0;
  eclipse_flag = pos 0;
  q_bi_est = quat;
  latlontrack_lon = 0;
  r_eci = xyz;
  altitude = 0;
  latlontrack_body_vector = xyz;
  omega_bo_est = xyz;
  acs_mode_cmd = [];
  v_eci = xyz;
  qcf = quat;
  lease_time_remaining = pos 0;
  unix_timestamp = 0;
  omega_bi_est = xyz;
  control_error_omega = xyz;
  r_ecef = xyz;
}

convert_domain_example :
    let made = convert naturals pos hk feed in
    ((v : ℕ) × At naturals (λ a. a) 4 v
      × (made.control_error_angle_deg ≡ two naturals * rad2deg naturals v))
    × ((v : ℕ) × At naturals (λ a. a) 0 v × (made.euler_angles.pitch ≡ rad2deg naturals v))
    × IsPlace naturals naturals-IsSound made.r_ecef made.lat_deg made.lon_deg made.altitude
convert_domain_example = convert_domain naturals naturals-IsSound pos hk feed

abbrev pub manager : AdcsManager naturals
manager = record {
  m_adcs = record { mode = []; age = 0; controller = []; hk = hk };
  m_adcs_mtime = 0;
  m_tfrs = record {
    age = 0;
    utc_time = pos 0;
    ecef_pos_x = 0;
    ecef_pos_y = 0;
    ecef_pos_z = 0;
    ecef_vel_x = 0;
    ecef_vel_y = 0;
    ecef_vel_z = 0;
  };
  m_tfrs_mtime = 0;
}

abbrev events : List (Event naturals)
events =
    adcs_question 10
    ∷ adcs_message feed 20
    ∷ adcs_question 25
    ∷ tfrs_question 30
    ∷ adcs_message feed 40
    ∷ adcs_question 47
    ∷ []

-- The manager behind a message.
abbrev another : AdcsManager naturals
another = set_adcs naturals pos pos_part feed 3 manager

run_lem_example :
    run naturals pos pos_part events manager
    ≡ promised naturals pos pos_part manager another events none none
run_lem_example = run_lem naturals pos pos_part manager another events
