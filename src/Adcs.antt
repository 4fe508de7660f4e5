-- ===== src/Adcs.antt =====
-- agent/server/impl/Adcs.cpp: the manager that keeps the last messages of the attitude and the
-- navigation feeds for the API. The types of the bus and of the API are generated; the fields that
-- the code reads and sets are records here. A flag of the bus is an integer in the API, and
-- `to_integer` is the conversion that the setter of an unsigned number makes.
pub mod Numbers
pub mod Geometry
pub mod Domain
pub mod Latest
use oort_agent.Base.{ℕ, Bool, Bytes, if◌then◌else◌, ℤ, pos, ◌-ℤ◌}
use oort_agent.Adaptor.{Quat, Xyz, adapt_quat, adapt_xyz, decode_acs_mode}
use oort_agent.Adcs.Numbers.{Arithmetic}
use oort_agent.Adcs.Geometry.{
  Euler, derive_r_ecef, derive_control_error_angle_deg, derive_euler_angles, derive_lat_deg,
  derive_lon_deg, derive_altitude,
}

-- The feed of ussp/payload/233.PayloadAdcsFeed.uavcan.
pub record Feed (N : Arithmetic) : Type 0 where
  pub acs_mode_active : ℕ
  pub control_error_q : Quat N.Float
  pub q_bo_est : Quat N.Float
  pub latlontrack_lat : N.Float
  pub lease_active : Bool
  pub eclipse_flag : Bool
  pub q_bi_est : Quat N.Float
  pub latlontrack_lon : N.Float
  pub r_eci : Xyz N.Float
  pub latlontrack_body_vector : Xyz N.Float
  pub omega_bo_est : Xyz N.Float
  pub acs_mode_cmd : ℕ
  pub v_eci : Xyz N.Float
  pub qcf : Quat N.Float
  pub lease_time_remaining : ℕ
  pub unix_timestamp : N.Double
  pub omega_bi_est : Xyz N.Float
  pub control_error_omega : Xyz N.Float

-- The fields of ussp/tfrs/223.ReceiverNavigationState.uavcan that are read.
pub record Navigation (N : Arithmetic) : Type 0 where
  pub utc_time : ℕ
  pub ecef_pos_x : N.Double
  pub ecef_pos_y : N.Double
  pub ecef_pos_z : N.Double
  pub ecef_vel_x : N.Float
  pub ecef_vel_y : N.Float
  pub ecef_vel_z : N.Float

-- AdcsHk of spec/adcs-hk.yml.
pub record AdcsHk (N : Arithmetic) : Type 0 where
  pub control_error_angle_deg : N.Api
  pub acs_mode_active : Bytes
  pub euler_angles : Euler N.Api
  pub control_error_q : Quat N.Api
  pub lat_deg : N.Api
  pub q_bo_est : Quat N.Api
  pub latlontrack_lat : N.Api
  pub lease_active : ℤ
  pub lon_deg : N.Api
  pub eclipse_flag : ℤ
  pub q_bi_est : Quat N.Api
  pub latlontrack_lon : N.Api
  pub r_eci : Xyz N.Api
  pub altitude : N.Api
  pub latlontrack_body_vector : Xyz N.Api
  pub omega_bo_est : Xyz N.Api
  pub acs_mode_cmd : Bytes
  pub v_eci : Xyz N.Api
  pub qcf : Quat N.Api
  pub lease_time_remaining : ℤ
  pub unix_timestamp : N.Api
  pub omega_bi_est : Xyz N.Api
  pub control_error_omega : Xyz N.Api
  pub r_ecef : Xyz N.Api

-- AdcsResponse and TfrsResponse of spec/adcs-schema.yml.
pub record AdcsResponse (N : Arithmetic) : Type 0 where
  pub mode : Bytes
  pub age : N.Api
  pub controller : Bytes
  pub hk : AdcsHk N

pub record TfrsResponse (N : Arithmetic) : Type 0 where
  pub age : N.Api
  pub utc_time : ℤ
  pub ecef_pos_x : N.Api
  pub ecef_pos_y : N.Api
  pub ecef_pos_z : N.Api
  pub ecef_vel_x : N.Api
  pub ecef_vel_y : N.Api
  pub ecef_vel_z : N.Api

-- A time is in nanoseconds since the epoch.
pub record AdcsManager (N : Arithmetic) : Type 0 where
  pub m_adcs : AdcsResponse N
  pub m_adcs_mtime : ℕ
  pub m_tfrs : TfrsResponse N
  pub m_tfrs_mtime : ℕ

module _ (N : Arithmetic) (to_integer : ℕ → ℤ) where
  -- The overloads of Adapt for numbers, with the conversion of the setter behind them.
  abbrev number : N.Float → N.Api
  number src = N.to_api (N.widen src)

  abbrev flag : Bool → ℤ
  flag b = if b then pos 1 else pos 0

  -- The 18 fields that are copied, and with them the 6 that are derived.
  unfoldable pub copied : AdcsHk N → Feed N → AdcsHk N
  unfolding decode_acs_mode
  copied oapi_hk ucan_adcs = record oapi_hk {
    acs_mode_active = decode_acs_mode ucan_adcs.acs_mode_active;
    control_error_q = adapt_quat number ucan_adcs.control_error_q;
    q_bo_est = adapt_quat number ucan_adcs.q_bo_est;
    latlontrack_lat = number ucan_adcs.latlontrack_lat;
    q_bi_est = adapt_quat number ucan_adcs.q_bi_est;
    latlontrack_lon = number ucan_adcs.latlontrack_lon;
    r_eci = adapt_xyz number ucan_adcs.r_eci;
    latlontrack_body_vector = adapt_xyz number ucan_adcs.latlontrack_body_vector;
    omega_bo_est = adapt_xyz number ucan_adcs.omega_bo_est;
    acs_mode_cmd = decode_acs_mode ucan_adcs.acs_mode_cmd;
    v_eci = adapt_xyz number ucan_adcs.v_eci;
    qcf = adapt_quat number ucan_adcs.qcf;
    lease_time_remaining = to_integer ucan_adcs.lease_time_remaining;
    unix_timestamp = N.to_api ucan_adcs.unix_timestamp;
    omega_bi_est = adapt_xyz number ucan_adcs.omega_bi_est;
    control_error_omega = adapt_xyz number ucan_adcs.control_error_omega;
    eclipse_flag = flag ucan_adcs.eclipse_flag;
    lease_active = flag ucan_adcs.lease_active;
  }

  unfoldable pub convert : AdcsHk N → Feed N → AdcsHk N
  unfolding copied
  convert oapi_hk ucan_adcs =
      let hk = copied oapi_hk ucan_adcs in
      let hk = record hk { r_ecef = derive_r_ecef N ucan_adcs.unix_timestamp ucan_adcs.r_eci } in
      let hk = record hk {
        control_error_angle_deg =
            N.to_api (derive_control_error_angle_deg N ucan_adcs.control_error_q);
      } in
      let hk = record hk { euler_angles = derive_euler_angles N ucan_adcs.q_bo_est } in
      let hk = record hk { lat_deg = N.to_api (derive_lat_deg N hk.r_ecef) } in
      let hk = record hk { lon_deg = N.to_api (derive_lon_deg N hk.r_ecef) } in
      record hk { altitude = N.to_api (derive_altitude N hk.r_ecef) }

  module _ (seconds : ℤ → N.Double) where
    -- `since.count()` of a difference of two times.
    abbrev pub age_since : ℕ → ℕ → N.Api
    age_since mtime now = N.to_api (seconds (pos now -ℤ pos mtime))

    -- `setAge(0)`
    abbrev pub no_age : N.Api
    no_age = N.to_api (N.of_int (pos 0))

    -- The setters and getters, at the time `now`.
    unfoldable pub set_tfrs : Navigation N → ℕ → AdcsManager N → AdcsManager N
    set_tfrs tfrs now m = record m {
      m_tfrs = record {
        utc_time = to_integer tfrs.utc_time;
        ecef_pos_x = N.to_api tfrs.ecef_pos_x;
        ecef_pos_y = N.to_api tfrs.ecef_pos_y;
        ecef_pos_z = N.to_api tfrs.ecef_pos_z;
        ecef_vel_x = number tfrs.ecef_vel_x;
        ecef_vel_y = number tfrs.ecef_vel_y;
        ecef_vel_z = number tfrs.ecef_vel_z;
        age = no_age;
      };
      m_tfrs_mtime = now;
    }

    unfoldable pub get_tfrs : ℕ → AdcsManager N → TfrsResponse N × AdcsManager N
    get_tfrs now m =
        let tfrs = record m.m_tfrs { age = age_since m.m_tfrs_mtime now } in
        (tfrs, record m { m_tfrs = tfrs })

    unfoldable pub set_adcs : Feed N → ℕ → AdcsManager N → AdcsManager N
    unfolding convert
    set_adcs adcs now m =
        let hk = convert m.m_adcs.hk adcs in
        record m {
          m_adcs = record m.m_adcs { mode = hk.acs_mode_active; hk = hk; age = no_age };
          m_adcs_mtime = now;
        }

    unfoldable pub get_adcs : ℕ → AdcsManager N → AdcsResponse N × AdcsManager N
    get_adcs now m =
        let adcs = record m.m_adcs { age = age_since m.m_adcs_mtime now } in
        (adcs, record m { m_adcs = adcs })
