-- ===== src/Tests/Services.antt =====
-- The configuration, the log, the adaptor and the commands of agent/server/impl at concrete data.
use oort_agent.Base.{
  Result, ℕ, ◌≡◌, ◌≢◌, ◌≤◌, ◌<◌, ◌↔◌, ◌⊎◌, refl, true, false, none, some, [], ◌∷◌, Bytes, codes,
  Ensures, ok, raise, runtime_error, length, arith, ℤ, pos, negsuc,
}
use oort_agent.Posix.Memory.{memory, Disk}
use oort_agent.Log.{LogSettings, info_level, with_defaults, log_defn}
use oort_agent.Log.Lines.{weave, log_defn_lem}
use oort_agent.Config.{AgentConfig, UseDefaults}
use oort_agent.Config.Options.{parse_options}
use oort_agent.Config.Ready.{parse_options-IsReady, IsReady}
use oort_agent.Adaptor.{
  encode_acs_mode, decode_acs_mode, AdcsCommandRequest, UavRequest, adapt_request,
  aperture_capacity,
}
use oort_agent.Adaptor.Modes.{encode-decode}
use oort_agent.Adaptor.Requests.{adapt_request_lem, IsSendable, IsUnknown}
use oort_agent.Health.{JsonLib, HealthResponse, value, exited, health_check}
use oort_agent.Health.Bounded.{health_check-IsBounded}
use oort_agent.Health.Ends.{IsBounded}
use oort_agent.Command
use oort_agent.Command.{BusReply}
use oort_agent.Command.Latch.{Gate, outside, calling, enter, stay, then_step, calls, one_call}

abbrev to_syslog : LogSettings
to_syslog = record { l_level = info_level; using_syslog = true; l_ident = codes "oort" }

log_defn_lem_example :
    (1 < 1 → log_defn [] (codes "0") to_syslog info_level (codes "a?b?") (codes "5" ∷ []) ≡ none)
    × (1 ≤ 1
        → log_defn [] (codes "0") to_syslog info_level (codes "a?b?") (codes "5" ∷ [])
          ≡ some (codes "info [0] a5b<>"))
unfolding weave with_defaults
log_defn_lem_example =
    log_defn_lem [] (codes "0") to_syslog info_level (codes "a") (codes "b" ∷ [] ∷ [])
      (codes "5" ∷ []) (((λ e. omega arith), tt), (((λ e. omega arith), tt), tt))

abbrev unset : UseDefaults
unset = record {
  minfree = true;
  interval = true;
  maxage = true;
  port = true;
  loglevel = true;
  shim_node_id = true;
}

abbrev no_config : AgentConfig
no_config = record {
  initialized = false;
  want_usage = false;
  workdir = [];
  min_free_mb = negsuc 0;
  min_free_pct = negsuc 0;
  cleanup_interval = pos 0;
  max_age = pos 0;
  port = pos 0;
  can_interface = [];
  can_interface_enabled = false;
  uavcan_node_id = 0;
  shim_node_id = 0;
  use_defaults = unset;
  log = record { l_level = info_level; using_syslog = false; l_ident = [] };
}

abbrev empty_disk : Disk
empty_disk = record { files = []; millis = 0 }

parse_options-IsReady_example :
    Ensures
      (parse_options memory 0 empty_disk
        ((b'w', codes "/oort") ∷ (b'p', codes "80") ∷ [])
        no_config)
      (λ go d. go ≡ true → IsReady memory 0 empty_disk d)
      (λ e d. Unit {0})
parse_options-IsReady_example =
    parse_options-IsReady memory 0 empty_disk ((b'w', codes "/oort") ∷ (b'p', codes "80") ∷ [])
      no_config refl

encode-decode_example :
    let src = codes "SUNSPIN" in
    (((encode_acs_mode src < 10) × (decode_acs_mode (encode_acs_mode src) ≡ src))
      ⊎ ((encode_acs_mode src ≡ 255) × ((m : ℕ) → m < 10 → decode_acs_mode m ≢ src)))
    × ((m : ℕ) → m < 10 → encode_acs_mode (decode_acs_mode m) ≡ m)
encode-decode_example = encode-decode (codes "SUNSPIN")

abbrev same : ℕ → ℕ
same n = n

abbrev track : AdcsCommandRequest ℕ
track = record {
  command = codes "TRACK";
  aperture = some (codes "camera");
  target = none;
  angle = some 30;
  quat = none;
  vector = none;
}

adapt_request_lem_example :
    ((u : UavRequest ℕ) × (adapt_request same track ≡ ok u) × IsSendable u)
    ⊎ ((m : Bytes) × (adapt_request same track ≡ raise (runtime_error m))
        × (IsUnknown track.command
            ⊎ ((ap : Bytes) × (track.aperture ≡ some ap) × (aperture_capacity < length ap))))
adapt_request_lem_example = adapt_request_lem same track

abbrev bus : UavRequest ℕ → Result (BusReply ℕ)
bus u = ok (record {
  can_stat = pos 1;
  was_successful = true;
  response = record { status = 0; reason = []; mode = 5; target = []; quat = []; vector = [] };
})

abbrev print : ℤ → Bytes
print n = codes "0"

abbrev free : ℕ
free = 1

-- Two threads, of which the first has entered.
abbrev idle : Gate
idle = record { latch = 1; threads = outside ∷ outside ∷ [] }

abbrev one_in : Gate
one_in = record { latch = 0; threads = calling ∷ outside ∷ [] }

one_call_example : (calls one_in.threads ≤ 1) × ((one_in.latch ≡ 0) ↔ (calls one_in.threads ≡ 1))
unfolding Command.trywait calls
one_call_example =
    one_call (outside ∷ outside ∷ []) one_in refl
      (then_step idle idle one_in (stay idle) (enter 1 [] (outside ∷ []) refl))

-- A JSON library for which every text is an object, and all that it is asked for is the text.
abbrev json : JsonLib
json = record {
  Json = Bytes;
  Float = ℕ;
  parse = value;
  at = λ j name. value j;
  is_array = λ j. true;
  is_number_unsigned = λ j. true;
  is_boolean = λ j. true;
  elements = λ j. j ∷ j ∷ [];
  get_int64 = λ j. value (pos 1);
  get_uint32 = λ j. value (length j);
  get_bool = λ j. value false;
  get_int32 = λ j. value (pos (length j));
  get_float = λ j. value (length j);
}

abbrev no_metrics : HealthResponse ℕ
no_metrics = record {
  response_code = 0;
  health_state = 0;
  schema_version = 0;
  need_hard_reset = false;
  timestamp = 0;
  imetric_feeds = [];
  imetric = [];
  fmetric_feeds = [];
  fmetric = [];
}

health_check-IsBounded_example :
    IsBounded json (health_check json (exited 0 (codes "{}")) no_metrics)
health_check-IsBounded_example =
    health_check-IsBounded json (exited 0 (codes "{}")) no_metrics
      (omega arith, omega arith, omega arith, omega arith)
