-- ===== src/Config/Options.antt =====
-- AgentConfig::parseOptions of agent/server/impl/Config.cpp.
use oort_agent.Base.{
  ℕ, ◌%◌, ◌^◌, Bool, true, false, ◌&&◌, List, [], ◌∷◌, Bytes, bytes_eq, ◌==◌, if◌then◌else◌,
  Exception, system_error, runtime_error, out_of_range, invalid_argument, json_exception,
  length_error, null_dereference, Result, ok, raise, Outcome, returns, throws, ℤ, pos, wrap32,
}
use oort_agent.Posix.{FileSystem}
use oort_agent.Files.{is_empty}
use oort_agent.Log.{Level, debug_level, info_level, warn_level, error_level, level_name, set_syslog}
use oort_agent.Config.{AgentConfig, UseDefaults, check_dir}
use oort_agent.Config.Numbers.{stoul, char_at}

-- `catch (const invalid_argument &)`
abbrev pub is_invalid_argument : Exception → Bool
is_invalid_argument (invalid_argument m) = true
is_invalid_argument (system_error n m) = false
is_invalid_argument (runtime_error m) = false
is_invalid_argument out_of_range = false
is_invalid_argument (json_exception m) = false
is_invalid_argument length_error = false
is_invalid_argument null_dereference = false

-- A part of parseOptions: with `false` parseOptions returns, and with `true` it goes on.
abbrev pub Part : Type 0
Part = AgentConfig → Outcome AgentConfig Bool

-- `try { … = f(str_arg); } catch (const invalid_argument &e) { …; return false; }`
abbrev pub taken : {A : Type 0} → Result A → (A → AgentConfig → AgentConfig) → Part
taken (ok a) set c = returns true (set a c)
taken (raise e) set c = if is_invalid_argument e then returns false c else throws e c

abbrev pub to_int : ℕ → ℤ
to_int n = wrap32 (pos n)

abbrev no_default : (UseDefaults → UseDefaults) → AgentConfig → AgentConfig
no_default f c = record c { use_defaults = f c.use_defaults }

unfoldable pub set_minfree : Bytes → ℕ × ℕ → Part
unfolding char_at
set_minfree arg (value, at) c =
    let given = no_default (λ u. record u { minfree = false }) c in
    if char_at arg at == b'M'
    then returns true (record given { min_free_mb = to_int value })
    else if char_at arg at == b'%'
    then returns true (record given { min_free_pct = to_int value })
    else returns false c

unfoldable pub min_free : Bytes → Part
unfolding set_minfree stoul
min_free arg c = elim (stoul arg) [
  | ok p ↦ set_minfree arg p c
  | raise e ↦ if is_invalid_argument e then returns false c else throws e c
]

abbrev use_level : Level → Part
use_level l c =
    let given = no_default (λ u. record u { loglevel = false }) c in
    returns true (record given { log = record c.log { l_level = l } })

unfoldable pub log_level : Bytes → Part
unfolding bytes_eq
log_level arg =
    if bytes_eq arg (level_name debug_level)
    then use_level debug_level
    else if bytes_eq arg (level_name info_level)
    then use_level info_level
    else if bytes_eq arg (level_name warn_level)
    then use_level warn_level
    else if bytes_eq arg (level_name error_level)
    then use_level error_level
    else λ c. returns false c

module _ (F : FileSystem) (euid : ℕ) (s : F.State) where
  -- What the options with a number as argument set.
  abbrev set_max_age : ℕ × ℕ → AgentConfig → AgentConfig
  set_max_age p c = record (no_default (λ u. record u { maxage = false }) c) {
    max_age = to_int p.0;
  }

  abbrev set_interval : ℕ × ℕ → AgentConfig → AgentConfig
  set_interval p c = record (no_default (λ u. record u { interval = false }) c) {
    cleanup_interval = to_int p.0;
  }

  abbrev set_port : ℕ × ℕ → AgentConfig → AgentConfig
  set_port p c = record (no_default (λ u. record u { port = false }) c) { port = to_int p.0 }

  abbrev set_node : ℕ × ℕ → AgentConfig → AgentConfig
  set_node p c = record c { uavcan_node_id = p.0 % 2 ^ 32 }

  abbrev set_shim : ℕ × ℕ → AgentConfig → AgentConfig
  set_shim p c = record (no_default (λ u. record u { shim_node_id = false }) c) {
    shim_node_id = p.0 % 2 ^ 32;
  }

  -- The switch over the option's letter.
  unfoldable pub take_option : ℕ → Bytes → Part
  unfolding stoul min_free log_level
  take_option opt arg c =
      if opt == b'w'
      then taken (check_dir F euid arg s) (λ u d. d) (record c { workdir = arg })
      else if opt == b't'
      then taken (stoul arg) set_max_age c
      else if opt == b'i'
      then taken (stoul arg) set_interval c
      else if opt == b's'
      then returns true (record c { log = set_syslog arg c.log })
      else if opt == b'm'
      then min_free arg c
      else if opt == b'p'
      then taken (stoul arg) set_port c
      else if opt == b'l'
      then log_level arg c
      else if opt == b'c'
      then returns true (record c { can_interface = arg; can_interface_enabled = true })
      else if opt == b'n'
      then taken (stoul arg) set_node c
      else if opt == b'N'
      then taken (stoul arg) set_shim c
      else if opt == b'?'
      then returns false (record c { want_usage = true })
      else returns false c

  -- Behind the loop.
  unfoldable pub apply_defaults : AgentConfig → AgentConfig
  apply_defaults c = record c {
    cleanup_interval = if c.use_defaults.interval then pos 3600 else c.cleanup_interval;
    max_age = if c.use_defaults.maxage then pos 86400 else c.max_age;
    min_free_pct = if c.use_defaults.minfree then pos 20 else c.min_free_pct;
    port = if c.use_defaults.port then pos 2005 else c.port;
    log = if c.use_defaults.loglevel then record c.log { l_level = warn_level } else c.log;
    shim_node_id = if c.use_defaults.shim_node_id then 50 else c.shim_node_id;
    initialized = true;
  }

  unfoldable pub finish : Part
  unfolding apply_defaults
  finish c =
      if is_empty c.workdir
      then returns false c
      else if c.can_interface_enabled && c.uavcan_node_id == 0
      then returns false c
      else returns true (apply_defaults c)

  unfoldable pub option_loop : List (ℕ × Bytes) → Part
  unfolding take_option finish
  option_loop [] c = finish c
  option_loop ((opt, arg) ∷ options) c = elim (take_option opt arg c) [
    | throws e d ↦ throws e d
    | returns goes_on d ↦
        let rest = option_loop options d in if goes_on then rest else returns false d
  ]

  unfoldable pub parse_options : List (ℕ × Bytes) → Part
  unfolding option_loop
  parse_options options c =
      option_loop options (record c { can_interface_enabled = false; uavcan_node_id = 0 })
