-- ===== src/Config/Usage.antt =====
-- AgentConfig::usage and the getters of agent/server/impl/Config.cpp. The decimal text of an `int`
-- is a parameter.
use oort_agent.Base.{ℕ, Bool, List, [], ◌∷◌, ◌++◌, Bytes, codes, not, if◌then◌else◌, ℤ, pos}
use oort_agent.Log.{level_name, warn_level}
use oort_agent.Config.{AgentConfig}

abbrev pub get_port : AgentConfig → ℤ
get_port c = c.port

abbrev pub is_can_interface_enabled : AgentConfig → Bool
is_can_interface_enabled c = c.can_interface_enabled

abbrev pub get_can_interface : AgentConfig → Bytes
get_can_interface c = c.can_interface

abbrev pub get_uavcan_node_id : AgentConfig → ℕ
get_uavcan_node_id c = c.uavcan_node_id

abbrev pub get_shim_node_id : AgentConfig → ℕ
get_shim_node_id c = c.shim_node_id

-- The lines that go to `cerr`.
unfoldable pub usage : (ℤ → Bytes) → Bytes → AgentConfig → List Bytes
usage to_string cmd c =
    if not c.want_usage
    then []
    else codes "Usage:"
      ∷ (cmd ++ codes " -w workdir")
      ∷ codes " [-t cleanup-timeout] [-i cleanup-interval] [-f config-file]"
      ∷ codes " [-s ident] [-m minfree] [-p port] [-l level]"
      ∷ codes " [-c can-interface] [-n can-node-id]"
      ∷ codes " workdir - base working directory; must be writable"
      ∷ codes " cleanup-timeout - age in seconds after which files can be deleted"
      ∷ codes " cleanup-interval - how frequently in seconds to run the cleanup task"
      ∷ codes " config-file - file to use for setting config values (not implemented)"
      ∷ codes " ident - identifier for syslog (default is to log to stderr)"
      ∷ codes " minfree - minimum free space to maintain; either ddM or dd%"
      ∷ codes " port - tcp port to listen on"
      ∷ codes " level - logging level (debug, info, warn, error)"
      ∷ codes " can-interface - CAN interface name for healthcheck interface (e.g. can0)"
      ∷ codes " can-node-id - CAN node ID for healthcheck interface, required if -c is set"
      ∷ []
      ∷ codes "Defaults: "
      ∷ (codes " cleanup-timeout = "
          ++ (to_string (pos 86400) ++ (codes "  cleanup-interval = " ++ to_string (pos 3600))))
      ∷ (codes " minfree = " ++ (to_string (pos 20) ++ codes "%"))
      ∷ (codes " port = " ++ to_string (pos 2005))
      ∷ (codes " level = " ++ level_name warn_level)
      ∷ []
