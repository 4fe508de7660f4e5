-- ===== src/Command/Client.antt =====
-- The constructor of AgentUAVCANClient, agent/server/impl/AgentUAVCANClient.cpp, over how its two
-- calls of the bus library end.
use oort_agent.Base.{Option, none, some}
use oort_agent.Bus.{BusError}

unfoldable pub init_node : Option BusError → Option BusError
init_node make_node = make_node

unfoldable pub new_client : Option BusError → Option BusError → Option BusError
unfolding init_node
new_client make_node make_service_client = elim (init_node make_node) [
  | some e ↦ some e
  | none ↦ make_service_client
]
