-- ===== src/Main/Serves.antt =====
-- What there is while agent/server/main-api-server.cpp serves, and what it leaves.
use oort_agent.Base.{
  All, ◌≡◌, ◌⊎◌, Bool, true, false, Option, none, some, [], ◌∷◌, Result, ok, if◌then◌else◌,
}
use oort_agent.Config.{AgentConfig}
use oort_agent.Bus.{BusError}
use oort_agent.Agent.Members.{Members, set_uav_client, set_adcs_mgr}
use oort_agent.Main.Signals.{quit_signals, sigchld}
use oort_agent.Main.{
  Process, Step, goes_on, exits, aborts, set_up, main, live_server, raised, listen_stopped,
  unaffected, use_after_delete,
}

-- The process when it listens.
pub record IsServing {Options : Type 0} (config : AgentConfig) (p : Process Options) : Type 0 where
  -- The agent has the client and the manager exactly if there is a CAN interface.
  pub agent_wired :
      (m : Members Options) × (p.agent ≡ some m)
      × (m.has_uavcan_client ≡ config.can_interface_enabled)
      × (m.has_adcs ≡ config.can_interface_enabled)
  pub blocks_sigchld : p.signals.blocked ≡ sigchld ∷ []
  pub listens :
      p.server ≡ live_server (record { max_post_size = 8000; max_threads = 4; port = config.port })
  pub stops_on_signal : All (λ sig. raised sig p ≡ listen_stopped) quit_signals
  pub has_client : p.can_client ≡ config.can_interface_enabled
  pub has_can_server : p.can_server ≡ (
      if config.can_interface_enabled
      then some (record {
        iface = config.can_interface;
        node_id = config.uavcan_node_id;
        thread_running = true;
      })
      else none)

-- The process when it has ended: the thread of the agent's cleaner is told to stop, and nothing
-- else is left; the pointer to the server is not reset.
pub record IsDone {Options : Type 0} (p : Process Options) : Type 0 where
  pub worker_stopped : (m : Members Options) × (p.agent ≡ some m) × (m.task.worker_running ≡ false)
  pub server_deleted : All (λ sig. raised sig p ≡ use_after_delete) quit_signals
  pub no_client : p.can_client ≡ false
  pub no_can_server : p.can_server ≡ none

abbrev wired : {Options : Type 0} → Members Options → Members Options
wired m = set_adcs_mgr true (set_uav_client true m)

module _ {Options : Type 0} (parsed : Result Bool) (config : AgentConfig)
    (construct : Result (Members Options)) (client start : Option BusError) where
  abbrev ready : Step Options
  ready = set_up (parsed, config) construct client start

  abbrev ended : Step Options
  ended = main (parsed, config) construct client start

  -- The members that the constructor returns know of no CAN interface.
  abbrev pub IsUnwired : Type 0
  IsUnwired =
      (m : Members Options)
      → construct ≡ ok m
      → (m.has_uavcan_client ≡ false) × (m.has_adcs ≡ false)

  -- The three ways of the process.
  abbrev pub Runs : Type 0
  Runs =
      ((p : Process Options) × (q : Process Options) × (ready ≡ goes_on p)
        × IsServing config p
        × (ended ≡ exits 0 q)
        × IsDone q)
      ⊎ (((q : Process Options) × (ended ≡ exits 1 q)
            × All (λ sig. raised sig q ≡ unaffected) quit_signals
            × (q.can_client ≡ false)
            × (q.can_server ≡ none))
          ⊎ ((q : Process Options) × (ended ≡ aborts q)
              × All (λ sig. raised sig q ≡ unaffected) quit_signals))
