-- ===== src/Main.antt =====
-- agent/server/main-api-server.cpp: the signals, the start of the agent with its CAN client and
-- server, the wait for requests, and the end. What the constructors do that can fail is a
-- parameter: how each ends.
pub mod Signals
pub mod Serves
use oort_agent.Base.{
  ℕ, Bool, true, false, not, Option, none, some, [], ◌∷◌, Bytes, if◌then◌else◌, Exception, Result,
  ok, raise, ℤ, pos,
}
use oort_agent.Config.{AgentConfig}
use oort_agent.Config.Usage.{
  get_port, is_can_interface_enabled, get_can_interface, get_uavcan_node_id, usage,
}
use oort_agent.Bus.{BusError, is_linux}
use oort_agent.Agent.Members.{Members, set_uav_client, set_adcs_mgr, destroy}
use oort_agent.Main.Signals.{
  SignalState, new_signals, set_up_unix_signals, quit_signals, sigchld, is_blocked, is_handled,
}

-- A CAN server, and whether its thread is to run.
pub record CanServer : Type 0 where
  pub iface : Bytes
  pub node_id : ℕ
  pub thread_running : Bool

-- The settings of onion's server.
pub record HttpServer : Type 0 where
  pub max_post_size : ℕ
  pub max_threads : ℕ
  pub port : ℤ

-- The pointer `server`; `delete` leaves it as it is.
pub data ServerPtr : Type 0 where
  null_server : ServerPtr
  live_server : HttpServer → ServerPtr
  dangling_server : ServerPtr

-- What there is while the process runs.
pub record Process (Options : Type 0) : Type 0 where
  pub signals : SignalState
  pub config : AgentConfig
  pub agent : Option (Members Options)
  pub can_client : Bool
  pub can_server : Option CanServer
  pub server : ServerPtr

-- How a part of `main` ends: it goes on, exits with a status, where nothing is unwound, or ends by
-- an exception that nobody takes.
pub data Step (Options : Type 0) : Type 0 where
  goes_on : Process Options → Step Options
  exits : ℕ → Process Options → Step Options
  aborts : Process Options → Step Options

abbrev pub then_step :
    {Options : Type 0} → Step Options → (Process Options → Step Options) → Step Options
then_step (goes_on p) k = k p
then_step (exits n p) k = exits n p
then_step (aborts p) k = aborts p

-- An error of the CAN set-up: the exceptions of the library are answered with a status.
abbrev pub fatal_can : {Options : Type 0} → BusError → Process Options → Step Options
fatal_can e p =
    if is_linux e then exits 1 (record p { can_client = false; can_server = none }) else aborts p

-- What a signal does to the process: sigHandler stops the listener, or it does nothing, or it
-- calls a method of a server that is deleted.
pub data Signalled : Type 0 where
  listen_stopped : Signalled
  unaffected : Signalled
  use_after_delete : Signalled
  -- The signal is blocked.
  held_back : Signalled
  -- It has no handler of the program.
  default_action : Signalled

-- sigHandler: every signal stops the listener, if the pointer is not null.
unfoldable pub sig_handler : ℕ → ServerPtr → Signalled
sig_handler sig null_server = unaffected
sig_handler sig (live_server s) = listen_stopped
sig_handler sig dangling_server = use_after_delete

-- What a signal does while the process is in a state.
abbrev pub raised : {Options : Type 0} → ℕ → Process Options → Signalled
raised sig p =
    if is_blocked sig p.signals
    then held_back
    else if is_handled sig p.signals
    then sig_handler sig p.server
    else default_action

module _ {Options : Type 0} (parsed : Result Bool × AgentConfig)
    (construct : Result (Members Options)) (client : Option BusError)
    (start : Option BusError) where
  -- A process that has just been started.
  abbrev pub started : Process Options
  started = record {
    signals = new_signals;
    config = parsed.1;
    agent = none;
    can_client = false;
    can_server = none;
    server = null_server;
  }

  -- The signals, the options and the agent. parseOptions returns whether it succeeds, or throws.
  unfoldable pub make_agent : Process Options → Step Options
  unfolding set_up_unix_signals
  make_agent p =
      let p = record p { signals = set_up_unix_signals quit_signals (sigchld ∷ []) p.signals } in
      elim parsed.0 [
        | raise e ↦ aborts p
        | ok parsed_well ↦ if not parsed_well then exits 1 p else elim construct [
          | raise e ↦ aborts p
          | ok agent ↦ goes_on (record p { agent = some agent })
        ]
      ]

  -- On the agent, if there is one.
  abbrev pub on_agent : (Members Options → Members Options) → Process Options → Process Options
  on_agent f p = elim p.agent [ none ↦ p | some a ↦ record p { agent = some (f a) } ]

  -- The block for the CAN interface.
  unfoldable pub make_can : Process Options → Step Options
  make_can p = if not (is_can_interface_enabled p.config) then goes_on p else elim client [
    | some e ↦ fatal_can e p
    | none ↦
        let p = on_agent (set_uav_client true) (record p { can_client = true }) in
        let p = record p {
          can_server = some (record {
            iface = get_can_interface p.config;
            node_id = get_uavcan_node_id p.config;
            thread_running = false;
          });
        } in
        elim start [
          | some e ↦ fatal_can e p
          | none ↦ goes_on (
              on_agent (set_adcs_mgr true) (record p {
                can_server = some (record {
                  iface = get_can_interface p.config;
                  node_id = get_uavcan_node_id p.config;
                  thread_running = true;
                });
              }))
        ]
  ]

  -- The server up to the call of `listen`.
  unfoldable pub make_server : Process Options → Step Options
  make_server p = goes_on (record p {
    server =
        live_server (record { max_post_size = 8000; max_threads = 4; port = get_port p.config });
  })

  unfoldable pub set_up : Step Options
  unfolding make_agent make_can make_server
  set_up = then_step (make_agent started) λ p. then_step (make_can p) make_server

  -- Behind `listen`; the destructor of the agent runs at the end of `main`.
  unfoldable pub tear_down : Process Options → Step Options
  tear_down p =
      let p =
        if is_can_interface_enabled p.config
        then record p { can_server = none; can_client = false }
        else p in
      exits 0 (on_agent destroy (record p { server = dangling_server }))

  unfoldable pub main : Step Options
  unfolding set_up tear_down
  main = then_step set_up tear_down
