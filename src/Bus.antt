-- ===== src/Bus.antt =====
-- The thread of the UAVCAN server, agent/server/impl/AgentUAVCANServer.cpp: initNode, addServices,
-- resetServices and serverTask. The bus library is a parameter: how each call of it ends. Calls
-- and readings of the flag `thread_running` are counted: `tick` is the number of those made.
pub mod Ends
pub mod Reconnects
use oort_agent.Base.{ℕ, zero, suc, ◌+◌, Bool, true, false, Option, none, some, if◌then◌else◌, ltb}

-- The exceptions of the library: AllIfacesDownException, the others derived from
-- uavcan_linux::Exception, and any other.
pub data BusError : Type 0 where
  all_ifaces_down : BusError
  linux_exception : BusError
  other_exception : BusError

abbrev pub is_linux : BusError → Bool
is_linux all_ifaces_down = true
is_linux linux_exception = true
is_linux other_exception = false

abbrev pub is_down : BusError → Bool
is_down all_ifaces_down = true
is_down linux_exception = false
is_down other_exception = false

-- What happens outside of the thread: when `stop` is called, if it is, and how each call ends.
pub record Weather : Type 0 where
  pub stopped_at : Option ℕ
  pub call : ℕ → Option BusError

-- The flag as a reading finds it: `start` sets it before there is a thread, and `stop` clears it.
unfoldable pub thread_running : Weather → ℕ → Bool
thread_running W k = elim W.stopped_at [ none ↦ true | some n ↦ ltb k n ]

-- Which of the pointers are set.
pub record Server : Type 0 where
  pub node : Bool
  pub health_srv : Bool
  pub adcs_sub : Bool
  pub tfrs_sub : Bool
  pub tick : ℕ

-- The constructor sets none.
abbrev pub new_server : Server
new_server = record {
  node = false;
  health_srv = false;
  adcs_sub = false;
  tfrs_sub = false;
  tick = 0;
}

-- How a run ends: by itself, by an exception, by a call through the pointer of no node, or not
-- within the rounds it was given.
pub data Run : Type 0 where
  returns_to : Server → Run
  escapes : BusError → Server → Run
  null_node : Server → Run
  goes_on : Server → Run

abbrev pub then_run : Run → (Server → Run) → Run
then_run (returns_to s) k = k s
then_run (escapes e s) k = escapes e s
then_run (null_node s) k = null_node s
then_run (goes_on s) k = goes_on s

abbrev pub ticked : Server → Server
ticked s = record s { tick = suc s.tick }

module _ (W : Weather) where
  -- A call of the library, and the assignment of what it makes.
  abbrev pub make : (Server → Server) → Server → Run
  make assign s = elim (W.call s.tick) [
    | none ↦ returns_to (assign (ticked s))
    | some e ↦ escapes e (ticked s)
  ]

  -- A call on the node.
  abbrev pub on_node : (Server → Server) → Server → Run
  on_node assign s = if s.node then make assign s else null_node s

  unfoldable pub init_node : Server → Run
  init_node = make (λ s. record s { node = true })

  unfoldable pub add_services : Server → Run
  add_services s = then_run (on_node (λ s. record s { health_srv = true }) s) λ s.
      then_run (on_node (λ s. record s { adcs_sub = true }) s)
        λ s. on_node (λ s. record s { tfrs_sub = true }) s

  unfoldable pub reset_services : Server → Server
  reset_services s = record s {
    health_srv = false;
    adcs_sub = false;
    tfrs_sub = false;
    node = false;
  }

  -- The handler in the inner loop.
  abbrev pub retry : (Server → Run) → Run → Run
  retry again (returns_to s) = returns_to s
  retry again (escapes e s) = if is_linux e then again s else escapes e s
  retry again (null_node s) = null_node s
  retry again (goes_on s) = goes_on s

  -- The inner loop: every half second, until it has reconnected or is to stop.
  unfoldable pub reconnect : ℕ → Server → Run
  unfolding init_node add_services thread_running
  reconnect zero s = goes_on s
  reconnect (suc rounds) s = elim (thread_running W s.tick) [
    | false ↦ returns_to (ticked s)
    | true ↦ retry (reconnect rounds) (then_run (init_node (ticked s)) add_services)
  ]

  -- The handler in the outer loop.
  abbrev pub recover : (Server → Run) → (Server → Run) → Run → Run
  recover again wait (returns_to s) = again s
  recover again wait (escapes e s) = if is_down e then then_run (wait s) again else escapes e s
  recover again wait (null_node s) = null_node s
  recover again wait (goes_on s) = goes_on s

  -- The outer loop: spin for a second.
  unfoldable pub serve : ℕ → Server → Run
  unfolding reconnect reset_services thread_running
  serve zero s = goes_on s
  serve (suc rounds) s = elim (thread_running W s.tick) [
    | false ↦ returns_to (ticked s)
    | true ↦
        recover (serve rounds) (λ s. reconnect rounds (reset_services s))
          (on_node (λ s. s) (ticked s))
  ]

  unfoldable pub server_task : ℕ → Server → Run
  unfolding init_node add_services serve reset_services
  server_task rounds s =
      then_run (then_run (init_node s) add_services)
        λ s. then_run (serve rounds s) λ s. returns_to (reset_services s)
