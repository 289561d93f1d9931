-- ===== src/Main/Ports.antt =====
-- `configure_ports` of main.cpp.
use ngfwtraffic_gen.Common.{
  ℕ, zero, suc, ◌+◌, Bool, true, false, not, Option, none, some, List, [], ◌∷◌, ◌++◌, leb, ◌==◌,
  if◌then◌else◌, replicate,
}
use ngfwtraffic_gen.Config.{PortConfig}

-- The calls of DPDK on ports; a result below 0 is false, a negative socket `none`.
pub record Ethdev (Pool : Type 0) : Type 0 where
  pub dev_count_avail : ℕ
  pub max_numa_nodes : ℕ
  pub dev_configure : PortConfig → Bool
  pub dev_socket_id : ℕ → Option ℕ
  pub rx_queue_setup : ℕ → ℕ → ℕ → ℕ → Option Pool → Bool
  pub tx_queue_setup : ℕ → ℕ → ℕ → ℕ → Bool
  pub dev_start : ℕ → Bool
  pub macaddr_get : ℕ → Option (List ℕ)

-- The loop over the queues, from the queue `q`, with those left.
unfoldable pub setup_queues : (ℕ → Bool) → ℕ → ℕ → Bool
setup_queues setup q zero = true
setup_queues setup q (suc left) =
    let rest = setup_queues setup (q + 1) left in if setup q then rest else false

-- A socket that is out of range is replaced by socket 0.
abbrev pub or_socket_0 : ℕ → Option ℕ → ℕ
or_socket_0 max_numa_nodes none = 0
or_socket_0 max_numa_nodes (some socket_id) = if leb max_numa_nodes socket_id then 0 else socket_id

-- `g_port_mac` before a port has set it.
abbrev pub no_mac : List ℕ
no_mac = replicate 6 0

-- The ports that were started, `g_port_mac`, and whether no port has set it.
pub record PortState : Type 0 where
  pub started : List ℕ
  pub port_mac : List ℕ
  pub first_port : Bool

abbrev with_mac : PortState → Option (List ℕ) → PortState
with_mac s none = s
with_mac s (some mac) = if s.first_port then record s { port_mac = mac; first_port = false } else s

module _ {Pool : Type 0} (e : Ethdev Pool) (get_mempool : ℕ → Option Pool) where
  abbrev pub socket_of : PortConfig → ℕ
  socket_of port = or_socket_0 e.max_numa_nodes (e.dev_socket_id port.port_id)

  -- Whether all the calls that bring a port up succeed; the first that fails ends the function.
  unfoldable pub port_comes_up : PortConfig → Bool
  port_comes_up port =
      let socket_id = socket_of port in
      if not (e.dev_configure port)
      then false
      else if not (
          setup_queues
            (λ q. e.rx_queue_setup port.port_id q port.nb_rx_desc socket_id (get_mempool socket_id))
            0 port.nb_rx_queues)
      then false
      else if not (
          setup_queues (λ q. e.tx_queue_setup port.port_id q port.nb_tx_desc socket_id) 0
            port.nb_tx_queues)
      then false
      else e.dev_start port.port_id

  abbrev pub port_up : PortConfig → PortState → PortState
  port_up port s =
      with_mac (record s { started = s.started ++ port.port_id ∷ [] }) (e.macaddr_get port.port_id)

  -- The loop over the ports: one that is not there is passed over.
  unfoldable pub configure_each : List PortConfig → PortState → PortState × Bool
  configure_each [] s = (s, true)
  configure_each (port ∷ ports) s =
      if leb e.dev_count_avail port.port_id
      then configure_each ports s
      else if port_comes_up port
      then configure_each ports (port_up port s)
      else (s, false)

  -- The ports that were started, the MAC address of the first, and the result.
  unfoldable pub configure_ports : List PortConfig → List ℕ × List ℕ × Bool
  unfolding configure_each
  configure_ports ports =
      if e.dev_count_avail == 0
      then ([], no_mac, false)
      else (let (s, done) =
            configure_each ports (record { started = []; port_mac = no_mac; first_port = true }) in
          (s.started, s.port_mac, done))
