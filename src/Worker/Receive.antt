-- ===== src/Worker/Receive.antt =====
-- `receive_burst` and `process_received_packets` of worker.cpp. A received buffer is seen as its length,
-- its time stamp, and the headers that the code reads at the fixed offsets. The code does not compare
-- these offsets with the length. They lie within the room of the buffers of mempool_manager.cpp
-- (RTE_MBUF_DEFAULT_BUF_SIZE), so behind a shorter packet it reads what the buffer held before: the headers
-- of the model are any, whatever the length is.
use ngfwtraffic_gen.Common.{
  ℕ, ◌+◌, ◌-◌, ◌/◌, Bool, not, ◌&&◌, Option, none, some, List, [], ◌∷◌, length, is_empty, ltb, ◌==◌,
  if◌then◌else◌,
}
use ngfwtraffic_gen.Common.Double.{Double}
use ngfwtraffic_gen.Types.{FlowKey}
use ngfwtraffic_gen.Packet.{Platform, Ipv4Hdr, TcpHdr}
use ngfwtraffic_gen.Flow.{FlowScheduler}
use ngfwtraffic_gen.Flow.Receive.{handle_tcp_rx}
use ngfwtraffic_gen.Metrics.{MetricsCollector, update_rx_stats}
use ngfwtraffic_gen.Metrics.Latency.{record_latency}
use ngfwtraffic_gen.Worker.Parts.{WorkerConfig, payload_length}

pub record Received : Type 0 where
  pub pkt_len : ℕ
  pub timestamp : ℕ
  pub ip : Ipv4Hdr
  pub tcp : TcpHdr

-- The loop's state: the shared objects, and what was added up and freed.
pub record Rx (W : Type 0) : Type 0 where
  pub flow_scheduler : Option FlowScheduler
  pub metrics_collector : Option (MetricsCollector W)
  pub total_bytes : ℕ
  pub freed : ℕ

-- `port n` is what `rte_eth_rx_burst` gives for `n` slots.
unfoldable pub receive_burst : (ℕ → List (Option Received)) → ℕ → List (Option Received)
receive_burst port max_count = if max_count == 0 then [] else port max_count

module _ (d : Double) (pf : Platform) where
  open pf use {be_to_cpu_16, ipproto_tcp}

  -- Whether a buffer carries a time stamp that lies before `now_ns`.
  abbrev pub has_latency : WorkerConfig → ℕ → Received → Bool
  has_latency cfg now_ns p = cfg.has_timestamp && (not (p.timestamp == 0) && ltb p.timestamp now_ns)

  unfoldable pub measure :
      WorkerConfig
      → ℕ
      → Received
      → Option (MetricsCollector d.Carrier)
      → Option (MetricsCollector d.Carrier)
  measure cfg now_ns p none = none
  measure cfg now_ns p (some m) = some (
      if has_latency cfg now_ns p then record_latency d m cfg.core_id (now_ns - p.timestamp) else m)

  abbrev pub is_tcp : Received → Bool
  is_tcp p = p.ip.version_ihl / 16 == 4 && p.ip.next_proto_id == ipproto_tcp

  abbrev pub received_key : Received → FlowKey
  received_key p = record {
    src_ip = p.ip.src_addr;
    dst_ip = p.ip.dst_addr;
    src_port = be_to_cpu_16 p.tcp.src_port;
    dst_port = be_to_cpu_16 p.tcp.dst_port;
    protocol = ipproto_tcp;
  }

  -- The clock is read twice by `handle_tcp_rx`.
  unfoldable pub deliver : ℕ × ℕ → Received → Option FlowScheduler → Option FlowScheduler
  deliver clock p none = none
  deliver clock p (some s) = some (
      if is_tcp p
      then handle_tcp_rx pf clock.0 clock.1 s (received_key p) p.tcp (payload_length pf p.ip p.tcp)
      else s)

  -- One round of the loop; a null pointer is passed over.
  unfoldable pub receive_packet :
      WorkerConfig → ℕ → ℕ × ℕ → Option Received → Rx d.Carrier → Rx d.Carrier
  receive_packet cfg now_ns clock none s = s
  receive_packet cfg now_ns clock (some p) s = record {
    flow_scheduler = deliver clock p s.flow_scheduler;
    metrics_collector = measure cfg now_ns p s.metrics_collector;
    total_bytes = s.total_bytes + p.pkt_len;
    freed = s.freed + 1;
  }

  -- The loop from the buffer number `i`.
  unfoldable pub receive_packets :
      WorkerConfig → ℕ → (ℕ → ℕ × ℕ) → ℕ → List (Option Received) → Rx d.Carrier → Rx d.Carrier
  receive_packets cfg now_ns clock i [] s = s
  receive_packets cfg now_ns clock i (b ∷ mbufs) s =
      receive_packets cfg now_ns clock (i + 1) mbufs (receive_packet cfg now_ns (clock i) b s)

  unfoldable pub count_received :
      WorkerConfig
      → ℕ
      → ℕ
      → Option (MetricsCollector d.Carrier)
      → Option (MetricsCollector d.Carrier)
  count_received cfg count total_bytes none = none
  count_received cfg count total_bytes (some m) =
      some (if ltb 0 total_bytes then update_rx_stats m cfg.core_id count total_bytes else m)

  unfoldable pub process_received_packets :
      WorkerConfig
      → ℕ
      → (ℕ → ℕ × ℕ)
      → List (Option Received)
      → Option FlowScheduler
      → Option (MetricsCollector d.Carrier)
      → Rx d.Carrier
  process_received_packets cfg now_ns clock mbufs s m =
      let start : Rx d.Carrier = record {
        flow_scheduler = s;
        metrics_collector = m;
        total_bytes = 0;
        freed = 0;
      } in
      let end : Rx d.Carrier = receive_packets cfg now_ns clock 0 mbufs start in
      if is_empty mbufs then start else record end {
        metrics_collector = count_received cfg (length mbufs) end.total_bytes end.metrics_collector;
      }
