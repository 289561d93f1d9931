-- ===== src/Worker/Parts.antt =====
-- The state of `process_flows` in worker.cpp, `allocate_burst` of mempool_manager.cpp, and what a packet
-- gets after it is written.
use text.Mathlib.Text.{◌==◌ as str_eq}
use ngfwtraffic_gen.Common.{
  ℕ, ◌+◌, ◌-◌, ◌*◌, ◌/◌, ◌^◌, Bool, not, ◌&&◌, Option, none, some, List, ltb, if◌then◌else◌, u16,
  u32,
}
use ngfwtraffic_gen.Common.Assoc.{nat_key}
use ngfwtraffic_gen.Packet.{Platform, Ipv4Hdr, TcpHdr, Frame, tcp_hdr, udp_hdr, icmp_hdr}
use ngfwtraffic_gen.Packet.Mutate.{Mbuf, IdSource, PacketMutator, recalculate_tcp_checksum}
use ngfwtraffic_gen.Tcp.{TcpConnectionState}
use ngfwtraffic_gen.Imix.{Sampler, ImixEngine}
use ngfwtraffic_gen.Flow.{FlowConfigInternal, FlowScheduler, counted}
use ngfwtraffic_gen.Metrics.{MetricsCollector}

-- `Worker::Config` without the ports and the shared objects; an offset of -1 is `false`.
pub record WorkerConfig : Type 0 where
  pub core_id : ℕ
  pub tx_burst_size : ℕ
  pub rx_burst_size : ℕ
  pub enable_rx : Bool
  pub has_timestamp : Bool

-- `rte_pktmbuf_alloc_bulk` for one buffer: it gives it and returns 0, or returns a negative error number
-- and leaves the array as it is.
pub data Allocation : Type 0 where
  yields : Mbuf → Allocation
  runs_out : ℕ → Allocation

-- What the pool writes to the array's slot, and the result, cast to 16 bits.
unfoldable pub allocate_burst : Allocation → Option Mbuf → Option Mbuf × ℕ
allocate_burst (yields b) slot = (some b, 0)
allocate_burst (runs_out error) slot = (slot, u16 (2 ^ 32 - error))

abbrev pub occupied : Option Mbuf → ℕ
occupied none = 0
occupied (some b) = 1

-- The loop's state: the shared objects, the mutator, the buffers filled so far, and the array's slot
-- behind them. The last three fields count the buffers that the pool has given, that it has got back,
-- and to which no pointer is left.
pub record Burst {W : Type 0} (g : Sampler W) (ids : IdSource) : Type 0 where
  pub flow_scheduler : FlowScheduler
  pub imix_engine : Option (ImixEngine g)
  pub mutator : PacketMutator ids
  pub mbufs : List Mbuf
  pub slot : Option Mbuf
  pub allocated : ℕ
  pub freed : ℕ
  pub lost : ℕ

pub record Sent {W : Type 0} (g : Sampler W) : Type 0 where
  pub flow_scheduler : FlowScheduler
  pub imix_engine : Option (ImixEngine g)
  pub metrics_collector : Option (MetricsCollector W)
  pub sent : ℕ
  pub allocated : ℕ
  pub freed : ℕ
  pub lost : ℕ

module _ (pf : Platform) where
  -- The length of a segment's payload, from the IP length and the TCP header's; both in 16 bits.
  unfoldable pub payload_length : Ipv4Hdr → TcpHdr → ℕ
  payload_length ip h =
      let l4_len = u16 (pf.be_to_cpu_16 ip.total_length + (2 ^ 16 - pf.sizeof_ipv4_hdr)) in
      let tcp_hdr_len = u16 (h.data_off / 16 * 4) in
      if ltb tcp_hdr_len l4_len then l4_len - tcp_hdr_len else 0

  -- A TCP segment gets the connection's numbers, and moves its sequence number on by the payload.
  stamp_tcp : TcpConnectionState → Frame → TcpHdr → TcpConnectionState × Frame
  stamp_tcp conn f h =
      let stamped = record h {
        tcp_flags = pf.tcp_ack_flag;
        sent_seq = pf.cpu_to_be_32 conn.send_seq;
        recv_ack = pf.cpu_to_be_32 conn.send_ack;
      } in
      (
        record conn { send_seq = u32 (conn.send_seq + payload_length (f.ip) h) },
        record f { transport = tcp_hdr (recalculate_tcp_checksum pf (f.ip) stamped f.payload) },
      )

  stamp_frame : TcpConnectionState → Frame → TcpConnectionState × Frame
  unfolding stamp_tcp
  stamp_frame conn f = elim f.transport [
    | tcp_hdr h ↦ stamp_tcp conn f h
    | udp_hdr h ↦ (conn, f)
    | icmp_hdr h ↦ (conn, f)
  ]

  -- For a stateful TCP flow with a connection and a state machine.
  unfoldable pub stamp :
      FlowConfigInternal
      → Mbuf
      → Option TcpConnectionState
      → Option Frame
      → FlowConfigInternal × Mbuf
  unfolding stamp_frame
  stamp c b (some conn) (some f) =
      if not c.stateless && str_eq c.protocol "tcp" && c.tcp_state_machine
      then (let (conn', f') = stamp_frame conn f in
          (record c { tcp_state = some conn' }, record b { frame = some f' }))
      else (c, b)
  stamp c b _ _ = (c, b)

  unfoldable pub stamp_flow : FlowConfigInternal → Mbuf → FlowConfigInternal × Mbuf
  unfolding stamp
  stamp_flow c b = stamp c b c.tcp_state b.frame

  -- After the packet is written: the connection, the time stamp, and the flow's counters.
  unfoldable pub finish_packet :
      WorkerConfig → ℕ → FlowConfigInternal → Mbuf → FlowConfigInternal × Mbuf
  finish_packet cfg now_ns c b =
      let (c', b') = stamp_flow c b in
      (counted 1 b'.pkt_len c', if cfg.has_timestamp then record b' { timestamp = now_ns } else b')
