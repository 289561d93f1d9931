-- ===== src/Flow/Receive.antt =====
-- `handle_tcp_rx` of flow_scheduler.cpp.
use Prim.Native.Nat.{bit_and, bit_or}
use text.Mathlib.Text.{◌==◌ as str_eq}
use ngfwtraffic_gen.Common.{
  ℕ, ◌+◌, Bool, not, ◌||◌, Option, none, some, ltb, ◌==◌, if◌then◌else◌, u32,
}
use ngfwtraffic_gen.Common.Assoc.{find, adjust, nat_key}
use ngfwtraffic_gen.Types.{FlowKey, flow_key_key}
use ngfwtraffic_gen.Packet.{Platform, TcpHdr}
use ngfwtraffic_gen.Tcp.{TcpConnectionState, recv_syn_ack, recv_ack, recv_fin, process_event}
use ngfwtraffic_gen.Flow.{FlowConfigInternal, FlowScheduler}

module _ (pf : Platform) where
  open pf use {tcp_fin_flag, tcp_syn_flag, tcp_ack_flag, be_to_cpu_32}

  abbrev has_flag : ℕ → ℕ → Bool
  has_flag flags flag = not (bit_and flags flag == 0)

  on_syn_ack : ℕ → TcpHdr → TcpConnectionState → TcpConnectionState
  on_syn_ack now_ns h conn =
      (process_event now_ns
        (record conn { recv_seq = be_to_cpu_32 h.sent_seq; recv_ack = be_to_cpu_32 h.recv_ack })
        recv_syn_ack).0

  on_ack : ℕ → TcpHdr → TcpConnectionState → TcpConnectionState
  on_ack now_ns h conn =
      if has_flag h.tcp_flags tcp_ack_flag
      then (process_event now_ns (record conn { recv_ack = be_to_cpu_32 h.recv_ack }) recv_ack).0
      else conn

  on_fin : ℕ → TcpHdr → TcpConnectionState → TcpConnectionState
  on_fin now_ns h conn =
      if has_flag h.tcp_flags tcp_fin_flag
      then (process_event now_ns (record conn { recv_seq = be_to_cpu_32 h.sent_seq }) recv_fin).0
      else conn

  on_payload : TcpHdr → ℕ → TcpConnectionState → TcpConnectionState
  on_payload h payload_len conn =
      if ltb 0 payload_len
      then record conn { recv_seq = u32 (be_to_cpu_32 h.sent_seq + payload_len) }
      else conn

  -- What a segment does to a connection. The first event reads the clock at `now_ns`, a second one at
  -- `later_ns`.
  unfoldable pub receive : ℕ → ℕ → TcpHdr → ℕ → TcpConnectionState → TcpConnectionState
  unfolding on_syn_ack on_ack on_fin on_payload
  receive now_ns later_ns h payload_len conn =
      let both = bit_or tcp_syn_flag tcp_ack_flag in
      on_payload h payload_len (
        if bit_and h.tcp_flags both == both
        then on_syn_ack now_ns h conn
        else on_fin later_ns h (on_ack now_ns h conn))

  receive_if : ℕ → ℕ → TcpHdr → ℕ → Bool → Option TcpConnectionState → Option TcpConnectionState
  receive_if now_ns later_ns h payload_len has_machine none = none
  receive_if now_ns later_ns h payload_len has_machine (some conn) =
      some (if has_machine then receive now_ns later_ns h payload_len conn else conn)

  -- A flow that is stateless, is not TCP or lacks a connection is left alone.
  unfoldable pub flow_receives : ℕ → ℕ → TcpHdr → ℕ → FlowConfigInternal → FlowConfigInternal
  unfolding receive_if
  flow_receives now_ns later_ns h payload_len c =
      if c.stateless || not (str_eq c.protocol "tcp") then c else record c {
        tcp_state = receive_if now_ns later_ns h payload_len c.tcp_state_machine c.tcp_state;
      }

  unfoldable pub handle_tcp_rx : ℕ → ℕ → FlowScheduler → FlowKey → TcpHdr → ℕ → FlowScheduler
  handle_tcp_rx now_ns later_ns s key h payload_len = elim (find key s.flow_lookup) [
    | none ↦ s
    | some flow_id ↦ record s {
      flows = adjust flow_id (flow_receives now_ns later_ns h payload_len) s.flows;
    }
  ]
