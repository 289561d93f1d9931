-- ===== src/Flow/State.antt =====
-- The state that flow_scheduler.hpp declares.
use Prim.Native.String.{String}
use ngfwtraffic_gen.Common.{ℕ, Bool, Option, List}
use ngfwtraffic_gen.Common.Assoc.{nat_key}
use ngfwtraffic_gen.Types.{FlowKey, flow_key_key}
use ngfwtraffic_gen.Packet.{PacketTemplate}
use ngfwtraffic_gen.Bucket.{TokenBucket}
use ngfwtraffic_gen.Tcp.{TcpConnectionState}

-- The state machine has no state of its own: `tcp_state_machine` says whether the pointer is set.
pub record FlowConfigInternal : Type 0 where
  pub flow_id : ℕ
  pub flow_key : FlowKey
  pub packet_size : ℕ
  pub protocol : String
  pub pps : ℕ
  pub duration_seconds : ℕ
  pub stateless : Bool
  pub dst_mac : String
  pub template_packet : PacketTemplate
  pub token_bucket : Option TokenBucket
  pub tcp_state : Option TcpConnectionState
  pub tcp_state_machine : Bool
  pub packets_sent : ℕ
  pub bytes_sent : ℕ
  pub start_time_ns : ℕ
  pub active : Bool

pub record FlowSnapshot : Type 0 where
  pub flow_id : ℕ
  pub flow_key : FlowKey
  pub packet_size : ℕ
  pub protocol : String
  pub pps : ℕ
  pub duration_seconds : ℕ
  pub stateless : Bool
  pub packets_sent : ℕ
  pub bytes_sent : ℕ
  pub start_time_ns : ℕ
  pub active : Bool

pub record FlowScheduler : Type 0 where
  pub flows : List (ℕ × FlowConfigInternal)
  pub flow_lookup : List (FlowKey × ℕ)
  pub src_mac : List ℕ
