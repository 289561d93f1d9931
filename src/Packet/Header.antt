-- ===== src/Packet/Header.antt =====
-- The headers that packet_builder.cpp writes, the platform it relies on, and `PacketTemplate` of
-- core/common/types.hpp.
use ngfwtraffic_gen.Common.{ℕ, String, Option, List}
use ngfwtraffic_gen.Types.{FlowKey}

pub record EtherHdr : Type 0 where
  pub dst_addr : List ℕ
  pub src_addr : List ℕ
  pub ether_type : ℕ

pub record Ipv4Hdr : Type 0 where
  pub version_ihl : ℕ
  pub type_of_service : ℕ
  pub total_length : ℕ
  pub packet_id : ℕ
  pub fragment_offset : ℕ
  pub time_to_live : ℕ
  pub next_proto_id : ℕ
  pub hdr_checksum : ℕ
  pub src_addr : ℕ
  pub dst_addr : ℕ

pub record TcpHdr : Type 0 where
  pub src_port : ℕ
  pub dst_port : ℕ
  pub sent_seq : ℕ
  pub recv_ack : ℕ
  pub data_off : ℕ
  pub tcp_flags : ℕ
  pub rx_win : ℕ
  pub cksum : ℕ
  pub tcp_urp : ℕ

pub record UdpHdr : Type 0 where
  pub src_port : ℕ
  pub dst_port : ℕ
  pub dgram_len : ℕ
  pub dgram_cksum : ℕ

pub record IcmpHdr : Type 0 where
  pub type : ℕ
  pub code : ℕ
  pub checksum : ℕ
  pub identifier : ℕ
  pub sequence : ℕ

pub data Transport : Type 0 where
  tcp_hdr : TcpHdr → Transport
  udp_hdr : UdpHdr → Transport
  icmp_hdr : IcmpHdr → Transport

pub record Frame : Type 0 where
  pub ether : EtherHdr
  pub ip : Ipv4Hdr
  pub transport : Transport
  pub payload : List ℕ

-- `rte_ipv4_udptcp_cksum` reads the transport header and what lies behind it.
pub record Platform : Type 0 where
  pub sizeof_ether_hdr : ℕ
  pub sizeof_ipv4_hdr : ℕ
  pub sizeof_tcp_hdr : ℕ
  pub sizeof_udp_hdr : ℕ
  pub ether_type_ipv4 : ℕ
  pub ether_addr_len : ℕ
  pub ipproto_icmp : ℕ
  pub ipproto_tcp : ℕ
  pub ipproto_udp : ℕ
  pub tcp_fin_flag : ℕ
  pub tcp_syn_flag : ℕ
  pub tcp_ack_flag : ℕ
  pub cpu_to_be_16 : ℕ → ℕ
  pub be_to_cpu_16 : ℕ → ℕ
  pub cpu_to_be_32 : ℕ → ℕ
  pub be_to_cpu_32 : ℕ → ℕ
  pub ipv4_cksum : Ipv4Hdr → ℕ
  pub ipv4_udptcp_cksum : Ipv4Hdr → Transport → List ℕ → ℕ
  pub inet_aton : String → Option ℕ
  -- Six hexadecimal numbers with colons, and with none; `none` unless all six are read.
  pub scan_colons : String → Option (List ℕ)
  pub scan_plain : String → Option (List ℕ)
  -- `snprintf` with "%02X:%02X:%02X:%02X:%02X:%02X".
  pub print_colons : List ℕ → String

-- `frame` is `none` while the vector `data` is empty.
pub record PacketTemplate : Type 0 where
  pub flow_key : FlowKey
  pub total_size : ℕ
  pub payload_offset : ℕ
  pub frame : Option Frame

-- The echo request, whose other fields are 0.
abbrev pub echo_request : IcmpHdr
echo_request = record { type = 8; code = 0; checksum = 0; identifier = 0; sequence = 0 }
