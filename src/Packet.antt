-- ===== src/Packet.antt =====
-- core/packet/packet_builder.hpp and packet_builder.cpp, and `PacketTemplate` of
-- core/common/types.hpp. A template's bytes are seen as the headers that the code lays over them by
-- `reinterpret_cast`, and the payload behind them. DPDK's constants, byte order and checksums, the
-- C library's `sscanf` and the socket library's `inet_aton` are the fields of `Platform`.
mod Header
pub mod Build
pub mod Sample
pub mod Mutate
pub mod Offset
pub mod Vary
mod Tests
pub use Header.*
use ngfwtraffic_gen.Common.{
  ℕ, ◌+◌, ◌-◌, ◌*◌, ◌/◌, String, Bool, true, false, Option, none, some, List, map, replicate, ltb,
  if◌then◌else◌, u8, u16,
}
use ngfwtraffic_gen.Types.{FlowKey}
use Prim.Native.Nat.{bit_or}
use text.Mathlib.Text.{◌==◌ as str_eq}

module _ (pf : Platform) where
  open pf use {
    sizeof_ether_hdr, sizeof_ipv4_hdr, sizeof_tcp_hdr, sizeof_udp_hdr, ether_type_ipv4,
    ether_addr_len, ipproto_icmp, ipproto_tcp, ipproto_udp, cpu_to_be_16, cpu_to_be_32, ipv4_cksum,
    ipv4_udptcp_cksum, inet_aton, scan_colons, scan_plain,
  }

  unfoldable pub ip_to_uint32 : String → ℕ
  ip_to_uint32 ip = elim (inet_aton ip) [ none ↦ 0 | some a ↦ a ]

  zeros : ℕ → List ℕ
  zeros n = replicate n 0

  narrow : Option (List ℕ) → List ℕ × Bool
  unfolding zeros
  narrow none = (zeros ether_addr_len, false)
  narrow (some bytes) = (map u8 bytes, true)

  plain_or_fail : Option (List ℕ) → String → List ℕ × Bool
  unfolding narrow
  plain_or_fail none mac = narrow (scan_plain mac)
  plain_or_fail (some bytes) mac = narrow (some bytes)

  -- The bytes that are stored, and the result.
  unfoldable pub mac_to_bytes : String → List ℕ × Bool
  unfolding plain_or_fail zeros
  mac_to_bytes mac =
      if str_eq mac "" then (zeros ether_addr_len, true) else plain_or_fail (scan_colons mac) mac

  unfoldable pub build_ethernet_header : String → String → ℕ → EtherHdr
  build_ethernet_header src_mac dst_mac ether_type = record {
    dst_addr = (mac_to_bytes dst_mac).0;
    src_addr = (mac_to_bytes src_mac).0;
    ether_type = cpu_to_be_16 ether_type;
  }

  unfoldable pub build_ip_header : ℕ → ℕ → ℕ → ℕ → Ipv4Hdr
  build_ip_header src_ip dst_ip protocol total_len = record {
    version_ihl = u8 (bit_or 64 (sizeof_ipv4_hdr / 4));
    type_of_service = 0;
    total_length = cpu_to_be_16 total_len;
    packet_id = 0;
    fragment_offset = 0;
    time_to_live = 64;
    next_proto_id = protocol;
    hdr_checksum = 0;
    src_addr = src_ip;
    dst_addr = dst_ip;
  }

  unfoldable pub build_tcp_header : ℕ → ℕ → ℕ → ℕ → TcpHdr
  build_tcp_header src_port dst_port seq_num ack_num = record {
    src_port = cpu_to_be_16 src_port;
    dst_port = cpu_to_be_16 dst_port;
    sent_seq = cpu_to_be_32 seq_num;
    recv_ack = cpu_to_be_32 ack_num;
    data_off = u8 (sizeof_tcp_hdr / 4 * 16);
    tcp_flags = 0;
    rx_win = 0;
    cksum = 0;
    tcp_urp = 0;
  }

  unfoldable pub build_udp_header : ℕ → ℕ → ℕ → UdpHdr
  build_udp_header src_port dst_port length = record {
    src_port = cpu_to_be_16 src_port;
    dst_port = cpu_to_be_16 dst_port;
    dgram_len = cpu_to_be_16 length;
    dgram_cksum = 0;
  }

  -- `set_default_macs`, for one of the two.
  abbrev or_default : String → String → String
  or_default default mac = if str_eq mac "" then default else mac

  unfoldable pub transport_header_size : String → Option ℕ
  transport_header_size protocol =
      if str_eq protocol "tcp"
      then some sizeof_tcp_hdr
      else if str_eq protocol "udp"
      then some sizeof_udp_hdr
      else if str_eq protocol "icmp"
      then some 8
      else none

  unfoldable pub ip_protocol : String → ℕ
  ip_protocol protocol =
      if str_eq protocol "tcp"
      then ipproto_tcp
      else if str_eq protocol "udp"
      then ipproto_udp
      else if str_eq protocol "icmp"
      then ipproto_icmp
      else 0

  -- The third chain on the protocol, reached for the three supported protocols only. The checksum is
  -- taken over the payload that `resize` has filled with zeros.
  unfoldable pub build_transport : String → FlowKey → Ipv4Hdr → ℕ → ℕ → Transport
  unfolding zeros
  build_transport protocol key ip transport_size payload_size =
      let tcp = build_tcp_header key.src_port key.dst_port 0 0 in
      let udp = build_udp_header key.src_port key.dst_port (u16 (transport_size + payload_size)) in
      let payload = zeros payload_size in
      if str_eq protocol "tcp"
      then tcp_hdr (record tcp { cksum = ipv4_udptcp_cksum ip (tcp_hdr tcp) payload })
      else if str_eq protocol "udp"
      then udp_hdr (record udp { dgram_cksum = ipv4_udptcp_cksum ip (udp_hdr udp) payload })
      else icmp_hdr echo_request

  build_frame : FlowKey → ℕ → String → String → String → ℕ → ℕ → Frame
  unfolding zeros
  build_frame key packet_size protocol src_mac dst_mac transport_size payload_size =
      let ip =
        build_ip_header key.src_ip key.dst_ip (ip_protocol protocol)
          (u16 (packet_size - sizeof_ether_hdr)) in
      record {
        ether =
            build_ethernet_header (or_default "00:01:02:03:04:05" src_mac)
              (or_default "00:06:07:08:09:0A" dst_mac) ether_type_ipv4;
        ip = record ip { hdr_checksum = ipv4_cksum ip };
        transport = build_transport protocol key ip transport_size payload_size;
        payload = zeros payload_size;
      }

  -- A template before the call, all zeros: `build_template` is called on new ones only.
  abbrev pub new_template : FlowKey → ℕ → PacketTemplate
  new_template key packet_size = record {
    flow_key = key;
    total_size = packet_size;
    payload_offset = 0;
    frame = none;
  }

  build_sized : FlowKey → ℕ → String → String → String → Option ℕ → PacketTemplate × Bool
  unfolding build_frame
  build_sized key packet_size protocol src_mac dst_mac none = (new_template key packet_size, false)
  build_sized key packet_size protocol src_mac dst_mac (some transport_size) =
      let header_size = sizeof_ether_hdr + sizeof_ipv4_hdr + transport_size in
      if ltb packet_size header_size then (new_template key packet_size, false) else (
        record (new_template key packet_size) {
          payload_offset = header_size;
          frame = some (
              build_frame key packet_size protocol src_mac dst_mac transport_size
                (packet_size - header_size));
        },
        true,
      )

  -- The template as the call leaves it, and the result.
  unfoldable pub build_template : FlowKey → ℕ → String → String → String → PacketTemplate × Bool
  unfolding build_sized
  build_template key packet_size protocol src_mac dst_mac =
      build_sized key packet_size protocol src_mac dst_mac (transport_header_size protocol)
