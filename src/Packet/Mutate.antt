-- ===== src/Packet/Mutate.antt =====
-- core/packet/packet_mutator.hpp and packet_mutator.cpp: a template is copied into a buffer and varied.
-- A buffer of DPDK's has one segment, and is seen as its length, the room behind it and the frame in it.
-- The transport header is the one that the protocol of the IP header says, as `build_template` leaves it.
use ngfwtraffic_gen.Common.{
  ℕ, ◌+◌, ◌-◌, Bool, true, false, not, Option, none, some, List, ◌++◌, take, length, replicate, ltb,
  ◌==◌, if◌then◌else◌, u16,
}
use ngfwtraffic_gen.Packet.{
  Platform, Ipv4Hdr, TcpHdr, UdpHdr, Transport, tcp_hdr, udp_hdr, icmp_hdr, Frame, PacketTemplate,
}

pub record Mbuf : Type 0 where
  pub pkt_len : ℕ
  pub data_len : ℕ
  pub tailroom : ℕ
  pub frame : Option Frame
  pub timestamp : ℕ

-- `std::mt19937` and the two uniform distributions.
pub record IdSource : Type 1 where
  pub Rng : Type 0
  pub seed : ℕ → Rng
  pub ip_id : Rng → ℕ × Rng
  pub sequence : Rng → ℕ × Rng

pub record PacketMutator (g : IdSource) : Type 0 where
  pub rng : g.Rng
  pub initialized : Bool

-- What `clone_and_mutate` does: it returns false, it writes outside the buffer, or it returns true. Where
-- the payload begins before the headers end, the code copies a part of the headers and clears the rest; what
-- the buffer holds then is no frame, and `cut_short` says no more of it.
pub data Outcome : Type 0 where
  refused : Mbuf → Outcome
  overrun cut_short : Outcome
  mutated : Mbuf → Outcome

module _ (g : IdSource) where
  abbrev pub new_mutator : PacketMutator g
  new_mutator = record { rng = g.seed 0; initialized = false }

  -- `now_s` is what `std::time` returns.
  unfoldable pub initialize : ℕ → PacketMutator g → ℕ → PacketMutator g
  initialize now_s m seed = record m {
    rng = g.seed (if seed == 0 then now_s else seed);
    initialized = true;
  }

  abbrev ready : ℕ → PacketMutator g → PacketMutator g
  ready now_s m = if not m.initialized then initialize now_s m 0 else m

  unfoldable pub generate_ip_id : ℕ → PacketMutator g → PacketMutator g × ℕ
  generate_ip_id now_s m =
      let m' = ready now_s m in let (id, rng) = g.ip_id m'.rng in (record m' { rng = rng }, id)

  unfoldable pub generate_sequence_number : ℕ → PacketMutator g → PacketMutator g × ℕ
  generate_sequence_number now_s m =
      let m' = ready now_s m in let (n, rng) = g.sequence m'.rng in (record m' { rng = rng }, n)

module _ (pf : Platform) where
  open pf use {
    sizeof_ether_hdr, sizeof_ipv4_hdr, sizeof_tcp_hdr, sizeof_udp_hdr, ipproto_tcp, ipproto_udp,
    cpu_to_be_16, cpu_to_be_32, ipv4_cksum, ipv4_udptcp_cksum,
  }

  -- The bytes of the headers, and of the vector `data`.
  abbrev pub headers_size : Frame → ℕ
  headers_size f = sizeof_ether_hdr + sizeof_ipv4_hdr + elim f.transport [
    | tcp_hdr h ↦ sizeof_tcp_hdr
    | udp_hdr h ↦ sizeof_udp_hdr
    | icmp_hdr h ↦ 8
  ]

  abbrev pub data_size : Frame → ℕ
  data_size f = headers_size f + length f.payload

  -- `rte_pktmbuf_append`, which fails without room, or `rte_pktmbuf_trim`, whose failure is not looked at.
  -- Both take the number of bytes in 16 bits.
  unfoldable pub resize : ℕ → Mbuf → Option Mbuf
  resize size b =
      if ltb b.pkt_len size
      then (let n = u16 (size - b.pkt_len) in
          if ltb b.tailroom n
          then none
          else some (record b { pkt_len = b.pkt_len + n; tailroom = b.tailroom - n }))
      else (let n = u16 (b.pkt_len - size) in
          some (record b { pkt_len = b.pkt_len - n; tailroom = b.tailroom + n }))

  unfoldable pub recalculate_ip_checksum : Ipv4Hdr → Ipv4Hdr
  recalculate_ip_checksum ip = record ip {
    hdr_checksum = ipv4_cksum (record ip { hdr_checksum = 0 });
  }

  -- The four setters, on headers that are there; `mutate_frame` writes the same fields itself.
  unfoldable pub mutate_ip_id : Ipv4Hdr → ℕ → Ipv4Hdr
  mutate_ip_id ip id = record ip { packet_id = cpu_to_be_16 id }

  unfoldable pub mutate_tcp_seq : TcpHdr → ℕ → TcpHdr
  mutate_tcp_seq h seq_num = record h { sent_seq = cpu_to_be_32 seq_num }

  unfoldable pub mutate_tcp_ack : TcpHdr → ℕ → TcpHdr
  mutate_tcp_ack h ack_num = record h { recv_ack = cpu_to_be_32 ack_num }

  unfoldable pub mutate_tcp_flags : TcpHdr → ℕ → TcpHdr
  mutate_tcp_flags h flags = record h { tcp_flags = flags }

  unfoldable pub recalculate_tcp_checksum : Ipv4Hdr → TcpHdr → List ℕ → TcpHdr
  recalculate_tcp_checksum ip h payload = record h {
    cksum = ipv4_udptcp_cksum ip (tcp_hdr (record h { cksum = 0 })) payload;
  }

  unfoldable pub recalculate_udp_checksum : Ipv4Hdr → UdpHdr → List ℕ → UdpHdr
  recalculate_udp_checksum ip h payload = record h {
    dgram_cksum = ipv4_udptcp_cksum ip (udp_hdr (record h { dgram_cksum = 0 })) payload;
  }

  unfoldable pub checksums : Frame → Frame
  checksums f =
      let ip = recalculate_ip_checksum f.ip in
      record f {
        ip = ip;
        transport = elim f.transport [
          | tcp_hdr h ↦ tcp_hdr (recalculate_tcp_checksum ip h f.payload)
          | udp_hdr h ↦ udp_hdr (recalculate_udp_checksum ip h f.payload)
          | icmp_hdr h ↦ icmp_hdr h
        ];
      }

  module _ (g : IdSource) where
    -- The sequence number asked for, or a generated one where it is 0; for TCP only.
    unfoldable pub mutate_transport :
        ℕ → PacketMutator g → ℕ → ℕ → Transport → PacketMutator g × Transport
    mutate_transport now_s m size sequence_number (tcp_hdr h) =
        if ltb 0 sequence_number
        then (m, tcp_hdr (record h { sent_seq = cpu_to_be_32 sequence_number }))
        else let (m', n) = generate_sequence_number g now_s m in
          (m', tcp_hdr (record h { sent_seq = cpu_to_be_32 n }))
    mutate_transport now_s m size sequence_number (udp_hdr h) = (
      m,
      udp_hdr
          (record h { dgram_len = cpu_to_be_16 (u16 (size - sizeof_ether_hdr - sizeof_ipv4_hdr)) }),
    )
    mutate_transport now_s m size sequence_number (icmp_hdr h) = (m, icmp_hdr h)

    -- The headers are copied, and `copied` bytes of the payload; the rest is filled with zeros.
    unfoldable pub mutate_frame :
        ℕ → PacketMutator g → Frame → ℕ → ℕ → ℕ → ℕ → Bool → PacketMutator g × Frame
    mutate_frame now_s m f size copied payload_size sequence_number update_checksums =
        let (m1, id) = generate_ip_id g now_s m in
        let (m2, transport) = mutate_transport now_s m1 size sequence_number f.transport in
        let varied : Frame = record f {
          ip = record (f.ip) {
            total_length = cpu_to_be_16 (u16 (size - sizeof_ether_hdr));
            packet_id = cpu_to_be_16 id;
          };
          transport = transport;
          payload = take copied f.payload ++ replicate payload_size 0;
        } in
        (m2, if update_checksums then checksums varied else varied)

    -- `data_len` has 16 bits.
    written : Mbuf → ℕ → PacketMutator g × Frame → PacketMutator g × Outcome
    written b size (m, f) =
        (m, mutated (record b { pkt_len = size; data_len = u16 size; frame = some f }))

    -- Past `append` or `trim`. Up to `payload_offset` the data is copied, and from there on to the packet's
    -- size it is cleared; where the offset is larger, the number of bytes to clear wraps, and where the size
    -- is larger than what the buffer holds, the packet ends outside of it.
    clone :
        ℕ → PacketMutator g → Mbuf → PacketTemplate → Frame → ℕ → Bool → PacketMutator g × Outcome
    unfolding written
    clone now_s m b t f sequence_number update_checksums =
        if ltb (data_size f) t.payload_offset
        then (m, refused b)
        else if ltb t.total_size t.payload_offset
        then (m, overrun)
        else if ltb (b.pkt_len + b.tailroom) t.total_size
        then (m, overrun)
        else if ltb t.payload_offset (headers_size f)
        then (m, cut_short)
        else written b t.total_size (
            mutate_frame now_s m f t.total_size (t.payload_offset - headers_size f)
              (t.total_size - t.payload_offset) sequence_number update_checksums)

    unfoldable pub clone_and_mutate :
        ℕ → PacketMutator g → Mbuf → PacketTemplate → ℕ → Bool → PacketMutator g × Outcome
    unfolding clone
    clone_and_mutate now_s m b t sequence_number update_checksums = elim t.frame [
      | none ↦ (m, refused b)
      | some f ↦ elim (resize t.total_size b) [
        | none ↦ (m, refused b)
        | some b' ↦ clone now_s m b' t f sequence_number update_checksums
      ]
    ]
