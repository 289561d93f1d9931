-- ===== src/Packet/Vary.antt =====
-- `clone_and_mutate` of packet_mutator.cpp: when it succeeds, and what the packet then holds.
use ngfwtraffic_gen.Common.{
  ℕ, ◌+◌, ◌-◌, ◌≤◌, ◌≡◌, refl, true, false, some, length, ◌++◌, take, length-take, length-append,
  ◌<◌, ◌^◌, Bool, replicate, ltb, arith, u16, inl, inr, Bool-cases,
}
use ngfwtraffic_gen.Packet.{Platform, Frame, PacketTemplate, Transport, tcp_hdr, udp_hdr, icmp_hdr}
use ngfwtraffic_gen.Packet.Mutate.{
  Mbuf, IdSource, PacketMutator, mutated, headers_size, data_size, overrun, resize, checksums,
  mutate_transport, mutate_frame, clone_and_mutate, generate_ip_id, recalculate_ip_checksum,
  recalculate_tcp_checksum, recalculate_udp_checksum,
}
use ngfwtraffic_gen.Packet.Offset.{HasFrame}
use ngfwtraffic_gen.Packet.Build.{length-replicate}

-- The same protocol and the same ports.
abbrev pub SameFlow : Transport → Transport → Type 0
SameFlow (tcp_hdr h) (tcp_hdr k) = (k.src_port ≡ h.src_port) × (k.dst_port ≡ h.dst_port)
SameFlow (udp_hdr h) (udp_hdr k) = (k.src_port ≡ h.src_port) × (k.dst_port ≡ h.dst_port)
SameFlow (icmp_hdr h) (icmp_hdr k) = k ≡ h
SameFlow _ _ = ⊥

module _ (pf : Platform) where
  -- The packet that a template with the frame `f` is made into.
  pub record Varied (t : PacketTemplate) (f : Frame) (b : Mbuf) : Type 0 where
    pub packet : Frame
    pub has_packet : b.frame ≡ some packet
    pub pkt_len : b.pkt_len ≡ t.total_size
    pub data_len : b.data_len ≡ u16 t.total_size
    pub size : headers_size pf f + length packet.payload ≡ t.total_size
    pub same_ether : packet.ether ≡ f.ether
    pub src_ip : packet.ip.src_addr ≡ f.ip.src_addr
    pub dst_ip : packet.ip.dst_addr ≡ f.ip.dst_addr
    pub same_proto : packet.ip.next_proto_id ≡ f.ip.next_proto_id
    pub total_length :
        packet.ip.total_length ≡ pf.cpu_to_be_16 (u16 (t.total_size - pf.sizeof_ether_hdr))
    pub checksum : packet.ip.hdr_checksum ≡ pf.ipv4_cksum (record (packet.ip) { hdr_checksum = 0 })
    pub same_flow : SameFlow f.transport packet.transport

  -- The room behind a buffer's data has 16 bits, so that 16 bits are enough for what fits into it.
  resize_room :
      (size : ℕ) (b : Mbuf)
      → b.tailroom < 2 ^ 16
      → size ≤ b.pkt_len + b.tailroom
      → (b' : Mbuf) × (resize pf size b ≡ some b')
        × (b'.pkt_len + b'.tailroom ≡ b.pkt_len + b.tailroom)
  unfolding resize
  resize_room size b small l = elim (Bool-cases (ltb b.pkt_len size)) [
    | inl longer ↦
        let room : ltb b.tailroom (u16 (size - b.pkt_len)) ≡ false = ground arith in
        rw (longer, room, resize) (_, refl, ground arith)
    | inr shorter ↦ rw (shorter, resize) (_, refl, omega arith)
  ]

  pub resize-holds :
      (size : ℕ) (b b' : Mbuf)
      → size < 2 ^ 16
      → resize pf size b ≡ some b'
      → ltb (b'.pkt_len + b'.tailroom) size ≡ false
  unfolding resize
  resize-holds size b b' small e = ground arith

  module _ (ids : IdSource) where
    varied-SameFlow :
        (now_s : ℕ) (m : PacketMutator ids) (f : Frame) (size sequence_number : ℕ) (t : Transport)
        → SameFlow t
            (checksums pf (record f {
              transport = (mutate_transport pf ids now_s m size sequence_number t).1;
            })).transport
    unfolding mutate_transport checksums recalculate_tcp_checksum recalculate_udp_checksum
    varied-SameFlow now_s m f size sequence_number (tcp_hdr h) =
        elim (Bool-cases (ltb 0 sequence_number)) [
          | inl e ↦ rw e (refl, refl)
          | inr e ↦ rw e (refl, refl)
        ]
    varied-SameFlow now_s m f size sequence_number (udp_hdr h) = (refl, refl)
    varied-SameFlow now_s m f size sequence_number (icmp_hdr h) = refl

    mutate_frame-SameFlow :
        (now_s : ℕ) (m : PacketMutator ids) (f : Frame)
        (size copied payload_size sequence_number : ℕ)
        → SameFlow f.transport
            (mutate_frame pf ids now_s m f size copied payload_size sequence_number
              true).1.transport
    unfolding mutate_frame
    mutate_frame-SameFlow now_s m f size copied payload_size sequence_number =
        let (m', id) = generate_ip_id ids now_s m in
        let varied : Frame = record f {
          ip = record (f.ip) {
            total_length = pf.cpu_to_be_16 (u16 (size - pf.sizeof_ether_hdr));
            packet_id = pf.cpu_to_be_16 id;
          };
          payload = take copied f.payload ++ replicate payload_size 0;
        } in
        varied-SameFlow now_s m' varied size sequence_number f.transport

    -- For a template whose payload begins behind its headers, and within its data and its size, and
    -- a buffer with room for that size, where the room behind the buffer's data has 16 bits,
    -- `clone_and_mutate` with checksums succeeds, and the packet has the size, the data length in
    -- 16 bits, the Ethernet header, the addresses, the protocol and the ports of the template, as
    -- many bytes as its size says, the length field of its size, and the IP checksum of its header.
    pub clone_and_mutate-Varied :
        (now_s : ℕ) (m : PacketMutator ids) (b : Mbuf) (t : PacketTemplate) (sequence_number : ℕ)
        (h : HasFrame pf t.total_size t)
        → b.tailroom < 2 ^ 16
        → t.total_size ≤ b.pkt_len + b.tailroom
        → (b' : Mbuf) × ((clone_and_mutate pf ids now_s m b t sequence_number true).1 ≡ mutated b')
          × Varied t h.content b'
    unfolding clone_and_mutate mutate_frame checksums recalculate_ip_checksum
    clone_and_mutate-Varied now_s m b t sequence_number h small l =
        let f : Frame = h.content in
        let read : ltb (data_size pf f) t.payload_offset ≡ false = ground arith in
        let fits : ltb t.total_size t.payload_offset ≡ false = ground arith in
        let whole : ltb t.payload_offset (headers_size pf f) ≡ false = ground arith in
        let (b', grown, same) = resize_room t.total_size b small l in
        let held : ltb (b'.pkt_len + b'.tailroom) t.total_size ≡ false = ground arith in
        let n = t.total_size - t.payload_offset in
        let copied = t.payload_offset - headers_size pf f in
        rw (h.has_content, grown, read, fits, held, whole, clone_and_mutate)
          (
            _,
            refl,
            record {
              packet = (mutate_frame pf ids now_s m f t.total_size copied n sequence_number true).1;
              has_packet = refl;
              pkt_len = refl;
              data_len = refl;
              size = ground (
                arith,
                length-append (take copied f.payload) (replicate n 0),
                length-take copied f.payload (omega (arith, h.offset_in_data)),
                length-replicate {A = ℕ} n 0,
                h.offset_in_size,
                h.headers_copied,
              );
              same_ether = refl;
              src_ip = refl;
              dst_ip = refl;
              same_proto = refl;
              total_length = refl;
              checksum = refl;
              same_flow = mutate_frame-SameFlow now_s m f t.total_size copied n sequence_number;
            },
          )

    -- A template with a frame whose size is 2^16 or more above the buffer's length is written
    -- outside of the buffer, where that difference, narrowed to 16 bits, fits into the room behind
    -- the buffer's data, which has 16 bits itself: `rte_pktmbuf_append` succeeds, and
    -- `clone_and_mutate` fills the whole size. The frame's payload begins behind its headers, and
    -- within its data and its size.
    pub clone_and_mutate-overrun :
        (now_s : ℕ) (m : PacketMutator ids) (b : Mbuf) (t : PacketTemplate) (sequence_number : ℕ)
        (update_checksums : Bool) (h : HasFrame pf t.total_size t)
        → b.pkt_len + 2 ^ 16 ≤ t.total_size
        → u16 (t.total_size - b.pkt_len) ≤ b.tailroom
        → b.tailroom < 2 ^ 16
        → (clone_and_mutate pf ids now_s m b t sequence_number update_checksums).1 ≡ overrun
    unfolding clone_and_mutate resize
    clone_and_mutate-overrun now_s m b t sequence_number update_checksums h large fits small =
        let read : ltb (data_size pf h.content) t.payload_offset ≡ false = ground arith in
        let room : ltb t.total_size t.payload_offset ≡ false = ground arith in
        let longer : ltb b.pkt_len t.total_size ≡ true = ground arith in
        let given : ltb b.tailroom (u16 (t.total_size - b.pkt_len)) ≡ false = ground arith in
        let n = u16 (t.total_size - b.pkt_len) in
        let outside : ltb (b.pkt_len + n + (b.tailroom - n)) t.total_size ≡ true = ground arith in
        rw (h.has_content, longer, given, read, room, outside, clone_and_mutate) refl
