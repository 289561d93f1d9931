-- ===== src/Packet/Build.antt =====
-- `build_template` of packet_builder.cpp: when it succeeds, and what the template then holds.
use text.Mathlib.TextEquality.{eq_iff}
use ngfwtraffic_gen.Common.{
  zero, suc, ℕ, ◌+◌, ◌-◌, ◌≤◌, ◌<◌, ◌≡◌, ◌^◌, refl, ap, ◌↔◌, ◌⊎◌, inl, inr, String, true, some,
  replicate, length, arith, u16, Option-cases,
}
use ngfwtraffic_gen.Types.{FlowKey}
use ngfwtraffic_gen.Packet.{
  Platform, Ipv4Hdr, echo_request, build_tcp_header, build_udp_header, Frame, Transport, tcp_hdr,
  udp_hdr, icmp_hdr, transport_header_size, ip_protocol, build_template, build_frame,
  build_ip_header, build_transport,
}

pub length-replicate {ℓ} : {A : Type ℓ} (n : ℕ) (a : A) → length (replicate n a) ≡ n
length-replicate zero a = refl
length-replicate (suc n) a = ap suc (length-replicate n a)

module _ (pf : Platform) where
  open pf use {sizeof_ether_hdr, sizeof_ipv4_hdr, cpu_to_be_16, be_to_cpu_16, ipv4_cksum}

  abbrev pub header_size : ℕ → ℕ
  header_size transport_size = sizeof_ether_hdr + sizeof_ipv4_hdr + transport_size

  -- `build_template` succeeds exactly for a supported protocol and a size that the headers fit
  -- into.
  pub build_template_iff :
      (key : FlowKey) (packet_size : ℕ) (protocol src_mac dst_mac : String)
      → ((build_template pf key packet_size protocol src_mac dst_mac).1 ≡ true)
        ↔ ((n : ℕ) × (transport_header_size pf protocol ≡ some n) × (header_size n ≤ packet_size))
  unfolding build_template
  build_template_iff key packet_size protocol src_mac dst_mac = (
    λ h. elim (Option-cases (transport_header_size pf protocol)) [
      | inl e ↦ absurd (ground arith)
      | inr (n, e) ↦ (n, e, ground arith)
    ],
    λ (n, e, l). ground arith,
  )

  -- Where the ports of a flow stand in a header; an echo request has none.
  abbrev pub Ports : FlowKey → Transport → Type 0
  Ports key (tcp_hdr h) =
      (be_to_cpu_16 h.src_port ≡ key.src_port) × (be_to_cpu_16 h.dst_port ≡ key.dst_port)
  Ports key (udp_hdr h) =
      (be_to_cpu_16 h.src_port ≡ key.src_port) × (be_to_cpu_16 h.dst_port ≡ key.dst_port)
  Ports key (icmp_hdr h) = h ≡ echo_request

  -- The transport protocol that a header is for.
  abbrev pub kind : Transport → String
  kind (tcp_hdr h) = "tcp"
  kind (udp_hdr h) = "udp"
  kind (icmp_hdr h) = "icmp"

  -- A frame of `packet_size` bytes that carries the flow's addresses, ports and protocol.
  pub record Carries (key : FlowKey) (packet_size : ℕ) (protocol : String) (n : ℕ) (f : Frame)
      : Type 0 where
    pub size : header_size n + length f.payload ≡ packet_size
    pub src_ip : f.ip.src_addr ≡ key.src_ip
    pub dst_ip : f.ip.dst_addr ≡ key.dst_ip
    pub next_proto_id : f.ip.next_proto_id ≡ ip_protocol pf protocol
    pub total_length : be_to_cpu_16 f.ip.total_length ≡ u16 (packet_size - sizeof_ether_hdr)
    pub checksum : f.ip.hdr_checksum ≡ ipv4_cksum (record (f.ip) { hdr_checksum = 0 })
    pub same_kind : kind f.transport ≡ protocol
    pub ports : Ports key f.transport

  -- What is relied on of `rte_cpu_to_be_16` and `rte_be_to_cpu_16`.
  pub record SwapsBack : Type 0 where
    pub swaps_back : (x : ℕ) → x < 2 ^ 16 → be_to_cpu_16 (cpu_to_be_16 x) ≡ x

  module _ (documented : SwapsBack) where
    supported_cases :
        (protocol : String) {s : ℕ}
        → transport_header_size pf protocol ≡ some s
        → (protocol ≡ "tcp") ⊎ (protocol ≡ "udp") ⊎ (protocol ≡ "icmp")
    unfolding transport_header_size
    supported_cases protocol e =
        ground (arith, eq_iff protocol "tcp", eq_iff protocol "udp", eq_iff protocol "icmp")

    build_transport-Ports :
        (key : FlowKey) (protocol : String) (ip : Ipv4Hdr) (n m : ℕ) {s : ℕ}
        → key.src_port < 2 ^ 16
        → key.dst_port < 2 ^ 16
        → transport_header_size pf protocol ≡ some s
        → (kind (build_transport pf protocol key ip n m) ≡ protocol)
          × Ports key (build_transport pf protocol key ip n m)
    unfolding build_transport transport_header_size build_tcp_header build_udp_header
    build_transport-Ports key protocol ip n m h k e =
        let back = documented.swaps_back key.src_port h in
        let back' = documented.swaps_back key.dst_port k in
        elim (supported_cases protocol e) [
          | inl p ↦ rw p (refl, (back, back'))
          | inr (inl p) ↦ rw p (refl, (back, back'))
          | inr (inr p) ↦ rw p (refl, refl)
        ]

    -- For a supported protocol, 16-bit ports and a size that the headers fit into, the template
    -- that `build_template` leaves carries the flow: headers and payload make up the size, the
    -- addresses, the ports and the protocol are the flow's, the length field is the size less the
    -- Ethernet header, modulo 2^16, and the IP checksum is that of the finished header. It relies
    -- on the byte-order functions undoing each other.
    pub build_template-Carries :
        (key : FlowKey) (packet_size : ℕ) (protocol src_mac dst_mac : String) (n : ℕ)
        → key.src_port < 2 ^ 16
        → key.dst_port < 2 ^ 16
        → transport_header_size pf protocol ≡ some n
        → header_size n ≤ packet_size
        → (f : Frame) × ((build_template pf key packet_size protocol src_mac dst_mac).0 ≡ record {
          flow_key = key;
          total_size = packet_size;
          payload_offset = header_size n;
          frame = some f;
        })
          × Carries key packet_size protocol n f
    unfolding build_template build_ip_header
    build_template-Carries key packet_size protocol src_mac dst_mac n h k e l = (
      build_frame pf key packet_size protocol src_mac dst_mac n (packet_size - header_size n),
      ground (arith),
      record {
        size = omega (arith, length-replicate {A = ℕ} (packet_size - header_size n) 0);
        src_ip = refl;
        dst_ip = refl;
        next_proto_id = refl;
        total_length = documented.swaps_back _ (omega arith);
        checksum = refl;
        same_kind = (build_transport-Ports key protocol _ n _ h k e).0;
        ports = (build_transport-Ports key protocol _ n _ h k e).1;
      },
    )
