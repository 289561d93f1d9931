-- ===== src/Packet/Offset.antt =====
-- The payload of a template that `build_template` of packet_builder.cpp has built: where it begins.
use ngfwtraffic_gen.Common.{
  ℕ, inl, inr, ◌+◌, ◌-◌, ◌≤◌, ◌≡◌, String, true, some, arith, Option-cases,
}
use ngfwtraffic_gen.Types.{FlowKey}
use ngfwtraffic_gen.Packet.{
  Platform, Frame, PacketTemplate, transport_header_size, build_template, build_frame, build_sized,
  build_transport,
}
use ngfwtraffic_gen.Packet.Mutate.{headers_size, data_size}

module _ (pf : Platform) where
  -- A frame, and a payload that begins behind its headers, within it and within `packet_size`.
  pub record HasFrame (packet_size : ℕ) (t : PacketTemplate) : Type 0 where
    pub content : Frame
    pub has_content : t.frame ≡ some content
    pub headers_copied : headers_size pf content ≤ t.payload_offset
    pub offset_in_data : t.payload_offset ≤ data_size pf content
    pub offset_in_size : t.payload_offset ≤ packet_size

  frame-size :
      (key : FlowKey) (packet_size : ℕ) (protocol src_mac dst_mac : String) (n m : ℕ)
      → transport_header_size pf protocol ≡ some n
      → headers_size pf (build_frame pf key packet_size protocol src_mac dst_mac n m)
        ≡ pf.sizeof_ether_hdr + pf.sizeof_ipv4_hdr + n
  unfolding build_frame build_transport transport_header_size
  frame-size key packet_size protocol src_mac dst_mac n m e = ground arith

  pub build_template-HasFrame :
      (key : FlowKey) (packet_size : ℕ) (protocol src_mac dst_mac : String)
      → (build_template pf key packet_size protocol src_mac dst_mac).1 ≡ true
      → HasFrame packet_size (build_template pf key packet_size protocol src_mac dst_mac).0
  unfolding build_template build_sized
  build_template-HasFrame key packet_size protocol src_mac dst_mac h =
      elim (Option-cases (transport_header_size pf protocol)) [
        | inl e ↦ absurd (ground arith)
        | inr (n, e) ↦
            let m = packet_size - (pf.sizeof_ether_hdr + pf.sizeof_ipv4_hdr + n) in
            record {
              content = build_frame pf key packet_size protocol src_mac dst_mac n m;
              has_content = ground arith;
              headers_copied =
                  ground (arith, frame-size key packet_size protocol src_mac dst_mac n m e);
              offset_in_data =
                  ground (arith, frame-size key packet_size protocol src_mac dst_mac n m e);
              offset_in_size = ground arith;
            }
      ]
