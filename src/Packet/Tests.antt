-- ===== src/Packet/Tests.antt =====
-- Runs of packet_builder.cpp and packet_mutator.cpp, and their theorems at concrete inputs.
use ngfwtraffic_gen.Common.{[], ◌∷◌, none, ◌≡◌, refl, true, false, some, arith}
use ngfwtraffic_gen.Packet.{Frame, transport_header_size, build_template}
use ngfwtraffic_gen.Packet.Build.{Carries, SwapsBack, build_template-Carries}
use ngfwtraffic_gen.Packet.{tcp_hdr, PacketTemplate}
use ngfwtraffic_gen.Packet.Mutate.{Mbuf, clone_and_mutate, mutated, overrun, new_mutator}
use ngfwtraffic_gen.Packet.Offset.{HasFrame}
use ngfwtraffic_gen.Packet.Vary.{Varied, clone_and_mutate-Varied, clone_and_mutate-overrun}
use ngfwtraffic_gen.Packet.Sample.{plain, key_a, counting}

-- 53 bytes are too few for a TCP segment, and 54 are enough.
too_small : (build_template plain key_a 53 "tcp" "" "").1 ≡ false
unfolding build_template transport_header_size
too_small = refl

just_enough : (build_template plain key_a 54 "tcp" "" "").1 ≡ true
unfolding build_template transport_header_size
just_enough = refl

plain-SwapsBack : SwapsBack plain
plain-SwapsBack = record { swaps_back = λ x h. refl }

build_template-Carries_example :
    (f : Frame) × ((build_template plain key_a 64 "tcp" "" "").0
      ≡ record { flow_key = key_a; total_size = 64; payload_offset = 54; frame = some f })
    × Carries plain key_a 64 "tcp" 20 f
unfolding transport_header_size
build_template-Carries_example =
    build_template-Carries plain plain-SwapsBack key_a 64 "tcp" "" "" 20 (omega arith) (omega arith)
      refl (omega arith)

abbrev segment : Frame
segment = record {
  ether = record { dst_addr = []; src_addr = []; ether_type = 2048 };
  ip = record {
    version_ihl = 69;
    type_of_service = 0;
    total_length = 50;
    packet_id = 0;
    fragment_offset = 0;
    time_to_live = 64;
    next_proto_id = 6;
    hdr_checksum = 7;
    src_addr = 10;
    dst_addr = 20;
  };
  transport = tcp_hdr (record {
    src_port = 1000;
    dst_port = 80;
    sent_seq = 0;
    recv_ack = 0;
    data_off = 80;
    tcp_flags = 0;
    rx_win = 0;
    cksum = 9;
    tcp_urp = 0;
  });
  payload = 0 ∷ 0 ∷ 0 ∷ 0 ∷ 0 ∷ 0 ∷ 0 ∷ 0 ∷ 0 ∷ 0 ∷ [];
}

-- The template is enlarged from 64 to 1518 bytes.
abbrev template : PacketTemplate
template = record { flow_key = key_a; total_size = 1518; payload_offset = 54; frame = some segment }

abbrev buffer : Mbuf
buffer = record { pkt_len = 0; data_len = 0; tailroom = 2048; frame = none; timestamp = 0 }

abbrev template-HasFrame : HasFrame plain 1518 template
template-HasFrame = record {
  content = segment;
  has_content = refl;
  offset_in_data = omega arith;
  offset_in_size = omega arith;
  headers_copied = omega arith;
}

clone_and_mutate-Varied_example :
    (b : Mbuf) × ((clone_and_mutate plain counting 5
        (new_mutator counting)
        buffer
        template
        0
        true).1
      ≡ mutated b)
    × Varied plain template segment b
clone_and_mutate-Varied_example =
    clone_and_mutate-Varied plain counting 5 (new_mutator counting) buffer template 0
      template-HasFrame (omega arith) (omega arith)

-- Of 65600 bytes, 64 are asked for behind the buffer's data, and there is room for them.
abbrev large_template : PacketTemplate
large_template = record template { total_size = 65600 }

abbrev large-HasFrame : HasFrame plain 65600 large_template
large-HasFrame = record {
  content = segment;
  has_content = refl;
  offset_in_data = omega arith;
  offset_in_size = omega arith;
  headers_copied = omega arith;
}

clone_and_mutate-overrun_example :
    (clone_and_mutate plain counting 5 (new_mutator counting) buffer large_template 0 true).1
    ≡ overrun
clone_and_mutate-overrun_example =
    clone_and_mutate-overrun plain counting 5 (new_mutator counting) buffer large_template 0 true
      large-HasFrame (omega arith) (omega arith) (omega arith)
