-- ===== src/Packet/Sample.antt =====
-- A platform to run packet_builder.cpp and packet_mutator.cpp on: big-endian, with constant checksums,
-- and with no text read.
use ngfwtraffic_gen.Common.{ℕ, ◌+◌, none, some, [], ◌∷◌}
use ngfwtraffic_gen.Types.{FlowKey}
use ngfwtraffic_gen.Packet.{Platform}
use ngfwtraffic_gen.Packet.Mutate.{IdSource}

abbrev pub plain : Platform
plain = record {
  sizeof_ether_hdr = 14;
  sizeof_ipv4_hdr = 20;
  sizeof_tcp_hdr = 20;
  sizeof_udp_hdr = 8;
  ether_type_ipv4 = 2048;
  ether_addr_len = 6;
  ipproto_icmp = 1;
  ipproto_tcp = 6;
  ipproto_udp = 17;
  tcp_fin_flag = 1;
  tcp_syn_flag = 2;
  tcp_ack_flag = 16;
  cpu_to_be_16 = λ x. x;
  be_to_cpu_16 = λ x. x;
  cpu_to_be_32 = λ x. x;
  be_to_cpu_32 = λ x. x;
  ipv4_cksum = λ ip. 7;
  ipv4_udptcp_cksum = λ ip transport payload. 9;
  inet_aton = λ ip. none;
  scan_colons = λ mac. some (0 ∷ 1 ∷ 2 ∷ 3 ∷ 4 ∷ 5 ∷ []);
  scan_plain = λ mac. none;
  print_colons = λ bytes. "00:01:02:03:04:05";
}

abbrev pub key_a : FlowKey
key_a = record { src_ip = 10; dst_ip = 20; src_port = 1000; dst_port = 80; protocol = 6 }

abbrev pub key_b : FlowKey
key_b = record { src_ip = 11; dst_ip = 21; src_port = 1001; dst_port = 443; protocol = 6 }

-- Numbers that count up from the seed.
abbrev pub counting : IdSource
counting = record { Rng = ℕ; seed = λ n. n; ip_id = λ r. (r, r + 1); sequence = λ r. (r, r + 1) }
