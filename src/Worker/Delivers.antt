-- ===== src/Worker/Delivers.antt =====
-- What a burst of worker.cpp is to the scheduler: the TCP segments in it, told by their bytes.
use ngfwtraffic_gen.Common.{
  ℕ, ◌+◌, ◌-◌, ◌*◌, ◌/◌, ◌^◌, ◌≤◌, ◌<◌, ◌≡◌, refl, ◌⊎◌, inl, inr, Option, none, some, List, [], ◌∷◌,
  All, arith, u16, ltb, if◌then◌else◌, true, false, Bool-cases, ==_iff,
}
use ngfwtraffic_gen.Common.Double.{Double}
use ngfwtraffic_gen.Types.{FlowKey}
use ngfwtraffic_gen.Packet.{Platform}
use ngfwtraffic_gen.Flow.{FlowScheduler}
use ngfwtraffic_gen.Flow.History.{Call, receives}
use ngfwtraffic_gen.Flow.History
use ngfwtraffic_gen.Metrics.{MetricsCollector}
use ngfwtraffic_gen.Worker.{WorkerConfig, payload_length}
use ngfwtraffic_gen.Worker.Receive.{Received, is_tcp, received_key, process_received_packets}
use ngfwtraffic_gen.Worker.Received.{Burst}
use ngfwtraffic_gen.Worker.Segments.{segments, process_received_packets-run}

-- The length of the TCP header: the upper four bits of the octet `data_off` count words of 4 octets.
abbrev pub tcp_header : Received → ℕ
tcp_header p = 4 * (p.tcp.data_off / 16)

module _ (pf : Platform) where
  open pf use {be_to_cpu_16, ipproto_tcp}

  -- Version 4 in the upper half of the first octet, and the protocol TCP.
  abbrev pub IsSegment : Received → Type 0
  IsSegment p =
      (64 ≤ p.ip.version_ihl) × (p.ip.version_ihl < 80) × (p.ip.next_proto_id ≡ ipproto_tcp)

  -- The flow of the segment, as its sender sees it.
  pub record IsKey (p : Received) (key : FlowKey) : Type 0 where
    pub source : key.src_ip ≡ p.ip.src_addr
    pub destination : key.dst_ip ≡ p.ip.dst_addr
    pub source_port : key.src_port ≡ be_to_cpu_16 p.tcp.src_port
    pub destination_port : key.dst_port ≡ be_to_cpu_16 p.tcp.dst_port
    pub tcp : key.protocol ≡ ipproto_tcp

  -- What the IP length leaves behind both headers; nothing where they do not fit; and 2^16 more where the
  -- length does not even cover the IP header.
  abbrev pub HasPayload : Received → ℕ → Type 0
  HasPayload p n =
      let total = be_to_cpu_16 p.ip.total_length in
      (total ≡ 20 + tcp_header p + n)
      ⊎ (((20 ≤ total) × (total ≤ 20 + tcp_header p) × (n ≡ 0))
          ⊎ ((total < 20) × (total + 2 ^ 16 ≡ 20 + tcp_header p + n)))

  -- The widths of the fields.
  abbrev pub Fits : Option Received → Type 0
  Fits none = Unit
  Fits (some p) = (be_to_cpu_16 p.ip.total_length < 2 ^ 16) × (p.tcp.data_off < 2 ^ 8)

  -- The calls that a burst makes, from the buffer number `i`; `clock` gives the times of each.
  pub data Delivers (clock : ℕ → ℕ × ℕ) : ℕ → Burst → List Call → Type 0 where
    done : {i : ℕ} → Delivers clock i [] []
    absent :
        {i : ℕ} {mbufs : Burst} {calls : List Call}
        → Delivers clock (i + 1) mbufs calls
        → Delivers clock i (none ∷ mbufs) calls
    passed_over :
        {i : ℕ} {mbufs : Burst} {calls : List Call} (p : Received)
        → ¬ IsSegment p
        → Delivers clock (i + 1) mbufs calls
        → Delivers clock i (some p ∷ mbufs) calls
    delivered :
        {i : ℕ} {mbufs : Burst} {calls : List Call} (p : Received) (key : FlowKey) (n : ℕ)
        → IsSegment p
        → IsKey p key
        → HasPayload p n
        → Delivers clock (i + 1) mbufs calls
        → Delivers clock i (some p ∷ mbufs) (receives (clock i).0 (clock i).1 key p.tcp n ∷ calls)

payload_cases :
    (total ip_header data_off : ℕ)
    → ip_header ≡ 20
    → total < 2 ^ 16
    → data_off < 2 ^ 8
    → let l4_len = u16 (total + (2 ^ 16 - ip_header)) in
      let tcp_hdr_len = u16 (data_off / 16 * 4) in
      let n = if ltb tcp_hdr_len l4_len then l4_len - tcp_hdr_len else 0 in
      let tcp_header = 4 * (data_off / 16) in
      (total ≡ 20 + tcp_header + n)
      ⊎ (((20 ≤ total) × (total ≤ 20 + tcp_header) × (n ≡ 0))
          ⊎ ((total < 20) × (total + 2 ^ 16 ≡ 20 + tcp_header + n)))
payload_cases total ip_header data_off e fits byte =
    let l4_len = u16 (total + (2 ^ 16 - ip_header)) in
    let tcp_hdr_len = u16 (data_off / 16 * 4) in
    elim (Bool-cases (ltb tcp_hdr_len l4_len)) [
      | inl more ↦ elim (Bool-cases (ltb total 20)) [
        | inl short ↦ inr (inr (ground arith, rw more (ground arith)))
        | inr covered ↦ inl (rw more (ground arith))
      ]
      | inr less ↦ inr (inl (ground arith, ground arith, rw less refl))
    ]

module _ (d : Double) (pf : Platform) (header : pf.sizeof_ipv4_hdr ≡ 20) where
  is_tcp-IsSegment : (p : Received) → is_tcp d pf p ≡ true → IsSegment pf p
  is_tcp-IsSegment p e =
      ground (arith, ==_iff (p.ip.version_ihl / 16) 4, ==_iff p.ip.next_proto_id pf.ipproto_tcp)

  not_tcp-IsSegment : (p : Received) → is_tcp d pf p ≡ false → ¬ IsSegment pf p
  not_tcp-IsSegment p e h =
      ground (arith, ==_iff (p.ip.version_ihl / 16) 4, ==_iff p.ip.next_proto_id pf.ipproto_tcp)

  payload_length-HasPayload :
      (p : Received) → Fits pf (some p) → HasPayload pf p (payload_length pf p.ip p.tcp)
  unfolding payload_length
  payload_length-HasPayload p h =
      payload_cases (pf.be_to_cpu_16 p.ip.total_length) pf.sizeof_ipv4_hdr p.tcp.data_off header h.0
        h.1

  segments-Delivers :
      (cfg : WorkerConfig) (now_ns : ℕ) (clock : ℕ → ℕ × ℕ) (i : ℕ) (mbufs : Burst)
      → All (Fits pf) mbufs
      → Delivers pf clock i mbufs (segments d pf cfg now_ns clock i mbufs)
  unfolding segments
  segments-Delivers cfg now_ns clock i [] h = done
  segments-Delivers cfg now_ns clock i (none ∷ mbufs) h =
      absent (segments-Delivers cfg now_ns clock (i + 1) mbufs h.1)
  segments-Delivers cfg now_ns clock i (some p ∷ mbufs) h =
      let rest = segments-Delivers cfg now_ns clock (i + 1) mbufs h.1 in
      elim (Bool-cases (is_tcp d pf p)) [
        | inl t ↦ rw t (
            delivered p (received_key d pf p) (payload_length pf p.ip p.tcp) (is_tcp-IsSegment p t)
              (record {
                source = refl;
                destination = refl;
                source_port = refl;
                destination_port = refl;
                tcp = refl;
              })
              (payload_length-HasPayload p h.0) rest)
        | inr f ↦ rw f (passed_over p (not_tcp-IsSegment p f) rest)
      ]

  -- Where an IP header has 20 bytes, with a scheduler and packets whose length fields are within
  -- their widths, `process_received_packets` does to the scheduler what the calls of
  -- `handle_tcp_rx` do that the burst delivers, and no more: one call, in the burst's order, for
  -- each buffer of IP version 4 and the protocol TCP, with the addresses, the ports and the
  -- protocol in its headers as the key, and as the payload's length what the IP length leaves
  -- behind the IP header and the TCP header, 0 where the two do not fit, and 2^16 more where the IP
  -- length is below 20.
  pub process_received_packets-Delivers :
      (cfg : WorkerConfig) (now_ns : ℕ) (clock : ℕ → ℕ × ℕ) (mbufs : Burst) (s : FlowScheduler)
      (m : Option (MetricsCollector d.Carrier))
      → All (Fits pf) mbufs
      → (calls : List Call) × Delivers pf clock 0 mbufs calls
        × ((process_received_packets d pf cfg now_ns clock mbufs (some s) m).flow_scheduler
            ≡ some (History.run pf s calls))
  process_received_packets-Delivers cfg now_ns clock mbufs s m h = (
    segments d pf cfg now_ns clock 0 mbufs,
    segments-Delivers cfg now_ns clock 0 mbufs h,
    process_received_packets-run d pf cfg now_ns clock mbufs s m,
  )
