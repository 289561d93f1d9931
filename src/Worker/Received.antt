-- ===== src/Worker/Received.antt =====
-- What `process_received_packets` of worker.cpp does with a burst.
use ngfwtraffic_gen.Common.{
  ℕ, ◌+◌, ◌-◌, ◌^◌, ◌<◌, ◌≡◌, refl, ap, ◌∙◌, inl, inr, Option, none, some, List, [], ◌∷◌, length,
  ltb, if◌then◌else◌, arith, u64, Bool-cases,
}
use ngfwtraffic_gen.Common.Double.{Double}
use ngfwtraffic_gen.Packet.{Platform}
use ngfwtraffic_gen.Flow.{FlowScheduler}
use ngfwtraffic_gen.Metrics.{
  CoreStats, MetricsCollector, get_global_stats, update_rx_stats, aggregate, no_stats,
}
use ngfwtraffic_gen.Metrics.Latency.{record_latency}
use ngfwtraffic_gen.Metrics.Totals.{global-update_rx}
use ngfwtraffic_gen.Worker.{WorkerConfig}
use ngfwtraffic_gen.Worker.Receive.{
  Received, Rx, has_latency, measure, receive_packet, receive_packets, count_received,
  process_received_packets,
}

abbrev pub Burst : Type 0
Burst = List (Option Received)

-- The buffers of a burst, their bytes, and those that carry an earlier time stamp.
pub present : Burst → ℕ
present [] = 0
present (none ∷ mbufs) = present mbufs
present (some p ∷ mbufs) = present mbufs + 1

pub bytes : Burst → ℕ
bytes [] = 0
bytes (none ∷ mbufs) = bytes mbufs
bytes (some p ∷ mbufs) = p.pkt_len + bytes mbufs

-- The totals after the last step: those before, with the burst added where it has a byte.
abbrev pub with_received : ℕ → ℕ → CoreStats → CoreStats
with_received packets octets c =
    if ltb 0 octets
    then record c {
      rx_packets = u64 (c.rx_packets + packets);
      rx_bytes = u64 (c.rx_bytes + octets);
    }
    else c

module _ (d : Double) (pf : Platform) (cfg : WorkerConfig) (now_ns : ℕ) (clock : ℕ → ℕ × ℕ) where
  pub timed : Burst → ℕ
  timed [] = 0
  timed (none ∷ mbufs) = timed mbufs
  timed (some p ∷ mbufs) = timed mbufs + (if has_latency d pf cfg now_ns p then 1 else 0)

  measure-some :
      (p : Received) (m : MetricsCollector d.Carrier)
      → m.latency_samples < 2 ^ 64
      → (m' : MetricsCollector d.Carrier) × (measure d pf cfg now_ns p (some m) ≡ some m')
        × (m'.per_core_stats ≡ m.per_core_stats)
        × (m'.latency_samples
            ≡ u64 (m.latency_samples + (if has_latency d pf cfg now_ns p then 1 else 0)))
  unfolding measure record_latency
  measure-some p m h = elim (Bool-cases (has_latency d pf cfg now_ns p)) [
    | inl t ↦ (record_latency d m cfg.core_id (now_ns - p.timestamp), rw t refl, refl, rw t refl)
    | inr f ↦ (m, rw f refl, refl, rw f (omega arith))
  ]

  record Counted (mbufs : Burst) (m : MetricsCollector d.Carrier) (r r' : Rx d.Carrier)
      : Type 0 where
    after : MetricsCollector d.Carrier
    collector : r'.metrics_collector ≡ some after
    stats : after.per_core_stats ≡ m.per_core_stats
    samples : after.latency_samples ≡ u64 (m.latency_samples + timed mbufs)
    added : r'.total_bytes ≡ r.total_bytes + bytes mbufs
    freed : r'.freed ≡ r.freed + present mbufs

  receive_packets-Counted :
      (i : ℕ) (mbufs : Burst) (m : MetricsCollector d.Carrier) (r : Rx d.Carrier)
      → r.metrics_collector ≡ some m
      → m.latency_samples < 2 ^ 64
      → Counted mbufs m r (receive_packets d pf cfg now_ns clock i mbufs r)
  unfolding receive_packets receive_packet bytes present timed
  receive_packets-Counted i [] m r e h = record {
    after = m;
    collector = e;
    stats = refl;
    samples = omega arith;
    added = omega arith;
    freed = omega arith;
  }
  receive_packets-Counted i (none ∷ mbufs) m r e h =
      let rest = receive_packets-Counted (i + 1) mbufs m r e h in
      record {
        after = rest.after;
        collector = rest.collector;
        stats = rest.stats;
        samples = rest.samples;
        added = rest.added;
        freed = rest.freed;
      }
  receive_packets-Counted i (some p ∷ mbufs) m r e h =
      let (m', f, same, more) = measure-some p m h in
      let next : Rx d.Carrier = receive_packet d pf cfg now_ns (clock i) (some p) r in
      let rest = receive_packets-Counted (i + 1) mbufs m' next (rw e f) (omega arith) in
      record {
        after = rest.after;
        collector = rest.collector;
        stats = rest.stats ∙ same;
        samples = omega (arith, rest.samples);
        added = omega (arith, rest.added);
        freed = omega (arith, rest.freed);
      }

  count_received_totals :
      (packets octets : ℕ) (after m : MetricsCollector d.Carrier)
      → after.per_core_stats ≡ m.per_core_stats
      → cfg.core_id < length m.per_core_stats
      → (m' : MetricsCollector d.Carrier) × (count_received d pf cfg packets octets (some after)
          ≡ some m')
        × (m'.latency_samples ≡ after.latency_samples)
        × (get_global_stats m' ≡ with_received packets octets (get_global_stats m))
  unfolding count_received get_global_stats update_rx_stats
  count_received_totals packets octets after m e inside =
      let same : get_global_stats after ≡ get_global_stats m = ap (aggregate no_stats) e in
      let within : cfg.core_id < length after.per_core_stats = rw e inside in
      elim (Bool-cases (ltb 0 octets)) [
        | inl some_bytes ↦ (
          update_rx_stats after cfg.core_id packets octets,
          rw some_bytes refl,
          refl,
          rw some_bytes (
              global-update_rx after cfg.core_id packets octets within
              ∙ ap
                  (λ (c : CoreStats). record c {
                    rx_packets = u64 (c.rx_packets + packets);
                    rx_bytes = u64 (c.rx_bytes + octets);
                  })
                  same),
        )
        | inr no_bytes ↦ (after, rw no_bytes refl, refl, rw no_bytes same)
      ]

  -- With a collector that has the worker's core and a sample count below 2^64,
  -- `process_received_packets` gives back every buffer that is there, counts one latency sample for
  -- each that carries an earlier time stamp, and, where the burst has a byte, adds the length of
  -- the burst and its bytes to the totals, modulo 2^64, and nothing else to them.
  pub process_received_packets_totals :
      (mbufs : Burst) (s : Option FlowScheduler) (m : MetricsCollector d.Carrier)
      → cfg.core_id < length m.per_core_stats
      → m.latency_samples < 2 ^ 64
      → let r = process_received_packets d pf cfg now_ns clock mbufs s (some m) in
        (m' : MetricsCollector d.Carrier) × (r.metrics_collector ≡ some m')
        × (r.freed ≡ present mbufs)
        × (m'.latency_samples ≡ u64 (m.latency_samples + timed mbufs))
        × (get_global_stats m' ≡ with_received (length mbufs) (bytes mbufs) (get_global_stats m))
  unfolding process_received_packets present bytes timed
  process_received_packets_totals [] s m inside h = (m, refl, refl, omega arith, refl)
  process_received_packets_totals (b ∷ mbufs) s m inside h =
      let start : Rx d.Carrier = record {
        flow_scheduler = s;
        metrics_collector = some m;
        total_bytes = 0;
        freed = 0;
      } in
      let c = receive_packets-Counted 0 (b ∷ mbufs) m start refl h in
      let octets : (receive_packets d pf cfg now_ns clock 0 (b ∷ mbufs) start).total_bytes
          ≡ bytes (b ∷ mbufs) =
        omega (arith, c.added) in
      let (m', e, same, totals) =
        count_received_totals (length (b ∷ mbufs)) (bytes (b ∷ mbufs)) c.after m c.stats inside in
      (m', rw octets (rw c.collector e), omega (arith, c.freed), same ∙ c.samples, totals)
