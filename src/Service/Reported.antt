-- ===== src/Service/Reported.antt =====
-- What `GetMetrics` of server.cpp replies, and what it leaves of the collector.
use mathlib.Core.Path.{subst}
use ngfwtraffic_gen.Common.{
  ℕ, zero, suc, ◌+◌, ◌≡◌, refl, ap, ◌⊎◌, inl, inr, Bool, true, false, none, some, List, [], ◌∷◌,
  length, leb, if◌then◌else◌, arith, Bool-cases, Option-cases,
}
use ngfwtraffic_gen.Common.Assoc.{nat_key}
use ngfwtraffic_gen.Common.Double.{Double}
use ngfwtraffic_gen.Imix.{Sampler}
use ngfwtraffic_gen.Metrics.{CoreStats, MetricsCollector, get_global_stats, get_all_core_stats}
use ngfwtraffic_gen.Metrics.Latency.{get_average_latency_us, get_latency_histogram}
use ngfwtraffic_gen.Metrics.Rates.{
  update_snapshot, calculate_current_pps, calculate_current_bps, calculate_global_pps,
  calculate_global_bps, pps_from, bps_from,
}
use ngfwtraffic_gen.Service.{TrafficGeneratorService}
use ngfwtraffic_gen.Service.Report.{
  CoreMetrics, MetricsResponse, internal, replies, Clocks, rates, core_entries, report_metrics,
  get_metrics,
}

-- Nothing but the snapshots has changed.
abbrev pub SameCounts : {W : Type 0} → MetricsCollector W → MetricsCollector W → Type 0
SameCounts m m' = m' ≡ record m { last_snapshot = m'.last_snapshot }

SameCounts-trans :
    {W : Type 0} (m n p : MetricsCollector W) → SameCounts m n → SameCounts n p → SameCounts m p
SameCounts-trans m n p e f = ground arith

-- One entry for each core, in order, with the core's counters.
abbrev pub Lists : {W : Type 0} → ℕ → List CoreStats → List (CoreMetrics W) → Type 0
Lists i [] [] = Unit
Lists i [] (_ ∷ _) = ⊥
Lists i (_ ∷ _) [] = ⊥
Lists i (c ∷ stats) (e ∷ entries) =
    (e.core_id ≡ i)
    × (e.tx_packets ≡ c.tx_packets)
    × (e.rx_packets ≡ c.rx_packets)
    × (e.tx_bytes ≡ c.tx_bytes)
    × (e.rx_bytes ≡ c.rx_bytes)
    × Lists (i + 1) stats entries

module _ (d : Double) where
  open d use {Carrier, of_u64}

  update_snapshot-SameCounts :
      (now_ns : ℕ) (m : MetricsCollector Carrier) (i : ℕ)
      → SameCounts m (update_snapshot now_ns m i)
  unfolding update_snapshot
  update_snapshot-SameCounts now_ns m i = ground arith

  current_pps-SameCounts :
      (now_ns later_ns : ℕ) (m : MetricsCollector Carrier) (i : ℕ)
      → SameCounts m (calculate_current_pps d now_ns later_ns m i).0
  unfolding calculate_current_pps
  current_pps-SameCounts now_ns later_ns m i = elim (Bool-cases (leb (length m.per_core_stats) i)) [
    | inl past ↦ rw past refl
    | inr within ↦ rw within (update_snapshot-SameCounts now_ns m i)
  ]

  current_bps-SameCounts :
      (now_ns later_ns : ℕ) (m : MetricsCollector Carrier) (i : ℕ)
      → SameCounts m (calculate_current_bps d now_ns later_ns m i).0
  unfolding calculate_current_bps
  current_bps-SameCounts now_ns later_ns m i = elim (Bool-cases (leb (length m.per_core_stats) i)) [
    | inl past ↦ rw past refl
    | inr within ↦ rw within (update_snapshot-SameCounts now_ns m i)
  ]

  pps_from-SameCounts :
      (clock : ℕ → ℕ × ℕ) (i left : ℕ) (total : Carrier) (m : MetricsCollector Carrier)
      → SameCounts m (pps_from d clock i left total m).0
  unfolding pps_from
  pps_from-SameCounts clock i zero total m = refl
  pps_from-SameCounts clock i (suc left) total m =
      let step = calculate_current_pps d (clock i).0 (clock i).1 m i in
      SameCounts-trans m step.0 (pps_from d clock (i + 1) left (d.add total step.1) step.0).0
        (current_pps-SameCounts (clock i).0 (clock i).1 m i)
        (pps_from-SameCounts clock (i + 1) left (d.add total step.1) step.0)

  bps_from-SameCounts :
      (clock : ℕ → ℕ × ℕ) (i left : ℕ) (total : Carrier) (m : MetricsCollector Carrier)
      → SameCounts m (bps_from d clock i left total m).0
  unfolding bps_from
  bps_from-SameCounts clock i zero total m = refl
  bps_from-SameCounts clock i (suc left) total m =
      let step = calculate_current_bps d (clock i).0 (clock i).1 m i in
      SameCounts-trans m step.0 (bps_from d clock (i + 1) left (d.add total step.1) step.0).0
        (current_bps-SameCounts (clock i).0 (clock i).1 m i)
        (bps_from-SameCounts clock (i + 1) left (d.add total step.1) step.0)

  module _ (g : Sampler Carrier) where
    core_entries-Lists :
        (clock : ℕ → ℕ × ℕ) (i : ℕ) (stats : List CoreStats) (m : MetricsCollector Carrier)
        → SameCounts m (core_entries d g clock i stats m).0
          × Lists i stats (core_entries d g clock i stats m).1
    unfolding core_entries
    core_entries-Lists clock i [] m = (refl, tt)
    core_entries-Lists clock i (c ∷ stats) m =
        let step = calculate_current_pps d (clock i).0 (clock i).1 m i in
        let rest = core_entries-Lists clock (i + 1) stats step.0 in
        (
          SameCounts-trans m step.0 (core_entries d g clock (i + 1) stats step.0).0
              (current_pps-SameCounts (clock i).0 (clock i).1 m i) rest.0,
          (refl, refl, refl, refl, refl, rest.1),
        )

    pub rates-SameCounts :
        (clocks : Clocks) (m : MetricsCollector Carrier) → SameCounts m (rates d g clocks m).0
    unfolding calculate_global_pps calculate_global_bps
    rates-SameCounts clocks m =
        let m' = (calculate_global_pps d clocks.pps m).0 in
        SameCounts-trans m m' (calculate_global_bps d clocks.bps m').0
          (pps_from-SameCounts clocks.pps 0 m.num_cores (of_u64 0) m)
          (bps_from-SameCounts clocks.bps 0 m'.num_cores (of_u64 0) m')

    -- What a reply says of a collector.
    pub record Reports (include_per_core include_latency_histogram : Bool)
        (m : MetricsCollector Carrier) (r : MetricsResponse Carrier) : Type 0 where
      pub tx_packets : r.global.total_tx_packets ≡ (get_global_stats m).tx_packets
      pub rx_packets : r.global.total_rx_packets ≡ (get_global_stats m).rx_packets
      pub tx_bytes : r.global.total_tx_bytes ≡ (get_global_stats m).tx_bytes
      pub rx_bytes : r.global.total_rx_bytes ≡ (get_global_stats m).rx_bytes
      pub errors : r.global.errors ≡ (get_global_stats m).errors
      pub latency_us : r.global.avg_latency_us ≡ get_average_latency_us d m
      pub per_core : Lists 0 (if include_per_core then m.per_core_stats else []) r.per_core
      pub histogram :
          r.latency ≡ (if include_latency_histogram then some (get_latency_histogram m) else none)

    cores_of :
        (clocks : Clocks) (include_per_core : Bool) (m : MetricsCollector Carrier)
        → let r =
            (if include_per_core
              then core_entries d g clocks.per_core 0 (get_all_core_stats m) m
              else (m, [])) in
          SameCounts m r.0 × Lists 0 (if include_per_core then m.per_core_stats else []) r.1
    unfolding get_all_core_stats
    cores_of clocks true m = core_entries-Lists clocks.per_core 0 m.per_core_stats m
    cores_of clocks false m = (refl, tt)

    report_metrics-Reports :
        (clocks : Clocks) (include_per_core include_latency_histogram : Bool)
        (m : MetricsCollector Carrier)
        → let r = report_metrics d g clocks include_per_core include_latency_histogram m in
          SameCounts m r.0 × Reports include_per_core include_latency_histogram m r.1
    unfolding report_metrics get_average_latency_us get_latency_histogram
    report_metrics-Reports clocks include_per_core include_latency_histogram m =
        let m' = (rates d g clocks m).0 in
        let same = rates-SameCounts clocks m in
        let cores = cores_of clocks include_per_core m' in
        let m'' =
          (if include_per_core
            then core_entries d g clocks.per_core 0 (get_all_core_stats m') m'
            else (m', [])).0 in
        let same' = SameCounts-trans m m' m'' same cores.0 in
        (
          same',
          record {
            tx_packets = refl;
            rx_packets = refl;
            tx_bytes = refl;
            rx_bytes = refl;
            errors = refl;
            latency_us = ap (get_average_latency_us d) same;
            per_core =
                subst
                  (λ (stats : List CoreStats).
                    Lists 0 (if include_per_core then stats else [])
                      (if include_per_core
                        then core_entries d g clocks.per_core 0 (get_all_core_stats m') m'
                        else (m', [])).1)
                  (ap (λ (c : MetricsCollector Carrier). c.per_core_stats) same) cores.1;
            histogram =
                ap
                  (λ (c : MetricsCollector Carrier).
                    if include_latency_histogram then some (get_latency_histogram c) else none)
                  same';
          },
        )

    -- Without a collector, `GetMetrics` fails and changes nothing; else it replies the totals, the
    -- average latency, and, as asked, one entry for each core with its counters and the histogram,
    -- and changes nothing of the collector but its snapshots.
    pub get_metrics_cases :
        (clocks : Clocks) (v : TrafficGeneratorService d g)
        (include_per_core include_latency_histogram : Bool)
        → ((v.metrics_collector ≡ none)
            × (get_metrics d g clocks v include_per_core include_latency_histogram
                ≡ (v, internal "Metrics collector not initialized")))
          ⊎ ((m m' : MetricsCollector Carrier) × (r : MetricsResponse Carrier)
              × (v.metrics_collector ≡ some m)
              × (get_metrics d g clocks v include_per_core include_latency_histogram
                  ≡ (record v { metrics_collector = some m' }, replies r))
              × SameCounts m m'
              × Reports include_per_core include_latency_histogram m r)
    unfolding get_metrics
    get_metrics_cases clocks v include_per_core include_latency_histogram =
        elim (Option-cases v.metrics_collector) [
          | inl e ↦ inl (e, ground arith)
          | inr (m, e) ↦
              let r = report_metrics d g clocks include_per_core include_latency_histogram m in
              let (same, reports) =
                report_metrics-Reports clocks include_per_core include_latency_histogram m in
              inr (m, r.0, r.1, e, ground arith, same, reports)
        ]
