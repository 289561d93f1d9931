-- ===== src/Service/Report.antt =====
-- `GetMetrics` and `GetStats` of server.cpp, and their messages in proto/traffic_generator.proto. Neither
-- holds the lock; the counters that they read one by one are taken as if nothing ran in between.
use ngfwtraffic_gen.Common.{ℕ, ◌+◌, String, Bool, Option, none, some, List, [], ◌∷◌, if◌then◌else◌}
use ngfwtraffic_gen.Common.Assoc.{nat_key, insert}
use ngfwtraffic_gen.Common.Double.{Double}
use ngfwtraffic_gen.Imix.{Sampler}
use ngfwtraffic_gen.Flow.{FlowSnapshot, FlowScheduler, get_all_flows_snapshot}
use ngfwtraffic_gen.Metrics.{
  CoreStats, MetricsCollector, get_global_stats, get_all_core_stats, get_uptime_seconds,
}
use ngfwtraffic_gen.Metrics.Latency.{
  LatencyBucketInfo, get_average_latency_us, get_latency_histogram,
}
use ngfwtraffic_gen.Metrics.Rates.{
  calculate_current_pps, calculate_global_pps, calculate_global_bps,
}
use ngfwtraffic_gen.Service.{TrafficGeneratorService}

pub record GlobalMetrics (W : Type 0) : Type 0 where
  pub total_tx_packets : ℕ
  pub total_rx_packets : ℕ
  pub total_tx_bytes : ℕ
  pub total_rx_bytes : ℕ
  pub current_pps : W
  pub current_bps : W
  pub avg_latency_us : W
  pub errors : ℕ

pub record CoreMetrics (W : Type 0) : Type 0 where
  pub core_id : ℕ
  pub tx_packets : ℕ
  pub rx_packets : ℕ
  pub tx_bytes : ℕ
  pub rx_bytes : ℕ
  pub pps : W

pub record MetricsResponse (W : Type 0) : Type 0 where
  pub global : GlobalMetrics W
  pub per_core : List (CoreMetrics W)
  pub latency : Option (List LatencyBucketInfo)

pub record FlowStats (W : Type 0) : Type 0 where
  pub flow_id : ℕ
  pub tx_packets : ℕ
  pub tx_bytes : ℕ
  pub avg_pps : W

pub record StatsResponse (W : Type 0) : Type 0 where
  pub metrics : GlobalMetrics W
  pub uptime_seconds : ℕ
  pub flow_stats : List (ℕ × FlowStats W)

-- `grpc::Status`: an internal error with its message, or OK with the response.
pub data Reply (A : Type 0) : Type 0 where
  internal : String → Reply A
  replies : A → Reply A

-- The times at which a call reads the clock, for each core twice.
pub record Clocks : Type 0 where
  pub pps : ℕ → ℕ × ℕ
  pub bps : ℕ → ℕ × ℕ
  pub per_core : ℕ → ℕ × ℕ

module _ (d : Double) (g : Sampler d.Carrier) where
  open d use {Carrier, of_u64, div, lt}

  abbrev Collector : Type 0
  Collector = MetricsCollector Carrier

  -- The totals, with the rates that the two loops over the cores give. A field that is not set is zero.
  abbrev totals : CoreStats → Carrier → Carrier → Carrier → GlobalMetrics Carrier
  totals stats pps bps latency = record {
    total_tx_packets = stats.tx_packets;
    total_rx_packets = stats.rx_packets;
    total_tx_bytes = stats.tx_bytes;
    total_rx_bytes = stats.rx_bytes;
    current_pps = pps;
    current_bps = bps;
    avg_latency_us = latency;
    errors = stats.errors;
  }

  -- The collector after the rates were asked for, and the rates.
  abbrev pub rates : Clocks → Collector → Collector × Carrier × Carrier
  rates clocks m =
      let (m', pps) = calculate_global_pps d clocks.pps m in
      let (m'', bps) = calculate_global_bps d clocks.bps m' in (m'', pps, bps)

  -- The loop over the statistics of the cores.
  unfoldable pub core_entries :
      (ℕ → ℕ × ℕ) → ℕ → List CoreStats → Collector → Collector × List (CoreMetrics Carrier)
  core_entries clock i [] m = (m, [])
  core_entries clock i (c ∷ stats) m =
      let (m', pps) = calculate_current_pps d (clock i).0 (clock i).1 m i in
      let (m'', entries) = core_entries clock (i + 1) stats m' in
      (
        m'',
        record {
          core_id = i;
          tx_packets = c.tx_packets;
          rx_packets = c.rx_packets;
          tx_bytes = c.tx_bytes;
          rx_bytes = c.rx_bytes;
          pps = pps;
        }
            ∷ entries,
      )

  -- What `GetMetrics` does with the collector.
  unfoldable pub report_metrics :
      Clocks → Bool → Bool → Collector → Collector × MetricsResponse Carrier
  report_metrics clocks include_per_core include_latency_histogram m =
      let (m', pps, bps) = rates clocks m in
      let (m'', entries) =
        (if include_per_core
          then core_entries clocks.per_core 0 (get_all_core_stats m') m'
          else (m', [])) in
      (
        m'',
        record {
          global = totals (get_global_stats m) pps bps (get_average_latency_us d m');
          per_core = entries;
          latency = if include_latency_histogram then some (get_latency_histogram m'') else none;
        },
      )

  unfoldable pub get_metrics :
      Clocks
      → TrafficGeneratorService d g
      → Bool
      → Bool
      → TrafficGeneratorService d g × Reply (MetricsResponse Carrier)
  get_metrics clocks v include_per_core include_latency_histogram = elim v.metrics_collector [
    | none ↦ (v, internal "Metrics collector not initialized")
    | some m ↦
        let (m', response) = report_metrics clocks include_per_core include_latency_histogram m in
        (record v { metrics_collector = some m' }, replies response)
  ]

  -- The statistics of a flow; `uptime` is read anew for each.
  abbrev pub flow_entry : ℕ → FlowSnapshot → FlowStats Carrier
  flow_entry uptime cfg = record {
    flow_id = cfg.flow_id;
    tx_packets = cfg.packets_sent;
    tx_bytes = cfg.bytes_sent;
    avg_pps =
        if lt (of_u64 0) (of_u64 uptime)
        then div (of_u64 cfg.packets_sent) (of_u64 uptime)
        else of_u64 0;
  }

  -- The loop over the flows, from the flow number `i`, which writes to the response's map.
  unfoldable pub flow_entries :
      (ℕ → ℕ)
      → Collector
      → ℕ
      → List (ℕ × FlowSnapshot)
      → List (ℕ × FlowStats Carrier)
      → List (ℕ × FlowStats Carrier)
  flow_entries clock m i [] stats = stats
  flow_entries clock m i ((flow_id, cfg) ∷ flows) stats =
      flow_entries clock m (i + 1) flows
        (insert cfg.flow_id (flow_entry (get_uptime_seconds (clock i) m) cfg) stats)

  abbrev pub flows_of :
      Bool → (ℕ → ℕ) → Collector → Option FlowScheduler → List (ℕ × FlowStats Carrier)
  flows_of detailed clock m none = []
  flows_of detailed clock m (some s) =
      if detailed then flow_entries clock m 0 (get_all_flows_snapshot s) [] else []

  -- What `GetStats` does with the collector; it does not set the latency.
  unfoldable pub report_stats :
      Clocks
      → ℕ
      → (ℕ → ℕ)
      → Bool
      → Option FlowScheduler
      → Collector
      → Collector × StatsResponse Carrier
  unfolding flow_entries
  report_stats clocks now_ns flow_clock detailed s m =
      let (m', pps, bps) = rates clocks m in
      (
        m',
        record {
          metrics = totals (get_global_stats m) pps bps (of_u64 0);
          uptime_seconds = get_uptime_seconds now_ns m';
          flow_stats = flows_of detailed flow_clock m' s;
        },
      )

  unfoldable pub get_stats :
      Clocks
      → ℕ
      → (ℕ → ℕ)
      → TrafficGeneratorService d g
      → Bool
      → TrafficGeneratorService d g × Reply (StatsResponse Carrier)
  get_stats clocks now_ns flow_clock v detailed = elim v.metrics_collector [
    | none ↦ (v, internal "Metrics collector not initialized")
    | some m ↦
        let (m', response) = report_stats clocks now_ns flow_clock detailed v.flow_scheduler m in
        (record v { metrics_collector = some m' }, replies response)
  ]
