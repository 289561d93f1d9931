-- ===== src/Service/Stats.antt =====
-- What `GetStats` of server.cpp replies, and what it leaves of the collector.
use ngfwtraffic_gen.Common.{
  ℕ, ◌+◌, ◌≡◌, refl, ap, ◌∙◌, ◌⊎◌, inl, inr, Bool, true, false, none, some, List, [], ◌∷◌, map, All,
  All-mono, In, ◌==◌, ==_refl, arith, Bool-cases, Option-cases, Option,
}
use ngfwtraffic_gen.Common.Assoc.{nat_key, find, insert, find-insert, All-insert}
use ngfwtraffic_gen.Common.Double.{Double}
use ngfwtraffic_gen.Imix.{Sampler}
use ngfwtraffic_gen.Flow.{
  FlowConfigInternal, FlowSnapshot, FlowScheduler, snapshot, get_all_flows_snapshot,
}
use ngfwtraffic_gen.Metrics.{MetricsCollector, get_global_stats, get_uptime_seconds}
use ngfwtraffic_gen.Service.{TrafficGeneratorService}
use ngfwtraffic_gen.Service.Report.{
  FlowStats, StatsResponse, internal, replies, Clocks, rates, flow_entry, flow_entries, flows_of,
  report_stats, get_stats,
}
use ngfwtraffic_gen.Service.Reported.{SameCounts, rates-SameCounts}

-- An entry has the counters of a flow with its id.
abbrev pub Counts : {W : Type 0} → List (ℕ × FlowConfigInternal) → ℕ × FlowStats W → Type 0
Counts flows (flow_id, f) =
    (i : ℕ) × (c : FlowConfigInternal) × In (i, c) flows
    × (c.flow_id ≡ flow_id)
    × (f.flow_id ≡ flow_id)
    × (f.tx_packets ≡ c.packets_sent)
    × (f.tx_bytes ≡ c.bytes_sent)

-- A flow has an entry under its id.
abbrev pub HasEntry : {W : Type 0} → List (ℕ × FlowStats W) → ℕ × FlowConfigInternal → Type 0
HasEntry {W = W} stats (i, c) = (f : FlowStats W) × (find c.flow_id stats ≡ some f)

-- The entries are those of the flows, and each flow has one.
abbrev pub CoversFlows :
    {W : Type 0} → List (ℕ × FlowConfigInternal) → List (ℕ × FlowStats W) → Type 0
CoversFlows flows stats = All (Counts flows) stats × All (HasEntry stats) flows

module _ (d : Double) (g : Sampler d.Carrier) where
  open d use {Carrier, of_u64}

  insert-HasEntry :
      (k : ℕ) (f : FlowStats Carrier) (stats : List (ℕ × FlowStats Carrier))
      (e : ℕ × FlowConfigInternal)
      → HasEntry stats e
      → HasEntry (insert k f stats) e
  insert-HasEntry k f stats (i, c) (f', found) = elim (Bool-cases (k == c.flow_id)) [
    | inl same ↦ (f, find-insert k c.flow_id f stats ∙ rw same refl)
    | inr other ↦ (f', find-insert k c.flow_id f stats ∙ rw other found)
  ]

  flow_entries_keep :
      (clock : ℕ → ℕ) (m : MetricsCollector Carrier) (i : ℕ) (flows : List (ℕ × FlowSnapshot))
      (stats : List (ℕ × FlowStats Carrier)) (e : ℕ × FlowConfigInternal)
      → HasEntry stats e
      → HasEntry (flow_entries d g clock m i flows stats) e
  unfolding flow_entries
  flow_entries_keep clock m i [] stats e h = h
  flow_entries_keep clock m i ((k, s) ∷ flows) stats e h =
      flow_entries_keep clock m (i + 1) flows _ e (insert-HasEntry s.flow_id _ stats e h)

  flow_entries-HasEntry :
      (clock : ℕ → ℕ) (m : MetricsCollector Carrier) (i : ℕ) (flows : List (ℕ × FlowConfigInternal))
      (stats : List (ℕ × FlowStats Carrier))
      → All
          (HasEntry (flow_entries d g clock m i (map (λ e. (e.0, snapshot e.1)) flows) stats))
          flows
  unfolding flow_entries snapshot
  flow_entries-HasEntry clock m i [] stats = tt
  flow_entries-HasEntry clock m i ((k, c) ∷ flows) stats =
      let entry = flow_entry d g (get_uptime_seconds (clock i) m) (snapshot c) in
      let rest = map (λ (e : ℕ × FlowConfigInternal). (e.0, snapshot e.1)) flows in
      (
        flow_entries_keep clock m (i + 1) rest (insert c.flow_id entry stats) (k, c)
            (entry, find-insert c.flow_id c.flow_id entry stats ∙ rw (==_refl c.flow_id) refl),
        flow_entries-HasEntry clock m (i + 1) flows (insert c.flow_id entry stats),
      )

  -- `all` has the flows that are left.
  flow_entries-Counts :
      (clock : ℕ → ℕ) (m : MetricsCollector Carrier) (i : ℕ)
      (all flows : List (ℕ × FlowConfigInternal)) (stats : List (ℕ × FlowStats Carrier))
      → All (λ e. In e all) flows
      → All (Counts all) stats
      → All (Counts all) (flow_entries d g clock m i (map (λ e. (e.0, snapshot e.1)) flows) stats)
  unfolding flow_entries snapshot
  flow_entries-Counts clock m i all [] stats within h = h
  flow_entries-Counts clock m i all ((k, c) ∷ flows) stats within h =
      let entry = flow_entry d g (get_uptime_seconds (clock i) m) (snapshot c) in
      flow_entries-Counts clock m (i + 1) all flows (insert c.flow_id entry stats) within.1
        (All-insert (Counts all) c.flow_id entry stats (k, c, within.0, refl, refl, refl, refl) h)

  All-In : (flows : List (ℕ × FlowConfigInternal)) → All (λ e. In e flows) flows
  All-In [] = tt
  All-In (e ∷ flows) = (
    inl refl,
    All-mono (λ x. In x flows) (λ x. In x (e ∷ flows)) (λ x h. inr h) flows (All-In flows),
  )

  -- What a reply says of a collector and of a scheduler.
  abbrev pub FlowsReported : Bool → Option FlowScheduler → List (ℕ × FlowStats Carrier) → Type 0
  FlowsReported detailed none stats = stats ≡ []
  FlowsReported false (some s) stats = stats ≡ []
  FlowsReported true (some s) stats = CoversFlows s.flows stats

  flows_of-Reported :
      (detailed : Bool) (clock : ℕ → ℕ) (m : MetricsCollector Carrier) (s : Option FlowScheduler)
      → FlowsReported detailed s (flows_of d g detailed clock m s)
  unfolding get_all_flows_snapshot
  flows_of-Reported detailed clock m none = refl
  flows_of-Reported false clock m (some s) = refl
  flows_of-Reported true clock m (some s) = (
    flow_entries-Counts clock m 0 s.flows s.flows [] (All-In s.flows) tt,
    flow_entries-HasEntry clock m 0 s.flows [],
  )

  pub record StatsReported (now_ns : ℕ) (detailed : Bool) (s : Option FlowScheduler)
      (m : MetricsCollector Carrier) (r : StatsResponse Carrier) : Type 0 where
    pub tx_packets : r.metrics.total_tx_packets ≡ (get_global_stats m).tx_packets
    pub rx_packets : r.metrics.total_rx_packets ≡ (get_global_stats m).rx_packets
    pub tx_bytes : r.metrics.total_tx_bytes ≡ (get_global_stats m).tx_bytes
    pub rx_bytes : r.metrics.total_rx_bytes ≡ (get_global_stats m).rx_bytes
    pub errors : r.metrics.errors ≡ (get_global_stats m).errors
    pub latency_us : r.metrics.avg_latency_us ≡ of_u64 0
    pub uptime_seconds : r.uptime_seconds ≡ get_uptime_seconds now_ns m
    pub flow_stats : FlowsReported detailed s r.flow_stats

  report_stats-StatsReported :
      (clocks : Clocks) (now_ns : ℕ) (flow_clock : ℕ → ℕ) (detailed : Bool)
      (s : Option FlowScheduler) (m : MetricsCollector Carrier)
      → let r = report_stats d g clocks now_ns flow_clock detailed s m in
        SameCounts m r.0 × StatsReported now_ns detailed s m r.1
  unfolding report_stats get_uptime_seconds
  report_stats-StatsReported clocks now_ns flow_clock detailed s m =
      let same = rates-SameCounts d g clocks m in
      (
        same,
        record {
          tx_packets = refl;
          rx_packets = refl;
          tx_bytes = refl;
          rx_bytes = refl;
          errors = refl;
          latency_us = refl;
          uptime_seconds = ap (λ (c : MetricsCollector Carrier). get_uptime_seconds now_ns c) same;
          flow_stats = flows_of-Reported detailed flow_clock (rates d g clocks m).0 s;
        },
      )

  -- Without a collector, `GetStats` fails and changes nothing; else it replies the totals, with 0
  -- for the latency, and the uptime, changes nothing of the collector but its snapshots, and, where
  -- details are asked for and there is a scheduler, has an entry for each flow, and no entry but
  -- one with the counters of a flow of that id.
  pub get_stats_cases :
      (clocks : Clocks) (now_ns : ℕ) (flow_clock : ℕ → ℕ) (v : TrafficGeneratorService d g)
      (detailed : Bool)
      → ((v.metrics_collector ≡ none)
          × (get_stats d g clocks now_ns flow_clock v detailed
              ≡ (v, internal "Metrics collector not initialized")))
        ⊎ ((m m' : MetricsCollector Carrier) × (r : StatsResponse Carrier) × (v.metrics_collector
              ≡ some m)
            × (get_stats d g clocks now_ns flow_clock v detailed
                ≡ (record v { metrics_collector = some m' }, replies r))
            × SameCounts m m'
            × StatsReported now_ns detailed v.flow_scheduler m r)
  unfolding get_stats
  get_stats_cases clocks now_ns flow_clock v detailed = elim (Option-cases v.metrics_collector) [
    | inl e ↦ inl (e, ground arith)
    | inr (m, e) ↦
        let r = report_stats d g clocks now_ns flow_clock detailed v.flow_scheduler m in
        let (same, reports) =
          report_stats-StatsReported clocks now_ns flow_clock detailed v.flow_scheduler m in
        inr (m, r.0, r.1, e, ground arith, same, reports)
  ]
