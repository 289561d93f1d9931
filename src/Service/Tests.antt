-- ===== src/Service/Tests.antt =====
-- Runs of server.cpp, and its theorems at concrete inputs.
use mathlib.Core.Option
use ngfwtraffic_gen.Common.{to_string, ℕ, ◌≡◌, ◌↔◌, refl, ◌≢◌, ◌⊎◌, true, some, List, [], ◌∷◌, All}
use ngfwtraffic_gen.Common.Assoc.{find, nat_key}
use ngfwtraffic_gen.Common.Double.{Fraction, fractions}
use ngfwtraffic_gen.Packet.Sample.{plain}
use ngfwtraffic_gen.Bucket.{TokenBucket}
use ngfwtraffic_gen.Imix.{ImixEngine, new_engine}
use ngfwtraffic_gen.Imix.Sample.{counter}
use ngfwtraffic_gen.Flow.{FlowConfigInternal, FlowScheduler, stopped}
use ngfwtraffic_gen.Metrics.{MetricsCollector, no_stats, new_collector}
use ngfwtraffic_gen.Common.{none, inl, inr, Bool-cases, ◌==◌, arith}
use ngfwtraffic_gen.Service.{
  TrafficGeneratorService, ImixConfig, FlowConfig, ProtoFlow, ok, failed, negsuc, internal_config,
  configure_flows, start_traffic, stop_traffic,
}
use ngfwtraffic_gen.Service.Configure.{Buildable, configure_flows_iff}
use ngfwtraffic_gen.Service.Report.{
  MetricsResponse, Clocks, internal, replies, report_metrics, get_metrics,
}
use ngfwtraffic_gen.Service.Reported.{SameCounts, Reports, get_metrics_cases}
use ngfwtraffic_gen.Service.Report.{StatsResponse, get_stats}
use ngfwtraffic_gen.Service.Stats.{StatsReported, get_stats_cases}
use ngfwtraffic_gen.Service.Polled.{OldOrNew, polled_rates_zero}
use ngfwtraffic_gen.Service.Server.{
  GrpcServer, new_server, serving, shut_down, is_running, start, stop,
}
use ngfwtraffic_gen.Service.Serving
use ngfwtraffic_gen.Service.Serving.{starts, stops, restarted_not_serving}
use ngfwtraffic_gen.Service.Control.{start_traffic_cases, stop_traffic-find}

prints_4096 : to_string 4096 ≡ "4096"
unfolding to_string
prints_4096 = refl

abbrev udp_flow : ProtoFlow
udp_flow = record {
  flow_id = 1;
  src_ip = "10.0.0.1";
  dst_ip = "10.0.0.2";
  src_port = 1000;
  dst_port = 53;
  protocol = "udp";
  packet_size = 128;
  pps = 1000;
  duration_seconds = 0;
  dst_mac = "";
}

abbrev mac : List ℕ
mac = 0 ∷ 1 ∷ 2 ∷ 3 ∷ 4 ∷ 5 ∷ []

abbrev engine : ImixEngine counter
engine = new_engine fractions counter 1

abbrev scheduler : FlowScheduler
scheduler = record {
  flows = (1, internal_config plain true udp_flow) ∷ [];
  flow_lookup = [];
  src_mac = mac;
}

abbrev service : TrafficGeneratorService fractions counter
service = record {
  flow_scheduler = some scheduler;
  imix_engine = some engine;
  metrics_collector = some (new_collector fractions 0);
}

abbrev flow_request : FlowConfig
flow_request = record { flows = udp_flow ∷ []; stateless = true }

abbrev imix_request : ImixConfig Fraction
imix_request = record {
  entries =
      record {
        packet_size = 64;
        percentage = some (100, 1);
        protocol = "udp";
        enable_checksum = true;
      }
      ∷ [];
  target_pps = 1000;
  duration_seconds = 0;
}

configure_flows_iff_example :
    ((configure_flows fractions counter plain (λ i. i) service flow_request).1.success ≡ true)
    ↔ All (Buildable plain mac true) (udp_flow ∷ [])
configure_flows_iff_example =
    configure_flows_iff fractions counter plain (λ i. i) service scheduler flow_request refl

start_traffic_cases_example :
    ((scheduler.flows ≡ [])
      × ((start_traffic fractions counter 5 (λ i. (6, 7)) service true).1
          ≡ failed (negsuc 1) "No flows configured to start")
      × ((start_traffic fractions counter 5 (λ i. (6, 7)) service true).0.flow_scheduler
          ≡ some scheduler))
    ⊎ ((scheduler.flows ≢ [])
        × ((start_traffic fractions counter 5 (λ i. (6, 7)) service true).1
            ≡ ok "Traffic generation started")
        × ((s' : FlowScheduler) × ((start_traffic fractions counter 5
                (λ i. (6, 7))
                service
                true).0.flow_scheduler
              ≡ some s')
            × (find 1 s'.flows
                ≡ Option.map
                    (λ (c : FlowConfigInternal). record c {
                      start_time_ns = 6;
                      active = true;
                      token_bucket =
                          Option.map
                            (λ (b : TokenBucket). record b {
                              tokens = b.burst_size;
                              last_update_ns = 7;
                            })
                            c.token_bucket;
                    })
                    (find 1 scheduler.flows))))
start_traffic_cases_example =
    start_traffic_cases fractions counter 5 (λ i. (6, 7)) service true scheduler 1 refl

stop_traffic-find_example :
    ((stop_traffic fractions counter service).1 ≡ ok "Traffic generation stopped")
    × ((s' : FlowScheduler) × ((stop_traffic fractions counter service).0.flow_scheduler ≡ some s')
        × (find 1 s'.flows ≡ Option.map stopped (find 1 scheduler.flows)))
stop_traffic-find_example = stop_traffic-find fractions counter service scheduler 1 refl

-- Two cores; what the second has sent was last seen at second 1.
abbrev polled : MetricsCollector Fraction
polled = record (new_collector fractions 0) {
  per_core_stats =
      no_stats
      ∷ record { tx_packets = 500; rx_packets = 4; tx_bytes = 32000; rx_bytes = 256; errors = 0 }
      ∷ [];
  num_cores = 2;
  last_snapshot = (1, record { packets = 200; bytes = 12800; timestamp = 1000000000 }) ∷ [];
}

-- Every reading of the clock is at second 2.
abbrev at_2 : Clocks
at_2 = record {
  pps = λ i. (2000000000, 2000000400);
  bps = λ i. (2000000500, 2000000700);
  per_core = λ i. (2000000800, 2000000900);
}

abbrev reporting : TrafficGeneratorService fractions counter
reporting = record service { metrics_collector = some polled }

get_metrics_cases_example :
    ((reporting.metrics_collector ≡ none)
      × (get_metrics fractions counter at_2 reporting true true
          ≡ (reporting, internal "Metrics collector not initialized")))
    ⊎ ((m m' : MetricsCollector Fraction) × (r : MetricsResponse Fraction)
        × (reporting.metrics_collector ≡ some m)
        × (get_metrics fractions counter at_2 reporting true true
            ≡ (record reporting { metrics_collector = some m' }, replies r))
        × SameCounts m m'
        × Reports fractions counter true true m r)
get_metrics_cases_example = get_metrics_cases fractions counter at_2 reporting true true

get_stats_cases_example :
    ((reporting.metrics_collector ≡ none)
      × (get_stats fractions counter at_2 2000000950 (λ i. 2000000960) reporting true
          ≡ (reporting, internal "Metrics collector not initialized")))
    ⊎ ((m m' : MetricsCollector Fraction) × (r : StatsResponse Fraction)
        × (reporting.metrics_collector ≡ some m)
        × (get_stats fractions counter at_2 2000000950 (λ i. 2000000960) reporting true
            ≡ (record reporting { metrics_collector = some m' }, replies r))
        × SameCounts m m'
        × StatsReported fractions counter 2000000950 true (some scheduler) m r)
get_stats_cases_example =
    get_stats_cases fractions counter at_2 2000000950 (λ i. 2000000960) reporting true

polled-OldOrNew : (i : ℕ) → OldOrNew 2000000000 (find i polled.last_snapshot)
unfolding find
polled-OldOrNew i = elim (Bool-cases (1 == i)) [
  | inl e ↦ rw e (inl (omega arith))
  | inr e ↦ rw e tt
]

polled_rates_zero_example :
    let r = (report_metrics fractions counter at_2 true true polled).1 in
    (r.global.current_pps ≡ some (0, 1))
    × (r.global.current_bps ≡ some (0, 1))
    × All (λ e. e.pps ≡ some (0, 1)) r.per_core
polled_rates_zero_example =
    polled_rates_zero fractions 2000000000 refl counter at_2 true true polled
      (λ i. (omega arith, omega arith, omega arith, omega arith))
      (λ i. (omega arith, omega arith, omega arith, omega arith))
      (λ i. (omega arith, omega arith, omega arith, omega arith)) polled-OldOrNew

abbrev server : GrpcServer
server = record new_server { server = serving; running = true }

restarted_not_serving_example :
    let r = start (Serving.run (stop server) (starts ∷ stops ∷ [])) in
    (r.1 ≡ true) × (is_running r.0 ≡ true) × (r.0.server ≡ shut_down)
restarted_not_serving_example = restarted_not_serving server (starts ∷ stops ∷ []) refl tt
