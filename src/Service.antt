-- ===== src/Service.antt =====
-- control/grpc/server.hpp and server.cpp: the remote calls on the scheduler, the IMIX engine and the
-- collector. A null `shared_ptr` is `none`; the messages are those of proto/traffic_generator.proto.
-- The four controlling calls hold the service's lock, so they are modelled one after the other. GetMetrics and
-- GetStats take none and read atomic counters one by one; they are modelled as if nothing ran in between.
mod Message
pub mod Configure
pub mod Control
pub mod Report
pub mod Reported
pub mod Stats
pub mod Polled
pub mod Server
pub mod Serving
mod Tests
unfoldable pub use Message.*
use Prim.Native.String.{◌++◌ as str_append}
use text.Mathlib.Text.{◌==◌ as str_eq}
use ngfwtraffic_gen.Common.{
  to_string, ℕ, ◌+◌, String, Bool, true, false, ◌&&◌, Option, none, some, List, [], ◌∷◌, map,
  is_empty, if◌then◌else◌, u16,
}
use ngfwtraffic_gen.Common.Double.{Double}
use ngfwtraffic_gen.Types.{FlowKey}
use ngfwtraffic_gen.Packet.{Platform, ip_to_uint32}
use ngfwtraffic_gen.Imix.{Sampler, ImixEngine}
use ngfwtraffic_gen.Imix
use ngfwtraffic_gen.Flow.{
  FlowConfigInternal, FlowScheduler, add_flow, start_flow, stop_flow, get_active_flows,
  get_all_flows_snapshot,
}
use ngfwtraffic_gen.Metrics.{MetricsCollector, reset_all, set_running}

module _ (pf : Platform) where
  open pf use {ipproto_icmp, ipproto_tcp, ipproto_udp}

  unfoldable pub convert_proto_flow_key : ProtoFlow → FlowKey
  convert_proto_flow_key flow = record {
    src_ip = ip_to_uint32 pf flow.src_ip;
    dst_ip = ip_to_uint32 pf flow.dst_ip;
    src_port = u16 flow.src_port;
    dst_port = u16 flow.dst_port;
    protocol =
        if str_eq flow.protocol "tcp"
        then ipproto_tcp
        else if str_eq flow.protocol "udp"
        then ipproto_udp
        else if str_eq flow.protocol "icmp"
        then ipproto_icmp
        else ipproto_udp;
  }

  -- `internal_config`, whose other fields have their initial values.
  unfoldable pub internal_config : Bool → ProtoFlow → FlowConfigInternal
  internal_config stateless flow =
      let key = convert_proto_flow_key flow in
      record {
        flow_id = flow.flow_id;
        flow_key = key;
        packet_size = flow.packet_size;
        protocol = flow.protocol;
        pps = flow.pps;
        duration_seconds = flow.duration_seconds;
        stateless = stateless;
        dst_mac = flow.dst_mac;
        template_packet = record {
          flow_key = key;
          total_size = 0;
          payload_offset = 0;
          frame = none;
        };
        token_bucket = none;
        tcp_state = none;
        tcp_state_machine = false;
        packets_sent = 0;
        bytes_sent = 0;
        start_time_ns = 0;
        active = false;
      }

  abbrev error_of : ProtoFlow → Bool → String
  error_of flow true = ""
  error_of flow false = str_append "Failed to add flow " (str_append (to_string flow.flow_id) "; ")

  -- The loop of `ConfigureFlows`: the scheduler, `all_success` and `error_message`. The clock is read
  -- at `clock i` for the flow number `i`.
  unfoldable pub add_flows :
      (ℕ → ℕ)
      → ℕ
      → Bool
      → FlowScheduler
      → Bool
      → String
      → List ProtoFlow
      → FlowScheduler × Bool × String
  add_flows clock i stateless s all_success error_message [] = (s, all_success, error_message)
  add_flows clock i stateless s all_success error_message (flow ∷ flows) =
      let (s', done) = add_flow pf (clock i) s (internal_config stateless flow) in
      add_flows clock (i + 1) stateless s' (all_success && done)
        (str_append error_message (error_of flow done)) flows

-- The loops of `StartTraffic`, which reads the clock twice for each flow, and of `StopTraffic`.
unfoldable pub start_all : (ℕ → ℕ × ℕ) → List ℕ → FlowScheduler → FlowScheduler
start_all clock [] s = s
start_all clock (flow_id ∷ ids) s =
    start_all clock ids (start_flow (clock flow_id).0 (clock flow_id).1 s flow_id).0

unfoldable pub stop_all : List ℕ → FlowScheduler → FlowScheduler
stop_all [] s = s
stop_all (flow_id ∷ ids) s = stop_all ids (stop_flow s flow_id).0

abbrev pub all_ids : FlowScheduler → List ℕ
all_ids s = map (λ e. e.0) (get_all_flows_snapshot s)

module _ (d : Double) (g : Sampler d.Carrier) where
  abbrev Service : Type 0
  Service = TrafficGeneratorService d g

  imix_configured : Service → ImixEngine g × Bool → Service × StatusResponse
  imix_configured v (engine, done) = (
    record v { imix_engine = some engine },
    (if done
        then ok "IMIX configured successfully"
        else failed (negsuc 0) "Failed to configure IMIX"),
  )

  unfoldable pub configure_imix : Service → ImixConfig d.Carrier → Service × StatusResponse
  unfolding imix_configured
  configure_imix v request = elim v.imix_engine [
    | none ↦ (v, failed (negsuc 0) "IMIX engine not initialized")
    | some engine ↦ imix_configured v (
        Imix.configure d g engine (map convert_proto_imix_entry request.entries) request.target_pps)
  ]

  flows_added : Service → FlowScheduler × Bool × String → Service × StatusResponse
  flows_added v (s, all_success, error_message) = (
    record v { flow_scheduler = some s },
    (if all_success
        then ok "All flows configured successfully"
        else failed (negsuc 0) (str_append "Some flows failed to configure: " error_message)),
  )

  unfoldable pub configure_flows :
      Platform → (ℕ → ℕ) → Service → FlowConfig → Service × StatusResponse
  unfolding flows_added
  configure_flows pf clock v request = elim v.flow_scheduler [
    | none ↦ (v, failed (negsuc 0) "Flow scheduler not initialized")
    | some s ↦ flows_added v (add_flows pf clock 0 request.stateless s true "" request.flows)
  ]

  unfoldable pub reset_if :
      Bool → ℕ → Option (MetricsCollector d.Carrier) → Option (MetricsCollector d.Carrier)
  reset_if _ now_ns none = none
  reset_if reset_stats now_ns (some m) = some (if reset_stats then reset_all d now_ns m else m)

  unfoldable pub set_running_if :
      Bool → Option (MetricsCollector d.Carrier) → Option (MetricsCollector d.Carrier)
  set_running_if running none = none
  set_running_if running (some m) = some (set_running m running)

  running_set : Bool → String → Service → Service × StatusResponse
  unfolding set_running_if
  running_set running message v =
      (record v { metrics_collector = set_running_if running v.metrics_collector }, ok message)

  -- `now_ns` is what the clock shows when the statistics are reset.
  unfoldable pub start_traffic : ℕ → (ℕ → ℕ × ℕ) → Service → Bool → Service × StatusResponse
  unfolding running_set reset_if
  start_traffic now_ns clock v reset_stats =
      let v' : Service = record v {
        metrics_collector = reset_if reset_stats now_ns v.metrics_collector;
      } in
      elim v.flow_scheduler [
        | none ↦ running_set true "Traffic generation started" v'
        | some s ↦
            if is_empty (get_all_flows_snapshot s)
            then (v', failed (negsuc 1) "No flows configured to start")
            else running_set true "Traffic generation started"
                (record v' { flow_scheduler = some (start_all clock (all_ids s) s) })
      ]

  unfoldable pub stop_traffic : Service → Service × StatusResponse
  unfolding running_set
  stop_traffic v = elim v.flow_scheduler [
    | none ↦ running_set false "Traffic generation stopped" v
    | some s ↦
        running_set false "Traffic generation stopped"
          (record v { flow_scheduler = some (stop_all (get_active_flows s) s) })
  ]
