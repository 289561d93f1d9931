-- ===== src/Worker/Loop.antt =====
-- `worker_loop` of worker.cpp: rounds of sending and receiving on the shared objects, until the worker
-- sees that it should stop.
use ngfwtraffic_gen.Common.{
  ℕ, ◌+◌, Bool, ◌&&◌, Option, none, some, List, [], ◌∷◌, is_empty, if◌then◌else◌,
}
use ngfwtraffic_gen.Common.Double.{Double}
use ngfwtraffic_gen.Packet.{Platform}
use ngfwtraffic_gen.Packet.Mutate.{IdSource}
use ngfwtraffic_gen.Imix.{Sampler, ImixEngine}
use ngfwtraffic_gen.Flow.{FlowScheduler}
use ngfwtraffic_gen.Metrics.{CoreStats, MetricsCollector, no_stats, get_core_stats}
use ngfwtraffic_gen.Worker.{Allocation, WorkerConfig, Sent, process_flows}
use ngfwtraffic_gen.Worker.Receive.{Received, Rx, receive_burst, process_received_packets}

unfoldable pub get_stats : {W : Type 0} → WorkerConfig → Option (MetricsCollector W) → CoreStats
get_stats cfg none = no_stats
get_stats cfg (some m) = get_core_stats m cfg.core_id

-- What a round meets: what the clocks show, what the pool gives, and what the port has received.
pub record Round : Type 0 where
  pub now_s : ℕ
  pub now_ns : ℕ
  pub bucket_ns : ℕ → ℕ
  pub clock : ℕ → ℕ
  pub pool : ℕ → Allocation
  pub rx_ns : ℕ
  pub rx_clock : ℕ → ℕ × ℕ
  pub arrivals : ℕ → List (Option Received)

-- The objects that a worker shares, and the buffers that it has handled: sent, given by the pool, given
-- back unsent, lost, and received and given back.
pub record World {W : Type 0} (g : Sampler W) : Type 0 where
  pub flow_scheduler : Option FlowScheduler
  pub imix_engine : Option (ImixEngine g)
  pub metrics_collector : Option (MetricsCollector W)
  pub sent : ℕ
  pub allocated : ℕ
  pub freed : ℕ
  pub lost : ℕ
  pub received : ℕ

module _ (d : Double) (g : Sampler d.Carrier) (ids : IdSource) (pf : Platform) (port : ℕ → ℕ)
    (cfg : WorkerConfig) where
  abbrev pub after_sending : World g → Sent g → World g
  after_sending w r = record w {
    flow_scheduler = some r.flow_scheduler;
    imix_engine = r.imix_engine;
    metrics_collector = r.metrics_collector;
    sent = w.sent + r.sent;
    allocated = w.allocated + r.allocated;
    freed = w.freed + r.freed;
    lost = w.lost + r.lost;
  }

  -- `none` is a read or write out of bounds.
  unfoldable pub send_part : Round → World g → Option (World g)
  send_part m w = elim w.flow_scheduler [
    | none ↦ some w
    | some s ↦
        elim (process_flows d g ids pf port cfg m.now_s m.now_ns m.bucket_ns m.clock m.pool s
          w.imix_engine w.metrics_collector) [ none ↦ none | some r ↦ some (after_sending w r) ]
  ]

  abbrev pub after_receiving : World g → Rx d.Carrier → World g
  after_receiving w r = record w {
    flow_scheduler = r.flow_scheduler;
    metrics_collector = r.metrics_collector;
    received = w.received + r.freed;
  }

  unfoldable pub receive_part : Round → World g → World g
  receive_part m w =
      let mbufs = receive_burst m.arrivals cfg.rx_burst_size in
      if cfg.enable_rx
      then (if is_empty mbufs
          then w
          else after_receiving w (
              process_received_packets d pf cfg m.rx_ns m.rx_clock mbufs w.flow_scheduler
                w.metrics_collector))
      else w

  -- The rounds that are made before the worker sees `should_stop_`.
  unfoldable pub worker_rounds : List Round → World g → Option (World g)
  worker_rounds [] w = some w
  worker_rounds (m ∷ rounds) w = elim (send_part m w) [
    | none ↦ none
    | some w' ↦ worker_rounds rounds (receive_part m w')
  ]

  -- The thread gives up where it cannot be registered, or has no memory pool. The mutator that it makes
  -- is not used.
  unfoldable pub worker_loop : Bool → Bool → List Round → World g → Option (World g)
  worker_loop registered has_mempool rounds w =
      if registered && has_mempool then worker_rounds rounds w else some w
