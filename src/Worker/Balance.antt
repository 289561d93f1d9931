-- ===== src/Worker/Balance.antt =====
-- The buffers of a whole call of `process_flows` of worker.cpp: sent, freed or lost.
use ngfwtraffic_gen.Common.{ℕ, ◌+◌, ◌≤◌, ◌≡◌, refl, Option, none, some, [], length, arith}
use ngfwtraffic_gen.Common.Assoc.{nat_key}
use ngfwtraffic_gen.Common.Double.{Double}
use ngfwtraffic_gen.Packet.{Platform}
use ngfwtraffic_gen.Packet.Mutate.{IdSource, new_mutator, initialize}
use ngfwtraffic_gen.Imix.{Sampler, ImixEngine}
use ngfwtraffic_gen.Imix.Select.{DrawsInRange}
use ngfwtraffic_gen.Flow.{FlowScheduler}
use ngfwtraffic_gen.Flow.Ready.{get_ready_flows}
use ngfwtraffic_gen.Flow.Schedule.{All-ready_from}
use ngfwtraffic_gen.Flow.History.{AllFlows}
use ngfwtraffic_gen.Flow.Templates.{HasTemplate, visit-HasTemplate}
use ngfwtraffic_gen.Metrics.{MetricsCollector}
use ngfwtraffic_gen.Worker.{Allocation, WorkerConfig, Burst, Sent, transmit_burst, process_flows}
use ngfwtraffic_gen.Worker.Room.{EngineValid}
use ngfwtraffic_gen.Worker.Send.{Good, send_flows-Good}

module _ (d : Double) (g : Sampler d.Carrier) (ids : IdSource) (pf : Platform)
    (documented : DrawsInRange g) where
  transmit_burst-balance :
      (port : ℕ → ℕ) (cfg : WorkerConfig) (metrics : Option (MetricsCollector d.Carrier))
      (s : Burst g ids)
      → ((n : ℕ) → port n ≤ n)
      → Good d g ids pf documented cfg s
      → let r = transmit_burst d g ids pf port cfg metrics s in
        (r.allocated ≡ r.sent + r.freed + r.lost) × (r.sent ≤ cfg.tx_burst_size)
  unfolding transmit_burst
  transmit_burst-balance port cfg metrics s takes v =
      ground (arith, takes (length s.mbufs), v.balance, v.burst)

  ready-templates :
      (now_ns : ℕ) (bucket_ns : ℕ → ℕ) (s : FlowScheduler) (max_flows : ℕ)
      → AllFlows pf (HasTemplate pf) s
      → AllFlows pf (HasTemplate pf) (get_ready_flows now_ns bucket_ns s max_flows).0
  unfolding get_ready_flows
  ready-templates now_ns bucket_ns s max_flows h =
      All-ready_from (λ e. HasTemplate pf e.1) now_ns bucket_ns max_flows 0 s.flows
        (λ i c. visit-HasTemplate pf now_ns (bucket_ns i) c) h

  -- What a call leaves: an engine and templates as they should be, and no buffer uncounted.
  pub record Left (cfg : WorkerConfig) (r : Sent g) : Type 0 where
    pub engine : EngineValid d g ids pf documented r.imix_engine
    pub templates : AllFlows pf (HasTemplate pf) r.flow_scheduler
    pub balance : r.allocated ≡ r.sent + r.freed + r.lost
    pub burst : r.sent ≤ cfg.tx_burst_size

  transmit_burst-Left :
      (port : ℕ → ℕ) (cfg : WorkerConfig) (metrics : Option (MetricsCollector d.Carrier))
      (s : Burst g ids)
      → ((n : ℕ) → port n ≤ n)
      → Good d g ids pf documented cfg s
      → Left cfg (transmit_burst d g ids pf port cfg metrics s)
  transmit_burst-Left port cfg metrics s takes v =
      let (b, l) = transmit_burst-balance port cfg metrics s takes v in
      record {
        engine = unfold transmit_burst in v.engine;
        templates = unfold transmit_burst in v.templates;
        balance = b;
        burst = l;
      }

  -- `process_flows` stays within its objects, on a scheduler and an engine that are as they should be.
  pub process_flows-Left :
      (port : ℕ → ℕ) (cfg : WorkerConfig) (now_s now_ns : ℕ) (bucket_ns clock : ℕ → ℕ)
      (pool : ℕ → Allocation) (s : FlowScheduler) (engine : Option (ImixEngine g))
      (metrics : Option (MetricsCollector d.Carrier))
      → ((n : ℕ) → port n ≤ n)
      → AllFlows pf (HasTemplate pf) s
      → EngineValid d g ids pf documented engine
      → (r : Sent g) × (process_flows d g ids pf port cfg now_s now_ns bucket_ns clock pool s engine
            metrics
          ≡ some r)
        × Left cfg r
  unfolding process_flows
  process_flows-Left port cfg now_s now_ns bucket_ns clock pool s engine metrics takes t v =
      let start : Burst g ids = record {
        flow_scheduler = (get_ready_flows now_ns bucket_ns s cfg.tx_burst_size).0;
        imix_engine = engine;
        mutator = initialize ids now_s (new_mutator ids) cfg.core_id;
        mbufs = [];
        slot = none;
        allocated = 0;
        freed = 0;
        lost = 0;
      } in
      let good : Good d g ids pf documented cfg start = record {
        engine = v;
        templates = ready-templates now_ns bucket_ns s cfg.tx_burst_size t;
        balance = omega arith;
        burst = omega arith;
      } in
      let (e, done, w) =
        send_flows-Good d g ids pf documented cfg now_s clock pool 0 start
          (get_ready_flows now_ns bucket_ns s cfg.tx_burst_size).1 good in
      rw (done, process_flows) (_, refl, transmit_burst-Left port cfg metrics e takes w)
