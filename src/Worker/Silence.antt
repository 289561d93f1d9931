-- ===== src/Worker/Silence.antt =====
-- What `process_flows` of worker.cpp does while the memory pool has buffers: `allocate_burst` returns
-- what `rte_pktmbuf_alloc_bulk` returns, 0 for success, and the worker takes 0 for a failure.
use ngfwtraffic_gen.Common.{
  ℕ, ◌+◌, ◌≡◌, refl, inl, inr, Option, none, some, List, [], ◌∷◌, length, leb, arith, Bool-cases,
  Option-cases,
}
use ngfwtraffic_gen.Common.Assoc.{find, nat_key}
use ngfwtraffic_gen.Common.Double.{Double}
use ngfwtraffic_gen.Packet.{Platform}
use ngfwtraffic_gen.Packet.Mutate.{Mbuf, IdSource, new_mutator, initialize}
use ngfwtraffic_gen.Imix.{Sampler, ImixEngine}
use ngfwtraffic_gen.Flow.{FlowScheduler}
use ngfwtraffic_gen.Flow.Ready.{get_ready_flows}
use ngfwtraffic_gen.Metrics.{MetricsCollector}
use ngfwtraffic_gen.Worker.{
  yields, allocate_burst, occupied, take_buffer, WorkerConfig, Burst, Sent, count_sent, send_flow,
  send_flows, transmit_burst, process_flows,
}

module _ (d : Double) (g : Sampler d.Carrier) (ids : IdSource) (pf : Platform) where
  -- Nothing is in the burst, nothing was freed, and what was allocated is lost or in the slot.
  record Silent (s : Burst g ids) : Type 0 where
    nothing : s.mbufs ≡ []
    none_freed : s.freed ≡ 0
    all_lost : s.lost + occupied s.slot ≡ s.allocated

  send_flow-Silent :
      (cfg : WorkerConfig) (now_s now_ns : ℕ) (b : Mbuf) (s : Burst g ids) (flow_id : ℕ)
      → Silent s
      → (s' : Burst g ids) × (send_flow d g ids pf cfg now_s now_ns (yields b) s flow_id ≡ some s')
        × Silent s'
  unfolding send_flow take_buffer allocate_burst
  send_flow-Silent cfg now_s now_ns b s flow_id v =
      elim (Bool-cases (leb cfg.tx_burst_size (length s.mbufs))) [
        | inl full ↦ rw full (s, refl, v)
        | inr room ↦ elim (Option-cases (find flow_id s.flow_scheduler.flows)) [
          | inl e ↦ rw (room, e, send_flow) (s, refl, v)
          | inr (c, e) ↦ elim (Bool-cases c.active) [
            | inr idle ↦ rw (room, e, idle, send_flow) (s, refl, v)
            | inl active ↦
                rw (room, e, active, send_flow)
                  (
                    take_buffer d g ids pf (yields b) s,
                    refl,
                    record {
                      nothing = v.nothing;
                      none_freed = v.none_freed;
                      all_lost = omega (arith, v.all_lost);
                    },
                  )
          ]
        ]
      ]

  send_flows-Silent :
      (cfg : WorkerConfig) (now_s : ℕ) (clock : ℕ → ℕ) (buffer : ℕ → Mbuf) (i : ℕ) (s : Burst g ids)
      (flow_ids : List ℕ)
      → Silent s
      → (s' : Burst g ids) × (send_flows d g ids pf cfg now_s clock
            (λ n. yields (buffer n))
            i
            s
            flow_ids
          ≡ some s')
        × Silent s'
  unfolding send_flows
  send_flows-Silent cfg now_s clock buffer i s [] v = (s, refl, v)
  send_flows-Silent cfg now_s clock buffer i s (flow_id ∷ flow_ids) v =
      let (s', e, v') = send_flow-Silent cfg now_s (clock i) (buffer i) s flow_id v in
      rw (e, send_flows) (send_flows-Silent cfg now_s clock buffer (i + 1) s' flow_ids v')

  transmit_burst-Silent :
      (port : ℕ → ℕ) (cfg : WorkerConfig) (metrics : Option (MetricsCollector d.Carrier))
      (s : Burst g ids)
      → Silent s
      → let r = transmit_burst d g ids pf port cfg metrics s in
        (r.sent ≡ 0) × (r.freed ≡ 0) × (r.lost ≡ r.allocated) × (r.metrics_collector ≡ metrics)
  unfolding transmit_burst count_sent
  transmit_burst-Silent port cfg metrics s v =
      rw v.nothing (refl, omega (arith, v.none_freed), omega (arith, v.all_lost), ground arith)

  -- While the pool gives a buffer whenever it is asked, `process_flows` sends and counts nothing,
  -- whichever flows are ready, and every buffer that it takes is lost: `allocate_burst` returns 0
  -- for success, and the worker takes 0 for a failure.
  pub process_flows_silent :
      (port : ℕ → ℕ) (cfg : WorkerConfig) (now_s now_ns : ℕ) (bucket_ns clock : ℕ → ℕ)
      (buffer : ℕ → Mbuf) (s : FlowScheduler) (engine : Option (ImixEngine g))
      (metrics : Option (MetricsCollector d.Carrier))
      → (r : Sent g) × (process_flows d g ids pf port cfg now_s now_ns bucket_ns clock
            (λ i. yields (buffer i))
            s
            engine
            metrics
          ≡ some r)
        × (r.sent ≡ 0)
        × (r.freed ≡ 0)
        × (r.lost ≡ r.allocated)
        × (r.metrics_collector ≡ metrics)
  unfolding process_flows
  process_flows_silent port cfg now_s now_ns bucket_ns clock buffer s engine metrics =
      let start : Burst g ids = record {
        flow_scheduler = (get_ready_flows now_ns bucket_ns s cfg.tx_burst_size).0;
        imix_engine = engine;
        mutator = initialize ids now_s (new_mutator ids) cfg.core_id;
        mbufs = [];
        slot = none;
        allocated = 0;
        freed = 0;
        lost = 0;
      } in
      let empty : Silent start = record {
        nothing = refl;
        none_freed = refl;
        all_lost = omega arith;
      } in
      let (e, done, v) =
        send_flows-Silent cfg now_s clock buffer 0 start
          (get_ready_flows now_ns bucket_ns s cfg.tx_burst_size).1 empty in
      let (nothing, kept, gone, same) = transmit_burst-Silent port cfg metrics e v in
      rw (done, process_flows) (_, refl, nothing, kept, gone, same)
