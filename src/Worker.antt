-- ===== src/Worker.antt =====
-- core/worker/worker.hpp and worker.cpp: the sending side of a worker, `process_flows` and
-- `transmit_burst`, and `allocate_burst` of core/mempools/mempool_manager.cpp. The calls of DPDK are
-- parameters: what the pool yields, and how many of a burst the port takes. The receiving side, the loop
-- and the thread are the children Receive, Loop and Thread.
mod Parts
pub mod Room
pub mod Send
pub mod Balance
pub mod Silence
pub mod Idle
pub mod Receive
pub mod Received
pub mod Segments
pub mod Delivers
pub mod Loop
pub mod Rounds
pub mod Build
pub mod Thread
pub mod Running
mod Tests
unfoldable pub use Parts.*
use ngfwtraffic_gen.Common.{
  ℕ, zero, suc, ◌+◌, ◌-◌, true, not, Option, none, some, List, [], ◌∷◌, ◌++◌, length, is_empty, ltb,
  leb, ◌==◌, if◌then◌else◌,
}
use ngfwtraffic_gen.Common.Assoc.{nat_key, find, adjust}
use ngfwtraffic_gen.Common.Double.{Double}
use ngfwtraffic_gen.Packet.{Platform, PacketTemplate}
use ngfwtraffic_gen.Packet.Mutate.{
  Mbuf, IdSource, Outcome, refused, overrun, cut_short, mutated, new_mutator, initialize,
  clone_and_mutate,
}
use ngfwtraffic_gen.Imix.{Sampler, ImixEngine, select_next_packet_size}
use ngfwtraffic_gen.Flow.{FlowConfigInternal, FlowScheduler}
use ngfwtraffic_gen.Flow.Ready.{get_ready_flows}
use ngfwtraffic_gen.Metrics.{MetricsCollector, update_tx_stats}

module _ (d : Double) (g : Sampler d.Carrier) (ids : IdSource) (pf : Platform) where
  abbrev or_minimum : ℕ → ℕ
  or_minimum size = if size == 0 then 64 else size

  engine_size : Option (ImixEngine g) → Option (ImixEngine g) × Option ℕ
  engine_size none = (none, some 64)
  engine_size (some m) =
      let (m', size) = select_next_packet_size d g m in
      (some m', elim size [ none ↦ none | some n ↦ some (or_minimum n) ])

  -- The size of the next packet: the flow's, or the engine's, or 64. `none` is a read out of bounds.
  unfoldable pub choose_size :
      Option (ImixEngine g) → FlowConfigInternal → Option (ImixEngine g) × Option ℕ
  unfolding engine_size
  choose_size engine c =
      if c.packet_size == 0 then engine_size engine else (engine, some c.packet_size)

  abbrev final_template : FlowConfigInternal → ℕ → PacketTemplate
  final_template c size = record (c.template_packet) { total_size = size }

  -- What becomes of the buffer; `none` is a write out of bounds, or headers that are cut short, of which
  -- nothing more is said.
  unfoldable pub keep :
      WorkerConfig → ℕ → ℕ → FlowConfigInternal → Burst g ids → Outcome → Option (Burst g ids)
  keep cfg now_ns flow_id c s (refused b) = some (record s { slot = none; freed = s.freed + 1 })
  keep cfg now_ns flow_id c s overrun = none
  keep cfg now_ns flow_id c s cut_short = none
  keep cfg now_ns flow_id c s (mutated b) = some (record s {
    mbufs = s.mbufs ++ (finish_packet pf cfg now_ns c b).1 ∷ [];
    slot = none;
    flow_scheduler = record (s.flow_scheduler) {
      flows = adjust flow_id (λ _. (finish_packet pf cfg now_ns c b).0) s.flow_scheduler.flows;
    };
  })

  -- A buffer is filled for a flow.
  unfoldable pub fill :
      WorkerConfig → ℕ → ℕ → ℕ → FlowConfigInternal → Burst g ids → Mbuf → Option (Burst g ids)
  fill cfg now_s now_ns flow_id c s b =
      let (engine, size) = choose_size s.imix_engine c in
      elim size [
        | none ↦ none
        | some n ↦
            let (m, outcome) =
              clone_and_mutate pf ids now_s s.mutator b (final_template c n) 0 true in
            keep cfg now_ns flow_id c (record s { imix_engine = engine; mutator = m }) outcome
      ]

  -- The allocation, before its result is looked at: a buffer that stood in the slot is overwritten.
  unfoldable pub take_buffer : Allocation → Burst g ids → Burst g ids
  take_buffer (yields b) s = record s {
    slot = (allocate_burst (yields b) s.slot).0;
    allocated = s.allocated + 1;
    lost = s.lost + occupied s.slot;
  }
  take_buffer (runs_out error) s = record s { slot = (allocate_burst (runs_out error) s.slot).0 }

  -- One round of the loop. Once the burst is full the loop ends; a full burst stays full, so passing
  -- over the other flows is the same.
  unfoldable pub send_flow :
      WorkerConfig → ℕ → ℕ → Allocation → Burst g ids → ℕ → Option (Burst g ids)
  send_flow cfg now_s now_ns alloc s flow_id =
      if leb cfg.tx_burst_size (length s.mbufs)
      then some s
      else elim (find flow_id s.flow_scheduler.flows) [
        | none ↦ some s
        | some c ↦
            let s' = take_buffer alloc s in
            if not c.active
            then some s
            else if (allocate_burst alloc s.slot).1 == 0
            then some s'
            else elim s'.slot [ none ↦ some s' | some b ↦ fill cfg now_s now_ns flow_id c s' b ]
      ]

  -- The loop over the ready flows, from the flow number `i`.
  unfoldable pub send_flows :
      WorkerConfig
      → ℕ
      → (ℕ → ℕ)
      → (ℕ → Allocation)
      → ℕ
      → Burst g ids
      → List ℕ
      → Option (Burst g ids)
  send_flows cfg now_s clock pool i s [] = some s
  send_flows cfg now_s clock pool i s (flow_id ∷ flow_ids) =
      elim (send_flow cfg now_s (clock i) (pool i) s flow_id) [
        | none ↦ none
        | some s' ↦ send_flows cfg now_s clock pool (i + 1) s' flow_ids
      ]

  abbrev total_bytes : ℕ → List Mbuf → ℕ
  total_bytes zero mbufs = 0
  total_bytes (suc n) [] = 0
  total_bytes (suc n) (b ∷ mbufs) = b.pkt_len + total_bytes n mbufs

  unfoldable pub count_sent :
      WorkerConfig
      → ℕ
      → List Mbuf
      → Option (MetricsCollector d.Carrier)
      → Option (MetricsCollector d.Carrier)
  count_sent cfg sent mbufs none = none
  count_sent cfg sent mbufs (some m) =
      some (if ltb 0 sent then update_tx_stats m cfg.core_id sent (total_bytes sent mbufs) else m)

  -- `port n` is how many of `n` packets `rte_eth_tx_burst` takes; the rest is freed.
  unfoldable pub transmit_burst :
      (ℕ → ℕ) → WorkerConfig → Option (MetricsCollector d.Carrier) → Burst g ids → Sent g
  transmit_burst port cfg metrics s =
      let sent = if is_empty s.mbufs then 0 else port (length s.mbufs) in
      record {
        flow_scheduler = s.flow_scheduler;
        imix_engine = s.imix_engine;
        metrics_collector = count_sent cfg sent s.mbufs metrics;
        sent = sent;
        allocated = s.allocated;
        freed = s.freed + (length s.mbufs - sent);
        lost = s.lost + occupied s.slot;
      }

  -- With a scheduler and a memory pool. The mutator is a new one each time.
  unfoldable pub process_flows :
      (ℕ → ℕ)
      → WorkerConfig
      → ℕ
      → ℕ
      → (ℕ → ℕ)
      → (ℕ → ℕ)
      → (ℕ → Allocation)
      → FlowScheduler
      → Option (ImixEngine g)
      → Option (MetricsCollector d.Carrier)
      → Option (Sent g)
  process_flows port cfg now_s now_ns bucket_ns clock pool s engine metrics =
      let (s', ready) = get_ready_flows now_ns bucket_ns s cfg.tx_burst_size in
      let start : Burst g ids = record {
        flow_scheduler = s';
        imix_engine = engine;
        mutator = initialize ids now_s (new_mutator ids) cfg.core_id;
        mbufs = [];
        slot = none;
        allocated = 0;
        freed = 0;
        lost = 0;
      } in
      elim (send_flows cfg now_s clock pool 0 start ready) [
        | none ↦ none
        | some e ↦ some (transmit_burst port cfg metrics e)
      ]
