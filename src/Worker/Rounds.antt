-- ===== src/Worker/Rounds.antt =====
-- The whole loop of worker.cpp, however many rounds it makes.
use mathlib.Core.Path.{subst}
use ngfwtraffic_gen.Common.{
  ℕ, ◌+◌, ◌≤◌, ◌≡◌, refl, Bool, ◌&&◌, Option, none, some, List, [], ◌∷◌, All, is_empty, arith,
  if-ensures, Bool-cases, inl, inr,
}
use ngfwtraffic_gen.Common.Double.{Double}
use ngfwtraffic_gen.Packet.{Platform}
use ngfwtraffic_gen.Packet.Mutate.{IdSource}
use ngfwtraffic_gen.Imix.{Sampler, new_engine}
use ngfwtraffic_gen.Imix.Select
use ngfwtraffic_gen.Imix.Select.{DrawsInRange, Command, run-new_engine-Inv}
use ngfwtraffic_gen.Flow.{FlowScheduler, new_scheduler}
use ngfwtraffic_gen.Flow.History
use ngfwtraffic_gen.Flow.History.{AllFlows, Call, Permits, run-AllFlows}
use ngfwtraffic_gen.Flow.Templates.{Is16Bit, HasTemplate, run_new-HasTemplate, template-Kept}
use ngfwtraffic_gen.Metrics.{MetricsCollector}
use ngfwtraffic_gen.Worker.{WorkerConfig}
use ngfwtraffic_gen.Worker.Balance.{process_flows-Left}
use ngfwtraffic_gen.Worker.Loop.{
  Round, World, after_sending, after_receiving, send_part, receive_part, worker_rounds, worker_loop,
}
use ngfwtraffic_gen.Worker.Receive.{receive_burst, process_received_packets}
use ngfwtraffic_gen.Worker.Received.{Burst}
use ngfwtraffic_gen.Worker.Segments.{
  segments, segments_permitted, process_received_packets-run, process_received_packets-none,
}
use ngfwtraffic_gen.Worker.Room.{EngineValid}

module _ (d : Double) (g : Sampler d.Carrier) (ids : IdSource) (pf : Platform)
    (documented : DrawsInRange g) where
  abbrev SchedulerValid : Option FlowScheduler → Type 0
  SchedulerValid none = Unit
  SchedulerValid (some s) = AllFlows pf (HasTemplate pf) s

  record Sound (w : World g) : Type 0 where
    engine : EngineValid d g ids pf documented w.imix_engine
    scheduler : SchedulerValid w.flow_scheduler
    balance : w.allocated ≡ w.sent + w.freed + w.lost

  module _ (port : ℕ → ℕ) (takes : (n : ℕ) → port n ≤ n) (cfg : WorkerConfig) where
    send_part_with :
        (m : Round) (w : World g) (o : Option FlowScheduler)
        → w.flow_scheduler ≡ o
        → Sound w
        → (w' : World g) × (send_part d g ids pf port cfg m w ≡ some w') × Sound w'
    unfolding send_part
    send_part_with m w none e v = (w, rw e refl, v)
    send_part_with m w (some s) e v =
        let t : AllFlows pf (HasTemplate pf) s = subst SchedulerValid e v.scheduler in
        let (r, done, l) =
          process_flows-Left d g ids pf documented port cfg m.now_s m.now_ns m.bucket_ns m.clock
            m.pool s w.imix_engine w.metrics_collector takes t v.engine in
        rw (e, send_part, done)
          (
            after_sending d g ids pf port cfg w r,
            refl,
            record {
              engine = l.engine;
              scheduler = l.templates;
              balance = omega (arith, v.balance, l.balance);
            },
          )

    received_templates :
        (m : Round) (mbufs : Burst) (o : Option FlowScheduler)
        (metrics : Option (MetricsCollector d.Carrier))
        → SchedulerValid o
        → SchedulerValid
            (process_received_packets d pf cfg m.rx_ns m.rx_clock mbufs o metrics).flow_scheduler
    received_templates m mbufs none metrics t =
        rw (process_received_packets-none d pf cfg m.rx_ns m.rx_clock mbufs metrics) tt
    received_templates m mbufs (some s) metrics t =
        rw (process_received_packets-run d pf cfg m.rx_ns m.rx_clock mbufs s metrics) (
          run-AllFlows pf Is16Bit (HasTemplate pf) (template-Kept pf) s
            (segments d pf cfg m.rx_ns m.rx_clock 0 mbufs)
            (segments_permitted d pf cfg m.rx_ns m.rx_clock Is16Bit 0 mbufs) t)

    receive_part-Sound :
        (m : Round) (w : World g) → Sound w → Sound (receive_part d g ids pf port cfg m w)
    unfolding receive_part
    receive_part-Sound m w v =
        let mbufs = receive_burst m.arrivals cfg.rx_burst_size in
        let received : Sound (
            after_receiving d g ids pf port cfg w (
              process_received_packets d pf cfg m.rx_ns m.rx_clock mbufs w.flow_scheduler
                w.metrics_collector)) =
          record {
            engine = v.engine;
            scheduler = received_templates m mbufs w.flow_scheduler w.metrics_collector v.scheduler;
            balance = v.balance;
          } in
        if-ensures Sound cfg.enable_rx (if-ensures Sound (is_empty mbufs) v received) v

    worker_rounds-Sound :
        (rounds : List Round) (w : World g)
        → Sound w
        → (w' : World g) × (worker_rounds d g ids pf port cfg rounds w ≡ some w') × Sound w'
    unfolding worker_rounds
    worker_rounds-Sound [] w v = (w, refl, v)
    worker_rounds-Sound (m ∷ rounds) w v =
        let (w', e, v') = send_part_with m w w.flow_scheduler refl v in
        rw (e, worker_rounds)
          (worker_rounds-Sound rounds (receive_part d g ids pf port cfg m w')
            (receive_part-Sound m w' v'))

    -- On an engine after any calls, and a scheduler after any calls whose added flows have packet
    -- sizes below 2^16, `worker_loop` fills no buffer outside of its bounds and reads no entry of
    -- the mix that is not there, however many rounds of sending and receiving it makes, and every
    -- buffer that the pool has given is sent, freed or counted as lost. It relies on the port
    -- taking no more packets than it is offered, and on the library drawing an index below the
    -- number of weights. Of what is read in received buffers nothing is said.
    pub worker_loop_balance :
        (registered has_mempool : Bool) (rounds : List Round) (now_s : ℕ) (src_mac : List ℕ)
        (calls : List Call) (configured : List (Command d g))
        (metrics : Option (MetricsCollector d.Carrier))
        → All (Permits Is16Bit) calls
        → let w : World g = record {
          flow_scheduler = some (History.run pf (new_scheduler src_mac) calls);
          imix_engine = some (Select.run d g (new_engine d g now_s) configured);
          metrics_collector = metrics;
          sent = 0;
          allocated = 0;
          freed = 0;
          lost = 0;
          received = 0;
        } in
          (w' : World g) × (worker_loop d g ids pf port cfg registered has_mempool rounds w
            ≡ some w')
          × (w'.allocated ≡ w'.sent + w'.freed + w'.lost)
    unfolding worker_loop
    worker_loop_balance registered has_mempool rounds now_s src_mac calls configured metrics
          permitted =
        let w : World g = record {
          flow_scheduler = some (History.run pf (new_scheduler src_mac) calls);
          imix_engine = some (Select.run d g (new_engine d g now_s) configured);
          metrics_collector = metrics;
          sent = 0;
          allocated = 0;
          freed = 0;
          lost = 0;
          received = 0;
        } in
        let (w', e, v) = worker_rounds-Sound rounds w (record {
          engine = run-new_engine-Inv d g now_s configured;
          scheduler = run_new-HasTemplate pf src_mac calls permitted;
          balance = omega arith;
        }) in
        elim (Bool-cases (registered && has_mempool)) [
          | inl runs ↦ rw runs (w', e, v.balance)
          | inr gives_up ↦ rw gives_up (w, refl, omega arith)
        ]
