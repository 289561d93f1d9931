-- ===== src/Worker/Idle.antt =====
-- The whole loop of worker.cpp while the pool has buffers.
use mathlib.Core.Path.{fun_ext}
use ngfwtraffic_gen.Common.{
  ℕ, ◌≡◌, refl, Bool, ◌&&◌, Option, none, some, List, [], ◌∷◌, All, is_empty, arith, Bool-cases,
  if-ensures, inl, inr,
}
use ngfwtraffic_gen.Common.Double.{Double}
use ngfwtraffic_gen.Packet.{Platform}
use ngfwtraffic_gen.Packet.Mutate.{IdSource, Mbuf}
use ngfwtraffic_gen.Imix.{Sampler, ImixEngine}
use ngfwtraffic_gen.Flow.{FlowScheduler}
use ngfwtraffic_gen.Metrics.{MetricsCollector}
use ngfwtraffic_gen.Worker.{yields, WorkerConfig}
use ngfwtraffic_gen.Worker.Loop.{
  Round, World, after_sending, after_receiving, send_part, receive_part, worker_rounds, worker_loop,
}
use ngfwtraffic_gen.Worker.Receive.{receive_burst, process_received_packets}
use ngfwtraffic_gen.Worker.Silence.{process_flows_silent}

-- The pool gives a buffer whenever it is asked in the round.
abbrev pub Plenty : Round → Type 0
Plenty m = (i : ℕ) → (b : Mbuf) × (m.pool i ≡ yields b)

module _ (d : Double) (g : Sampler d.Carrier) (ids : IdSource) (pf : Platform) (port : ℕ → ℕ)
    (cfg : WorkerConfig) where
  record Idle (w : World g) : Type 0 where
    nothing : w.sent ≡ 0
    none_freed : w.freed ≡ 0
    all_lost : w.lost ≡ w.allocated

  send_part-Idle :
      (m : Round) (w : World g) (o : Option FlowScheduler)
      → w.flow_scheduler ≡ o
      → Plenty m
      → Idle w
      → (w' : World g) × (send_part d g ids pf port cfg m w ≡ some w') × Idle w'
  unfolding send_part
  send_part-Idle m w none e plenty v = (w, rw e refl, v)
  send_part-Idle m w (some s) e plenty v =
      let buffer : ℕ → Mbuf = λ i. (plenty i).0 in
      let pool : m.pool ≡ (λ i. yields (buffer i)) = fun_ext (λ i. (plenty i).1) in
      let (r, done, nothing, kept, gone, same) =
        process_flows_silent d g ids pf port cfg m.now_s m.now_ns m.bucket_ns m.clock buffer s
          w.imix_engine w.metrics_collector in
      rw (e, pool, send_part, done)
        (
          after_sending d g ids pf port cfg w r,
          refl,
          record {
            nothing = omega (arith, v.nothing, nothing);
            none_freed = omega (arith, v.none_freed, kept);
            all_lost = omega (arith, v.all_lost, gone);
          },
        )

  receive_part-Idle :
      (m : Round) (w : World g) → Idle w → Idle (receive_part d g ids pf port cfg m w)
  unfolding receive_part
  receive_part-Idle m w v =
      let mbufs = receive_burst m.arrivals cfg.rx_burst_size in
      let received : Idle (
          after_receiving d g ids pf port cfg w (
            process_received_packets d pf cfg m.rx_ns m.rx_clock mbufs w.flow_scheduler
              w.metrics_collector)) =
        record { nothing = v.nothing; none_freed = v.none_freed; all_lost = v.all_lost } in
      if-ensures Idle cfg.enable_rx (if-ensures Idle (is_empty mbufs) v received) v

  worker_rounds-Idle :
      (rounds : List Round) (w : World g)
      → All Plenty rounds
      → Idle w
      → (w' : World g) × (worker_rounds d g ids pf port cfg rounds w ≡ some w') × Idle w'
  unfolding worker_rounds
  worker_rounds-Idle [] w h v = (w, refl, v)
  worker_rounds-Idle (m ∷ rounds) w h v =
      let (w', e, v') = send_part-Idle m w w.flow_scheduler refl h.0 v in
      rw (e, worker_rounds)
        (worker_rounds-Idle rounds (receive_part d g ids pf port cfg m w') h.1
          (receive_part-Idle m w' v'))

  -- While the pool gives a buffer whenever it is asked, `worker_loop` sends nothing, however many
  -- rounds it makes and whatever it receives, and every buffer that it takes from the pool is lost:
  -- `allocate_burst` returns 0 for success, and the worker takes 0 for a failure.
  pub worker_loop_silent :
      (registered has_mempool : Bool) (rounds : List Round) (scheduler : Option FlowScheduler)
      (engine : Option (ImixEngine g)) (metrics : Option (MetricsCollector d.Carrier))
      → All Plenty rounds
      → let w : World g = record {
        flow_scheduler = scheduler;
        imix_engine = engine;
        metrics_collector = metrics;
        sent = 0;
        allocated = 0;
        freed = 0;
        lost = 0;
        received = 0;
      } in
        (w' : World g) × (worker_loop d g ids pf port cfg registered has_mempool rounds w ≡ some w')
        × (w'.sent ≡ 0)
        × (w'.freed ≡ 0)
        × (w'.lost ≡ w'.allocated)
  unfolding worker_loop
  worker_loop_silent registered has_mempool rounds scheduler engine metrics h =
      let w : World g = record {
        flow_scheduler = scheduler;
        imix_engine = engine;
        metrics_collector = metrics;
        sent = 0;
        allocated = 0;
        freed = 0;
        lost = 0;
        received = 0;
      } in
      let (w', e, v) =
        worker_rounds-Idle rounds w h
          (record { nothing = refl; none_freed = refl; all_lost = refl }) in
      elim (Bool-cases (registered && has_mempool)) [
        | inl runs ↦ rw runs (w', e, v.nothing, v.none_freed, v.all_lost)
        | inr gives_up ↦ rw gives_up (w, refl, refl, refl, refl)
      ]
