-- ===== src/Worker/Send.antt =====
-- The loop of `process_flows` in worker.cpp: it never leaves its objects, and no buffer goes uncounted.
use ngfwtraffic_gen.Common.{
  ℕ, ◌+◌, ◌≤◌, ◌<◌, ◌≡◌, refl, inl, inr, true, some, List, [], ◌∷◌, length, length-append, All, leb,
  ◌==◌, arith, Bool-cases, Option-cases,
}
use ngfwtraffic_gen.Common.Assoc.{find, adjust, nat_key, All-adjust}
use ngfwtraffic_gen.Common.Double.{Double}
use ngfwtraffic_gen.Packet.{Platform}
use ngfwtraffic_gen.Packet.Offset.{HasFrame}
use ngfwtraffic_gen.Packet.Mutate.{Mbuf, IdSource}
use ngfwtraffic_gen.Imix.{Sampler}
use ngfwtraffic_gen.Imix.Select.{DrawsInRange}
use ngfwtraffic_gen.Flow.{FlowConfigInternal, FlowScheduler}
use ngfwtraffic_gen.Flow.History.{AllFlows}
use ngfwtraffic_gen.Flow.Templates.{HasTemplate, same_template-HasTemplate}
use ngfwtraffic_gen.Worker.{
  Allocation, yields, runs_out, allocate_burst, occupied, take_buffer, WorkerConfig, Burst,
  finish_packet, final_template, keep, fill, send_flow, send_flows,
}
use ngfwtraffic_gen.Worker.Room.{
  All-find, finish_packet-template, clone_cases, EngineValid, choose_size-fits,
}

module _ (d : Double) (g : Sampler d.Carrier) (ids : IdSource) (pf : Platform)
    (documented : DrawsInRange g) where
  -- The loop's invariant: every buffer that the pool has given is in the burst or in the slot, was
  -- freed, or is lost.
  pub record Good (cfg : WorkerConfig) (s : Burst g ids) : Type 0 where
    pub engine : EngineValid d g ids pf documented s.imix_engine
    pub templates : AllFlows pf (HasTemplate pf) s.flow_scheduler
    pub balance : s.allocated ≡ length s.mbufs + s.freed + s.lost + occupied s.slot
    pub burst : length s.mbufs ≤ cfg.tx_burst_size

  adjust_templates :
      (cfg : WorkerConfig) (now_ns flow_id : ℕ) (c : FlowConfigInternal) (b : Mbuf)
      (s : FlowScheduler)
      → HasTemplate pf c
      → AllFlows pf (HasTemplate pf) s
      → All
          (λ e. HasTemplate pf e.1)
          (adjust flow_id (λ _. (finish_packet pf cfg now_ns c b).0) s.flows)
  adjust_templates cfg now_ns flow_id c b s h a =
      let (t, p) = finish_packet-template pf cfg now_ns c b in
      All-adjust (λ e. HasTemplate pf e.1) flow_id _ s.flows
        (λ _ _ _. same_template-HasTemplate pf c (finish_packet pf cfg now_ns c b).0 t p h) a

  fill-Good :
      (cfg : WorkerConfig) (now_s now_ns flow_id : ℕ) (c : FlowConfigInternal) (s : Burst g ids)
      (b : Mbuf)
      → HasTemplate pf c
      → s.slot ≡ some b
      → length s.mbufs < cfg.tx_burst_size
      → Good cfg s
      → (s' : Burst g ids) × (fill d g ids pf cfg now_s now_ns flow_id c s b ≡ some s')
        × Good cfg s'
  unfolding fill keep
  fill-Good cfg now_s now_ns flow_id c s b h held l v =
      let one : occupied s.slot ≡ 1 = rw held in
      let (n, size, enough, small, engine) =
        choose_size-fits d g ids pf documented s.imix_engine c h.1 v.engine in
      let t = h.0 in
      let fits : HasFrame pf n (final_template d g ids pf c n) = record {
        content = t.content;
        has_content = t.has_content;
        headers_copied = t.headers_copied;
        offset_in_data = t.offset_in_data;
        offset_in_size = omega (arith, t.offset_in_size, enough);
      } in
      elim (clone_cases pf ids now_s s.mutator b (final_template d g ids pf c n) 0 true fits
        small) [
          | inl (b', e) ↦
              rw (size, fill)
                (rw (e, keep)
                  (
                    _,
                    refl,
                    record {
                      engine = engine;
                      templates = v.templates;
                      balance = omega (arith, v.balance, one);
                      burst = v.burst;
                    },
                  ))
          | inr (b', e) ↦
              rw (size, fill)
                (rw (e, keep)
                  (
                    _,
                    refl,
                    record {
                      engine = engine;
                      templates =
                          adjust_templates cfg now_ns flow_id c b' s.flow_scheduler h v.templates;
                      balance = omega (
                        arith,
                        v.balance,
                        one,
                        length-append s.mbufs ((finish_packet pf cfg now_ns c b').1 ∷ []),
                      );
                      burst = omega (
                        arith,
                        l,
                        length-append s.mbufs ((finish_packet pf cfg now_ns c b').1 ∷ []),
                      );
                    },
                  ))
        ]

  take_buffer-Good :
      (cfg : WorkerConfig) (alloc : Allocation) (s : Burst g ids)
      → Good cfg s
      → Good cfg (take_buffer d g ids pf alloc s)
        × ((take_buffer d g ids pf alloc s).mbufs ≡ s.mbufs)
  unfolding take_buffer allocate_burst
  take_buffer-Good cfg (yields b) s v = (
    record {
      engine = v.engine;
      templates = v.templates;
      balance = omega (arith, v.balance);
      burst = v.burst;
    },
    refl,
  )
  take_buffer-Good cfg (runs_out error) s v = (v, refl)

  send_flow-Good :
      (cfg : WorkerConfig) (now_s now_ns : ℕ) (alloc : Allocation) (s : Burst g ids) (flow_id : ℕ)
      → Good cfg s
      → (s' : Burst g ids) × (send_flow d g ids pf cfg now_s now_ns alloc s flow_id ≡ some s')
        × Good cfg s'
  unfolding send_flow
  send_flow-Good cfg now_s now_ns alloc s flow_id v =
      let s' : Burst g ids = take_buffer d g ids pf alloc s in
      let (v', same) = take_buffer-Good cfg alloc s v in
      elim (Bool-cases (leb cfg.tx_burst_size (length s.mbufs))) [
        | inl full ↦ rw full (s, refl, v)
        | inr room ↦ elim (Option-cases (find flow_id s.flow_scheduler.flows)) [
          | inl e ↦ rw (room, e, send_flow) (s, refl, v)
          | inr (c, e) ↦ elim (Bool-cases c.active) [
            | inr idle ↦ rw (room, e, idle, send_flow) (s, refl, v)
            | inl active ↦ elim (Bool-cases ((allocate_burst alloc s.slot).1 == 0)) [
              | inl passed ↦ rw (room, e, active, passed, send_flow) (s', refl, v')
              | inr more ↦ elim (Option-cases s'.slot) [
                | inl a ↦ rw (room, e, active, more, a, send_flow) (s', refl, v')
                | inr (b, a) ↦
                    rw (room, e, active, more, a, send_flow)
                      (fill-Good cfg now_s now_ns flow_id c s' b
                        (All-find (HasTemplate pf) s.flow_scheduler.flows flow_id c v.templates e) a
                        (ground (arith, same)) v')
              ]
            ]
          ]
        ]
      ]

  pub send_flows-Good :
      (cfg : WorkerConfig) (now_s : ℕ) (clock : ℕ → ℕ) (pool : ℕ → Allocation) (i : ℕ)
      (s : Burst g ids) (flow_ids : List ℕ)
      → Good cfg s
      → (s' : Burst g ids) × (send_flows d g ids pf cfg now_s clock pool i s flow_ids ≡ some s')
        × Good cfg s'
  unfolding send_flows
  send_flows-Good cfg now_s clock pool i s [] v = (s, refl, v)
  send_flows-Good cfg now_s clock pool i s (flow_id ∷ flow_ids) v =
      let (s', e, v') = send_flow-Good cfg now_s (clock i) (pool i) s flow_id v in
      rw (e, send_flows) (send_flows-Good cfg now_s clock pool (i + 1) s' flow_ids v')
