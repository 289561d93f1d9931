-- ===== src/Worker/Segments.antt =====
-- The calls that a burst of worker.cpp makes to the scheduler.
use ngfwtraffic_gen.Common.{
  ℕ, ◌+◌, ◌≡◌, refl, inl, inr, Option, none, some, List, [], ◌∷◌, All, if◌then◌else◌, Bool-cases,
}
use ngfwtraffic_gen.Common.Double.{Double}
use ngfwtraffic_gen.Packet.{Platform}
use ngfwtraffic_gen.Flow.{FlowConfigInternal, FlowScheduler}
use ngfwtraffic_gen.Flow.History.{Call, Permits, receives}
use ngfwtraffic_gen.Flow.History
use ngfwtraffic_gen.Metrics.{MetricsCollector}
use ngfwtraffic_gen.Worker.{WorkerConfig, payload_length}
use ngfwtraffic_gen.Worker.Receive.{
  Rx, is_tcp, received_key, deliver, receive_packet, receive_packets, process_received_packets,
}
use ngfwtraffic_gen.Worker.Received.{Burst}

module _ (d : Double) (pf : Platform) (cfg : WorkerConfig) (now_ns : ℕ) (clock : ℕ → ℕ × ℕ) where
  -- The calls of `handle_tcp_rx` for the segments of a burst, from the buffer number `i`.
  unfoldable pub segments : ℕ → Burst → List Call
  segments i [] = []
  segments i (none ∷ mbufs) = segments (i + 1) mbufs
  segments i (some p ∷ mbufs) =
      let rest = segments (i + 1) mbufs in
      if is_tcp d pf p
      then receives (clock i).0 (clock i).1 (received_key d pf p) p.tcp
          (payload_length pf p.ip p.tcp)
        ∷ rest
      else rest

  -- They add no flow.
  pub segments_permitted :
      (Allowed : FlowConfigInternal → Type 0) (i : ℕ) (mbufs : Burst)
      → All (Permits Allowed) (segments i mbufs)
  unfolding segments
  segments_permitted Allowed i [] = tt
  segments_permitted Allowed i (none ∷ mbufs) = segments_permitted Allowed (i + 1) mbufs
  segments_permitted Allowed i (some p ∷ mbufs) = elim (Bool-cases (is_tcp d pf p)) [
    | inl t ↦ rw t (tt, segments_permitted Allowed (i + 1) mbufs)
    | inr f ↦ rw f (segments_permitted Allowed (i + 1) mbufs)
  ]

  receive_packets-run :
      (i : ℕ) (mbufs : Burst) (s : FlowScheduler) (r : Rx d.Carrier)
      → r.flow_scheduler ≡ some s
      → (receive_packets d pf cfg now_ns clock i mbufs r).flow_scheduler
        ≡ some (History.run pf s (segments i mbufs))
  unfolding receive_packets receive_packet deliver segments History.run History.step
  receive_packets-run i [] s r e = e
  receive_packets-run i (none ∷ mbufs) s r e = receive_packets-run (i + 1) mbufs s r e
  receive_packets-run i (some p ∷ mbufs) s r e = elim (Bool-cases (is_tcp d pf p)) [
    | inl t ↦ rw t (receive_packets-run (i + 1) mbufs _ _ (rw (e, deliver, t) refl))
    | inr f ↦ rw f (receive_packets-run (i + 1) mbufs s _ (rw (e, deliver, f) refl))
  ]

  -- With a scheduler, `process_received_packets` does to it what one call of `handle_tcp_rx` for
  -- each TCP segment of the burst does, in the order of the burst, and no more.
  pub process_received_packets-run :
      (mbufs : Burst) (s : FlowScheduler) (m : Option (MetricsCollector d.Carrier))
      → (process_received_packets d pf cfg now_ns clock mbufs (some s) m).flow_scheduler
        ≡ some (History.run pf s (segments 0 mbufs))
  unfolding process_received_packets segments History.run
  process_received_packets-run [] s m = refl
  process_received_packets-run (b ∷ mbufs) s m = receive_packets-run 0 (b ∷ mbufs) s _ refl

  receive_packets-none :
      (i : ℕ) (mbufs : Burst) (r : Rx d.Carrier)
      → r.flow_scheduler ≡ none
      → (receive_packets d pf cfg now_ns clock i mbufs r).flow_scheduler ≡ none
  unfolding receive_packets receive_packet deliver
  receive_packets-none i [] r e = e
  receive_packets-none i (none ∷ mbufs) r e = receive_packets-none (i + 1) mbufs r e
  receive_packets-none i (some p ∷ mbufs) r e =
      receive_packets-none (i + 1) mbufs _ (rw (e, deliver) refl)

  pub process_received_packets-none :
      (mbufs : Burst) (m : Option (MetricsCollector d.Carrier))
      → (process_received_packets d pf cfg now_ns clock mbufs none m).flow_scheduler ≡ none
  unfolding process_received_packets
  process_received_packets-none [] m = refl
  process_received_packets-none (b ∷ mbufs) m = receive_packets-none 0 (b ∷ mbufs) _ refl
