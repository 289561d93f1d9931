-- ===== src/Service/Control.antt =====
-- `StartTraffic` and `StopTraffic` of server.cpp: what they do to the flows.
use mathlib.Core.Option
use ngfwtraffic_gen.Common.{
  ℕ, ◌≡◌, refl, ap, ◌∙◌, sym, ◌≢◌, ◌⊎◌, inl, inr, Bool, true, false, Option, none, some, List, [],
  ◌∷◌, map, is_empty, if◌then◌else◌, arith, Bool-cases, Option-cases, ◌==◌, ==_iff,
}
use ngfwtraffic_gen.Common.Assoc.{find, nat_key, find-adjust}
use ngfwtraffic_gen.Common.Double.{Double}
use ngfwtraffic_gen.Bucket.{TokenBucket}
use ngfwtraffic_gen.Bucket
use ngfwtraffic_gen.Imix.{Sampler}
use ngfwtraffic_gen.Flow.{
  FlowConfigInternal, FlowScheduler, FlowSnapshot, start_flow, started, stop_flow, stopped,
  active_ids, get_active_flows, get_all_flows_snapshot, snapshot,
}
use ngfwtraffic_gen.Service.{
  TrafficGeneratorService, ok, failed, negsuc, start_all, stop_all, all_ids, start_traffic,
  stop_traffic,
}

abbrev has : ℕ → List ℕ → Bool
has i [] = false
has i (j ∷ ids) = if j == i then true else has i ids

started_twice :
    (now_ns bucket_ns : ℕ) (c : FlowConfigInternal)
    → started now_ns bucket_ns (started now_ns bucket_ns c) ≡ started now_ns bucket_ns c
unfolding started Bucket.reset
started_twice now_ns bucket_ns c = elim (Option-cases c.token_bucket) [
  | inl e ↦ ground arith
  | inr (b, e) ↦ ground arith
]

once :
    (now_ns bucket_ns : ℕ) (c : Option FlowConfigInternal)
    → Option.map (started now_ns bucket_ns) (Option.map (started now_ns bucket_ns) c)
      ≡ Option.map (started now_ns bucket_ns) c
once now_ns bucket_ns none = refl
once now_ns bucket_ns (some c) = ap some (started_twice now_ns bucket_ns c)

start_all-find :
    (clock : ℕ → ℕ × ℕ) (ids : List ℕ) (s : FlowScheduler) (i : ℕ)
    → find i (start_all clock ids s).flows ≡ (
        if has i ids
        then Option.map (started (clock i).0 (clock i).1) (find i s.flows)
        else find i s.flows)
unfolding start_all start_flow
start_all-find clock [] s i = refl
start_all-find clock (j ∷ ids) s i = ground (
  arith,
  ==_iff j i,
  start_all-find clock ids (start_flow (clock j).0 (clock j).1 s j).0 i,
  find-adjust j i (started (clock j).0 (clock j).1) s.flows,
  ap (λ k. clock k) {x = j} {y = i},
  once (clock i).0 (clock i).1 (find i s.flows),
)

stop_all-find :
    (ids : List ℕ) (s : FlowScheduler) (i : ℕ)
    → find i (stop_all ids s).flows
      ≡ (if has i ids then Option.map stopped (find i s.flows) else find i s.flows)
unfolding stop_all stop_flow stopped
stop_all-find [] s i = refl
stop_all-find (j ∷ ids) s i =
    ground (arith, stop_all-find ids (stop_flow s j).0 i, find-adjust j i stopped s.flows)

all_ids_have :
    (flows : List (ℕ × FlowConfigInternal)) (i : ℕ) (c : FlowConfigInternal)
    → find i flows ≡ some c
    → has i (map (λ e. e.0) flows) ≡ true
unfolding find
all_ids_have [] i c h = absurd (ground arith)
all_ids_have ((j, x) ∷ flows) i c h = ground (arith, all_ids_have flows i c)

same_ids :
    (flows : List (ℕ × FlowConfigInternal))
    → map (λ (e : ℕ × FlowSnapshot). e.0) (map (λ e. (e.0, snapshot e.1)) flows)
      ≡ map (λ e. e.0) flows
same_ids [] = refl
same_ids (e ∷ flows) = ap (◌∷◌ e.0) (same_ids flows)

active_ids_have :
    (flows : List (ℕ × FlowConfigInternal)) (i : ℕ) (c : FlowConfigInternal)
    → find i flows ≡ some c
    → c.active ≡ true
    → has i (active_ids flows) ≡ true
unfolding find active_ids
active_ids_have [] i c h a = absurd (ground arith)
active_ids_have ((j, x) ∷ flows) i c h a = ground (arith, ==_iff j i, active_ids_have flows i c)

stopped_inactive : (c : FlowConfigInternal) → c.active ≡ false → stopped c ≡ c
unfolding stopped
stopped_inactive c h = ap (λ b. record c { active = b }) (sym h)

start_all-all :
    (clock : ℕ → ℕ × ℕ) (s : FlowScheduler) (i : ℕ)
    → find i (start_all clock (all_ids s) s).flows
      ≡ Option.map (started (clock i).0 (clock i).1) (find i s.flows)
unfolding get_all_flows_snapshot
start_all-all clock s i = elim (Option-cases (find i s.flows)) [
  | inl e ↦ ground (arith, start_all-find clock (all_ids s) s i)
  | inr (c, e) ↦
      ground
        (arith, start_all-find clock (all_ids s) s i, same_ids s.flows, all_ids_have s.flows i c e)
]

stop_all-all :
    (s : FlowScheduler) (i : ℕ)
    → find i (stop_all (get_active_flows s) s).flows ≡ Option.map stopped (find i s.flows)
unfolding get_active_flows
stop_all-all s i = elim (Option-cases (find i s.flows)) [
  | inl e ↦ ground (arith, stop_all-find (get_active_flows s) s i)
  | inr (c, e) ↦ elim (Bool-cases c.active) [
    | inl a ↦
        ground (arith, stop_all-find (get_active_flows s) s i, active_ids_have s.flows i c e a)
    | inr a ↦ ground (arith, stop_all-find (get_active_flows s) s i, stopped_inactive c a)
  ]
]

empty_cases :
    (flows : List (ℕ × FlowConfigInternal))
    → ((flows ≡ [])
        × (is_empty {A = ℕ × FlowSnapshot} (map (λ e. (e.0, snapshot e.1)) flows) ≡ true))
      ⊎ ((flows ≢ [])
          × (is_empty {A = ℕ × FlowSnapshot} (map (λ e. (e.0, snapshot e.1)) flows) ≡ false))
empty_cases [] = inl (refl, refl)
empty_cases (e ∷ flows) = inr (λ same. cc, refl)

started_lem :
    (now_ns bucket_ns : ℕ) (c : Option FlowConfigInternal)
    → Option.map (started now_ns bucket_ns) c
      ≡ Option.map
          (λ (c : FlowConfigInternal). record c {
            start_time_ns = now_ns;
            active = true;
            token_bucket =
                Option.map
                  (λ (b : TokenBucket). record b {
                    tokens = b.burst_size;
                    last_update_ns = bucket_ns;
                  })
                  c.token_bucket;
          })
          c
unfolding started Bucket.reset
started_lem now_ns bucket_ns none = refl
started_lem now_ns bucket_ns (some c) = elim (Option-cases c.token_bucket) [
  | inl e ↦ rw (e, started) refl
  | inr (b, e) ↦ rw (e, started) refl
]

module _ (d : Double) (g : Sampler d.Carrier) where
  -- With a scheduler, `StartTraffic` fails with -2 and leaves the flows as they are where no flow
  -- is configured; else it succeeds, and every flow is active, has the clock's time for it as its
  -- start, and a bucket, where it has one, that is full and was last updated at the clock's second
  -- time for it, and is otherwise as it was.
  pub start_traffic_cases :
      (now_ns : ℕ) (clock : ℕ → ℕ × ℕ) (v : TrafficGeneratorService d g) (reset_stats : Bool)
      (s : FlowScheduler) (i : ℕ)
      → v.flow_scheduler ≡ some s
      → ((s.flows ≡ [])
          × ((start_traffic d g now_ns clock v reset_stats).1
              ≡ failed (negsuc 1) "No flows configured to start")
          × ((start_traffic d g now_ns clock v reset_stats).0.flow_scheduler ≡ some s))
        ⊎ ((s.flows ≢ [])
            × ((start_traffic d g now_ns clock v reset_stats).1 ≡ ok "Traffic generation started")
            × ((s' : FlowScheduler) × ((start_traffic d g now_ns clock v
                    reset_stats).0.flow_scheduler
                  ≡ some s')
                × (find i s'.flows
                    ≡ Option.map
                        (λ (c : FlowConfigInternal). record c {
                          start_time_ns = (clock i).0;
                          active = true;
                          token_bucket =
                              Option.map
                                (λ (b : TokenBucket). record b {
                                  tokens = b.burst_size;
                                  last_update_ns = (clock i).1;
                                })
                                c.token_bucket;
                        })
                        (find i s.flows))))
  unfolding start_traffic get_all_flows_snapshot
  start_traffic_cases now_ns clock v reset_stats s i h = elim (empty_cases s.flows) [
    | inl (none_there, e) ↦
        inl (none_there, rw (h, start_traffic) (rw e), rw (h, start_traffic) (rw e h))
    | inr (some_there, e) ↦ inr (
      some_there,
      rw (h, start_traffic) (rw e),
      (
        start_all clock (all_ids s) s,
        rw (h, start_traffic) (rw e),
        start_all-all clock s i ∙ started_lem (clock i).0 (clock i).1 (find i s.flows),
      ),
    )
  ]

  -- With a scheduler, `StopTraffic` succeeds, every flow is inactive afterwards, and nothing else
  -- of the flows has changed.
  pub stop_traffic-find :
      (v : TrafficGeneratorService d g) (s : FlowScheduler) (i : ℕ)
      → v.flow_scheduler ≡ some s
      → ((stop_traffic d g v).1 ≡ ok "Traffic generation stopped")
        × ((s' : FlowScheduler) × ((stop_traffic d g v).0.flow_scheduler ≡ some s')
            × (find i s'.flows ≡ Option.map stopped (find i s.flows)))
  unfolding stop_traffic
  stop_traffic-find v s i h = (
    rw (h, stop_traffic),
    (stop_all (get_active_flows s) s, rw (h, stop_traffic), stop_all-all s i),
  )
