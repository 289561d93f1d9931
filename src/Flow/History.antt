-- ===== src/Flow/History.antt =====
-- Histories of calls on the scheduler of flow_scheduler.cpp, and what holds of every flow in them.
use ngfwtraffic_gen.Common.{
  true, inl, inr, ◌≡◌, ℕ, inl, inr, List, [], ◌∷◌, All, Bool-cases, Option-cases,
}
use ngfwtraffic_gen.Common.Assoc.{find, nat_key, All-insert, All-erase, All-adjust}
use ngfwtraffic_gen.Types.{FlowKey, flow_key_key}
use ngfwtraffic_gen.Packet.{Platform, TcpHdr}
use ngfwtraffic_gen.Flow.{
  FlowConfigInternal, FlowScheduler, new_scheduler, initialize, flow_template, new_flow, add_flow,
  remove_flow, started, start_flow, stopped, stop_flow, counted, update_flow_stats, clear_all_flows,
}
use ngfwtraffic_gen.Flow.Ready.{visit, visited, get_ready_flows}
use ngfwtraffic_gen.Flow.Receive.{flow_receives, handle_tcp_rx}
use ngfwtraffic_gen.Flow.Schedule.{All-ready_from}

-- Every call that changes the scheduler, with the times at which it reads the clock.
pub data Call : Type 0 where
  initializes : List ℕ → Call
  adds : ℕ → FlowConfigInternal → Call
  removes : ℕ → Call
  starts : ℕ → ℕ → ℕ → Call
  stops : ℕ → Call
  readies : ℕ → (ℕ → ℕ) → ℕ → Call
  counts : ℕ → ℕ → ℕ → Call
  receives : ℕ → ℕ → FlowKey → TcpHdr → ℕ → Call
  clears : Call

-- A flow that a call adds is allowed.
abbrev pub Permits : (FlowConfigInternal → Type 0) → Call → Type 0
Permits Allowed (adds now_ns config) = Allowed config
Permits Allowed _ = Unit

module _ (pf : Platform) where
  unfoldable pub step : FlowScheduler → Call → FlowScheduler
  step s (initializes mac) = (initialize s mac).0
  step s (adds now_ns config) = (add_flow pf now_ns s config).0
  step s (removes flow_id) = (remove_flow s flow_id).0
  step s (starts now_ns bucket_ns flow_id) = (start_flow now_ns bucket_ns s flow_id).0
  step s (stops flow_id) = (stop_flow s flow_id).0
  step s (readies now_ns bucket_ns max_flows) = (get_ready_flows now_ns bucket_ns s max_flows).0
  step s (counts flow_id packets bytes) = update_flow_stats s flow_id packets bytes
  step s (receives now_ns later_ns key h payload_len) =
      handle_tcp_rx pf now_ns later_ns s key h payload_len
  step s clears = clear_all_flows s

  unfoldable pub run : FlowScheduler → List Call → FlowScheduler
  run s [] = s
  run s (c ∷ cs) = run (step s c) cs

  -- A property of single flows that a new flow has, where its configuration is `Allowed`, and that no call
  -- takes away.
  pub record KeptWhere (Allowed P : FlowConfigInternal → Type 0) : Type 0 where
    pub at_birth :
        (now_ns : ℕ) (s : FlowScheduler) (config : FlowConfigInternal)
        → Allowed config
        → (flow_template pf s config).1 ≡ true
        → P (new_flow now_ns config (flow_template pf s config).0)
    pub on_start :
        (now_ns bucket_ns : ℕ) (c : FlowConfigInternal) → P c → P (started now_ns bucket_ns c)
    pub on_stop : (c : FlowConfigInternal) → P c → P (stopped c)
    pub on_visit :
        (now_ns bucket_ns : ℕ) (c : FlowConfigInternal)
        → P c
        → P (visited (visit now_ns bucket_ns c))
    pub on_count : (packets bytes : ℕ) (c : FlowConfigInternal) → P c → P (counted packets bytes c)
    pub on_receive :
        (now_ns later_ns : ℕ) (h : TcpHdr) (payload_len : ℕ) (c : FlowConfigInternal)
        → P c
        → P (flow_receives pf now_ns later_ns h payload_len c)

  abbrev pub Kept : (FlowConfigInternal → Type 0) → Type 0
  Kept P = KeptWhere (λ _. Unit) P

  abbrev pub AllFlows : (FlowConfigInternal → Type 0) → FlowScheduler → Type 0
  AllFlows P s = All (λ e. P e.1) s.flows

  module _ (Allowed P : FlowConfigInternal → Type 0) (kept : KeptWhere Allowed P) where
    step-AllFlows :
        (s : FlowScheduler) (call : Call)
        → Permits Allowed call
        → AllFlows P s
        → AllFlows P (step s call)
    unfolding step initialize add_flow remove_flow start_flow stop_flow get_ready_flows
        update_flow_stats handle_tcp_rx clear_all_flows
    step-AllFlows s (initializes mac) allowed h = h
    step-AllFlows s (adds now_ns config) allowed h =
        elim (Bool-cases (flow_template pf s config).1) [
          | inl built ↦
              rw (built, step, add_flow)
                (All-insert _ config.flow_id _ s.flows (kept.at_birth now_ns s config allowed built)
                  h)
          | inr failed ↦ rw (failed, step, add_flow) h
        ]
    step-AllFlows s (removes flow_id) allowed h = elim (Option-cases (find flow_id s.flows)) [
      | inl e ↦ rw (e, step, remove_flow) h
      | inr (c, e) ↦ rw (e, step, remove_flow) (All-erase _ flow_id s.flows h)
    ]
    step-AllFlows s (starts now_ns bucket_ns flow_id) allowed h =
        All-adjust _ flow_id _ s.flows (λ _. kept.on_start now_ns bucket_ns) h
    step-AllFlows s (stops flow_id) allowed h = All-adjust _ flow_id _ s.flows (λ _. kept.on_stop) h
    step-AllFlows s (readies now_ns bucket_ns max_flows) allowed h =
        All-ready_from _ now_ns bucket_ns max_flows 0 s.flows
          (λ i. kept.on_visit now_ns (bucket_ns i)) h
    step-AllFlows s (counts flow_id packets bytes) allowed h =
        All-adjust _ flow_id _ s.flows (λ _. kept.on_count packets bytes) h
    step-AllFlows s (receives now_ns later_ns key hdr payload_len) allowed h =
        elim (Option-cases (find key s.flow_lookup)) [
          | inl e ↦ rw (e, step, handle_tcp_rx) h
          | inr (flow_id, e) ↦
              rw (e, step, handle_tcp_rx)
                (All-adjust _ flow_id _ s.flows
                  (λ _. kept.on_receive now_ns later_ns hdr payload_len) h)
        ]
    step-AllFlows s clears allowed h = tt

    pub run-AllFlows :
        (s : FlowScheduler) (calls : List Call)
        → All (Permits Allowed) calls
        → AllFlows P s
        → AllFlows P (run s calls)
    unfolding run
    run-AllFlows s [] allowed h = h
    run-AllFlows s (call ∷ calls) allowed h =
        run-AllFlows (step s call) calls allowed.1 (step-AllFlows s call allowed.0 h)

    pub run_new-AllFlowsWhere :
        (src_mac : List ℕ) (calls : List Call)
        → All (Permits Allowed) calls
        → AllFlows P (run (new_scheduler src_mac) calls)
    unfolding new_scheduler
    run_new-AllFlowsWhere src_mac calls allowed = run-AllFlows _ calls allowed tt

  every_call : (calls : List Call) → All (Permits (λ _. Unit)) calls
  every_call [] = tt
  every_call (initializes mac ∷ calls) = (tt, every_call calls)
  every_call (adds now_ns config ∷ calls) = (tt, every_call calls)
  every_call (removes flow_id ∷ calls) = (tt, every_call calls)
  every_call (starts now_ns bucket_ns flow_id ∷ calls) = (tt, every_call calls)
  every_call (stops flow_id ∷ calls) = (tt, every_call calls)
  every_call (readies now_ns bucket_ns max_flows ∷ calls) = (tt, every_call calls)
  every_call (counts flow_id packets bytes ∷ calls) = (tt, every_call calls)
  every_call (receives now_ns later_ns key h payload_len ∷ calls) = (tt, every_call calls)
  every_call (clears ∷ calls) = (tt, every_call calls)

  pub run_new-AllFlows :
      (P : FlowConfigInternal → Type 0) (kept : Kept P) (src_mac : List ℕ) (calls : List Call)
      → AllFlows P (run (new_scheduler src_mac) calls)
  run_new-AllFlows P kept src_mac calls =
      run_new-AllFlowsWhere (λ _. Unit) P kept src_mac calls (every_call calls)
