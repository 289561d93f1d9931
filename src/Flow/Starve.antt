-- ===== src/Flow/Starve.antt =====
-- Flows of fewer than ten packets per second, in flow_scheduler.cpp: the bucket's burst size, a tenth
-- of the rate, is 0.
use ngfwtraffic_gen.Common.{
  ℕ, ◌≤◌, ◌≡◌, ◌⊎◌, inl, inr, Option, none, some, List, All, All-mono, All_of_In, In, arith,
  Option-cases,
}
use ngfwtraffic_gen.Packet.{Platform}
use ngfwtraffic_gen.Bucket
use ngfwtraffic_gen.Bucket.{TokenBucket}
use ngfwtraffic_gen.Bucket.Consume.{try_consume_no_burst}
use ngfwtraffic_gen.Flow.{
  FlowConfigInternal, FlowScheduler, new_scheduler, flow_bucket, new_flow, started, stopped,
  counted,
}
use ngfwtraffic_gen.Flow.Ready.{visit, visited, get_ready_flows}
use ngfwtraffic_gen.Flow.Receive.{flow_receives}
use ngfwtraffic_gen.Flow.Schedule.{IsReady, ReadyIn, get_ready_flows-IsReady}
use ngfwtraffic_gen.Flow.History.{Call, Kept, run, run_new-AllFlows}

abbrev pub NoRoom : Option TokenBucket → Type 0
NoRoom none = Unit
NoRoom (some b) = (b.burst_size ≡ 0) × (b.tokens ≡ 0)

-- A rate of 0 or of at least 10, or a bucket that can hold no token.
abbrev pub SlowHasNoRoom : FlowConfigInternal → Type 0
SlowHasNoRoom c = ((c.pps ≡ 0) ⊎ (10 ≤ c.pps)) ⊎ NoRoom c.token_bucket

visit-NoRoom :
    (now_ns bucket_ns : ℕ) (c : FlowConfigInternal)
    → SlowHasNoRoom c
    → SlowHasNoRoom (visited (visit now_ns bucket_ns c))
unfolding visit visited
visit-NoRoom now_ns bucket_ns c h = elim (Option-cases c.token_bucket) [
  | inl e ↦ ground arith
  | inr (b, e) ↦ ground (arith, try_consume_no_burst bucket_ns b 1)
]

no_room-Kept : (pf : Platform) → Kept pf SlowHasNoRoom
unfolding new_flow started stopped counted flow_receives flow_bucket Bucket.new_bucket Bucket.reset
no_room-Kept pf = record {
  at_birth = λ now_ns s config allowed built. ground arith;
  on_start = λ now_ns bucket_ns c h. ground arith;
  on_stop = λ c h. h;
  on_visit = visit-NoRoom;
  on_count = λ packets bytes c h. h;
  on_receive = λ now_ns later_ns hdr payload_len c h. ground arith;
}

ready_enough :
    (now_ns bucket_ns : ℕ) (c : FlowConfigInternal)
    → SlowHasNoRoom c
    → IsReady now_ns bucket_ns c
    → (c.pps ≡ 0) ⊎ (10 ≤ c.pps)
ready_enough now_ns bucket_ns c (inl p) r = p
ready_enough now_ns bucket_ns c (inr n) r =
    let none_given = try_consume_no_burst bucket_ns r.bucket 1 in
    ground (arith, r.has_bucket, none_given, r.token)

-- After any calls on a new scheduler, each id that `get_ready_flows` returns is that of a flow with
-- a rate of 0 or of at least ten packets per second: a flow of one to nine packets per second is
-- never among them, however long it waits.
pub slow_flow_never_ready :
    (pf : Platform) (src_mac : List ℕ) (calls : List Call) (now_ns : ℕ) (bucket_ns : ℕ → ℕ)
    (max_flows : ℕ)
    → let s = run pf (new_scheduler src_mac) calls in
      All
        (λ i. (c : FlowConfigInternal) × In (i, c) s.flows × ((c.pps ≡ 0) ⊎ (10 ≤ c.pps)))
        (get_ready_flows now_ns bucket_ns s max_flows).1
slow_flow_never_ready pf src_mac calls now_ns bucket_ns max_flows =
    let s : FlowScheduler = run pf (new_scheduler src_mac) calls in
    let slow = run_new-AllFlows pf SlowHasNoRoom (no_room-Kept pf) src_mac calls in
    All-mono (ReadyIn now_ns bucket_ns s.flows) _
      (λ i (c, m, r). (
        c,
        m,
        ready_enough now_ns (bucket_ns i) c (All_of_In (λ e. SlowHasNoRoom e.1) s.flows slow m) r,
      ))
      _ (get_ready_flows-IsReady now_ns bucket_ns s max_flows)
