-- ===== src/Flow/Expiry.antt =====
-- When a flow's time is over, in flow_scheduler.cpp.
use ngfwtraffic_gen.Common.{ℕ, ◌+◌, ◌*◌, ◌^◌, ◌≤◌, ◌<◌, ◌≡◌, ◌≢◌, ◌↔◌, true, arith}
use ngfwtraffic_gen.Flow.{FlowConfigInternal, is_flow_expired_locked}

-- With a 32-bit duration and a 64-bit clock that is not before the start, a flow has expired
-- exactly when it has a duration, was started, and the duration has passed.
pub is_flow_expired_iff :
    (c : FlowConfigInternal) (now_ns : ℕ)
    → c.duration_seconds < 2 ^ 32
    → now_ns < 2 ^ 64
    → c.start_time_ns ≤ now_ns
    → (is_flow_expired_locked c now_ns ≡ true) ↔ (
        (c.duration_seconds ≢ 0)
        × (c.start_time_ns ≢ 0)
        × (c.start_time_ns + c.duration_seconds * 1000000000 ≤ now_ns))
unfolding is_flow_expired_locked
is_flow_expired_iff c now_ns d n h = ground arith
