-- ===== src/Flow/Ready.antt =====
-- `get_ready_flows` of flow_scheduler.cpp.
use ngfwtraffic_gen.Common.{
  ℕ, ◌+◌, Bool, true, false, not, Option, none, some, List, [], ◌∷◌, ltb, leb, if◌then◌else◌,
}
use ngfwtraffic_gen.Bucket
use ngfwtraffic_gen.Bucket.{TokenBucket}
use ngfwtraffic_gen.Flow.{FlowConfigInternal, FlowScheduler, is_flow_expired_locked}

take_token : ℕ → Option TokenBucket → Option TokenBucket × ℕ
take_token bucket_ns none = (none, 0)
take_token bucket_ns (some b) =
    let (b', got) = Bucket.try_consume bucket_ns [] b 1 in (some b', got)

-- What one round of the loop makes of a flow: passed over by a `continue`, or tried, with the number
-- of tokens that its bucket gave.
pub data Visit : Type 0 where
  skipped : FlowConfigInternal → Visit
  tried : FlowConfigInternal → ℕ → Visit

unfoldable pub visit : ℕ → ℕ → FlowConfigInternal → Visit
unfolding take_token
visit now_ns bucket_ns c =
    if not c.active
    then skipped c
    else if is_flow_expired_locked c now_ns
    then skipped (record c { active = false })
    else let (bucket, got) = take_token bucket_ns c.token_bucket in
      tried (record c { token_bucket = bucket }) got

unfoldable pub visited : Visit → FlowConfigInternal
visited (skipped c) = c
visited (tried c got) = c

unfoldable pub gives : Visit → Bool
gives (skipped c) = false
gives (tried c got) = ltb 0 got

abbrev pub count_if : Bool → ℕ → ℕ
count_if true n = n + 1
count_if false n = n

abbrev pub push_if {ℓ} : {A : Type ℓ} → Bool → A → List A → List A
push_if true a xs = a ∷ xs
push_if false a xs = xs

-- The test that ends a round, which a `continue` passes over.
unfoldable pub ends_loop : ℕ → Visit → ℕ → Bool
ends_loop max_flows (skipped c) count = false
ends_loop max_flows (tried c got) count = leb max_flows count

-- The loop, with `count` flows ready so far: the flows as it leaves them, and the ids that it adds.
-- `bucket_ns` is what the clock shows when a flow's bucket reads it; the scheduler's lock keeps others
-- out of the buckets, so no exchange fails for another thread's sake.
unfoldable pub ready_from :
    ℕ → (ℕ → ℕ) → ℕ → ℕ → List (ℕ × FlowConfigInternal) → List (ℕ × FlowConfigInternal) × List ℕ
ready_from now_ns bucket_ns max_flows count [] = ([], [])
ready_from now_ns bucket_ns max_flows count ((flow_id, c) ∷ flows) =
    let v = visit now_ns (bucket_ns flow_id) c in
    let count' = count_if (gives v) count in
    let rest = ready_from now_ns bucket_ns max_flows count' flows in
    if ends_loop max_flows v count'
    then ((flow_id, visited v) ∷ flows, push_if (gives v) flow_id [])
    else ((flow_id, visited v) ∷ rest.0, push_if (gives v) flow_id rest.1)

unfoldable pub get_ready_flows : ℕ → (ℕ → ℕ) → FlowScheduler → ℕ → FlowScheduler × List ℕ
get_ready_flows now_ns bucket_ns s max_flows =
    let (flows, ready) = ready_from now_ns bucket_ns max_flows 0 s.flows in
    (record s { flows = flows }, ready)
