-- ===== src/Flow/Schedule.antt =====
-- What `get_ready_flows` of flow_scheduler.cpp returns, and what it does to the flows.
use ngfwtraffic_gen.Common.{
  ℕ, zero, suc, max, ◌+◌, ◌≤◌, ◌<◌, ◌≡◌, refl, ◌⊎◌, inl, inr, Bool, true, false, some, List, [],
  ◌∷◌, length, All, All-mono, In, leb, arith, Bool-cases, Option-cases,
}
use ngfwtraffic_gen.Bucket
use ngfwtraffic_gen.Bucket.{TokenBucket}
use ngfwtraffic_gen.Flow.{FlowConfigInternal, FlowScheduler, is_flow_expired_locked}
use ngfwtraffic_gen.Flow.Ready.{
  Visit, skipped, tried, visit, visited, gives, ends_loop, count_if, push_if, ready_from,
  get_ready_flows,
}

quiet :
    (max_flows count : ℕ) (v : Visit)
    → (ends_loop max_flows v count ≡ leb max_flows count)
      ⊎ (gives v ≡ false) × (ends_loop max_flows v count ≡ false)
unfolding ends_loop gives
quiet max_flows count (skipped c) = inr (refl, refl)
quiet max_flows count (tried c got) = inl refl

length-ready_from :
    (now_ns : ℕ) (bucket_ns : ℕ → ℕ) (max_flows count : ℕ) (flows : List (ℕ × FlowConfigInternal))
    → count < max_flows
    → length (ready_from now_ns bucket_ns max_flows count flows).1 + count ≤ max_flows
unfolding ready_from
length-ready_from now_ns bucket_ns max_flows count [] h = omega arith
length-ready_from now_ns bucket_ns max_flows count ((flow_id, c) ∷ flows) h = ground (
  arith,
  quiet max_flows (count_if (gives (visit now_ns (bucket_ns flow_id) c)) count)
      (visit now_ns (bucket_ns flow_id) c),
  length-ready_from now_ns bucket_ns max_flows
      (count_if (gives (visit now_ns (bucket_ns flow_id) c)) count) flows,
)

ready_any :
    (now_ns : ℕ) (bucket_ns : ℕ → ℕ) (count : ℕ) (flows : List (ℕ × FlowConfigInternal))
    → length (ready_from now_ns bucket_ns 0 count flows).1 ≤ 1
unfolding ready_from
ready_any now_ns bucket_ns count [] = omega arith
ready_any now_ns bucket_ns count ((flow_id, c) ∷ flows) = ground (
  arith,
  quiet 0 (count_if (gives (visit now_ns (bucket_ns flow_id) c)) count)
      (visit now_ns (bucket_ns flow_id) c),
  ready_any now_ns bucket_ns (count_if (gives (visit now_ns (bucket_ns flow_id) c)) count) flows,
)

-- `get_ready_flows` returns no more flows than were asked for; where none was asked for, at most
-- one.
pub length-get_ready_flows :
    (now_ns : ℕ) (bucket_ns : ℕ → ℕ) (s : FlowScheduler) (max_flows : ℕ)
    → length (get_ready_flows now_ns bucket_ns s max_flows).1 ≤ max max_flows 1
unfolding get_ready_flows
length-get_ready_flows now_ns bucket_ns s zero = ready_any now_ns bucket_ns 0 s.flows
length-get_ready_flows now_ns bucket_ns s (suc n) =
    omega (arith, length-ready_from now_ns bucket_ns (suc n) 0 s.flows (omega arith))

-- A flow that may send: it is active, its time is not over, and its bucket gives a token.
pub record IsReady (now_ns bucket_ns : ℕ) (c : FlowConfigInternal) : Type 0 where
  pub active : c.active ≡ true
  pub not_expired : is_flow_expired_locked c now_ns ≡ false
  pub bucket : TokenBucket
  pub has_bucket : c.token_bucket ≡ some bucket
  pub token : 0 < (Bucket.try_consume bucket_ns [] bucket 1).1

gives-IsReady :
    (now_ns bucket_ns : ℕ) (c : FlowConfigInternal)
    → gives (visit now_ns bucket_ns c) ≡ true
    → IsReady now_ns bucket_ns c
unfolding gives visit
gives-IsReady now_ns bucket_ns c h = elim (Option-cases c.token_bucket) [
  | inl e ↦ absurd (ground arith)
  | inr (b, e) ↦ record {
    active = ground arith;
    not_expired = ground arith;
    bucket = b;
    has_bucket = e;
    token = ground arith;
  }
]

abbrev pub ReadyIn : ℕ → (ℕ → ℕ) → List (ℕ × FlowConfigInternal) → ℕ → Type 0
ReadyIn now_ns bucket_ns flows i =
    (c : FlowConfigInternal) × In (i, c) flows × IsReady now_ns (bucket_ns i) c

All-push_if :
    {A : Type 0} (P : A → Type 0) (b : Bool) (a : A) (xs : List A)
    → (b ≡ true → P a)
    → All P xs
    → All P (push_if b a xs)
All-push_if P true a xs p h = (p refl, h)
All-push_if P false a xs p h = h

ready_from-ReadyIn :
    (now_ns : ℕ) (bucket_ns : ℕ → ℕ) (max_flows count : ℕ) (flows : List (ℕ × FlowConfigInternal))
    → All (ReadyIn now_ns bucket_ns flows) (ready_from now_ns bucket_ns max_flows count flows).1
unfolding ready_from
ready_from-ReadyIn now_ns bucket_ns max_flows count [] = tt
ready_from-ReadyIn now_ns bucket_ns max_flows count ((flow_id, c) ∷ flows) =
    elim (Bool-cases (ends_loop max_flows v count')) [
      | inl stop ↦ rw stop (All-push_if P (gives v) flow_id [] head tt)
      | inr go ↦ rw go (
          All-push_if P (gives v) flow_id _ head (
            All-mono (ReadyIn now_ns bucket_ns flows) P later _
              (ready_from-ReadyIn now_ns bucket_ns max_flows count' flows)))
    ]
  where
    v : Visit
    v = visit now_ns (bucket_ns flow_id) c

    count' : ℕ
    count' = count_if (gives v) count

    P : ℕ → Type 0
    P = ReadyIn now_ns bucket_ns ((flow_id, c) ∷ flows)

    head : gives v ≡ true → P flow_id
    head h = (c, inl refl, gives-IsReady now_ns (bucket_ns flow_id) c h)

    later : (i : ℕ) → ReadyIn now_ns bucket_ns flows i → P i
    later i (d, m, r) = (d, inr m, r)

-- Every id that `get_ready_flows` returns is that of a flow of the scheduler that is active, whose
-- time is not over, and whose bucket gives a token when it is asked for one.
pub get_ready_flows-IsReady :
    (now_ns : ℕ) (bucket_ns : ℕ → ℕ) (s : FlowScheduler) (max_flows : ℕ)
    → All (ReadyIn now_ns bucket_ns s.flows) (get_ready_flows now_ns bucket_ns s max_flows).1
unfolding get_ready_flows
get_ready_flows-IsReady now_ns bucket_ns s max_flows =
    ready_from-ReadyIn now_ns bucket_ns max_flows 0 s.flows

-- What the loop leaves in place of each flow.
pub All-ready_from :
    (P : ℕ × FlowConfigInternal → Type 0) (now_ns : ℕ) (bucket_ns : ℕ → ℕ) (max_flows count : ℕ)
    (flows : List (ℕ × FlowConfigInternal))
    → ((i : ℕ) (c : FlowConfigInternal) → P (i, c) → P (i, visited (visit now_ns (bucket_ns i) c)))
    → All P flows
    → All P (ready_from now_ns bucket_ns max_flows count flows).0
unfolding ready_from
All-ready_from P now_ns bucket_ns max_flows count [] step h = tt
All-ready_from P now_ns bucket_ns max_flows count ((flow_id, c) ∷ flows) step h =
    elim (Bool-cases (ends_loop max_flows (visit now_ns (bucket_ns flow_id) c) count')) [
      | inl stop ↦ rw stop (step flow_id c h.0, h.1)
      | inr go ↦
          rw go
            (step flow_id c h.0, All-ready_from P now_ns bucket_ns max_flows count' flows step h.1)
    ]
  where
    count' : ℕ
    count' = count_if (gives (visit now_ns (bucket_ns flow_id) c)) count
