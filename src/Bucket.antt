-- ===== src/Bucket.antt =====
-- core/scheduler/token_bucket.hpp and token_bucket.cpp: the token bucket of a flow.
-- The atomics are fields; what the clock shows is an argument; words wrap as written.
pub mod Refill
pub mod Consume
pub mod Rate
pub mod Race
mod Tests
use ngfwtraffic_gen.Common.{
  ℕ, ◌+◌, ◌-◌, ◌*◌, ◌/◌, ◌%◌, ◌^◌, List, [], ◌∷◌, min, ltb, leb, ◌==◌, if◌then◌else◌, u32, u64,
  u128,
}

pub record TokenBucket : Type 0 where
  pub rate_pps : ℕ
  pub burst_size : ℕ
  pub tokens : ℕ
  pub last_update_ns : ℕ

-- The constructor: the bucket starts full.
unfoldable pub new_bucket : ℕ → ℕ → ℕ → TokenBucket
new_bucket now_ns rate_pps burst_size = record {
  rate_pps = rate_pps;
  burst_size = burst_size;
  tokens = burst_size;
  last_update_ns = now_ns;
}

unfoldable pub set_rate : TokenBucket → ℕ → TokenBucket
set_rate b rate_pps = record b { rate_pps = rate_pps }

unfoldable pub set_burst_size : TokenBucket → ℕ → TokenBucket
set_burst_size b burst_size =
    let b1 = record b { burst_size = burst_size } in
    if ltb burst_size b1.tokens then record b1 { tokens = burst_size } else b1

unfoldable pub get_rate : TokenBucket → ℕ
get_rate b = b.rate_pps

unfoldable pub get_burst_size : TokenBucket → ℕ
get_burst_size b = b.burst_size

unfoldable pub reset : ℕ → TokenBucket → TokenBucket
reset now_ns b = record b { tokens = b.burst_size; last_update_ns = now_ns }

-- `elapsed_ns * rate` in 128 bits, divided by 10^9, cast to 64 bits.
unfoldable pub tokens_to_add : ℕ → ℕ → ℕ
tokens_to_add elapsed_ns rate = u64 (u128 (elapsed_ns * rate) / 1000000000)

-- The difference is taken where `last_update_ns < now_ns` only, so truncated `-` is exact.
unfoldable pub update_tokens : ℕ → TokenBucket → TokenBucket
update_tokens now_ns b =
    if leb now_ns b.last_update_ns
    then b
    else if b.rate_pps == 0
    then record b { last_update_ns = now_ns }
    else let add = tokens_to_add (now_ns - b.last_update_ns) b.rate_pps in
      if ltb 0 add
      then record b { tokens = min (u64 (b.tokens + add)) b.burst_size; last_update_ns = now_ns }
      else b

-- The compare-exchange loop. `seen` are the values that failed exchanges bring back, one for each
-- failure: what other threads left, or the expected value itself where the weak form failed for no
-- reason. After the last the exchange succeeds. The result is what `tokens_` holds, and `consumed`.
unfoldable pub exchange : ℕ → ℕ → List ℕ → ℕ × ℕ
exchange requested current [] = (current - min requested current, min requested current)
exchange requested current (t ∷ seen) =
    let rest = exchange requested t seen in if t == 0 then (0, 0) else rest

unfoldable pub try_consume : ℕ → List ℕ → TokenBucket → ℕ → TokenBucket × ℕ
try_consume now_ns seen b requested =
    let b1 = update_tokens now_ns b in
    if b1.tokens == 0
    then (b1, 0)
    else let (left, consumed) = exchange requested b1.tokens seen in
      (record b1 { tokens = left }, u32 consumed)
