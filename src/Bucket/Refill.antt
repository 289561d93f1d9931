-- ===== src/Bucket/Refill.antt =====
-- `update_tokens` of token_bucket.cpp and the setters: bounds, and the ideal refill.
use ngfwtraffic_gen.Common.{ℕ, ◌+◌, ◌-◌, ◌*◌, ◌/◌, ◌^◌, ◌≤◌, ◌<◌, ◌≡◌, min, arith}
use ngfwtraffic_gen.Bucket.{
  TokenBucket, new_bucket, set_rate, set_burst_size, reset, tokens_to_add, update_tokens,
}

-- The words fit, and the bucket is not overfull.
pub record IsValid (b : TokenBucket) : Type 0 where
  pub not_overfull : b.tokens ≤ b.burst_size
  pub burst_fits : b.burst_size < 2 ^ 64
  pub rate_fits : b.rate_pps < 2 ^ 64
  pub time_fits : b.last_update_ns < 2 ^ 64

pub new_bucket-IsValid :
    (now_ns rate burst : ℕ)
    → now_ns < 2 ^ 64
    → rate < 2 ^ 64
    → burst < 2 ^ 64
    → IsValid (new_bucket now_ns rate burst)
unfolding new_bucket
new_bucket-IsValid now_ns rate burst h k l = ground arith

pub update_tokens-IsValid :
    (now_ns : ℕ) (b : TokenBucket) → now_ns < 2 ^ 64 → IsValid b → IsValid (update_tokens now_ns b)
unfolding update_tokens
update_tokens-IsValid now_ns b h v = ground arith

-- The setters and `reset` keep the bucket valid too.
pub setters-IsValid :
    (b : TokenBucket) (now_ns n : ℕ)
    → now_ns < 2 ^ 64
    → n < 2 ^ 64
    → IsValid b
    → IsValid (set_rate b n) × IsValid (set_burst_size b n) × IsValid (reset now_ns b)
unfolding set_rate set_burst_size reset
setters-IsValid b now_ns n h k v = ground arith

pub tokens_to_add_le : (elapsed rate : ℕ) → tokens_to_add elapsed rate ≤ elapsed * rate / 1000000000
unfolding tokens_to_add
tokens_to_add_le elapsed rate = omega arith

tokens_to_add_exact :
    (elapsed rate : ℕ)
    → elapsed * rate / 1000000000 < 2 ^ 64
    → tokens_to_add elapsed rate ≡ elapsed * rate / 1000000000
unfolding tokens_to_add
tokens_to_add_exact elapsed rate h = omega arith

-- The tokens that time `now_ns` should find: what was there and the rate times the time since the
-- last refill, cut off at the burst size.
unfoldable pub earned : ℕ → TokenBucket → ℕ
earned now_ns b = (now_ns - b.last_update_ns) * b.rate_pps / 1000000000

earned-zero : (now_ns : ℕ) (b : TokenBucket) → now_ns ≤ b.last_update_ns → earned now_ns b ≡ 0
unfolding earned
earned-zero now_ns b h = let e : now_ns - b.last_update_ns ≡ 0 = omega arith in rw e (grind arith)

earned-no_rate : (now_ns : ℕ) (b : TokenBucket) → b.rate_pps ≡ 0 → earned now_ns b ≡ 0
unfolding earned
earned-no_rate now_ns b h = grind arith

added-earned :
    (now_ns : ℕ) (b : TokenBucket)
    → earned now_ns b < 2 ^ 64
    → tokens_to_add (now_ns - b.last_update_ns) b.rate_pps ≡ earned now_ns b
unfolding earned
added-earned now_ns b h = tokens_to_add_exact (now_ns - b.last_update_ns) b.rate_pps h

-- Where the bucket is not overfull, and its tokens and those that the rate has earned since the
-- last refill add up to less than 2^64, a refill leaves that sum, capped at the burst size, on
-- every branch.
pub update_tokens-earned :
    (now_ns : ℕ) (b : TokenBucket)
    → b.tokens ≤ b.burst_size
    → b.tokens + earned now_ns b < 2 ^ 64
    → (update_tokens now_ns b).tokens ≡ min (b.tokens + earned now_ns b) b.burst_size
unfolding update_tokens
update_tokens-earned now_ns b v h =
    ground (arith, earned-zero now_ns b, earned-no_rate now_ns b, added-earned now_ns b)

-- Where the tokens and those earned are each below 2^64 and their sum is not, the sum wraps, and
-- the refill leaves fewer tokens than there were.
pub update_tokens_wraps :
    (now_ns : ℕ) (b : TokenBucket)
    → b.tokens < 2 ^ 64
    → earned now_ns b < 2 ^ 64
    → 2 ^ 64 ≤ b.tokens + earned now_ns b
    → (update_tokens now_ns b).tokens < b.tokens
unfolding update_tokens
update_tokens_wraps now_ns b t e h =
    ground (arith, earned-zero now_ns b, earned-no_rate now_ns b, added-earned now_ns b)

-- A refill never lets time go backwards, and never passes the clock.
pub update_tokens_time :
    (now_ns : ℕ) (b : TokenBucket)
    → (b.last_update_ns ≤ (update_tokens now_ns b).last_update_ns)
      × ((update_tokens now_ns b).rate_pps ≡ b.rate_pps)
      × ((update_tokens now_ns b).burst_size ≡ b.burst_size)
unfolding update_tokens
update_tokens_time now_ns b = ground arith
