-- ===== src/Bucket/Consume.antt =====
-- `try_consume` of token_bucket.cpp: the compare-exchange loop, and what a caller gets.
use ngfwtraffic_gen.Common.{
  ℕ, ◌+◌, ◌-◌, ◌^◌, ◌≤◌, ◌<◌, ◌≡◌, refl, List, [], ◌∷◌, All, min, arith, ◌==◌, if◌then◌else◌,
}
use ngfwtraffic_gen.Bucket.{TokenBucket, update_tokens, exchange, try_consume}
use ngfwtraffic_gen.Bucket.Refill.{IsValid, earned, update_tokens-IsValid, update_tokens-earned}

-- The value that the loop last sees in `tokens_`.
abbrev pub last_seen : ℕ → List ℕ → ℕ
last_seen current [] = current
last_seen current (t ∷ seen) = let rest = last_seen t seen in if t == 0 then 0 else rest

-- However often the exchange fails, the loop takes the smaller of the request and what it last saw:
-- what it takes and what it leaves add up to that.
pub exchange-last_seen :
    (requested current : ℕ) (seen : List ℕ)
    → exchange requested current seen ≡ (
      last_seen current seen - min requested (last_seen current seen),
      min requested (last_seen current seen),
    )
unfolding exchange
exchange-last_seen requested current [] = refl
exchange-last_seen requested current (t ∷ seen) =
    ground (arith, exchange-last_seen requested t seen)

-- Failures for no reason change nothing.
last_seen_same :
    (current : ℕ) (seen : List ℕ) → All (λ t. t ≡ current) seen → last_seen current seen ≡ current
last_seen_same current [] h = refl
last_seen_same current (t ∷ seen) h = ground (arith, last_seen_same current seen h.1)

-- Where every failed exchange of a call brings back the number that was expected, as it does under
-- a lock, a call for fewer than 2^32 tokens takes the smaller of the request and the refilled
-- tokens and leaves the difference: no token is lost or made, and the cast to 32 bits loses
-- nothing.
pub try_consume-min :
    (now_ns : ℕ) (seen : List ℕ) (b : TokenBucket) (requested : ℕ)
    → requested < 2 ^ 32
    → All (λ t. t ≡ (update_tokens now_ns b).tokens) seen
    → ((try_consume now_ns seen b requested).1 ≡ min requested (update_tokens now_ns b).tokens)
      × ((try_consume now_ns seen b requested).0 ≡ record (update_tokens now_ns b) {
        tokens = (update_tokens now_ns b).tokens - min requested (update_tokens now_ns b).tokens;
      })
unfolding try_consume
try_consume-min now_ns seen b requested h same =
    rw (exchange-last_seen, last_seen_same _ seen same) (ground arith)

-- Whatever other threads do between the exchanges, a call takes no more than was asked for.
pub try_consume-le :
    (now_ns : ℕ) (seen : List ℕ) (b : TokenBucket) (requested : ℕ)
    → (try_consume now_ns seen b requested).1 ≤ requested
unfolding try_consume
try_consume-le now_ns seen b requested =
    ground (arith, exchange-last_seen requested (update_tokens now_ns b).tokens seen)

-- A call at a 64-bit time whose first exchange succeeds keeps a bucket valid: no more tokens than
-- the burst size, and every field within 64 bits.
pub try_consume-IsValid :
    (now_ns : ℕ) (b : TokenBucket) (requested : ℕ)
    → now_ns < 2 ^ 64
    → IsValid b
    → IsValid (try_consume now_ns [] b requested).0
unfolding try_consume exchange
try_consume-IsValid now_ns b requested h v = ground (arith, update_tokens-IsValid now_ns b h v)

-- A bucket that can hold a token gives one as soon as the rate has earned one.
pub try_consume_one :
    (now_ns : ℕ) (b : TokenBucket)
    → b.tokens ≤ b.burst_size
    → 0 < b.burst_size
    → 0 < earned now_ns b
    → b.tokens + earned now_ns b < 2 ^ 64
    → (try_consume now_ns [] b 1).1 ≡ 1
unfolding try_consume exchange
try_consume_one now_ns b v full e fits = ground (arith, update_tokens-earned now_ns b v fits)

-- A bucket with no room never gives a token, at whatever rate and however long the wait.
pub try_consume_no_burst :
    (now_ns : ℕ) (b : TokenBucket) (requested : ℕ)
    → b.burst_size ≡ 0
    → b.tokens ≡ 0
    → ((try_consume now_ns [] b requested).1 ≡ 0)
      × ((try_consume now_ns [] b requested).0.tokens ≡ 0)
      × ((try_consume now_ns [] b requested).0.burst_size ≡ 0)
unfolding try_consume exchange update_tokens
try_consume_no_burst now_ns b requested h k = ground arith
