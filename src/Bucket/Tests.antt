-- ===== src/Bucket/Tests.antt =====
-- Runs of token_bucket.cpp, and its theorems at concrete inputs.
use ngfwtraffic_gen.Common.{ℕ, ◌+◌, ◌-◌, ◌*◌, ◌^◌, ◌≤◌, ◌≡◌, refl, List, [], ◌∷◌, arith}
use ngfwtraffic_gen.Bucket.{TokenBucket, tokens_to_add, update_tokens, exchange, try_consume}
use ngfwtraffic_gen.Bucket.Refill.{IsValid}
use ngfwtraffic_gen.Bucket.Consume.{try_consume-min}
use ngfwtraffic_gen.Bucket.Rate.{serve, serve_window}
use ngfwtraffic_gen.Bucket.Race.{
  Shared, Reach, full, takes, here, next, exchange_one, Reach-overdrawn, Reach-balance,
}

-- 1000 packets a second, a burst of 100, at the start of second 1.
abbrev sample : TokenBucket
sample = record { rate_pps = 1000; burst_size = 100; tokens = 3; last_update_ns = 1000000000 }

-- 10 ms later ten tokens have been added, of which four are taken.
takes_four :
    try_consume 1010000000 [] sample 4
    ≡ (record sample { tokens = 9; last_update_ns = 1010000000 }, 4)
unfolding try_consume update_tokens exchange tokens_to_add
takes_four = refl

sample-IsValid : IsValid sample
sample-IsValid = omega arith

-- A rate of 2^63 with a bucket of 2^64 - 1: a second adds 2^63, and the sum wraps.
abbrev huge : TokenBucket
huge = record {
  rate_pps = 2 ^ 63;
  burst_size = 2 ^ 64 - 1;
  tokens = 2 ^ 64 - 1;
  last_update_ns = 1000000000;
}

try_consume-min_example : (try_consume 1010000000 (13 ∷ []) sample 4).1 ≡ 4
unfolding update_tokens tokens_to_add
try_consume-min_example = (try_consume-min 1010000000 (13 ∷ []) sample 4 (omega arith) (refl, tt)).0

-- The bucket that a flow of 9 packets a second gets.
abbrev roomless : TokenBucket
roomless = record { rate_pps = 9; burst_size = 0; tokens = 0; last_update_ns = 0 }

abbrev calls : List (ℕ × ℕ)
calls = (1010000000, 4) ∷ (1020000000, 50) ∷ (1500000000, 200) ∷ []

all_calls : (serve sample calls).1 ≡ 123
unfolding serve try_consume update_tokens exchange tokens_to_add
all_calls = refl

serve_window_example : (serve sample calls).1 * 1000000000 ≤ 3 * 1000000000 + 500000000 * 1000
serve_window_example = serve_window 1500000000 sample calls (omega arith) (omega arith)

quiet : Reach (full 5) (exchange_one 2 (full 5))
quiet = next here (takes 2)

Reach-balance_example : (exchange_one 2 (full 5)).tokens ≤ 5
unfolding exchange_one full
Reach-balance_example = (Reach-balance 5 quiet).0

Reach-overdrawn_example : (s : Shared) × Reach (full 5) s × (s.added ≡ 1) × (s.taken ≡ 5 + 5)
Reach-overdrawn_example = Reach-overdrawn 5 (omega arith) (omega arith)
