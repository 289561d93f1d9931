-- ===== src/Bucket/Rate.antt =====
-- The rate limit that token_bucket.cpp promises, over any history of calls.
use ngfwtraffic_gen.Common.{ℕ, ◌+◌, ◌-◌, ◌*◌, ◌≤◌, ◌≡◌, refl, List, [], ◌∷◌, All, arith, ◌∙◌}
use ngfwtraffic_gen.Bucket.{TokenBucket, tokens_to_add, update_tokens, exchange, try_consume}
use ngfwtraffic_gen.Bucket.Refill.{tokens_to_add_le, update_tokens_time}

-- Calls with their times and requests, one after another; the result is what all of them got.
unfoldable pub serve : TokenBucket → List (ℕ × ℕ) → TokenBucket × ℕ
serve b [] = (b, 0)
serve b ((now_ns, requested) ∷ calls) =
    let (b', n) = try_consume now_ns [] b requested in let (b'', m) = serve b' calls in (b'', n + m)

split_time : (r last now : ℕ) → last ≤ now → (now - last) * r + last * r ≡ now * r
split_time r last now h = grind arith

added_le :
    (r last now : ℕ) → last ≤ now → tokens_to_add (now - last) r * 1000000000 + last * r ≤ now * r
added_le r last now h = omega (arith, split_time r last now h, tokens_to_add_le (now - last) r)

-- Tokens, priced at 10^9, and the rate at the time of the last refill: a refill does not gain.
refill_pays :
    (now_ns : ℕ) (b : TokenBucket)
    → (update_tokens now_ns b).tokens * 1000000000 + b.last_update_ns * b.rate_pps
      ≤ b.tokens * 1000000000 + (update_tokens now_ns b).last_update_ns * b.rate_pps
unfolding update_tokens
refill_pays now_ns b = ground (arith, added_le b.rate_pps b.last_update_ns now_ns)

consume_pays :
    (now_ns requested : ℕ) (b : TokenBucket)
    → let (b', n) = try_consume now_ns [] b requested in
      (n * 1000000000 + b'.tokens * 1000000000 + b.last_update_ns * b.rate_pps
        ≤ b.tokens * 1000000000 + b'.last_update_ns * b.rate_pps)
      × (b'.rate_pps ≡ b.rate_pps)
unfolding try_consume exchange
consume_pays now_ns requested b = ground (arith, refill_pays now_ns b, update_tokens_time now_ns b)

-- What a history of calls takes in all is at most what the bucket held and what its rate earned up
-- to the last refill: 10^9 tokens taken cost one token held or 10^9 / rate nanoseconds passed.
pub serve-le-earned :
    (b : TokenBucket) (calls : List (ℕ × ℕ))
    → let (b', n) = serve b calls in
      n * 1000000000 + b'.tokens * 1000000000 + b.last_update_ns * b.rate_pps
      ≤ b.tokens * 1000000000 + b'.last_update_ns * b.rate_pps
unfolding serve
serve-le-earned b [] = omega arith
serve-le-earned b ((now_ns, requested) ∷ calls) = ground (
  arith,
  consume_pays now_ns requested b,
  serve-le-earned (try_consume now_ns [] b requested).0 calls,
)

step_rate :
    (now_ns requested : ℕ) (b : TokenBucket)
    → (try_consume now_ns [] b requested).0.rate_pps ≡ b.rate_pps
unfolding try_consume update_tokens exchange
step_rate now_ns requested b = ground arith

last_le :
    (t now_ns requested : ℕ) (b : TokenBucket)
    → b.last_update_ns ≤ t
    → now_ns ≤ t
    → (try_consume now_ns [] b requested).0.last_update_ns ≤ t
unfolding try_consume update_tokens exchange
last_le t now_ns requested b h k = ground arith

mul_mono : (r a b : ℕ) → a ≤ b → a * r ≤ b * r
mul_mono r a b h = grind arith

serve_time :
    (t : ℕ) (b : TokenBucket) (calls : List (ℕ × ℕ))
    → b.last_update_ns ≤ t
    → All (λ c. c.0 ≤ t) calls
    → ((serve b calls).0.last_update_ns ≤ t) × ((serve b calls).0.rate_pps ≡ b.rate_pps)
unfolding serve
serve_time t b [] h a = (h, refl)
serve_time t b ((now_ns, requested) ∷ calls) h a =
    let (l, r) =
      serve_time t (try_consume now_ns [] b requested).0 calls (last_le t now_ns requested b h a.0)
        a.1 in
    (l, r ∙ step_rate now_ns requested b)

-- In a window that starts at the bucket's last refill and ends at time `t`, calls at any times up
-- to `t`, in any order, get together at most what the bucket held and the rate times the length of
-- the window.
pub serve_window :
    (t : ℕ) (b : TokenBucket) (calls : List (ℕ × ℕ))
    → b.last_update_ns ≤ t
    → All (λ c. c.0 ≤ t) calls
    → (serve b calls).1 * 1000000000 ≤ b.tokens * 1000000000 + (t - b.last_update_ns) * b.rate_pps
serve_window t b calls h a =
    let (l, r) = serve_time t b calls h a in
    omega (
      arith,
      serve-le-earned b calls,
      mul_mono b.rate_pps _ _ l,
      split_time b.rate_pps b.last_update_ns t h,
    )
