-- ===== src/Bucket/Race.antt =====
-- token_bucket.cpp under several threads. `update_tokens` holds the mutex, but it reads `tokens_` and
-- writes it back in two steps, and the compare-exchange of `try_consume` takes no lock.
use ngfwtraffic_gen.Common.{
  ℕ, ◌+◌, ◌-◌, ◌≤◌, ◌<◌, ◌≡◌, ◌≢◌, refl, Option, none, some, min, arith, u64, ◌^◌,
}
use ngfwtraffic_gen.Bucket.{TokenBucket, tokens_to_add, update_tokens}

-- `loaded` is what the thread in `update_tokens` has read and not yet written back. The last three
-- only count: tokens given out, tokens added, and tokens given out while `loaded` was pending.
pub record Shared : Type 0 where
  pub tokens : ℕ
  pub burst_size : ℕ
  pub loaded : Option ℕ
  pub taken : ℕ
  pub added : ℕ
  pub raced : ℕ

unfoldable pub full : ℕ → Shared
full burst = record {
  tokens = burst;
  burst_size = burst;
  loaded = none;
  taken = 0;
  added = 0;
  raced = 0;
}

-- `tokens_.load` of `update_tokens`.
pub load : Shared → Shared
load s = record s { loaded = some s.tokens }

-- `std::min(current_tokens + tokens_to_add, burst)` and `tokens_.store`.
pub store : ℕ → ℕ → Shared → Shared
store current add s = record s {
  tokens = min (u64 (current + add)) s.burst_size;
  loaded = none;
  added = s.added + add;
}

abbrev pending : Option ℕ → ℕ → ℕ
pending none n = 0
pending (some _) n = n

-- A compare-exchange of `try_consume` that succeeds.
unfoldable pub exchange_one : ℕ → Shared → Shared
exchange_one requested s =
    let consumed = min requested s.tokens in
    record s {
      tokens = s.tokens - consumed;
      taken = s.taken + consumed;
      raced = s.raced + pending s.loaded consumed;
    }

-- Taken together the two steps are the refill of `update_tokens`.
refill_lem :
    (now_ns : ℕ) (b : TokenBucket) (s : Shared)
    → s.tokens ≡ b.tokens
    → s.burst_size ≡ b.burst_size
    → b.last_update_ns < now_ns
    → b.rate_pps ≢ 0
    → 0 < tokens_to_add (now_ns - b.last_update_ns) b.rate_pps
    → (store s.tokens (tokens_to_add (now_ns - b.last_update_ns) b.rate_pps) (load s)).tokens
      ≡ (update_tokens now_ns b).tokens
unfolding store load update_tokens
refill_lem now_ns b s t u h r p = ground arith

-- One atomic step of some thread. The mutex keeps a second thread out of `update_tokens`.
pub data Step (s : Shared) : Shared → Type 0 where
  loads : s.loaded ≡ none → Step s (load s)
  stores : (current add : ℕ) → s.loaded ≡ some current → 0 < add → Step s (store current add s)
  takes : (requested : ℕ) → Step s (exchange_one requested s)

pub data Reach (s : Shared) : Shared → Type 0 where
  here : Reach s s
  next : {t u : Shared} → Reach s t → Step t u → Reach s u

abbrev in_hand : Option ℕ → Shared → ℕ
in_hand none s = s.tokens
in_hand (some current) s = current

record Inv (initial : ℕ) (s : Shared) : Type 0 where
  not_overfull : s.tokens ≤ s.burst_size
  balance : s.taken + s.tokens ≤ initial + s.added + s.raced
  balance_loaded : s.taken + in_hand s.loaded s ≤ initial + s.added + s.raced

Step-Inv : {initial : ℕ} {s t : Shared} → Step s t → Inv initial s → Inv initial t
unfolding load store exchange_one
Step-Inv (loads h) v = ground arith
Step-Inv (stores current add h p) v = ground arith
Step-Inv (takes requested) v = ground arith

Reach-Inv : {initial : ℕ} {s t : Shared} → Inv initial s → Reach s t → Inv initial t
Reach-Inv v here = v
Reach-Inv v (next r st) = Step-Inv st (Reach-Inv v r)

-- However one refill at a time and the takers interleave from a full bucket, the bucket is never
-- overfull, and what was given out and what is left are at most the start, what was added, and what
-- was given out between the two steps of a refill.
pub Reach-balance :
    (burst : ℕ) {s : Shared}
    → Reach (full burst) s
    → (s.tokens ≤ s.burst_size) × (s.taken + s.tokens ≤ burst + s.added + s.raced)
unfolding full
Reach-balance burst r =
    let v = Reach-Inv {initial = burst} (ground arith) r in (v.not_overfull, v.balance)

-- So the limit holds where no token is given out between the two steps of a refill.
pub Reach-limit :
    (burst : ℕ) {s : Shared}
    → Reach (full burst) s
    → s.raced ≡ 0
    → s.taken + s.tokens ≤ burst + s.added
Reach-limit burst r h = omega (arith, Reach-balance burst r)

overdrawn : ℕ → Shared
overdrawn burst = exchange_one burst (store burst 1 (exchange_one burst (load (full burst))))

-- From a full bucket of any size above 1 whose size and 1 add up to less than 2^64, a refill that
-- takers interrupt can give out the burst twice, though one token only was added.
pub Reach-overdrawn :
    (burst : ℕ)
    → 1 < burst
    → burst + 1 < 2 ^ 64
    → (s : Shared) × Reach (full burst) s × (s.added ≡ 1) × (s.taken ≡ burst + burst)
unfolding overdrawn load store exchange_one full
Reach-overdrawn burst h fits = (
  overdrawn burst,
  next (next (next (next here (loads refl)) (takes burst)) (stores burst 1 refl (omega arith)))
      (takes burst),
  refl,
  ground arith,
)
