-- ===== src/Metrics/Histogram.antt =====
-- The latency histogram of metrics_collector.cpp: where a sample is counted.
use ngfwtraffic_gen.Common.{
  ℕ, zero, suc, ◌+◌, ◌*◌, ◌^◌, ◌≤◌, ◌<◌, ◌≡◌, refl, ◌⊎◌, inl, inr, false, some, List, [], ◌∷◌,
  length, modify, get_elem?, get_elem?-modify_self, get_elem?-modify_ne, get_elem?_lt, All, leb,
  arith, u64, Bool-cases,
}
use ngfwtraffic_gen.Common.Double.{Double}
use ngfwtraffic_gen.Metrics.{MetricsCollector, num_latency_buckets}
use ngfwtraffic_gen.Metrics.Latency.{
  LatencyBucketInfo, bucket_bounds_us, bucket_index, to_us, record_latency, or_zero, histogram_from,
  get_latency_histogram,
}

-- What is relied on of `double`: dividing a 64-bit number of nanoseconds by 1000 rounds, but not across
-- a whole number of microseconds up to 50000.
pub record Compares (d : Double) : Type 0 where
  pub compares :
      (b n : ℕ) → b ≤ 50000 → n < 2 ^ 64 → d.le (d.of_u64 b) (to_us d n) ≡ leb (1000 * b) n

abbrev pub hit : LatencyBucketInfo → LatencyBucketInfo
hit info = record info { count = u64 (info.count + 1) }

abbrev pub bump : ℕ → ℕ
bump n = u64 (n + 1)

histogram-modify_before :
    (buckets : List ℕ) (i j prev : ℕ) (bounds : List ℕ)
    → i < j
    → histogram_from (modify buckets i bump) j prev bounds ≡ histogram_from buckets j prev bounds
unfolding histogram_from
histogram-modify_before buckets i j prev [] h =
    rw (get_elem?-modify_ne buckets i j bump (omega arith))
histogram-modify_before buckets i j prev (b ∷ bounds) h = rw (
  get_elem?-modify_ne buckets i j bump (omega arith),
  histogram-modify_before buckets i (suc j) b bounds (omega arith),
)

bump_at :
    (buckets : List ℕ) (j : ℕ)
    → j < length buckets
    → or_zero (get_elem? (modify buckets j bump) j) ≡ bump (or_zero (get_elem? buckets j))
bump_at buckets j h =
    let (n, e) = get_elem?_lt buckets j h in rw (get_elem?-modify_self buckets j bump e, e)

histogram-modify :
    (buckets : List ℕ) (i j k prev : ℕ) (bounds : List ℕ)
    → i ≡ j + k
    → j + length bounds < length buckets
    → k ≤ length bounds
    → histogram_from (modify buckets i bump) j prev bounds
      ≡ modify (histogram_from buckets j prev bounds) k hit
unfolding histogram_from
histogram-modify buckets i j zero prev [] e h l =
    let same : i ≡ j = omega arith in rw (same, bump_at buckets j (omega arith))
histogram-modify buckets i j (suc k) prev [] e h l = absurd (omega arith)
histogram-modify buckets i j zero prev (b ∷ bounds) e h l =
    let same : i ≡ j = omega arith in
    rw (
      histogram-modify_before buckets i (suc j) b bounds (omega arith),
      same,
      bump_at buckets j (omega arith),
    )
histogram-modify buckets i j (suc k) prev (b ∷ bounds) e h l = rw (
  get_elem?-modify_ne buckets i j bump (omega arith),
  histogram-modify buckets i (suc j) k b bounds (omega arith) (omega arith) (omega arith),
)

-- The sample `n` belongs into a bucket.
abbrev pub Holds : ℕ → LatencyBucketInfo → Type 0
Holds n info = (1000 * info.min_us ≤ n) × ((n < 1000 * info.max_us) ⊎ (info.max_us ≡ 4294967295))

module _ (d : Double) (documented : Compares d) where
  bucket_index-le : (us : d.Carrier) (bounds : List ℕ) → bucket_index d us bounds ≤ length bounds
  unfolding bucket_index
  bucket_index-le us [] = omega arith
  bucket_index-le us (b ∷ bounds) = ground (arith, bucket_index-le us bounds)

  bucket_index-Holds :
      (n : ℕ) (buckets : List ℕ) (j prev : ℕ) (bounds : List ℕ)
      → n < 2 ^ 64
      → All (λ b. b ≤ 50000) bounds
      → 1000 * prev ≤ n
      → (info : LatencyBucketInfo) × (get_elem?
            (histogram_from buckets j prev bounds)
            (bucket_index d (to_us d n) bounds)
          ≡ some info)
        × Holds n info
  unfolding histogram_from bucket_index
  bucket_index-Holds n buckets j prev [] h a l = (_, refl, (l, inr refl))
  bucket_index-Holds n buckets j prev (b ∷ bounds) h a l = elim (Bool-cases (leb (1000 * b) n)) [
    | inl past ↦
        rw (documented.compares b n a.0 h, past)
          (bucket_index-Holds n buckets (suc j) b bounds h a.1 (ground arith))
    | inr short ↦ rw (documented.compares b n a.0 h, short) (_, refl, (l, inl (ground arith)))
  ]

  -- With ten buckets, a sample below 2^64 ns adds 1, modulo 2^64, to the count of a histogram
  -- bucket whose bounds it lies in, and changes no other bucket. It relies on comparing a quotient
  -- by 1000 with a bound as whole numbers compare.
  pub record_latency-histogram :
      (m : MetricsCollector d.Carrier) (core_id n : ℕ)
      → length m.latency_buckets ≡ num_latency_buckets
      → n < 2 ^ 64
      → (i : ℕ) × (info : LatencyBucketInfo) × (get_elem? (get_latency_histogram m) i ≡ some info)
        × Holds n info
        × (get_latency_histogram (record_latency d m core_id n)
            ≡ modify (get_latency_histogram m) i hit)
  unfolding get_latency_histogram record_latency
  record_latency-histogram m core_id n ten h =
      let i = bucket_index d (to_us d n) bucket_bounds_us in
      let (info, at, holds) =
        bucket_index-Holds n m.latency_buckets 0 0 bucket_bounds_us h (omega arith) (omega arith) in
      let low : i ≤ 9 = bucket_index-le (to_us d n) bucket_bounds_us in
      let fits : leb (length m.latency_buckets) i ≡ false = ground arith in
      (
        i,
        info,
        at,
        holds,
        rw fits (
            histogram-modify m.latency_buckets i 0 i 0 bucket_bounds_us (omega arith) (omega arith)
              low),
      )
