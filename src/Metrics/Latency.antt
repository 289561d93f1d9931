-- ===== src/Metrics/Latency.antt =====
-- Latency samples and their histogram, in metrics_collector.cpp.
use ngfwtraffic_gen.Common.{
  ℕ, suc, ◌+◌, ◌-◌, Option, none, some, List, [], ◌∷◌, length, modify, replicate, get_elem?, leb,
  ◌==◌, if◌then◌else◌, u64, ◌++◌,
}
use ngfwtraffic_gen.Common.Double.{Double}
use ngfwtraffic_gen.Metrics.{MetricsCollector}

-- `kLatencyBucketBoundsUs`.
abbrev pub bucket_bounds_us : List ℕ
bucket_bounds_us = 10 ∷ 50 ∷ 100 ∷ 250 ∷ 500 ∷ 1000 ∷ 5000 ∷ 10000 ∷ 50000 ∷ []

pub record LatencyBucketInfo : Type 0 where
  pub min_us : ℕ
  pub max_us : ℕ
  pub count : ℕ

module _ (d : Double) where
  open d use {Carrier, of_u64, add, div, le}

  -- The search loop: it steps on while a bound is left that the sample reaches.
  unfoldable pub bucket_index : Carrier → List ℕ → ℕ
  bucket_index latency_us [] = 0
  bucket_index latency_us (bound ∷ bounds) =
      let rest = suc (bucket_index latency_us bounds) in
      if le (of_u64 bound) latency_us then rest else 0

  abbrev pub to_us : ℕ → Carrier
  to_us latency_ns = div (of_u64 latency_ns) (of_u64 1000)

  -- `latency_buckets_.resize(idx + 1, 0)` where the index is past the end.
  abbrev padded : List ℕ → ℕ → List ℕ
  padded buckets idx =
      if leb (length buckets) idx
      then buckets ++ replicate (idx + 1 - length buckets) 0
      else buckets

  unfoldable pub record_latency : MetricsCollector Carrier → ℕ → ℕ → MetricsCollector Carrier
  record_latency m core_id latency_ns =
      let latency_us = to_us latency_ns in
      let idx = bucket_index latency_us bucket_bounds_us in
      record m {
        total_latency_us = add m.total_latency_us latency_us;
        latency_samples = u64 (m.latency_samples + 1);
        latency_buckets = modify (padded m.latency_buckets idx) idx (λ n. u64 (n + 1));
      }

  unfoldable pub get_average_latency_us : MetricsCollector Carrier → Carrier
  get_average_latency_us m =
      if m.latency_samples == 0 then of_u64 0 else div m.total_latency_us (of_u64 m.latency_samples)

abbrev pub or_zero : Option ℕ → ℕ
or_zero none = 0
or_zero (some n) = n

-- The loop of `get_latency_histogram`, from index `i` and the bound before it; the last bucket is open.
unfoldable pub histogram_from : List ℕ → ℕ → ℕ → List ℕ → List LatencyBucketInfo
histogram_from buckets i prev_bound [] =
    record { min_us = prev_bound; max_us = 4294967295; count = or_zero (get_elem? buckets i) } ∷ []
histogram_from buckets i prev_bound (bound ∷ bounds) =
    record { min_us = prev_bound; max_us = bound; count = or_zero (get_elem? buckets i) }
    ∷ histogram_from buckets (suc i) bound bounds

unfoldable pub get_latency_histogram : {W : Type 0} → MetricsCollector W → List LatencyBucketInfo
get_latency_histogram m = histogram_from m.latency_buckets 0 0 bucket_bounds_us
