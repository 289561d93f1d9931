-- ===== src/Metrics/Tests.antt =====
-- Runs of metrics_collector.cpp, and its theorems at concrete inputs.
use ngfwtraffic_gen.Common.{ℕ, ◌≡◌, refl, true, some, [], ◌∷◌, modify, get_elem?, arith}
use ngfwtraffic_gen.Common.Assoc.{nat_key}
use ngfwtraffic_gen.Common.Double.{fractions, Fraction}
use ngfwtraffic_gen.Metrics.{
  MetricsCollector, CoreStats, RateSnapshot, no_stats, new_collector, initialize, update_tx_stats,
  update_rx_stats, update_errors, get_core_stats, get_global_stats, reset_all,
}
use ngfwtraffic_gen.Metrics.Latency.{LatencyBucketInfo, record_latency, get_latency_histogram}
use ngfwtraffic_gen.Metrics.Histogram.{Compares, Holds, hit, record_latency-histogram}

-- Two cores; core 1 has sent 500 packets, of which 200 were seen by the snapshot at second 1.
abbrev sample : MetricsCollector Fraction
sample = record {
  per_core_stats =
      no_stats
      ∷ record { tx_packets = 500; rx_packets = 4; tx_bytes = 32000; rx_bytes = 256; errors = 0 }
      ∷ [];
  start_time = 0;
  running = true;
  num_cores = 2;
  latency_buckets = 0 ∷ 0 ∷ 0 ∷ 0 ∷ 0 ∷ 0 ∷ 0 ∷ 0 ∷ 0 ∷ 0 ∷ [];
  total_latency_us = some (0, 1);
  latency_samples = 0;
  last_snapshot = (1, record { packets = 200; bytes = 12800; timestamp = 1000000000 }) ∷ [];
}

-- 75 microseconds fall into the third bucket.
counts_75us :
    (record_latency fractions sample 0 75000).latency_buckets
    ≡ 0 ∷ 0 ∷ 1 ∷ 0 ∷ 0 ∷ 0 ∷ 0 ∷ 0 ∷ 0 ∷ 0 ∷ []
unfolding record_latency ngfwtraffic_gen.Metrics.Latency.bucket_index
counts_75us = refl

fractions-Compares : Compares fractions
fractions-Compares = record { compares = λ b n h l. ground arith }

record_latency-histogram_example :
    (i : ℕ) × (info : LatencyBucketInfo) × (get_elem? (get_latency_histogram sample) i ≡ some info)
    × Holds 75000 info
    × (get_latency_histogram (record_latency fractions sample 0 75000)
        ≡ modify (get_latency_histogram sample) i hit)
record_latency-histogram_example =
    record_latency-histogram fractions fractions-Compares sample 0 75000 refl (omega arith)
