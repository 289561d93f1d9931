-- ===== src/Metrics/Rates.antt =====
-- The rates of metrics_collector.cpp, over snapshots of the counters.
use ngfwtraffic_gen.Common.{
  ℕ, zero, suc, ◌+◌, ◌-◌, ◌/◌, Bool, true, Option, none, some, length, ltb, leb, ◌==◌,
  if◌then◌else◌,
}
use ngfwtraffic_gen.Common.Assoc.{find, insert, nat_key}
use ngfwtraffic_gen.Common.Double.{Double}
use ngfwtraffic_gen.Metrics.{MetricsCollector, RateSnapshot, get_core_stats}

unfoldable pub current : {W : Type 0} → ℕ → MetricsCollector W → ℕ → RateSnapshot
current now_ns m core_id = record {
  packets = (get_core_stats m core_id).tx_packets;
  bytes = (get_core_stats m core_id).tx_bytes;
  timestamp = now_ns;
}

-- Whether `update_snapshot` writes: there is no snapshot, or it is at least a second old.
unfoldable pub is_stale : ℕ → Option RateSnapshot → Bool
is_stale now_ns none = true
is_stale now_ns (some s) = leb 1 ((now_ns - s.timestamp) / 1000000000)

unfoldable pub update_snapshot : {W : Type 0} → ℕ → MetricsCollector W → ℕ → MetricsCollector W
unfolding current
update_snapshot now_ns m core_id =
    if leb (length m.per_core_stats) core_id
    then m
    else if is_stale now_ns (find core_id m.last_snapshot)
    then record m { last_snapshot = insert core_id (current now_ns m core_id) m.last_snapshot }
    else m

module _ (d : Double) where
  open d use {Carrier, of_u64, add, mul, div}

  -- `scale` is what a difference of the counter counts for: 1 packet, or 8 bits. The clock is read at
  -- `now_ns` by `update_snapshot` and at `later_ns` afterwards.
  rate_since : ℕ → ℕ → (ℕ → Carrier) → ℕ → Carrier
  rate_since elapsed_ms counted of_delta before =
      if elapsed_ms == 0
      then of_u64 0
      else div (of_delta (if ltb before counted then counted - before else 0))
          (div (of_u64 elapsed_ms) (of_u64 1000))

  rate_of : ℕ → (ℕ → Carrier) → ℕ → (RateSnapshot → ℕ) → Option RateSnapshot → Carrier
  unfolding rate_since
  rate_of later_ns of_delta counted field none = of_u64 0
  rate_of later_ns of_delta counted field (some s) =
      rate_since ((later_ns - s.timestamp) / 1000000) counted of_delta (field s)

  unfoldable pub calculate_current_pps :
      ℕ → ℕ → MetricsCollector Carrier → ℕ → MetricsCollector Carrier × Carrier
  unfolding rate_of
  calculate_current_pps now_ns later_ns m core_id =
      let m' = update_snapshot now_ns m core_id in
      if leb (length m.per_core_stats) core_id then (m, of_u64 0) else (
        m',
        rate_of later_ns of_u64 (get_core_stats m' core_id).tx_packets (λ s. s.packets)
            (find core_id m'.last_snapshot),
      )

  unfoldable pub calculate_current_bps :
      ℕ → ℕ → MetricsCollector Carrier → ℕ → MetricsCollector Carrier × Carrier
  unfolding rate_of
  calculate_current_bps now_ns later_ns m core_id =
      let m' = update_snapshot now_ns m core_id in
      if leb (length m.per_core_stats) core_id then (m, of_u64 0) else (
        m',
        rate_of later_ns (λ n. mul (of_u64 n) (of_u64 8)) (get_core_stats m' core_id).tx_bytes
            (λ s. s.bytes) (find core_id m'.last_snapshot),
      )

  -- The loops over the cores, with the core reached, the cores left, and the sum so far. The clock is
  -- read twice for each core.
  unfoldable pub pps_from :
      (ℕ → ℕ × ℕ) → ℕ → ℕ → Carrier → MetricsCollector Carrier → MetricsCollector Carrier × Carrier
  pps_from clock core_id zero total m = (m, total)
  pps_from clock core_id (suc left) total m =
      let (m', pps) = calculate_current_pps (clock core_id).0 (clock core_id).1 m core_id in
      pps_from clock (core_id + 1) left (add total pps) m'

  unfoldable pub calculate_global_pps :
      (ℕ → ℕ × ℕ) → MetricsCollector Carrier → MetricsCollector Carrier × Carrier
  unfolding pps_from
  calculate_global_pps clock m = pps_from clock 0 m.num_cores (of_u64 0) m

  unfoldable pub bps_from :
      (ℕ → ℕ × ℕ) → ℕ → ℕ → Carrier → MetricsCollector Carrier → MetricsCollector Carrier × Carrier
  bps_from clock core_id zero total m = (m, total)
  bps_from clock core_id (suc left) total m =
      let (m', bps) = calculate_current_bps (clock core_id).0 (clock core_id).1 m core_id in
      bps_from clock (core_id + 1) left (add total bps) m'

  unfoldable pub calculate_global_bps :
      (ℕ → ℕ × ℕ) → MetricsCollector Carrier → MetricsCollector Carrier × Carrier
  unfolding bps_from
  calculate_global_bps clock m = bps_from clock 0 m.num_cores (of_u64 0) m
