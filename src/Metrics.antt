-- ===== src/Metrics.antt =====
-- core/stats/metrics_collector.hpp and metrics_collector.cpp, and `CoreStats` and `CoreStatsSnapshot` of
-- core/common/types.hpp. The counters wrap at 64 bits; times are what `steady_clock` shows, in
-- nanoseconds; a `double` is a parameter. The debugging output is left out.
pub mod Latency
pub mod Rates
pub mod Totals
pub mod Histogram
pub mod PollRate
mod Tests
use ngfwtraffic_gen.Common.{
  ℕ, zero, suc, ◌+◌, ◌-◌, ◌*◌, ◌/◌, Bool, true, false, Option, none, some, List, [], ◌∷◌, map,
  length, get_elem?, modify, replicate, ltb, leb, ◌==◌, if◌then◌else◌, u64, u32,
}
use ngfwtraffic_gen.Common.Assoc.{find, insert, erase, nat_key}
use ngfwtraffic_gen.Common.Double.{Double}

pub record CoreStats : Type 0 where
  pub tx_packets : ℕ
  pub rx_packets : ℕ
  pub tx_bytes : ℕ
  pub rx_bytes : ℕ
  pub errors : ℕ

abbrev pub no_stats : CoreStats
no_stats = record { tx_packets = 0; rx_packets = 0; tx_bytes = 0; rx_bytes = 0; errors = 0 }

pub record RateSnapshot : Type 0 where
  pub packets : ℕ
  pub bytes : ℕ
  pub timestamp : ℕ

pub record MetricsCollector (W : Type 0) : Type 0 where
  pub per_core_stats : List CoreStats
  pub start_time : ℕ
  pub running : Bool
  pub num_cores : ℕ
  pub latency_buckets : List ℕ
  pub total_latency_us : W
  pub latency_samples : ℕ
  pub last_snapshot : List (ℕ × RateSnapshot)

abbrev pub num_latency_buckets : ℕ
num_latency_buckets = 10

-- `vector::resize`: cut off, or filled up with new statistics.
unfoldable pub resized : ℕ → List CoreStats → List CoreStats
resized zero stats = []
resized (suc n) [] = no_stats ∷ resized n []
resized (suc n) (c ∷ stats) = c ∷ resized n stats

module _ (d : Double) where
  open d use {Carrier, of_u64}

  unfoldable pub new_collector : ℕ → MetricsCollector Carrier
  new_collector now_ns = record {
    per_core_stats = [];
    start_time = now_ns;
    running = false;
    num_cores = 0;
    latency_buckets = replicate num_latency_buckets 0;
    total_latency_us = of_u64 0;
    latency_samples = 0;
    last_snapshot = [];
  }

  -- `CoreStats::reset` is `no_stats`.
  unfoldable pub initialize : ℕ → MetricsCollector Carrier → ℕ → MetricsCollector Carrier × Bool
  unfolding resized
  initialize now_ns m num_cores = if num_cores == 0 then (m, false) else (
    record m {
      num_cores = num_cores;
      per_core_stats = map (λ _. no_stats) (resized num_cores m.per_core_stats);
      start_time = now_ns;
      latency_buckets = replicate num_latency_buckets 0;
      total_latency_us = of_u64 0;
      latency_samples = 0;
    },
    true,
  )

  unfoldable pub reset_all : ℕ → MetricsCollector Carrier → MetricsCollector Carrier
  reset_all now_ns m = record m {
    per_core_stats = map (λ _. no_stats) m.per_core_stats;
    last_snapshot = [];
    start_time = now_ns;
    latency_buckets = replicate num_latency_buckets 0;
    total_latency_us = of_u64 0;
    latency_samples = 0;
  }

or_none : Option CoreStats → CoreStats
or_none none = no_stats
or_none (some c) = c

unfoldable pub aggregate : CoreStats → List CoreStats → CoreStats
aggregate acc [] = acc
aggregate acc (c ∷ stats) =
    aggregate
      (record {
        tx_packets = u64 (acc.tx_packets + c.tx_packets);
        rx_packets = u64 (acc.rx_packets + c.rx_packets);
        tx_bytes = u64 (acc.tx_bytes + c.tx_bytes);
        rx_bytes = u64 (acc.rx_bytes + c.rx_bytes);
        errors = u64 (acc.errors + c.errors);
      })
      stats

module _ {W : Type 0} where
  -- A core id past the end of the vector is passed over.
  unfoldable pub update_tx_stats : MetricsCollector W → ℕ → ℕ → ℕ → MetricsCollector W
  update_tx_stats m core_id packets bytes = record m {
    per_core_stats = modify m.per_core_stats core_id (λ c. record c {
      tx_packets = u64 (c.tx_packets + packets);
      tx_bytes = u64 (c.tx_bytes + bytes);
    });
  }

  unfoldable pub update_rx_stats : MetricsCollector W → ℕ → ℕ → ℕ → MetricsCollector W
  update_rx_stats m core_id packets bytes = record m {
    per_core_stats = modify m.per_core_stats core_id (λ c. record c {
      rx_packets = u64 (c.rx_packets + packets);
      rx_bytes = u64 (c.rx_bytes + bytes);
    });
  }

  unfoldable pub update_errors : MetricsCollector W → ℕ → ℕ → MetricsCollector W
  update_errors m core_id count = record m {
    per_core_stats =
        modify m.per_core_stats core_id (λ c. record c { errors = u64 (c.errors + count) });
  }

  -- The snapshot type has the same five fields.
  unfoldable pub get_core_stats : MetricsCollector W → ℕ → CoreStats
  unfolding or_none
  get_core_stats m core_id = or_none (get_elem? m.per_core_stats core_id)

  unfoldable pub get_global_stats : MetricsCollector W → CoreStats
  unfolding aggregate
  get_global_stats m = aggregate no_stats m.per_core_stats

  unfoldable pub get_all_core_stats : MetricsCollector W → List CoreStats
  get_all_core_stats m = m.per_core_stats

  unfoldable pub reset_core : MetricsCollector W → ℕ → MetricsCollector W
  reset_core m core_id =
      if ltb core_id (length m.per_core_stats)
      then record m {
        per_core_stats = modify m.per_core_stats core_id (λ _. no_stats);
        last_snapshot = erase core_id m.last_snapshot;
      }
      else m

  unfoldable pub set_running : MetricsCollector W → Bool → MetricsCollector W
  set_running m running = record m { running = running }

  unfoldable pub is_running : MetricsCollector W → Bool
  is_running m = m.running

  -- `duration_cast<seconds>`.
  unfoldable pub get_uptime_seconds : ℕ → MetricsCollector W → ℕ
  get_uptime_seconds now_ns m = (now_ns - m.start_time) / 1000000000
