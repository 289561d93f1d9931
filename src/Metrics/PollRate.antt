-- ===== src/Metrics/PollRate.antt =====
-- What a reader of the rates of metrics_collector.cpp gets.
use ngfwtraffic_gen.Common.{
  ℕ, ◌+◌, ◌-◌, ◌/◌, ◌≤◌, ◌<◌, ◌≡◌, true, false, some, length, arith, ==_refl,
}
use ngfwtraffic_gen.Common.Assoc.{find, insert, nat_key, find-insert}
use ngfwtraffic_gen.Common.Double.{Double}
use ngfwtraffic_gen.Metrics.{MetricsCollector, RateSnapshot, get_core_stats}
use ngfwtraffic_gen.Metrics.Rates.{
  is_stale, update_snapshot, calculate_current_pps, calculate_current_bps, current,
}

module _ (d : Double) (m : MetricsCollector d.Carrier) (core_id now_ns later_ns : ℕ) where
  open d use {of_u64, mul, div}

  pub snapshot_renewed :
      core_id < length m.per_core_stats
      → is_stale now_ns (find core_id m.last_snapshot) ≡ true
      → update_snapshot now_ns m core_id
        ≡ record m { last_snapshot = insert core_id (current now_ns m core_id) m.last_snapshot }
  unfolding update_snapshot
  snapshot_renewed h stale = ground arith

  pub snapshot_taken :
      core_id < length m.per_core_stats
      → is_stale now_ns (find core_id m.last_snapshot) ≡ true
      → find core_id (update_snapshot now_ns m core_id).last_snapshot
        ≡ some (current now_ns m core_id)
  snapshot_taken h stale =
      rw (snapshot_renewed h stale) (
        rw
          (find-insert core_id core_id (current now_ns m core_id) m.last_snapshot, ==_refl core_id))

  -- For a core within the vector that has no snapshot, or one that is a second old or more, both
  -- rates are 0, whatever was sent, unless a whole millisecond passes inside the call: the snapshot
  -- is renewed before the difference to it is taken.
  pub stale_rate_zero :
      core_id < length m.per_core_stats
      → is_stale now_ns (find core_id m.last_snapshot) ≡ true
      → later_ns < now_ns + 1000000
      → ((calculate_current_pps d now_ns later_ns m core_id).1 ≡ of_u64 0)
        × ((calculate_current_bps d now_ns later_ns m core_id).1 ≡ of_u64 0)
  unfolding calculate_current_pps calculate_current_bps current
  stale_rate_zero h stale soon =
      let found = snapshot_taken h stale in
      (
        rw (found, calculate_current_pps) (ground arith),
        rw (found, calculate_current_bps) (ground arith),
      )

  pub fresh_kept :
      is_stale now_ns (find core_id m.last_snapshot) ≡ false → update_snapshot now_ns m core_id ≡ m
  unfolding update_snapshot
  fresh_kept h = ground arith

  -- For a core within the vector whose snapshot is less than a second old and, when the clock is
  -- read again, at least a millisecond old, and whose count has not gone down,
  -- `calculate_current_pps` is the growth of the count since the snapshot over the whole
  -- milliseconds since, and the collector is as it was.
  pub fresh_rate :
      (s : RateSnapshot)
      → core_id < length m.per_core_stats
      → find core_id m.last_snapshot ≡ some s
      → now_ns < s.timestamp + 1000000000
      → s.timestamp + 1000000 ≤ later_ns
      → s.packets ≤ (get_core_stats m core_id).tx_packets
      → calculate_current_pps d now_ns later_ns m core_id ≡ (
        m,
        div
            (of_u64 ((get_core_stats m core_id).tx_packets - s.packets))
            (div (of_u64 ((later_ns - s.timestamp) / 1000000)) (of_u64 1000)),
      )
  unfolding calculate_current_pps is_stale
  fresh_rate s h found young ms grown =
      rw (fresh_kept (ground arith), found, calculate_current_pps) (ground arith)
