-- ===== src/Service/Polled.antt =====
-- What a client sees that asks `GetMetrics` of server.cpp once a second or more rarely.
use ngfwtraffic_gen.Common.{
  ℕ, zero, suc, ◌+◌, ◌-◌, ◌/◌, ◌≤◌, ◌<◌, ◌≡◌, refl, ◌⊎◌, inl, inr, Bool, true, false, Option, none,
  some, List, [], ◌∷◌, length, All, leb, ◌==◌, if◌then◌else◌, arith, Bool-cases,
}
use ngfwtraffic_gen.Common.Assoc.{nat_key, find, insert, find-insert}
use ngfwtraffic_gen.Common.Double.{Double}
use ngfwtraffic_gen.Imix.{Sampler}
use ngfwtraffic_gen.Metrics.{CoreStats, MetricsCollector, RateSnapshot, get_all_core_stats}
use ngfwtraffic_gen.Metrics.PollRate.{snapshot_renewed, snapshot_taken, fresh_kept}
use ngfwtraffic_gen.Metrics.Rates.{
  current, is_stale, update_snapshot, calculate_current_pps, calculate_current_bps, pps_from,
  bps_from, calculate_global_pps, calculate_global_bps,
}
use ngfwtraffic_gen.Service.Report.{CoreMetrics, Clocks, core_entries, report_metrics}

-- The readings of a clock within the millisecond that begins at `start`.
abbrev Within : ℕ → (ℕ → ℕ × ℕ) → Type 0
Within start clock =
    (i : ℕ)
    → (start ≤ (clock i).0)
      × ((clock i).0 < start + 1000000)
      × (start ≤ (clock i).1)
      × ((clock i).1 < start + 1000000)

-- A snapshot that is a second old at `start`, or was taken since.
abbrev pub OldOrNew : ℕ → Option RateSnapshot → Type 0
OldOrNew start none = Unit
OldOrNew start (some s) = (s.timestamp + 1000000000 ≤ start) ⊎ (start ≤ s.timestamp)

module _ (d : Double) (start : ℕ) where
  open d use {Carrier, of_u64, add}

  abbrev Quiet : MetricsCollector Carrier → Type 0
  Quiet m = (i : ℕ) → OldOrNew start (find i m.last_snapshot)

  renewed-OldOrNew :
      (now_ns i j : ℕ) (m : MetricsCollector Carrier)
      → start ≤ now_ns
      → OldOrNew start (find j m.last_snapshot)
      → OldOrNew start (find j (insert i (current now_ns m i) m.last_snapshot))
  unfolding current
  renewed-OldOrNew now_ns i j m a h =
      rw (find-insert i j (current now_ns m i) m.last_snapshot)
        (elim (Bool-cases (i == j)) [ inl same ↦ rw same (inr a) | inr other ↦ rw other h ])

  fresh_new :
      (now_ns : ℕ) (o : Option RateSnapshot)
      → start ≤ now_ns
      → now_ns < start + 1000000
      → is_stale now_ns o ≡ false
      → OldOrNew start o
      → (s : RateSnapshot) × (o ≡ some s) × (start ≤ s.timestamp)
  unfolding is_stale
  fresh_new now_ns none a b f h = absurd (ground arith)
  fresh_new now_ns (some s) a b f (inl old) = absurd (ground arith)
  fresh_new now_ns (some s) a b f (inr new) = (s, refl, new)

  -- A snapshot is there after `update_snapshot`, and less than a millisecond old.
  updated :
      (now_ns later_ns i : ℕ) (m : MetricsCollector Carrier)
      → start ≤ now_ns
      → now_ns < start + 1000000
      → later_ns < start + 1000000
      → i < length m.per_core_stats
      → Quiet m
      → (s : RateSnapshot) × (find i (update_snapshot now_ns m i).last_snapshot ≡ some s)
        × ((later_ns - s.timestamp) / 1000000 ≡ 0)
        × Quiet (update_snapshot now_ns m i)
  updated now_ns later_ns i m a b c within q =
      elim (Bool-cases (is_stale now_ns (find i m.last_snapshot))) [
        | inl stale ↦ (
          current now_ns m i,
          snapshot_taken d m i now_ns later_ns within stale,
          unfold current in omega arith,
          λ j.
              rw (snapshot_renewed d m i now_ns later_ns within stale)
                (renewed-OldOrNew now_ns i j m a (q j)),
        )
        | inr fresh ↦
            let (s, e, n) = fresh_new now_ns (find i m.last_snapshot) a b fresh (q i) in
            rw (fresh_kept d m i now_ns later_ns fresh) (s, e, omega (arith, n), q)
      ]

  pps_zero :
      (now_ns later_ns i : ℕ) (m : MetricsCollector Carrier)
      → start ≤ now_ns
      → now_ns < start + 1000000
      → later_ns < start + 1000000
      → Quiet m
      → ((calculate_current_pps d now_ns later_ns m i).1 ≡ of_u64 0)
        × Quiet (calculate_current_pps d now_ns later_ns m i).0
  unfolding calculate_current_pps
  pps_zero now_ns later_ns i m a b c q = elim (Bool-cases (leb (length m.per_core_stats) i)) [
    | inl past ↦ rw past (refl, q)
    | inr within ↦
        let (s, e, z, q') = updated now_ns later_ns i m a b c (ground arith) q in
        rw (within, e, calculate_current_pps) (rw z refl, q')
  ]

  bps_zero :
      (now_ns later_ns i : ℕ) (m : MetricsCollector Carrier)
      → start ≤ now_ns
      → now_ns < start + 1000000
      → later_ns < start + 1000000
      → Quiet m
      → ((calculate_current_bps d now_ns later_ns m i).1 ≡ of_u64 0)
        × Quiet (calculate_current_bps d now_ns later_ns m i).0
  unfolding calculate_current_bps
  bps_zero now_ns later_ns i m a b c q = elim (Bool-cases (leb (length m.per_core_stats) i)) [
    | inl past ↦ rw past (refl, q)
    | inr within ↦
        let (s, e, z, q') = updated now_ns later_ns i m a b c (ground arith) q in
        rw (within, e, calculate_current_bps) (rw z refl, q')
  ]

  module _ (zeros : add (of_u64 0) (of_u64 0) ≡ of_u64 0) where
    pps_from_zero :
        (clock : ℕ → ℕ × ℕ) (i left : ℕ) (m : MetricsCollector Carrier)
        → Within start clock
        → Quiet m
        → ((pps_from d clock i left (of_u64 0) m).1 ≡ of_u64 0)
          × Quiet (pps_from d clock i left (of_u64 0) m).0
    unfolding pps_from
    pps_from_zero clock i zero m w q = (refl, q)
    pps_from_zero clock i (suc left) m w q =
        let (a, b, c, e) = w i in
        let (z, q') = pps_zero (clock i).0 (clock i).1 i m a b e q in
        rw (z, zeros, pps_from) (pps_from_zero clock (i + 1) left _ w q')

    bps_from_zero :
        (clock : ℕ → ℕ × ℕ) (i left : ℕ) (m : MetricsCollector Carrier)
        → Within start clock
        → Quiet m
        → ((bps_from d clock i left (of_u64 0) m).1 ≡ of_u64 0)
          × Quiet (bps_from d clock i left (of_u64 0) m).0
    unfolding bps_from
    bps_from_zero clock i zero m w q = (refl, q)
    bps_from_zero clock i (suc left) m w q =
        let (a, b, c, e) = w i in
        let (z, q') = bps_zero (clock i).0 (clock i).1 i m a b e q in
        rw (z, zeros, bps_from) (bps_from_zero clock (i + 1) left _ w q')

    module _ (g : Sampler Carrier) where
      abbrev pub AllZero : List (CoreMetrics Carrier) → Type 0
      AllZero = All (λ e. e.pps ≡ of_u64 0)

      core_entries_zero :
          (clock : ℕ → ℕ × ℕ) (i : ℕ) (stats : List CoreStats) (m : MetricsCollector Carrier)
          → Within start clock
          → Quiet m
          → AllZero (core_entries d g clock i stats m).1
      unfolding core_entries
      core_entries_zero clock i [] m w q = tt
      core_entries_zero clock i (c ∷ stats) m w q =
          let (a, b, _, e) = w i in
          let (z, q') = pps_zero (clock i).0 (clock i).1 i m a b e q in
          (z, core_entries_zero clock (i + 1) stats _ w q')

      entries_zero :
          (clock : ℕ → ℕ × ℕ) (include_per_core : Bool) (m : MetricsCollector Carrier)
          → Within start clock
          → Quiet m
          → AllZero
              (if include_per_core
                then core_entries d g clock 0 (get_all_core_stats m) m
                else (m, [])).1
      entries_zero clock true m w q = core_entries_zero clock 0 (get_all_core_stats m) m w q
      entries_zero clock false m w q = tt

      -- A client that asks `GetMetrics` once a second or more rarely, so that every snapshot is a
      -- second old, and whose call takes less than a millisecond, always gets 0 packets and 0 bits
      -- per second, in the totals and for each core. It relies on 0 + 0 being 0 for `double`.
      pub polled_rates_zero :
          (clocks : Clocks) (include_per_core include_latency_histogram : Bool)
          (m : MetricsCollector Carrier)
          → Within start clocks.pps
          → Within start clocks.bps
          → Within start clocks.per_core
          → ((i : ℕ) → OldOrNew start (find i m.last_snapshot))
          → let r = (report_metrics d g clocks include_per_core include_latency_histogram m).1 in
            (r.global.current_pps ≡ of_u64 0)
            × (r.global.current_bps ≡ of_u64 0)
            × All (λ e. e.pps ≡ of_u64 0) r.per_core
      unfolding report_metrics calculate_global_pps calculate_global_bps
      polled_rates_zero clocks include_per_core include_latency_histogram m p b c q =
          let (z, q') = pps_from_zero clocks.pps 0 m.num_cores m p q in
          let m' = (pps_from d clocks.pps 0 m.num_cores (of_u64 0) m).0 in
          let (y, q'') = bps_from_zero clocks.bps 0 m'.num_cores m' b q' in
          (
            z,
            y,
            entries_zero clocks.per_core include_per_core
                (bps_from d clocks.bps 0 m'.num_cores (of_u64 0) m').0 c q'',
          )
