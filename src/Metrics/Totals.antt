-- ===== src/Metrics/Totals.antt =====
-- The counters of metrics_collector.cpp: per core, and added up over all cores.
use ngfwtraffic_gen.Common.{
  ℕ, zero, suc, ◌+◌, ◌^◌, ◌≤◌, ◌<◌, ◌≡◌, refl, ap, List, [], ◌∷◌, length, map, modify, modify_past,
  get_elem?_past, arith, u64,
}
use ngfwtraffic_gen.Common.Double.{Double}
use ngfwtraffic_gen.Metrics.{
  CoreStats, MetricsCollector, no_stats, aggregate, get_global_stats, get_core_stats,
  update_tx_stats, update_rx_stats, update_errors, reset_all,
}

total : (CoreStats → ℕ) → List CoreStats → ℕ
total f [] = 0
total f (c ∷ stats) = f c + total f stats

record SumsTo (acc : CoreStats) (stats : List CoreStats) (r : CoreStats) : Type 0 where
  tx_packets : r.tx_packets ≡ u64 (acc.tx_packets + total (λ c. c.tx_packets) stats)
  rx_packets : r.rx_packets ≡ u64 (acc.rx_packets + total (λ c. c.rx_packets) stats)
  tx_bytes : r.tx_bytes ≡ u64 (acc.tx_bytes + total (λ c. c.tx_bytes) stats)
  rx_bytes : r.rx_bytes ≡ u64 (acc.rx_bytes + total (λ c. c.rx_bytes) stats)
  errors : r.errors ≡ u64 (acc.errors + total (λ c. c.errors) stats)

record Fits (c : CoreStats) : Type 0 where
  tx_packets : c.tx_packets < 2 ^ 64
  rx_packets : c.rx_packets < 2 ^ 64
  tx_bytes : c.tx_bytes < 2 ^ 64
  rx_bytes : c.rx_bytes < 2 ^ 64
  errors : c.errors < 2 ^ 64

aggregate-SumsTo :
    (acc : CoreStats) (stats : List CoreStats) → Fits acc → SumsTo acc stats (aggregate acc stats)
unfolding aggregate total
aggregate-SumsTo acc [] h = omega arith
aggregate-SumsTo acc (c ∷ stats) h =
    let next : CoreStats = record {
      tx_packets = u64 (acc.tx_packets + c.tx_packets);
      rx_packets = u64 (acc.rx_packets + c.rx_packets);
      tx_bytes = u64 (acc.tx_bytes + c.tx_bytes);
      rx_bytes = u64 (acc.rx_bytes + c.rx_bytes);
      errors = u64 (acc.errors + c.errors);
    } in
    omega (arith, aggregate-SumsTo next stats (omega arith))

global-SumsTo :
    {W : Type 0} (m : MetricsCollector W) → SumsTo no_stats m.per_core_stats (get_global_stats m)
unfolding get_global_stats
global-SumsTo m = aggregate-SumsTo no_stats m.per_core_stats (omega arith)

-- Changing one core changes a total by that core's change.
total-modify :
    (f : CoreStats → ℕ) (g : CoreStats → CoreStats) (stats : List CoreStats) (i n : ℕ)
    → i < length stats
    → ((c : CoreStats) → f (g c) ≡ u64 (f c + n))
    → u64 (total f (modify stats i g)) ≡ u64 (total f stats + n)
unfolding total
total-modify f g [] i n h e = elim h [ ]
total-modify f g (c ∷ stats) zero n h e = omega (arith, e c)
total-modify f g (c ∷ stats) (suc i) n h e =
    omega (arith, total-modify f g stats i n (omega arith) e)

total-modify_same :
    (f : CoreStats → ℕ) (g : CoreStats → CoreStats) (stats : List CoreStats) (i : ℕ)
    → ((c : CoreStats) → f (g c) ≡ f c)
    → total f (modify stats i g) ≡ total f stats
unfolding total
total-modify_same f g [] i e = refl
total-modify_same f g (c ∷ stats) zero e = omega (arith, e c)
total-modify_same f g (c ∷ stats) (suc i) e = omega (arith, total-modify_same f g stats i e)

module _ {W : Type 0} (m : MetricsCollector W) (core_id : ℕ) where
  -- What a core within the vector sends is added to the packets and bytes sent of the totals,
  -- modulo 2^64, and to nothing else of them.
  pub global-update_tx :
      (packets bytes : ℕ)
      → core_id < length m.per_core_stats
      → get_global_stats (update_tx_stats m core_id packets bytes) ≡ record (get_global_stats m) {
        tx_packets = u64 ((get_global_stats m).tx_packets + packets);
        tx_bytes = u64 ((get_global_stats m).tx_bytes + bytes);
      }
  unfolding update_tx_stats
  global-update_tx packets bytes h =
      let g : CoreStats → CoreStats = λ c. record c {
        tx_packets = u64 (c.tx_packets + packets);
        tx_bytes = u64 (c.tx_bytes + bytes);
      } in
      let stats = m.per_core_stats in
      ground (
        arith,
        global-SumsTo m,
        global-SumsTo (update_tx_stats m core_id packets bytes),
        total-modify (λ c. c.tx_packets) g stats core_id packets h (λ c. refl),
        total-modify (λ c. c.tx_bytes) g stats core_id bytes h (λ c. refl),
        total-modify_same (λ c. c.rx_packets) g stats core_id (λ c. refl),
        total-modify_same (λ c. c.rx_bytes) g stats core_id (λ c. refl),
        total-modify_same (λ c. c.errors) g stats core_id (λ c. refl),
      )

  -- What a core within the vector receives is added to the packets and bytes received of the
  -- totals, modulo 2^64, and to nothing else of them.
  pub global-update_rx :
      (packets bytes : ℕ)
      → core_id < length m.per_core_stats
      → get_global_stats (update_rx_stats m core_id packets bytes) ≡ record (get_global_stats m) {
        rx_packets = u64 ((get_global_stats m).rx_packets + packets);
        rx_bytes = u64 ((get_global_stats m).rx_bytes + bytes);
      }
  unfolding update_rx_stats
  global-update_rx packets bytes h =
      let g : CoreStats → CoreStats = λ c. record c {
        rx_packets = u64 (c.rx_packets + packets);
        rx_bytes = u64 (c.rx_bytes + bytes);
      } in
      let stats = m.per_core_stats in
      ground (
        arith,
        global-SumsTo m,
        global-SumsTo (update_rx_stats m core_id packets bytes),
        total-modify (λ c. c.rx_packets) g stats core_id packets h (λ c. refl),
        total-modify (λ c. c.rx_bytes) g stats core_id bytes h (λ c. refl),
        total-modify_same (λ c. c.tx_packets) g stats core_id (λ c. refl),
        total-modify_same (λ c. c.tx_bytes) g stats core_id (λ c. refl),
        total-modify_same (λ c. c.errors) g stats core_id (λ c. refl),
      )

  -- For a core id past the end of the vector all three updates change nothing, and the statistics
  -- of that core read as zero.
  pub updates_lost :
      (packets bytes count : ℕ)
      → length m.per_core_stats ≤ core_id
      → (update_tx_stats m core_id packets bytes ≡ m)
        × (update_rx_stats m core_id packets bytes ≡ m)
        × (update_errors m core_id count ≡ m)
        × (get_core_stats m core_id ≡ no_stats)
  unfolding update_tx_stats update_rx_stats update_errors get_core_stats
  updates_lost packets bytes count h =
      let stats = m.per_core_stats in
      (
        ap (λ s. record m { per_core_stats = s }) (modify_past stats core_id _ h),
        ap (λ s. record m { per_core_stats = s }) (modify_past stats core_id _ h),
        ap (λ s. record m { per_core_stats = s }) (modify_past stats core_id _ h),
        rw (get_elem?_past stats core_id h),
      )

total_cleared :
    (f : CoreStats → ℕ) (stats : List CoreStats)
    → f no_stats ≡ 0
    → total f (map (λ _. no_stats) stats) ≡ 0
unfolding total
total_cleared f [] e = refl
total_cleared f (c ∷ stats) e = omega (arith, total_cleared f stats e)

-- After `reset_all` the totals are zero.
pub global-reset_all :
    (d : Double) (now_ns : ℕ) (m : MetricsCollector d.Carrier)
    → get_global_stats (reset_all d now_ns m) ≡ no_stats
unfolding reset_all
global-reset_all d now_ns m =
    let stats = m.per_core_stats in
    ground (
      arith,
      global-SumsTo (reset_all d now_ns m),
      total_cleared (λ c. c.tx_packets) stats refl,
      total_cleared (λ c. c.rx_packets) stats refl,
      total_cleared (λ c. c.tx_bytes) stats refl,
      total_cleared (λ c. c.rx_bytes) stats refl,
      total_cleared (λ c. c.errors) stats refl,
    )
