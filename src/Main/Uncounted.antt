-- ===== src/Main/Uncounted.antt =====
-- Whose traffic is counted after the start-up of main.cpp: the collector has as many cores as there are core
-- mappings, and the worker updates it under its core's id.
use ngfwtraffic_gen.Common.{ℕ, ◌≡◌, refl, ◌∙◌, inl, inr, true, false, List, [], ◌∷◌, arith}
use ngfwtraffic_gen.Common.Double.{Double}
use ngfwtraffic_gen.Config.{get_default_config}
use ngfwtraffic_gen.Imix.{Sampler}
use ngfwtraffic_gen.Main.{
  Opt, proceeds, parse_options, load_config, Launched, launched, Program, Startup, running,
  Environment, main,
}
use ngfwtraffic_gen.Main.Started.{Succeeds, Built, main_cases}
use ngfwtraffic_gen.Mempool.{Dpdk}
use ngfwtraffic_gen.Metrics.{
  MetricsCollector, no_stats, get_core_stats, update_tx_stats, update_rx_stats, update_errors,
}
use ngfwtraffic_gen.Metrics.Totals.{updates_lost}
use ngfwtraffic_gen.Worker.Thread.{spawned}

module _ (d : Double) (g : Sampler d.Carrier) (dpdk : Dpdk) (env : Environment dpdk) where
  -- What the worker on a core updates is lost.
  abbrev pub Uncounted : MetricsCollector d.Carrier → ℕ → Type 0
  Uncounted m core_id =
      (packets bytes count : ℕ)
      → (update_tx_stats m core_id packets bytes ≡ m)
        × (update_rx_stats m core_id packets bytes ≡ m)
        × (update_errors m core_id count ≡ m)
        × (get_core_stats m core_id ≡ no_stats)

  -- The program runs one worker, on core 1, and what that updates is lost.
  abbrev pub RunsUncounted : Startup d g dpdk.Pool → Type 0
  RunsUncounted r =
      (p : Program d g dpdk.Pool) × (r ≡ running p)
      × (w : Launched) × (p.workers ≡ w ∷ [])
      × (w.worker_config.core_id ≡ 1)
      × Uncounted p.metrics_collector w.worker_config.core_id

  Built-uncounted :
      (r : Startup d g dpdk.Pool) (p : Program d g dpdk.Pool)
      → env.enabled 1 ≡ true
      → r ≡ running p
      → Built d g dpdk env get_default_config p
      → RunsUncounted r
  Built-uncounted r p enabled e built =
      let w : Launched =
        launched get_default_config
          (record { core_id = 1; port_id = 0; queue_id = 0; enable_rx = false })
          (record { running = true; should_stop = false; worker_thread = spawned }) in
      (
        p,
        e,
        w,
        built.workers ∙ rw enabled refl,
        refl,
        λ packets bytes count.
            updates_lost p.metrics_collector 1 packets bytes count (omega (arith, built.cores)),
      )

  -- Without a configuration file, on a machine where every step of the start-up succeeds and core 1
  -- is enabled, the program runs one worker, on core 1, and whatever this worker counts is lost: no
  -- update under its core changes the collector, and the statistics of that core read as zero.
  pub default_uncounted :
      (opts : List Opt)
      → parse_options opts [] ≡ proceeds []
      → Succeeds d g dpdk env get_default_config
      → env.enabled 1 ≡ true
      → RunsUncounted (main d g dpdk env opts)
  unfolding load_config
  default_uncounted opts e succeeds enabled =
      elim (main_cases d g dpdk env opts [] e (omega arith)) [
        | inl (succeeds', p, runs, built) ↦
            Built-uncounted (main d g dpdk env opts) p enabled runs built
        | inr (fails, exits) ↦ absurd (fails succeeds)
      ]
