-- ===== src/Main/Started.antt =====
-- When main.cpp starts up, and whose traffic is counted then.
use mathlib.Core.List.{append-nil, append_assoc}
use ngfwtraffic_gen.Common.{
  ℕ, String, zero, suc, ◌^◌, ◌<◌, ◌≡◌, ◌≢◌, refl, ap, ◌∙◌, inl, inr, ◌⊎◌, Bool, true, false, some,
  List, [], ◌∷◌, ◌++◌, length, length-map, Bytes, ◌==◌, u32, arith, Bool-cases, differs,
  if◌then◌else◌,
}
use ngfwtraffic_gen.Common.Double.{Double}
use ngfwtraffic_gen.Config.{CoreMapping, AppConfig, validate_config}
use ngfwtraffic_gen.Config.Validate.{validate_config_iff}
use ngfwtraffic_gen.Imix.{Sampler}
use ngfwtraffic_gen.Flow
use ngfwtraffic_gen.Main.{
  Opt, proceeds, after_options, parse_options, load_config, Launched, launched, launch_workers,
  Program, exits_with, running, Environment, build_components, start_up, main, configure_ports,
}
use ngfwtraffic_gen.Mempool.{Dpdk, MempoolManager, new_manager, get_mempool}
use ngfwtraffic_gen.Mempool
use ngfwtraffic_gen.Metrics
use ngfwtraffic_gen.Metrics.{no_stats, resized}
use ngfwtraffic_gen.Worker.Thread.{start, spawned}

-- A worker for each mapping whose core is enabled, in order.
abbrev pub workers_of : (ℕ → Bool) → AppConfig → List CoreMapping → List Launched
workers_of enabled c [] = []
workers_of enabled c (mapping ∷ mappings) =
    let rest = workers_of enabled c mappings in
    if enabled mapping.core_id
    then launched c mapping
        (record { running = true; should_stop = false; worker_thread = spawned })
      ∷ rest
    else rest

launch_workers-all :
    (enabled : ℕ → Bool) (c : AppConfig) (mappings : List CoreMapping) (workers : List Launched)
    → launch_workers enabled c mappings workers
      ≡ some (workers ++ workers_of enabled c mappings, true)
unfolding launch_workers start
launch_workers-all enabled c [] workers = rw append-nil refl
launch_workers-all enabled c (mapping ∷ mappings) workers =
    elim (Bool-cases (enabled mapping.core_id)) [
      | inl on ↦ rw on (launch_workers-all enabled c mappings _ ∙ rw append_assoc refl)
      | inr off ↦ rw off (launch_workers-all enabled c mappings workers)
    ]

length-resized : (n : ℕ) → length (resized n []) ≡ n
unfolding resized
length-resized zero = refl
length-resized (suc n) = ap suc (length-resized n)

module _ (d : Double) (g : Sampler d.Carrier) (dpdk : Dpdk) (env : Environment dpdk) where
  -- The pools and the ports that a configuration gives.
  abbrev pub pools_of : AppConfig → MempoolManager dpdk.Pool × List String × Bool
  pools_of c =
      Mempool.initialize dpdk env.socket_count c.mbufs_per_socket c.mbuf_cache_size "mbuf_pool"
        env.pool_names new_manager

  abbrev pub ports_of : AppConfig → List ℕ × List ℕ × Bool
  ports_of c = configure_ports env.ethdev (get_mempool (pools_of c).0) c.ports

  -- Every step of the start-up succeeds.
  abbrev pub Succeeds : AppConfig → Type 0
  Succeeds c =
      (env.eal_init ≡ true)
      × (env.dynfield_registered ≡ true)
      × (validate_config c ≡ true)
      × ((pools_of c).2 ≡ true)
      × ((ports_of c).2 ≡ true)

  -- What runs: the parts of the configuration `c`.
  pub record Built (c : AppConfig) (p : Program d g dpdk.Pool) : Type 0 where
    pub app_config : p.app_config ≡ c
    pub ports_started : p.ports_started ≡ (ports_of c).0
    pub src_mac : p.flow_scheduler.src_mac ≡ (ports_of c).1
    pub workers : p.workers ≡ workers_of env.enabled c c.core_mappings
    pub cores : length p.metrics_collector.per_core_stats ≡ length c.core_mappings

  collector_built :
      (n : ℕ)
      → n ≢ 0
      → n < 2 ^ 32
      → let r = Metrics.initialize d env.now_ns (Metrics.new_collector d env.now_ns) (u32 n) in
        (r.1 ≡ true) × (length r.0.per_core_stats ≡ n)
  unfolding Metrics.initialize Metrics.new_collector
  collector_built n filled small =
      let same : u32 n ≡ n = omega arith in
      let some_cores : (n == 0) ≡ false = ground (arith, filled) in
      rw (same, some_cores) (refl, length-map (λ _. no_stats) (resized n []) ∙ length-resized n)

  length_filled : {A : Type 0} (xs : List A) → xs ≢ [] → length xs ≢ 0
  length_filled [] h e = h refl
  length_filled (x ∷ xs) h e = absurd (omega arith)

  build_components-Built :
      (c : AppConfig)
      → c.core_mappings ≢ []
      → length c.core_mappings < 2 ^ 32
      → (p : Program d g dpdk.Pool) × (build_components d g dpdk env c
            (pools_of c).0
            (ports_of c).0
            (ports_of c).1
          ≡ running p)
        × Built c p
  unfolding build_components Flow.initialize
  build_components-Built c filled small =
      let (counted, cores) =
        collector_built (length c.core_mappings) (length_filled c.core_mappings filled) small in
      rw (counted, build_components, launch_workers-all env.enabled c c.core_mappings [])
        (
          _,
          refl,
          record {
            app_config = refl;
            ports_started = refl;
            src_mac = refl;
            workers = refl;
            cores = cores;
          },
        )

  start_up-Built :
      (c : AppConfig)
      → validate_config c ≡ true
      → (pools_of c).2 ≡ true
      → (ports_of c).2 ≡ true
      → length c.core_mappings < 2 ^ 32
      → (p : Program d g dpdk.Pool) × (start_up d g dpdk env c ≡ running p) × Built c p
  unfolding start_up
  start_up-Built c valid pools ports small =
      rw (valid, pools, ports) (build_components-Built c ((validate_config_iff c).0 valid).2 small)

  start_up_fails :
      (c : AppConfig)
      → (validate_config c ≡ false) ⊎ ((pools_of c).2 ≡ false) ⊎ ((ports_of c).2 ≡ false)
      → start_up d g dpdk env c ≡ exits_with 1
  unfolding start_up
  start_up_fails c (inl invalid) = rw invalid refl
  start_up_fails c (inr h) = elim (Bool-cases (validate_config c)) [
    | inr invalid ↦ rw invalid refl
    | inl valid ↦ elim (Bool-cases (pools_of c).2) [
      | inr no_pools ↦ rw (valid, no_pools) refl
      | inl pools ↦ elim h [
        | inl no_pools ↦ rw (valid, no_pools) refl
        | inr no_ports ↦ rw (valid, pools, no_ports) refl
      ]
    ]
  ]

  start_up_cases :
      (c : AppConfig)
      → length c.core_mappings < 2 ^ 32
      → env.eal_init ≡ true
      → env.dynfield_registered ≡ true
      → (Succeeds c
          × (p : Program d g dpdk.Pool) × (start_up d g dpdk env c ≡ running p)
          × Built c p)
        ⊎ ((¬ Succeeds c) × (start_up d g dpdk env c ≡ exits_with 1))
  start_up_cases c small eal field = elim (Bool-cases (validate_config c)) [
    | inr invalid ↦ inr ((λ h. differs invalid h.2), start_up_fails c (inl invalid))
    | inl valid ↦ elim (Bool-cases (pools_of c).2) [
      | inr no_pools ↦ inr ((λ h. differs no_pools h.3), start_up_fails c (inr (inl no_pools)))
      | inl pools ↦ elim (Bool-cases (ports_of c).2) [
        | inr no_ports ↦ inr ((λ h. differs no_ports h.4), start_up_fails c (inr (inr no_ports)))
        | inl ports ↦
            let (p, starts, built) = start_up-Built c valid pools ports small in
            inl ((eal, field, valid, pools, ports), p, starts, built)
      ]
    ]
  ]

  main_starts :
      (opts : List Opt) (path : Bytes)
      → parse_options opts [] ≡ proceeds path
      → env.eal_init ≡ true
      → env.dynfield_registered ≡ true
      → main d g dpdk env opts ≡ start_up d g dpdk env (load_config env.read path)
  unfolding main after_options
  main_starts opts path e eal field = simp (e, eal, field)

  main_exits :
      (opts : List Opt) (path : Bytes)
      → parse_options opts [] ≡ proceeds path
      → (env.eal_init ≡ false) ⊎ (env.dynfield_registered ≡ false)
      → main d g dpdk env opts ≡ exits_with 1
  unfolding main after_options
  main_exits opts path e (inl no_eal) = simp (e, no_eal)
  main_exits opts path e (inr no_field) = elim (Bool-cases env.eal_init) [
    | inr no_eal ↦ simp (e, no_eal)
    | inl eal ↦ simp (e, eal, no_field)
  ]

  -- Where the options do not end the program and the configuration has fewer than 2^32 core
  -- mappings, either every step of the start-up succeeds, and the program runs with the
  -- configuration, the ports that were started, the first port's MAC address, a running worker for
  -- each mapping whose core is enabled, and a collector of one core for each mapping; or a step
  -- fails, and it exits with 1.
  pub main_cases :
      (opts : List Opt) (path : Bytes)
      → parse_options opts [] ≡ proceeds path
      → (let c = load_config env.read path in length c.core_mappings < 2 ^ 32)
      → (let c = load_config env.read path in
          (Succeeds c
            × (p : Program d g dpdk.Pool) × (main d g dpdk env opts ≡ running p)
            × Built c p)
          ⊎ ((¬ Succeeds c) × (main d g dpdk env opts ≡ exits_with 1)))
  main_cases opts path e small = elim (Bool-cases env.eal_init) [
    | inr no_eal ↦ inr ((λ h. differs no_eal h.0), main_exits opts path e (inl no_eal))
    | inl eal ↦ elim (Bool-cases env.dynfield_registered) [
      | inr no_field ↦ inr ((λ h. differs no_field h.1), main_exits opts path e (inr no_field))
      | inl field ↦
          rw (main_starts opts path e eal field)
            (start_up_cases (load_config env.read path) small eal field)
    ]
  ]
