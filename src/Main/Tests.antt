-- ===== src/Main/Tests.antt =====
-- Runs of main.cpp, and its theorems at concrete inputs.
use ngfwtraffic_gen.Common.{
  ℕ, ◌≡◌, ◌≢◌, ◌⊎◌, refl, true, none, some, List, [], ◌∷◌, All, codes, to_string, arith,
}
use ngfwtraffic_gen.Common.Double.{fractions}
use ngfwtraffic_gen.Common.{map, false, ◌⊎◌, ◌≢◌}
use ngfwtraffic_gen.Config.{
  PortConfig, get_default_config, validate_config, ports_valid, port_exists, mappings_valid,
}
use ngfwtraffic_gen.Flow.{new_scheduler}
use ngfwtraffic_gen.Imix.{new_engine}
use ngfwtraffic_gen.Imix.Sample.{counter}
use ngfwtraffic_gen.Main.{
  Opt, log_level, help, parse_options, load_config, Program, running, exits_with, Environment, main,
  Ethdev, setup_queues, port_comes_up, configure_each, configure_ports,
}
use ngfwtraffic_gen.Main.Shutdown.{
  signal_handler, end_of_main, three_steps, Ended, workers_of-Live, end_of_main-signal_handler,
}
use ngfwtraffic_gen.Main.Configured.{ComesUp, present, first_mac, configure_ports_cases}
use ngfwtraffic_gen.Main.Started.{Succeeds, Built, main_cases, workers_of}
use ngfwtraffic_gen.Main.Uncounted.{RunsUncounted, default_uncounted}
use ngfwtraffic_gen.Mempool.{Dpdk, new_manager, create_mempool, find_pool, get_mempool}
use ngfwtraffic_gen.Mempool
use ngfwtraffic_gen.Metrics.{new_collector}
use ngfwtraffic_gen.Service.Server.{serving}

-- A machine on which every call succeeds; a pool is its socket.
abbrev machine : Dpdk
machine = record {
  Pool = ℕ;
  pool_create_by_ops = λ names name nb_mbufs cache_size socket_id. some socket_id;
  pool_create = λ names name nb_mbufs cache_size socket_id. some socket_id;
  avail_count = λ p. 8192;
  in_use_count = λ p. 0;
  total_count = λ p. 8192;
}

abbrev ethdev : Ethdev ℕ
ethdev = record {
  dev_count_avail = 1;
  max_numa_nodes = 32;
  dev_configure = λ port. true;
  dev_socket_id = λ port_id. some 0;
  rx_queue_setup = λ port_id q nb_desc socket_id pool. true;
  tx_queue_setup = λ port_id q nb_desc socket_id. true;
  dev_start = λ port_id. true;
  macaddr_get = λ port_id. some (2 ∷ 0 ∷ 0 ∷ 0 ∷ 0 ∷ 1 ∷ []);
}

abbrev environment : Environment machine
environment = record {
  eal_init = true;
  dynfield_registered = true;
  read = λ path. none;
  socket_count = 2;
  pool_names = [];
  ethdev = ethdev;
  grpc_builds = true;
  enabled = λ core_id. true;
  now_s = 1;
  now_ns = 1000000000;
}

abbrev quiet_options : List Opt
quiet_options = log_level (codes "3") ∷ []

default-Succeeds : Succeeds fractions counter machine environment get_default_config
unfolding validate_config ports_valid port_exists mappings_valid Mempool.initialize create_mempool
    get_mempool find_pool configure_ports configure_each port_comes_up setup_queues to_string
default-Succeeds = (refl, refl, refl, refl, refl)

help_exits : main fractions counter machine environment (help ∷ []) ≡ exits_with 0
unfolding main parse_options
help_exits = refl

main_cases_example :
    (Succeeds fractions counter machine environment get_default_config
      × (p : Program fractions counter ℕ) × (main fractions counter machine environment
            quiet_options
          ≡ running p)
      × Built fractions counter machine environment get_default_config p)
    ⊎ ((¬ Succeeds fractions counter machine environment get_default_config)
        × (main fractions counter machine environment quiet_options ≡ exits_with 1))
unfolding parse_options load_config
main_cases_example =
    main_cases fractions counter machine environment quiet_options [] refl (omega arith)

default_uncounted_example :
    RunsUncounted fractions counter machine environment
      (main fractions counter machine environment quiet_options)
unfolding parse_options
default_uncounted_example =
    default_uncounted fractions counter machine environment quiet_options refl default-Succeeds refl

-- The program that runs with the default configuration.
abbrev program : Program fractions counter ℕ
program = record {
  app_config = get_default_config;
  mempool_manager = new_manager;
  ports_started = 0 ∷ [];
  flow_scheduler = new_scheduler [];
  imix_engine = new_engine fractions counter 1;
  metrics_collector = new_collector fractions 0;
  grpc_server = record { server = serving; server_address = []; running = true };
  workers = workers_of (λ core_id. true) get_default_config get_default_config.core_mappings;
}

end_of_main-signal_handler_example :
    (q : Program fractions counter ℕ) × (end_of_main
        (three_steps (λ w. true))
        (signal_handler program)
      ≡ some (q, 0 ∷ []))
    × All Ended q.workers
    × (q.grpc_server.server ≢ serving)
end_of_main-signal_handler_example =
    end_of_main-signal_handler (λ w. true) program
      (workers_of-Live (λ core_id. true) get_default_config get_default_config.core_mappings)

-- The second of two configured ports is not there.
abbrev two_ports : List PortConfig
two_ports =
    record { port_id = 0; nb_rx_queues = 1; nb_tx_queues = 1; nb_rx_desc = 1024; nb_tx_desc = 1024 }
    ∷ record {
      port_id = 7;
      nb_rx_queues = 1;
      nb_tx_queues = 1;
      nb_rx_desc = 1024;
      nb_tx_desc = 1024;
    }
    ∷ []

one_started :
    configure_ports ethdev (λ socket_id. some 0) two_ports
    ≡ (0 ∷ [], 2 ∷ 0 ∷ 0 ∷ 0 ∷ 0 ∷ 1 ∷ [], true)
unfolding configure_ports port_comes_up setup_queues
one_started = refl

configure_ports_cases_example :
    ((ethdev.dev_count_avail ≢ 0)
      × All (ComesUp ethdev (λ socket_id. some 0)) (present ethdev two_ports)
      × (configure_ports ethdev (λ socket_id. some 0) two_ports ≡ (
        map (λ p. p.port_id) (present ethdev two_ports),
        first_mac ethdev (0 ∷ 0 ∷ 0 ∷ 0 ∷ 0 ∷ 0 ∷ []) (present ethdev two_ports),
        true,
      )))
    ⊎ ((¬ (
          (ethdev.dev_count_avail ≢ 0)
          × All (ComesUp ethdev (λ socket_id. some 0)) (present ethdev two_ports)))
        × ((configure_ports ethdev (λ socket_id. some 0) two_ports).2 ≡ false))
configure_ports_cases_example = configure_ports_cases ethdev (λ socket_id. some 0) two_ports
