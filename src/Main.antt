-- ===== src/Main.antt =====
-- main.cpp: what is built at start-up and in which order, and the shutdown. What DPDK, getopt and the file
-- system do is an argument; messages are left out.
mod Ports
pub mod Configured
pub mod Uncounted
pub mod Started
pub mod Shutdown
mod Tests
unfoldable pub use Ports.*
use ngfwtraffic_gen.Common.{
  ℕ, String, Bool, true, false, not, Option, none, some, List, [], ◌∷◌, ◌++◌, map, length, is_empty,
  Bytes, if◌then◌else◌, u32,
}
use ngfwtraffic_gen.Common.Double.{Double}
use ngfwtraffic_gen.Config.{PortConfig, CoreMapping, AppConfig, get_default_config, validate_config}
use ngfwtraffic_gen.Config.Parse.{parse_from_file}
use ngfwtraffic_gen.Flow.{FlowScheduler, new_scheduler}
use ngfwtraffic_gen.Flow
use ngfwtraffic_gen.Imix.{Sampler, ImixEngine, new_engine}
use ngfwtraffic_gen.Mempool.{Dpdk, MempoolManager, new_manager, get_mempool}
use ngfwtraffic_gen.Mempool
use ngfwtraffic_gen.Metrics.{MetricsCollector, new_collector}
use ngfwtraffic_gen.Metrics
use ngfwtraffic_gen.Service.Server.{GrpcServer, new_server}
use ngfwtraffic_gen.Service.Server
use ngfwtraffic_gen.Worker.{WorkerConfig}
use ngfwtraffic_gen.Worker.Thread.{Lifecycle, new_worker, start, stop, join}

-- What `getopt_long` returns for an argument.
pub data Opt : Type 0 where
  config_file log_level : Bytes → Opt
  help unknown : Opt

-- Either the program exits, or it goes on with the path of the configuration file.
pub data Parsed : Type 0 where
  exits : ℕ → Parsed
  proceeds : Bytes → Parsed

unfoldable pub parse_options : List Opt → Bytes → Parsed
parse_options [] config_path = proceeds config_path
parse_options (config_file path ∷ opts) config_path = parse_options opts path
parse_options (log_level level ∷ opts) config_path = parse_options opts config_path
parse_options (help ∷ opts) config_path = exits 0
parse_options (unknown ∷ opts) config_path = exits 1

abbrev or_default : Option AppConfig → AppConfig
or_default none = get_default_config
or_default (some c) = c

-- `read` opens a file.
unfoldable pub load_config : (Bytes → Option Bytes) → Bytes → AppConfig
load_config read config_path =
    if is_empty config_path
    then get_default_config
    else or_default (parse_from_file (read config_path))

-- A worker that was launched, with the port and the queue it uses.
pub record Launched : Type 0 where
  pub worker_config : WorkerConfig
  pub port_id : ℕ
  pub queue_id : ℕ
  pub lifecycle : Lifecycle

abbrev pub worker_config_of : AppConfig → CoreMapping → WorkerConfig
worker_config_of config mapping = record {
  core_id = mapping.core_id;
  tx_burst_size = config.tx_burst_size;
  rx_burst_size = config.rx_burst_size;
  enable_rx = mapping.enable_rx;
  has_timestamp = true;
}

abbrev pub launched : AppConfig → CoreMapping → Lifecycle → Launched
launched config mapping s = record {
  worker_config = worker_config_of config mapping;
  port_id = mapping.port_id;
  queue_id = mapping.queue_id;
  lifecycle = s;
}

-- The loop over the core mappings; `enabled` is `rte_lcore_is_enabled`. The timestamp's offset is not
-- negative here. `none` is the end of the program by a thread that is destroyed while it runs.
unfoldable pub launch_workers :
    (ℕ → Bool) → AppConfig → List CoreMapping → List Launched → Option (List Launched × Bool)
launch_workers enabled config [] workers = some (workers, true)
launch_workers enabled config (mapping ∷ mappings) workers =
    if enabled mapping.core_id
    then elim (start new_worker) [
      | none ↦ none
      | some (s, false) ↦ some (workers, false)
      | some (s, true) ↦
          launch_workers enabled config mappings (workers ++ launched config mapping s ∷ [])
    ]
    else launch_workers enabled config mappings workers

-- What the program holds while it runs.
pub record Program (d : Double) (g : Sampler d.Carrier) (Pool : Type 0) : Type 0 where
  pub app_config : AppConfig
  pub mempool_manager : MempoolManager Pool
  pub ports_started : List ℕ
  pub flow_scheduler : FlowScheduler
  pub imix_engine : ImixEngine g
  pub metrics_collector : MetricsCollector d.Carrier
  pub grpc_server : GrpcServer
  pub workers : List Launched

-- The program exits with a code before it runs, is ended by the library, or runs.
pub data Startup (d : Double) (g : Sampler d.Carrier) (Pool : Type 0) : Type 0 where
  exits_with : ℕ → Startup d g Pool
  terminated : Startup d g Pool
  running : Program d g Pool → Startup d g Pool

-- What the environment does: DPDK's initialisation, the offset of the timestamp field (`false` for a
-- negative one), the file system, the sockets and the names of pools in use, the ports, the gRPC
-- library, and the cores.
pub record Environment (dpdk : Dpdk) : Type 0 where
  pub eal_init : Bool
  pub dynfield_registered : Bool
  pub read : Bytes → Option Bytes
  pub socket_count : ℕ
  pub pool_names : List String
  pub ethdev : Ethdev dpdk.Pool
  pub grpc_builds : Bool
  pub enabled : ℕ → Bool
  pub now_s : ℕ
  pub now_ns : ℕ

module _ (d : Double) (g : Sampler d.Carrier) (dpdk : Dpdk) (env : Environment dpdk) where
  open dpdk use {Pool}

  abbrev pub serve : AppConfig → GrpcServer
  serve c =
      let (s, built) =
        Server.initialize env.grpc_builds c.grpc_config.listen_address c.grpc_config.port
          new_server in
      if built then (Server.start s).0 else s

  abbrev with_workers : Program d g Pool → Option (List Launched × Bool) → Startup d g Pool
  with_workers p none = terminated
  with_workers p (some (workers, false)) = exits_with 1
  with_workers p (some (workers, true)) = running (record p { workers = workers })

  -- The components after the ports, in the order in which they are built.
  unfoldable pub build_components :
      AppConfig → MempoolManager Pool → List ℕ → List ℕ → Startup d g Pool
  build_components c pools ports mac =
      let (s, initialized) = Flow.initialize (new_scheduler []) mac in
      let (m, counted) =
        Metrics.initialize d env.now_ns (new_collector d env.now_ns)
          (u32 (length c.core_mappings)) in
      if not initialized
      then exits_with 1
      else if not counted
      then exits_with 1
      else with_workers
          (record {
            app_config = c;
            mempool_manager = pools;
            ports_started = ports;
            flow_scheduler = s;
            imix_engine = new_engine d g env.now_s;
            metrics_collector = m;
            grpc_server = serve c;
            workers = [];
          })
          (launch_workers env.enabled c c.core_mappings [])

  -- From the configuration on.
  unfoldable pub start_up : AppConfig → Startup d g Pool
  start_up c =
      if not (validate_config c)
      then exits_with 1
      else let (pools, names, initialized) =
          Mempool.initialize dpdk env.socket_count c.mbufs_per_socket c.mbuf_cache_size "mbuf_pool"
            env.pool_names new_manager in
        if not initialized
        then exits_with 1
        else let (ports, mac, configured) =
            configure_ports env.ethdev (get_mempool pools) c.ports in
          if not configured then exits_with 1 else build_components c pools ports mac

  after_options : Parsed → Startup d g Pool
  after_options (exits code) = exits_with code
  after_options (proceeds config_path) =
      if not env.eal_init
      then exits_with 1
      else if not env.dynfield_registered
      then exits_with 1
      else start_up (load_config env.read config_path)

  unfoldable pub main : List Opt → Startup d g Pool
  unfolding after_options
  main opts = after_options (parse_options opts [])
