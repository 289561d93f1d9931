-- ===== src/Config.antt =====
-- util/config/config_parser.hpp and config_parser.cpp: the configuration, its defaults and its
-- validation. The child Scan has the JSON scanner, and Parse reads a configuration by it.
pub mod Scan
pub mod Number
pub mod Parse
pub mod Print
pub mod Total
pub mod Omitted
pub mod Validate
mod Tests
use ngfwtraffic_gen.Common.{
  ℕ, Bytes, codes, Bool, true, false, ◌&&◌, ◌||◌, List, [], ◌∷◌, ◌==◌, is_empty, if◌then◌else◌,
}

pub record PortConfig : Type 0 where
  pub port_id : ℕ
  pub nb_rx_queues : ℕ
  pub nb_tx_queues : ℕ
  pub nb_rx_desc : ℕ
  pub nb_tx_desc : ℕ

pub record CoreMapping : Type 0 where
  pub core_id : ℕ
  pub port_id : ℕ
  pub queue_id : ℕ
  pub enable_rx : Bool

pub record GrpcConfig : Type 0 where
  pub listen_address : Bytes
  pub port : ℕ

pub record AppConfig : Type 0 where
  pub hugepage_path : Bytes
  pub num_cores : ℕ
  pub ports : List PortConfig
  pub core_mappings : List CoreMapping
  pub grpc_config : GrpcConfig
  pub mbufs_per_socket : ℕ
  pub mbuf_cache_size : ℕ
  pub tx_burst_size : ℕ
  pub rx_burst_size : ℕ

-- The loop over the ports, which returns at the first bad one.
unfoldable pub ports_valid : List PortConfig → Bool
ports_valid [] = true
ports_valid (port ∷ ports) =
    let rest = ports_valid ports in
    if port.nb_rx_queues == 0 && port.nb_tx_queues == 0
    then false
    else if port.nb_rx_desc == 0 || port.nb_tx_desc == 0
    then false
    else rest

unfoldable pub port_exists : ℕ → List PortConfig → Bool
port_exists port_id [] = false
port_exists port_id (port ∷ ports) =
    let rest = port_exists port_id ports in if port.port_id == port_id then true else rest

unfoldable pub mappings_valid : List PortConfig → List CoreMapping → Bool
mappings_valid ports [] = true
mappings_valid ports (mapping ∷ mappings) =
    let rest = mappings_valid ports mappings in
    if port_exists mapping.port_id ports then rest else false

unfoldable pub validate_config : AppConfig → Bool
validate_config config =
    if config.num_cores == 0
    then false
    else if is_empty config.ports
    then false
    else if is_empty config.core_mappings
    then false
    else if ports_valid config.ports
    then mappings_valid config.ports config.core_mappings
    else false

abbrev pub get_default_config : AppConfig
get_default_config = record {
  hugepage_path = codes "/mnt/huge";
  num_cores = 2;
  ports =
      record {
        port_id = 0;
        nb_rx_queues = 1;
        nb_tx_queues = 1;
        nb_rx_desc = 1024;
        nb_tx_desc = 1024;
      }
      ∷ [];
  core_mappings = record { core_id = 1; port_id = 0; queue_id = 0; enable_rx = false } ∷ [];
  grpc_config = record { listen_address = codes "0.0.0.0"; port = 50051 };
  mbufs_per_socket = 8192;
  mbuf_cache_size = 512;
  tx_burst_size = 32;
  rx_burst_size = 32;
}
