-- ===== src/Config/Tests.antt =====
-- The defaults of config_parser.cpp and the file of README.md, and the theorems at concrete inputs.
use ngfwtraffic_gen.Common.{
  ◌≡◌, ◌≢◌, ◌↔◌, refl, inl, true, false, ◌||◌, ◌==◌, if◌then◌else◌, some, [], ◌∷◌, ◌++◌, All, Bytes,
  codes, arith,
}
use ngfwtraffic_gen.Config.{
  AppConfig, validate_config, ports_valid, port_exists, mappings_valid, get_default_config,
}
use ngfwtraffic_gen.Config.Omitted.{omitted_descriptors_invalid}
use ngfwtraffic_gen.Config.Parse.{
  parse_from_string, parse_array, parse_port, parse_mapping, parse_grpc, parse_string,
}
use ngfwtraffic_gen.Config.Print.Find.{all}
use ngfwtraffic_gen.Config.Print.RoundTrip.{IsPrintable, parse-print_config}
use ngfwtraffic_gen.Config.Print.{print_config}
use ngfwtraffic_gen.Config.Scan.{is_space, extract_array, split_objects_in_array, find_text}
use ngfwtraffic_gen.Config.Total.{parse_from_string_total}
use ngfwtraffic_gen.Config.Validate.{IsUsable, HasPort, validate_config_iff}

-- The default configuration is valid.
default_valid : validate_config get_default_config ≡ true
unfolding validate_config ports_valid port_exists mappings_valid
default_valid = refl

validate_config_iff_example : (validate_config get_default_config ≡ true) ↔ (
    (get_default_config.num_cores ≢ 0)
    × (get_default_config.ports ≢ [])
    × (get_default_config.core_mappings ≢ [])
    × All IsUsable get_default_config.ports
    × All (HasPort get_default_config.ports) get_default_config.core_mappings)
validate_config_iff_example = validate_config_iff get_default_config

-- Names and texts on lines of their own, and a space before other values and brackets.
layout : Bytes → Bytes
layout [] = b'\n' ∷ []
layout (c ∷ rest) =
    if c == b',' || c == b':' then [] else if c == b'"' then b'\n' ∷ codes "  " else codes " "

layout-spaces : (r : Bytes) → all is_space (layout r) ≡ true
unfolding layout
layout-spaces [] = refl
layout-spaces (c ∷ rest) = ground arith

default-IsPrintable : IsPrintable get_default_config
default-IsPrintable = record {
  path_plain = refl;
  path_no_key = (refl, (refl, (refl, (refl, (refl, (refl, (refl, (refl, tt))))))));
  num_cores = omega arith;
  mbufs_per_socket = omega arith;
  mbuf_cache_size = omega arith;
  tx_burst_size = omega arith;
  rx_burst_size = omega arith;
  ports = (
    record {
      port_id = omega arith;
      nb_rx_queues = omega arith;
      nb_tx_queues = omega arith;
      nb_rx_desc = omega arith;
      nb_tx_desc = omega arith;
    },
    tt,
  );
  core_mappings =
      (record { core_id = omega arith; port_id = omega arith; queue_id = omega arith }, tt);
  address_plain = refl;
  address_no_brace = refl;
  address_no_key = refl;
  grpc_port = omega arith;
}

parse-print_config_example :
    parse_from_string (print_config layout get_default_config) ≡ some get_default_config
parse-print_config_example =
    parse-print_config layout layout-spaces get_default_config default-IsPrintable

parse_from_string_total_example : (c : AppConfig) × (parse_from_string (codes "{[{") ≡ some c)
parse_from_string_total_example = parse_from_string_total (codes "{[{")

-- The file of README.md, on one line.
abbrev readme_file : Bytes
readme_file =
    codes "{ \"hugepage_path\": \"/mnt/huge\", \"num_cores\": 2, \"mbufs_per_socket\": 8192, "
    ++ (codes "\"mbuf_cache_size\": 512, \"tx_burst_size\": 32, \"rx_burst_size\": 32, "
        ++ (codes "\"ports\": [ { \"port_id\": 0, \"nb_rx_queues\": 1, \"nb_tx_queues\": 1, "
            ++ (codes "\"nb_rx_desc\": 1024, \"nb_tx_desc\": 1024 } ], \"core_mappings\": [ { "
                ++ (codes
                      "\"core_id\": 1, \"port_id\": 0, \"queue_id\": 0, \"enable_rx\": false } ], "
                    ++ codes
                        "\"grpc_config\": { \"listen_address\": \"0.0.0.0\", \"port\": 50051 } }"))))

readme_parsed : parse_from_string readme_file ≡ some get_default_config
unfolding parse_from_string parse_array parse_port parse_mapping parse_grpc parse_string
    extract_array
readme_parsed = refl

-- A port that names its queues only.
abbrev short_port : Bytes
short_port = codes "{\"port_id\": 0, \"nb_rx_queues\": 1, \"nb_tx_queues\": 1}"

abbrev short_file : Bytes
short_file = codes "{\"ports\": [" ++ (short_port ++ codes "]}")

short_config : (c : AppConfig) × (parse_from_string short_file ≡ some c)
short_config = parse_from_string_total short_file

omitted_descriptors_invalid_example : validate_config short_config.0 ≡ false
unfolding extract_array split_objects_in_array find_text
omitted_descriptors_invalid_example =
    omitted_descriptors_invalid short_file (short_port ∷ []) short_port short_config.0 (refl, refl)
      (inl refl) (inl refl) short_config.1
