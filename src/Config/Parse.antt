-- ===== src/Config/Parse.antt =====
-- `parse_from_string` of config_parser.cpp: the defaults, overridden by what the JSON text has.
use ngfwtraffic_gen.Common.{
  ℕ, Bool, true, false, Option, none, some, List, [], ◌∷◌, map, is_empty, Bytes, codes,
  if◌then◌else◌, u16, u32,
}
use ngfwtraffic_gen.Config.{PortConfig, CoreMapping, GrpcConfig, AppConfig, get_default_config}
use ngfwtraffic_gen.Config.Number.{strtoull}
use ngfwtraffic_gen.Config.Scan.{
  starts_with, find_text, find_raw_value, extract_array, split_objects_in_array,
}

unfoldable pub drop_last : Bytes → Bytes
drop_last [] = []
drop_last (c ∷ []) = []
drop_last (c ∷ d ∷ s) = c ∷ drop_last (d ∷ s)

-- The text between the quotes.
unquoted : Bytes → Option Bytes
unfolding drop_last
unquoted [] = none
unquoted (c ∷ []) = none
unquoted (c ∷ d ∷ s) = some (drop_last (d ∷ s))

-- These return what they write to `out`, or `none` for `false`.
unfoldable pub parse_string : Bytes → Bytes → Option Bytes
unfolding unquoted starts_with find_raw_value
parse_string json key =
    let raw = find_raw_value json key in if starts_with (b'"' ∷ []) raw then unquoted raw else none

-- The cast to the type of `out`.
cast_to : (ℕ → ℕ) → Option ℕ → Option ℕ
cast_to cast none = none
cast_to cast (some v) = some (cast v)

unfoldable pub parse_uint : (ℕ → ℕ) → Bytes → Bytes → Option ℕ
unfolding cast_to strtoull find_raw_value
parse_uint cast json key =
    let raw = find_raw_value json key in if is_empty raw then none else cast_to cast (strtoull raw)

abbrev found : Option Bytes → Bool
found none = false
found (some _) = true

unfoldable pub parse_bool : Bytes → Bytes → Option Bool
unfolding find_text find_raw_value
parse_bool json key =
    let raw = find_raw_value json key in
    if found (find_text (codes "true") raw)
    then some true
    else if found (find_text (codes "false") raw)
    then some false
    else none

-- What `out` holds afterwards.
abbrev pub or_keep {ℓ} : {A : Type ℓ} → A → Option A → A
or_keep before none = before
or_keep before (some after) = after

unfoldable pub parse_port : Bytes → PortConfig
unfolding parse_uint
parse_port obj = record {
  port_id = or_keep 0 (parse_uint u16 obj (codes "port_id"));
  nb_rx_queues = or_keep 0 (parse_uint u16 obj (codes "nb_rx_queues"));
  nb_tx_queues = or_keep 0 (parse_uint u16 obj (codes "nb_tx_queues"));
  nb_rx_desc = or_keep 0 (parse_uint u16 obj (codes "nb_rx_desc"));
  nb_tx_desc = or_keep 0 (parse_uint u16 obj (codes "nb_tx_desc"));
}

unfoldable pub parse_mapping : Bytes → CoreMapping
unfolding parse_uint parse_bool
parse_mapping obj = record {
  core_id = or_keep 0 (parse_uint u32 obj (codes "core_id"));
  port_id = or_keep 0 (parse_uint u16 obj (codes "port_id"));
  queue_id = or_keep 0 (parse_uint u16 obj (codes "queue_id"));
  enable_rx = or_keep false (parse_bool obj (codes "enable_rx"));
}

-- An array replaces the defaults, also where it holds no object.
unfoldable pub parse_array : {A : Type 0} → (Bytes → A) → Bytes → List A → Option (List A)
unfolding split_objects_in_array
parse_array parse array before =
    if is_empty array then some before else elim (split_objects_in_array array) [
      | none ↦ none
      | some objects ↦ some (map parse objects)
    ]

unfoldable pub parse_grpc : Bytes → GrpcConfig → GrpcConfig
unfolding parse_string parse_uint starts_with
parse_grpc obj before =
    if starts_with (b'{' ∷ []) obj
    then record {
      listen_address = or_keep before.listen_address (parse_string obj (codes "listen_address"));
      port = or_keep before.port (parse_uint u16 obj (codes "port"));
    }
    else before

infixl 5 ◌>>=◌
abbrev pub ◌>>=◌ : {A B : Type 0} → Option A → (A → Option B) → Option B
none >>= f = none
some a >>= f = f a

-- The configuration that is written to `config_out`; the code returns true. `none` means that a loop
-- ran out of fuel.
unfoldable pub parse_from_string : Bytes → Option AppConfig
parse_from_string json_str = do
  let cfg : AppConfig = get_default_config
  ports ← parse_array parse_port (extract_array json_str (codes "ports")) cfg.ports
  core_mappings ←
      parse_array parse_mapping (extract_array json_str (codes "core_mappings")) cfg.core_mappings
  some (record {
    hugepage_path = or_keep cfg.hugepage_path (parse_string json_str (codes "hugepage_path"));
    num_cores = or_keep cfg.num_cores (parse_uint u32 json_str (codes "num_cores"));
    ports = ports;
    core_mappings = core_mappings;
    grpc_config = parse_grpc (find_raw_value json_str (codes "grpc_config")) cfg.grpc_config;
    mbufs_per_socket =
        or_keep cfg.mbufs_per_socket (parse_uint u32 json_str (codes "mbufs_per_socket"));
    mbuf_cache_size =
        or_keep cfg.mbuf_cache_size (parse_uint u32 json_str (codes "mbuf_cache_size"));
    tx_burst_size = or_keep cfg.tx_burst_size (parse_uint u16 json_str (codes "tx_burst_size"));
    rx_burst_size = or_keep cfg.rx_burst_size (parse_uint u16 json_str (codes "rx_burst_size"));
  })

-- The text of the file, where it can be opened; `none` is false.
unfoldable pub parse_from_file : Option Bytes → Option AppConfig
parse_from_file none = none
parse_from_file (some text) = parse_from_string text
