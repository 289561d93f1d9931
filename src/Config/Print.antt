-- ===== src/Config/Print.antt =====
-- The configuration file that README.md shows, printed from a configuration: an independent
-- description of what config_parser.cpp reads. Before every part stands some white space, which `gap`
-- tells from the text that follows. Each printer gets this text.
pub mod Find
pub mod Decimal
pub mod Entries
pub mod Raw
pub mod Objects
pub mod Array
pub mod Lookup
pub mod Parts
pub mod Entry
pub mod RoundTrip
use ngfwtraffic_gen.Common.{
  ℕ, zero, suc, ◌+◌, ◌/◌, ◌%◌, Bool, true, false, not, ◌&&◌, ◌||◌, List, [], ◌∷◌, ◌++◌, map, Bytes,
  codes, ltb, leb, ◌==◌, if◌then◌else◌,
}
use ngfwtraffic_gen.Config.{PortConfig, CoreMapping, GrpcConfig, AppConfig}

pub data Scalar : Type 0 where
  number : ℕ → Scalar
  text : Bytes → Scalar
  flag : Bool → Scalar

abbrev pub Fields : Type 0
Fields = List (Bytes × Scalar)

pub data Value : Type 0 where
  scalar : Scalar → Value
  items : List Fields → Value
  object : Fields → Value

-- A number of at most `fuel` digits.
unfoldable pub digits : ℕ → ℕ → Bytes → Bytes
digits zero n rest = rest
digits (suc fuel) n rest =
    let more = digits fuel (n / 10) ((b'0' + n % 10) ∷ rest) in
    if ltb n 10 then (b'0' + n) ∷ rest else more

abbrev pub flag_text : Bool → Bytes
flag_text true = codes "true"
flag_text false = codes "false"

-- `gap` is the white space in front of a text that follows; no two places have the same text behind them, so
-- each place may have its own.
abbrev pub pad : (Bytes → Bytes) → Bytes → Bytes
pad gap rest = gap rest ++ rest

-- The white space of a part that `t` follows.
abbrev pub shift : (Bytes → Bytes) → Bytes → (Bytes → Bytes)
shift gap t = λ s. gap (s ++ t)

module _ (gap : Bytes → Bytes) where
  abbrev pub sep {ℓ} : {A : Type ℓ} → List A → Bytes → Bytes
  sep [] rest = rest
  sep (_ ∷ _) rest = b',' ∷ (pad gap rest)

  abbrev pub print_scalar : Scalar → Bytes → Bytes
  print_scalar (number n) rest = digits 20 n (pad gap rest)
  print_scalar (text v) rest = b'"' ∷ (v ++ (b'"' ∷ (pad gap rest)))
  print_scalar (flag b) rest = flag_text b ++ (pad gap rest)

  -- Entries of an object.
  abbrev pub print_entries : {V : Type 0} → (V → Bytes → Bytes) → List (Bytes × V) → Bytes → Bytes
  print_entries print [] rest = rest
  print_entries print ((key, v) ∷ es) rest =
      b'"'
      ∷ (key ++ (b'"' ∷ pad gap (b':' ∷ pad gap (print v (sep es (print_entries print es rest))))))

  abbrev pub print_object : {V : Type 0} → (V → Bytes → Bytes) → List (Bytes × V) → Bytes → Bytes
  print_object print es rest = b'{' ∷ (pad gap (print_entries print es (b'}' ∷ rest)))

  abbrev pub print_items : List Fields → Bytes → Bytes
  print_items [] rest = rest
  print_items (fs ∷ more) rest =
      print_object print_scalar fs (pad gap (sep more (print_items more rest)))

  abbrev pub print_value : Value → Bytes → Bytes
  print_value (scalar s) rest = print_scalar s rest
  print_value (items os) rest = b'[' ∷ (pad gap (print_items os (b']' ∷ (pad gap rest))))
  print_value (object fs) rest = print_object print_scalar fs (pad gap rest)

abbrev pub port_fields : PortConfig → Fields
port_fields p =
    (codes "port_id", number p.port_id)
    ∷ (codes "nb_rx_queues", number p.nb_rx_queues)
    ∷ (codes "nb_tx_queues", number p.nb_tx_queues)
    ∷ (codes "nb_rx_desc", number p.nb_rx_desc)
    ∷ (codes "nb_tx_desc", number p.nb_tx_desc)
    ∷ []

abbrev pub mapping_fields : CoreMapping → Fields
mapping_fields m =
    (codes "core_id", number m.core_id)
    ∷ (codes "port_id", number m.port_id)
    ∷ (codes "queue_id", number m.queue_id)
    ∷ (codes "enable_rx", flag m.enable_rx)
    ∷ []

abbrev pub grpc_fields : GrpcConfig → Fields
grpc_fields g = (codes "listen_address", text g.listen_address) ∷ (codes "port", number g.port) ∷ []

abbrev pub config_entries : AppConfig → List (Bytes × Value)
config_entries c =
    (codes "hugepage_path", scalar (text c.hugepage_path))
    ∷ (codes "num_cores", scalar (number c.num_cores))
    ∷ (codes "mbufs_per_socket", scalar (number c.mbufs_per_socket))
    ∷ (codes "mbuf_cache_size", scalar (number c.mbuf_cache_size))
    ∷ (codes "tx_burst_size", scalar (number c.tx_burst_size))
    ∷ (codes "rx_burst_size", scalar (number c.rx_burst_size))
    ∷ (codes "ports", items (map port_fields c.ports))
    ∷ (codes "core_mappings", items (map mapping_fields c.core_mappings))
    ∷ (codes "grpc_config", object (grpc_fields c.grpc_config))
    ∷ []

pub print_config : (Bytes → Bytes) → AppConfig → Bytes
print_config gap c = print_object gap (print_value gap) (config_entries c) (gap [])
