-- ===== src/Config/Print/RoundTrip.antt =====
-- A printed configuration is parsed back.
use ngfwtraffic_gen.Common.{
  ◌<◌, ◌^◌, ◌≡◌, refl, ap, ◌∙◌, true, false, some, List, [], ◌∷◌, map, All, Bytes, codes, u16, u32,
  arith,
}
use ngfwtraffic_gen.Config.{PortConfig, CoreMapping, AppConfig, get_default_config}
use ngfwtraffic_gen.Config.Parse.{
  parse_string, parse_uint, parse_port, parse_mapping, parse_array, parse_from_string,
}
use ngfwtraffic_gen.Config.Print.Array.{object_text, array_text, braces}
use ngfwtraffic_gen.Config.Print.Entry.{
  plain_skips, parse_array-array_text, uint_entry, string_entry, array_entry, object_entry,
  parse_grpc-text,
}
use ngfwtraffic_gen.Config.Print.Entries.{scalar_skips, skips}
use ngfwtraffic_gen.Config.Print.Find.{all, equal}
use ngfwtraffic_gen.Config.Print.Lookup.{items_skip, items_skip-map, items_all-map}
use ngfwtraffic_gen.Config.Print.Parts.{
  PortFits, MappingFits, before, after, u16_small, u32_small, parse_port-text, parse_mapping-text,
  map_back,
}
use ngfwtraffic_gen.Config.Print.Raw.{plain_byte, outside}
use ngfwtraffic_gen.Config.Print.{
  text, Value, port_fields, mapping_fields, grpc_fields, config_entries, print_config,
}
use ngfwtraffic_gen.Config.Scan.{is_space, find_raw_value, extract_array}

-- The keys that are looked up behind the path.
abbrev keys_behind : List Bytes
keys_behind =
    codes "num_cores"
    ∷ codes "mbufs_per_socket"
    ∷ codes "mbuf_cache_size"
    ∷ codes "tx_burst_size"
    ∷ codes "rx_burst_size"
    ∷ codes "ports"
    ∷ codes "core_mappings"
    ∷ codes "grpc_config"
    ∷ []

-- The numbers are within their types. No text holds a quote or a backslash, the address holds no brace,
-- and no text is spelled like a key that is looked up behind it.
pub record IsPrintable (c : AppConfig) : Type 0 where
  pub path_plain : all plain_byte c.hugepage_path ≡ true
  pub path_no_key : All (λ k. equal k c.hugepage_path ≡ false) keys_behind
  pub num_cores : c.num_cores < 2 ^ 32
  pub mbufs_per_socket : c.mbufs_per_socket < 2 ^ 32
  pub mbuf_cache_size : c.mbuf_cache_size < 2 ^ 32
  pub tx_burst_size : c.tx_burst_size < 2 ^ 16
  pub rx_burst_size : c.rx_burst_size < 2 ^ 16
  pub ports : All PortFits c.ports
  pub core_mappings : All MappingFits c.core_mappings
  pub address_plain : all plain_byte c.grpc_config.listen_address ≡ true
  pub address_no_brace : all (outside b'{' b'}') c.grpc_config.listen_address ≡ true
  pub address_no_key : equal (codes "port") c.grpc_config.listen_address ≡ false
  pub grpc_port : c.grpc_config.port < 2 ^ 16

module _ (gap : Bytes → Bytes) (spaces : (r : Bytes) → all is_space (gap r) ≡ true) (c : AppConfig)
    (p : IsPrintable c) where
  abbrev es : List (Bytes × Value)
  es = config_entries c

  path_skips :
      (k : Bytes) → equal k c.hugepage_path ≡ false → scalar_skips k (text c.hugepage_path) ≡ true
  path_skips k h = plain_skips k c.hugepage_path p.path_plain h

  ports_skip :
      (k : Bytes)
      → ((x : PortConfig) → skips (scalar_skips k) k (port_fields x) ≡ true)
      → items_skip k (map port_fields c.ports) ≡ true
  ports_skip k h = items_skip-map k port_fields c.ports h

  mappings_skip :
      (k : Bytes)
      → ((x : CoreMapping) → skips (scalar_skips k) k (mapping_fields x) ≡ true)
      → items_skip k (map mapping_fields c.core_mappings) ≡ true
  mappings_skip k h = items_skip-map k mapping_fields c.core_mappings h

  path_back : parse_string (print_config gap c) (codes "hugepage_path") ≡ some c.hugepage_path
  unfolding print_config
  path_back =
      string_entry gap spaces (codes "hugepage_path") refl [] (after 1 es) refl c.hugepage_path
        p.path_plain

  num_cores_back : parse_uint u32 (print_config gap c) (codes "num_cores") ≡ some c.num_cores
  unfolding print_config
  num_cores_back =
      uint_entry gap spaces (codes "num_cores") refl (before 1 es) (after 2 es)
        (ground (arith, path_skips (codes "num_cores") p.path_no_key.0)) u32 c.num_cores
        (omega (arith, p.num_cores))
      ∙ ap some (u32_small c.num_cores p.num_cores)

  mbufs_per_socket_back :
      parse_uint u32 (print_config gap c) (codes "mbufs_per_socket") ≡ some c.mbufs_per_socket
  unfolding print_config
  mbufs_per_socket_back =
      uint_entry gap spaces (codes "mbufs_per_socket") refl (before 2 es) (after 3 es)
        (ground (arith, path_skips (codes "mbufs_per_socket") p.path_no_key.1.0)) u32
        c.mbufs_per_socket (omega (arith, p.mbufs_per_socket))
      ∙ ap some (u32_small c.mbufs_per_socket p.mbufs_per_socket)

  mbuf_cache_size_back :
      parse_uint u32 (print_config gap c) (codes "mbuf_cache_size") ≡ some c.mbuf_cache_size
  unfolding print_config
  mbuf_cache_size_back =
      uint_entry gap spaces (codes "mbuf_cache_size") refl (before 3 es) (after 4 es)
        (ground (arith, path_skips (codes "mbuf_cache_size") p.path_no_key.1.1.0)) u32
        c.mbuf_cache_size (omega (arith, p.mbuf_cache_size))
      ∙ ap some (u32_small c.mbuf_cache_size p.mbuf_cache_size)

  tx_burst_size_back :
      parse_uint u16 (print_config gap c) (codes "tx_burst_size") ≡ some c.tx_burst_size
  unfolding print_config
  tx_burst_size_back =
      uint_entry gap spaces (codes "tx_burst_size") refl (before 4 es) (after 5 es)
        (ground (arith, path_skips (codes "tx_burst_size") p.path_no_key.1.1.1.0)) u16
        c.tx_burst_size (omega (arith, p.tx_burst_size))
      ∙ ap some (u16_small c.tx_burst_size p.tx_burst_size)

  rx_burst_size_back :
      parse_uint u16 (print_config gap c) (codes "rx_burst_size") ≡ some c.rx_burst_size
  unfolding print_config
  rx_burst_size_back =
      uint_entry gap spaces (codes "rx_burst_size") refl (before 5 es) (after 6 es)
        (ground (arith, path_skips (codes "rx_burst_size") p.path_no_key.1.1.1.1.0)) u16
        c.rx_burst_size (omega (arith, p.rx_burst_size))
      ∙ ap some (u16_small c.rx_burst_size p.rx_burst_size)

  ports_back :
      (g : Bytes → Bytes) × ((r : Bytes) → all is_space (g r) ≡ true)
      × (extract_array (print_config gap c) (codes "ports")
          ≡ array_text g (map port_fields c.ports))
  unfolding print_config
  ports_back =
      array_entry gap spaces (codes "ports") refl (before 6 es) (after 7 es)
        (ground (arith, path_skips (codes "ports") p.path_no_key.1.1.1.1.1.0))
        (map port_fields c.ports)
        (items_all-map (outside b'[' b']') port_fields c.ports (λ x. refl))

  mappings_back :
      (g : Bytes → Bytes) × ((r : Bytes) → all is_space (g r) ≡ true)
      × (extract_array (print_config gap c) (codes "core_mappings")
          ≡ array_text g (map mapping_fields c.core_mappings))
  unfolding print_config
  mappings_back =
      let key : Bytes = codes "core_mappings" in
      array_entry gap spaces key refl (before 7 es) (after 8 es)
        (ground (arith, path_skips key p.path_no_key.1.1.1.1.1.1.0, ports_skip key (λ x. refl)))
        (map mapping_fields c.core_mappings)
        (items_all-map (outside b'[' b']') mapping_fields c.core_mappings (λ x. refl))

  grpc_back :
      (g : Bytes → Bytes) × ((r : Bytes) → all is_space (g r) ≡ true)
      × (find_raw_value (print_config gap c) (codes "grpc_config")
          ≡ object_text g (grpc_fields c.grpc_config))
  unfolding print_config
  grpc_back =
      let key : Bytes = codes "grpc_config" in
      object_entry gap spaces key refl (before 8 es) []
        (ground (
          arith,
          path_skips key p.path_no_key.1.1.1.1.1.1.1.0,
          ports_skip key (λ x. refl),
          mappings_skip key (λ x. refl),
        ))
        (grpc_fields c.grpc_config) (ground (arith, p.address_no_brace))

  ports_parsed :
      (g : Bytes → Bytes) (white : (r : Bytes) → all is_space (g r) ≡ true) (b : List PortConfig)
      → parse_array parse_port (array_text g (map port_fields c.ports)) b ≡ some c.ports
  ports_parsed g white b =
      parse_array-array_text g white parse_port (map port_fields c.ports) b
        (items_all-map braces port_fields c.ports (λ x. refl))
      ∙ ap some (map_back PortFits parse_port port_fields parse_port-text g white c.ports _ p.ports)

  mappings_parsed :
      (g : Bytes → Bytes) (white : (r : Bytes) → all is_space (g r) ≡ true) (b : List CoreMapping)
      → parse_array parse_mapping (array_text g (map mapping_fields c.core_mappings)) b
        ≡ some c.core_mappings
  mappings_parsed g white b =
      parse_array-array_text g white parse_mapping (map mapping_fields c.core_mappings) b
        (items_all-map braces mapping_fields c.core_mappings (λ x. refl))
      ∙ ap some (
          map_back MappingFits parse_mapping mapping_fields parse_mapping-text g white
            c.core_mappings _ p.core_mappings)

  -- A configuration whose numbers fit their types is parsed back from its printed form, a JSON text
  -- with the keys in the order of README.md and any white space at each place between two parts and
  -- at the end, before colons too and of its own at each place, where the path and the address hold
  -- no quote and no backslash, the address no brace, the path is not spelled like a key behind it,
  -- and the address not like `port`.
  pub parse-print_config : parse_from_string (print_config gap c) ≡ some c
  unfolding parse_from_string
  parse-print_config =
      let (gp, sp, ports) = ports_back in
      let (gm, sm, mappings) = mappings_back in
      let (gg, sg, grpc) = grpc_back in
      let g =
        parse_grpc-text gg sg c.grpc_config get_default_config.grpc_config p.address_plain
          p.address_no_key p.grpc_port in
      rw (ports, mappings, grpc)
        (rw (ports_parsed gp sp get_default_config.ports) (
          rw (mappings_parsed gm sm get_default_config.core_mappings) (
            rw
              (
                path_back, num_cores_back, mbufs_per_socket_back, mbuf_cache_size_back,
                tx_burst_size_back, rx_burst_size_back,
              )
              (rw g refl))))
