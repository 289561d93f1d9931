-- ===== src/Config/Validate.antt =====
-- Which configurations `validate_config` of config_parser.cpp accepts.
use ngfwtraffic_gen.Common.{
  ◌≡◌, ◌≢◌, ◌↔◌, ◌⊎◌, refl, ap, inl, inr, true, false, List, [], ◌∷◌, ◌==◌, ==_iff, All, In,
  is_empty, arith, Bool-cases,
}
use ngfwtraffic_gen.Config.{
  PortConfig, CoreMapping, AppConfig, ports_valid, port_exists, mappings_valid, validate_config,
}

-- A port with a queue, and with room for descriptors both ways.
pub record IsUsable (port : PortConfig) : Type 0 where
  pub has_queue : (port.nb_rx_queues ≢ 0) ⊎ (port.nb_tx_queues ≢ 0)
  pub rx_desc : port.nb_rx_desc ≢ 0
  pub tx_desc : port.nb_tx_desc ≢ 0

-- A core mapping whose port is configured.
abbrev pub HasPort : List PortConfig → CoreMapping → Type 0
HasPort ports mapping = (port : PortConfig) × In port ports × (port.port_id ≡ mapping.port_id)

ports_valid_iff : (ports : List PortConfig) → (ports_valid ports ≡ true) ↔ All IsUsable ports
unfolding ports_valid
ports_valid_iff [] = (λ _. tt, λ _. refl)
ports_valid_iff (port ∷ ports) = (
  λ h. (ground arith, (ports_valid_iff ports).0 (ground arith)),
  λ (u, a). ground (arith, (ports_valid_iff ports).1 a),
)

port_exists_iff :
    (mapping : CoreMapping) (ports : List PortConfig)
    → (port_exists mapping.port_id ports ≡ true) ↔ HasPort ports mapping
unfolding port_exists
port_exists_iff mapping [] = (λ h. absurd (ground arith), λ (p, m, e). absurd m)
port_exists_iff mapping (port ∷ ports) = (
  λ h. elim (Bool-cases (port.port_id == mapping.port_id)) [
    | inl e ↦ (port, inl refl, (==_iff _ _).0 e)
    | inr e ↦ let (p, m, q) = (port_exists_iff mapping ports).0 (ground arith) in (p, inr m, q)
  ],
  λ (p, m, e). elim m [
    | inl here ↦ ground (arith, ap (λ (q : PortConfig). q.port_id) here)
    | inr there ↦ ground (arith, (port_exists_iff mapping ports).1 (p, there, e))
  ],
)

mappings_valid_iff :
    (ports : List PortConfig) (mappings : List CoreMapping)
    → (mappings_valid ports mappings ≡ true) ↔ All (HasPort ports) mappings
unfolding mappings_valid
mappings_valid_iff ports [] = (λ _. tt, λ _. refl)
mappings_valid_iff ports (mapping ∷ mappings) = (
  λ h. (
    (port_exists_iff mapping ports).0 (ground arith),
    (mappings_valid_iff ports mappings).0 (ground arith),
  ),
  λ (p, a).
      ground (arith, (port_exists_iff mapping ports).1 p, (mappings_valid_iff ports mappings).1 a),
)

filled {ℓ} : {A : Type ℓ} (xs : List A) → (is_empty xs ≡ false) ↔ (xs ≢ [])
filled [] = (λ h. absurd (ground arith), λ h. absurd (h refl))
filled (x ∷ xs) = (λ h e. cc, λ h. refl)

-- A configuration is valid exactly when its number of cores is not 0, it has a port and a core
-- mapping, each port has a queue and descriptors both ways, and each mapping's port is configured.
pub validate_config_iff :
    (config : AppConfig)
    → (validate_config config ≡ true) ↔ (
        (config.num_cores ≢ 0)
        × (config.ports ≢ [])
        × (config.core_mappings ≢ [])
        × All IsUsable config.ports
        × All (HasPort config.ports) config.core_mappings)
unfolding validate_config
validate_config_iff config =
    let ports = filled config.ports in
    let mappings = filled config.core_mappings in
    let good = ports_valid_iff config.ports in
    let mapped = mappings_valid_iff config.ports config.core_mappings in
    (
      λ h. (
        ground arith,
        ports.0 (ground arith),
        mappings.0 (ground arith),
        good.0 (ground arith),
        mapped.0 (ground arith),
      ),
      λ (n, p, m, a, b). ground (arith, n, ports.1 p, mappings.1 m, good.1 a, mapped.1 b),
    )
