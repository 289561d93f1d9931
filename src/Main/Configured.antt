-- ===== src/Main/Configured.antt =====
-- What `configure_ports` of main.cpp leaves.
use mathlib.Core.List.{append-nil, append_assoc}
use ngfwtraffic_gen.Common.{
  ℕ, ◌≡◌, ◌≢◌, refl, ◌∙◌, sym, inl, inr, ◌⊎◌, true, false, Option, none, some, List, [], ◌∷◌, ◌++◌,
  map, All, leb, ◌==◌, if◌then◌else◌, arith, Bool-cases, differs, Option-cases,
}
use ngfwtraffic_gen.Config.{PortConfig}
use ngfwtraffic_gen.Main.{
  Ethdev, PortState, no_mac, port_comes_up, port_up, configure_each, configure_ports,
}

module _ {Pool : Type 0} (e : Ethdev Pool) where
  -- The configured ports that the machine has.
  pub present : List PortConfig → List PortConfig
  present [] = []
  present (port ∷ ports) =
      let rest = present ports in if leb e.dev_count_avail port.port_id then rest else port ∷ rest

  -- The MAC address of the first port that has one.
  pub first_mac : List ℕ → List PortConfig → List ℕ
  first_mac mac [] = mac
  first_mac mac (port ∷ ports) = elim (e.macaddr_get port.port_id) [
    | none ↦ first_mac mac ports
    | some found ↦ found
  ]

module _ {Pool : Type 0} (e : Ethdev Pool) (get_mempool : ℕ → Option Pool) where
  abbrev pub ComesUp : PortConfig → Type 0
  ComesUp port = port_comes_up e get_mempool port ≡ true

  abbrev start : PortState
  start = record { started = []; port_mac = no_mac; first_port = true }

  -- The ports are brought up one after the other.
  all_up : List PortConfig → PortState → PortState
  all_up [] s = s
  all_up (port ∷ ports) s = all_up ports (port_up e get_mempool port s)

  configure_each_cases :
      (ports : List PortConfig) (s : PortState)
      → (All ComesUp (present e ports)
          × (configure_each e get_mempool ports s ≡ (all_up (present e ports) s, true)))
        ⊎ ((¬ All ComesUp (present e ports)) × ((configure_each e get_mempool ports s).1 ≡ false))
  unfolding configure_each present all_up
  configure_each_cases [] s = inl (tt, refl)
  configure_each_cases (port ∷ ports) s = elim (Bool-cases (leb e.dev_count_avail port.port_id)) [
    | inl missing ↦ rw missing (configure_each_cases ports s)
    | inr there ↦ elim (Bool-cases (port_comes_up e get_mempool port)) [
      | inr down ↦ rw (there, down) (inr ((λ h. differs refl h.0), refl))
      | inl up ↦ elim (configure_each_cases ports (port_up e get_mempool port s)) [
        | inl (ups, done) ↦ rw (there, up) (inl ((refl, ups), done))
        | inr (downs, failed) ↦ rw (there, up) (inr ((λ h. downs h.1), failed))
      ]
    ]
  ]

  port_up-started :
      (port : PortConfig) (s : PortState)
      → (port_up e get_mempool port s).started ≡ s.started ++ port.port_id ∷ []
  port_up-started port s = elim (Option-cases (e.macaddr_get port.port_id)) [
    | inl none_read ↦ rw none_read refl
    | inr (mac, read) ↦ elim (Bool-cases s.first_port) [
      | inl first ↦ rw (read, first) refl
      | inr later ↦ rw (read, later) refl
    ]
  ]

  all_up-started :
      (ports : List PortConfig) (s : PortState)
      → (all_up ports s).started ≡ s.started ++ map (λ p. p.port_id) ports
  unfolding all_up
  all_up-started [] s = sym (append-nil s.started)
  all_up-started (port ∷ ports) s =
      all_up-started ports (port_up e get_mempool port s)
      ∙ (rw (port_up-started port s)
          (append_assoc s.started (port.port_id ∷ []) (map (λ p. p.port_id) ports)))

  -- A port that is not the first to have an address leaves the first one's.
  port_up_later :
      (port : PortConfig) (s : PortState)
      → s.first_port ≡ false
      → ((port_up e get_mempool port s).port_mac ≡ s.port_mac)
        × ((port_up e get_mempool port s).first_port ≡ false)
  port_up_later port s later = elim (Option-cases (e.macaddr_get port.port_id)) [
    | inl none_read ↦ rw none_read (refl, later)
    | inr (mac, read) ↦ rw (read, later) (refl, refl)
  ]

  all_up_later :
      (ports : List PortConfig) (s : PortState)
      → s.first_port ≡ false
      → (all_up ports s).port_mac ≡ s.port_mac
  unfolding all_up
  all_up_later [] s later = refl
  all_up_later (port ∷ ports) s later =
      let (same, still) = port_up_later port s later in
      all_up_later ports (port_up e get_mempool port s) still ∙ same

  all_up-first_mac :
      (ports : List PortConfig) (s : PortState)
      → s.first_port ≡ true
      → (all_up ports s).port_mac ≡ first_mac e s.port_mac ports
  unfolding all_up first_mac
  all_up-first_mac [] s first = refl
  all_up-first_mac (port ∷ ports) s first = elim (Option-cases (e.macaddr_get port.port_id)) [
    | inl none_read ↦ rw (all_up, first_mac, none_read) (all_up-first_mac ports _ first)
    | inr (mac, read) ↦ rw (all_up, first_mac, read, first) (all_up_later ports _ refl)
  ]

  -- Where there is an Ethernet port and each configured port that is there comes up,
  -- `configure_ports` succeeds, has started these ports in order, and has the MAC address of the
  -- first of them that has one, or zeros; else it fails.
  pub configure_ports_cases :
      (ports : List PortConfig)
      → ((e.dev_count_avail ≢ 0)
          × All ComesUp (present e ports)
          × (configure_ports e get_mempool ports ≡ (
            map (λ p. p.port_id) (present e ports),
            first_mac e no_mac (present e ports),
            true,
          )))
        ⊎ ((¬ ((e.dev_count_avail ≢ 0) × All ComesUp (present e ports)))
            × ((configure_ports e get_mempool ports).2 ≡ false))
  unfolding configure_ports
  configure_ports_cases ports = elim (Bool-cases (e.dev_count_avail == 0)) [
    | inl no_ports ↦ rw no_ports (inr ((λ h. h.0 (ground (arith, no_ports))), refl))
    | inr some_ports ↦ elim (configure_each_cases ports start) [
      | inl (ups, done) ↦
          rw
            (
              some_ports,
              done,
              all_up-started (present e ports) start,
              all_up-first_mac (present e ports) start refl,
            )
            (inl ((λ z. ground (arith, some_ports, z)), ups, refl))
      | inr (downs, failed) ↦ rw (some_ports, failed) (inr ((λ h. downs h.1), refl))
    ]
  ]
