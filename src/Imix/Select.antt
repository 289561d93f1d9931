-- ===== src/Imix/Select.antt =====
-- The engine of imix_engine.cpp: what it has accepted, and what it selects.
use ngfwtraffic_gen.Common.{
  ℕ, ◌≤◌, ◌<◌, ◌≡◌, refl, ◌⊎◌, inl, inr, true, false, some, List, [], ◌∷◌, map, length, length-map,
  All-get_elem?, get_elem?, is_empty, String, arith, Bool-cases,
}
use ngfwtraffic_gen.Common.Double.{Double}
use ngfwtraffic_gen.Imix.{
  ImixEntryInternal, ImixEngine, Sampler, validate_entries, new_engine, build_distribution,
  configure, select_next_packet_size, select_next_protocol, reset,
}
use ngfwtraffic_gen.Imix.Validate.{IsSound, IsSupported, validate_entries_iff}

-- What is relied on of `std::discrete_distribution`: an index below the number of weights.
pub record DrawsInRange {W : Type 0} (g : Sampler W) : Type 0 where
  pub draw_lt :
      (w : W) (ws : List W) (r : g.Rng) → (g.draw (g.of_weights (w ∷ ws)) r).0 < length (w ∷ ws)

module _ (d : Double) (g : Sampler d.Carrier) where
  -- A configured engine holds a valid profile and the distribution of its shares.
  pub record Inv (m : ImixEngine g) : Type 0 where
    pub accepted : m.configured ≡ true → validate_entries d m.entries ≡ true
    pub weighted :
        m.configured ≡ true → m.size_distribution ≡ g.of_weights (map (λ e. e.percentage) m.entries)

  new_engine-Inv : (now_s : ℕ) → Inv (new_engine d g now_s)
  unfolding new_engine
  new_engine-Inv now_s = record { accepted = λ e. cc; weighted = λ e. cc }

  reset-Inv : (m : ImixEngine g) → Inv (reset d g m)
  unfolding reset
  reset-Inv m = record { accepted = λ e. cc; weighted = λ e. cc }

  configured-Inv :
      (m : ImixEngine g) (entries : List (ImixEntryInternal d.Carrier)) (target_pps : ℕ)
      → validate_entries d entries ≡ true
      → Inv
          (record (build_distribution d g
            (record m { entries = entries; target_pps = target_pps })) { configured = true })
  unfolding build_distribution validate_entries
  configured-Inv m [] target_pps v = cc
  configured-Inv m (e ∷ entries) target_pps v = record { accepted = λ _. v; weighted = λ _. refl }

  configure-Inv :
      (m : ImixEngine g) (entries : List (ImixEntryInternal d.Carrier)) (target_pps : ℕ)
      → Inv m
      → Inv (configure d g m entries target_pps).0
  unfolding configure
  configure-Inv m entries target_pps v = elim (Bool-cases (validate_entries d entries)) [
    | inl good ↦ rw good (configured-Inv m entries target_pps good)
    | inr bad ↦ rw bad v
  ]

  pub select_size-Inv : (m : ImixEngine g) → Inv m → Inv (select_next_packet_size d g m).0
  unfolding select_next_packet_size
  select_size-Inv m v = ground arith

  select_protocol-Inv : (m : ImixEngine g) → Inv m → Inv (select_next_protocol d g m).0
  unfolding select_next_protocol
  select_protocol-Inv m v = ground arith

  module _ (documented : DrawsInRange g) where
    draw-lt :
        (m : ImixEngine g) (e : ImixEntryInternal d.Carrier)
        (entries : List (ImixEntryInternal d.Carrier))
        → m.size_distribution ≡ g.of_weights (map (λ x. x.percentage) (e ∷ entries))
        → (g.draw m.size_distribution m.rng).0 < length (e ∷ entries)
    draw-lt m e entries w = rw w (
        omega (
          arith,
          documented.draw_lt e.percentage (map (λ x. x.percentage) entries) m.rng,
          length-map (λ (x : ImixEntryInternal d.Carrier). x.percentage) entries,
        ))

    drawn :
        (m : ImixEngine g) (entries : List (ImixEntryInternal d.Carrier))
        → validate_entries d entries ≡ true
        → m.size_distribution ≡ g.of_weights (map (λ x. x.percentage) entries)
        → (e : ImixEntryInternal d.Carrier) × (get_elem? entries
              (g.draw m.size_distribution m.rng).0
            ≡ some e)
          × IsSound d e
    drawn m [] v w = absurd (((validate_entries_iff d []).0 v).0 refl)
    drawn m (e ∷ entries) v w =
        All-get_elem? (IsSound d) (e ∷ entries) _ ((validate_entries_iff d (e ∷ entries)).0 v).1
          (draw-lt m e entries w)

    not_empty :
        (entries : List (ImixEntryInternal d.Carrier))
        → validate_entries d entries ≡ true
        → is_empty entries ≡ false
    not_empty [] v = absurd (((validate_entries_iff d []).0 v).0 refl)
    not_empty (e ∷ entries) v = refl

    -- An engine always selects a size, and one of 64 to 9000 bytes.
    pub select_next_packet_size_bounds :
        (m : ImixEngine g)
        → Inv m
        → (n : ℕ) × ((select_next_packet_size d g m).1 ≡ some n) × (64 ≤ n) × (n ≤ 9000)
    unfolding select_next_packet_size
    select_next_packet_size_bounds m v = elim (Bool-cases m.configured) [
      | inr plain ↦ (64, rw (plain, select_next_packet_size) refl, omega arith, omega arith)
      | inl ready ↦
          let (e, found, s) = drawn m m.entries (v.accepted ready) (v.weighted ready) in
          (
            e.packet_size,
            ground (arith, not_empty m.entries (v.accepted ready)),
            s.size_from,
            s.size_to,
          )
    ]

    -- It always selects a protocol, and one that the packet builder supports.
    pub select_next_protocol-IsSupported :
        (m : ImixEngine g)
        → Inv m
        → (p : String) × ((select_next_protocol d g m).1 ≡ some p) × IsSupported p
    unfolding select_next_protocol
    select_next_protocol-IsSupported m v = elim (Bool-cases m.configured) [
      | inr plain ↦ ("udp", rw (plain, select_next_protocol) refl, inr (inl refl))
      | inl ready ↦
          let (e, found, s) = drawn m m.entries (v.accepted ready) (v.weighted ready) in
          (e.protocol, ground (arith, not_empty m.entries (v.accepted ready)), s.supported)
    ]

  pub data Command : Type 0 where
    configures : List (ImixEntryInternal d.Carrier) → ℕ → Command
    selects_size selects_protocol resets : Command

  pub step : ImixEngine g → Command → ImixEngine g
  step m (configures entries target_pps) = (configure d g m entries target_pps).0
  step m selects_size = (select_next_packet_size d g m).0
  step m selects_protocol = (select_next_protocol d g m).0
  step m resets = reset d g m

  pub run : ImixEngine g → List Command → ImixEngine g
  run m [] = m
  run m (c ∷ cs) = run (step m c) cs

  step-Inv : (m : ImixEngine g) (c : Command) → Inv m → Inv (step m c)
  unfolding step
  step-Inv m (configures entries target_pps) v = configure-Inv m entries target_pps v
  step-Inv m selects_size v = select_size-Inv m v
  step-Inv m selects_protocol v = select_protocol-Inv m v
  step-Inv m resets v = reset-Inv m

  run-Inv : (m : ImixEngine g) (cs : List Command) → Inv m → Inv (run m cs)
  unfolding run
  run-Inv m [] v = v
  run-Inv m (c ∷ cs) v = run-Inv (step m c) cs (step-Inv m c v)

  -- After any calls on a new engine, a configured engine holds a valid profile and its distribution.
  pub run-new_engine-Inv : (now_s : ℕ) (cs : List Command) → Inv (run (new_engine d g now_s) cs)
  run-new_engine-Inv now_s cs = run-Inv _ cs (new_engine-Inv now_s)

  -- `configure` takes a valid profile whole, and refuses any other and leaves the engine as it was.
  pub configure_cases :
      (m : ImixEngine g) (entries : List (ImixEntryInternal d.Carrier)) (target_pps : ℕ)
      → (((configure d g m entries target_pps).1 ≡ true)
          × (validate_entries d entries ≡ true)
          × ((configure d g m entries target_pps).0 ≡ record m {
            entries = entries;
            target_pps = target_pps;
            configured = true;
            size_distribution = g.of_weights (map (λ e. e.percentage) entries);
          }))
        ⊎ (((configure d g m entries target_pps).1 ≡ false)
            × (validate_entries d entries ≡ false)
            × ((configure d g m entries target_pps).0 ≡ m))
  unfolding configure build_distribution
  configure_cases m [] target_pps = inr (unfold validate_entries in (refl, refl, refl))
  configure_cases m (e ∷ entries) target_pps = ground arith

  -- After any calls on a new engine it selects a size of 64 to 9000 bytes and a protocol that the
  -- packet builder supports. It relies on the library drawing an index below the number of weights.
  pub run-select_bounds :
      (now_s : ℕ) (cs : List Command)
      → DrawsInRange g
      → let m = run (new_engine d g now_s) cs in
        ((n : ℕ) × ((select_next_packet_size d g m).1 ≡ some n) × (64 ≤ n) × (n ≤ 9000))
        × ((p : String) × ((select_next_protocol d g m).1 ≡ some p) × IsSupported p)
  run-select_bounds now_s cs documented =
      let v = run-new_engine-Inv now_s cs in
      (
        select_next_packet_size_bounds documented _ v,
        select_next_protocol-IsSupported documented _ v,
      )
