-- ===== src/Service/Configure.antt =====
-- `ConfigureIMIX` and `ConfigureFlows` of server.cpp: when they succeed, and what is then configured.
use Prim.Native.String.{◌++◌ as str_append}
use ngfwtraffic_gen.Common.{
  ℕ, ◌+◌, ◌≡◌, ◌↔◌, refl, ap, sym, ◌∙◌, ◌⊎◌, inl, inr, Bool, true, false, ◌&&◌, some, List, [], ◌∷◌,
  map, All, arith, String,
}
use ngfwtraffic_gen.Common.Double.{Double}
use ngfwtraffic_gen.Packet.{Platform}
use ngfwtraffic_gen.Imix.{Sampler, ImixEngine, validate_entries}
use ngfwtraffic_gen.Imix.Select.{configure_cases}
use ngfwtraffic_gen.Flow.{FlowConfigInternal, FlowScheduler, flow_template, add_flow}
use ngfwtraffic_gen.Service.{
  TrafficGeneratorService, ImixConfig, FlowConfig, ProtoFlow, add_flows, error_of, internal_config,
  configure_flows, configure_imix, convert_proto_imix_entry,
}

-- A template can be built for the flow. It depends on nothing of the scheduler but the source MAC.
abbrev pub Buildable : Platform → List ℕ → Bool → ProtoFlow → Type 0
Buildable pf src_mac stateless flow =
    (flow_template pf (record { flows = []; flow_lookup = []; src_mac = src_mac })
      (internal_config pf stateless flow)).1
    ≡ true

template_mac :
    (pf : Platform) (s : FlowScheduler) (config : FlowConfigInternal) (src_mac : List ℕ)
    → s.src_mac ≡ src_mac
    → flow_template pf s config
      ≡ flow_template pf (record { flows = []; flow_lookup = []; src_mac = src_mac }) config
template_mac pf s config src_mac h =
    ap (λ m. flow_template pf (record { flows = []; flow_lookup = []; src_mac = m }) config) h

and_left : (a b : Bool) → (a && b) ≡ true → a ≡ true
and_left a b h = ground arith

and_right : (a b : Bool) → (a && b) ≡ true → b ≡ true
and_right a b h = ground arith

add_flow-mac :
    (pf : Platform) (now_ns : ℕ) (s : FlowScheduler) (config : FlowConfigInternal)
    → ((add_flow pf now_ns s config).0.src_mac ≡ s.src_mac)
      × ((add_flow pf now_ns s config).1 ≡ (flow_template pf s config).1)
unfolding add_flow
add_flow-mac pf now_ns s config = ground arith

add_flows_iff :
    (pf : Platform) (clock : ℕ → ℕ) (i : ℕ) (stateless : Bool) (s : FlowScheduler)
    (all_success : Bool) (error_message : String) (flows : List ProtoFlow) (src_mac : List ℕ)
    → s.src_mac ≡ src_mac
    → ((add_flows pf clock i stateless s all_success error_message flows).1 ≡ true)
      ↔ ((all_success ≡ true) × All (Buildable pf src_mac stateless) flows)
unfolding add_flows
add_flows_iff pf clock i stateless s all_success error_message [] src_mac h =
    (λ e. (e, tt), λ e. e.0)
add_flows_iff pf clock i stateless s all_success error_message (flow ∷ flows) src_mac h =
    let config : FlowConfigInternal = internal_config pf stateless flow in
    let done = (add_flow pf (clock i) s config).1 in
    let (mac, built) = add_flow-mac pf (clock i) s config in
    let can : (done ≡ true) ↔ Buildable pf src_mac stateless flow =
      let same = template_mac pf s config src_mac h in
      let through = built ∙ ap (λ t. t.1) same in (λ e. sym through ∙ e, λ e. through ∙ e) in
    let rest =
      add_flows_iff pf clock (i + 1) stateless (add_flow pf (clock i) s config).0
        (all_success && done) (str_append error_message (error_of pf flow done)) flows src_mac
        (mac ∙ h) in
    (
      λ e. (
        and_left all_success done (rest.0 e).0,
        (can.0 (and_right all_success done (rest.0 e).0), (rest.0 e).1),
      ),
      λ e. rest.1 (rw (e.0, can.1 e.1.0), e.1.1),
    )

module _ (d : Double) (g : Sampler d.Carrier) where
  -- With a scheduler, `ConfigureFlows` succeeds exactly when a template can be built for every flow
  -- of the request.
  pub configure_flows_iff :
      (pf : Platform) (clock : ℕ → ℕ) (v : TrafficGeneratorService d g) (s : FlowScheduler)
      (request : FlowConfig)
      → v.flow_scheduler ≡ some s
      → ((configure_flows d g pf clock v request).1.success ≡ true)
        ↔ All (Buildable pf s.src_mac request.stateless) request.flows
  unfolding configure_flows
  configure_flows_iff pf clock v s request h =
      let loop =
        add_flows_iff pf clock 0 request.stateless s true "" request.flows s.src_mac refl in
      let same : (configure_flows d g pf clock v request).1.success
          ≡ (add_flows pf clock 0 request.stateless s true "" request.flows).1 =
        ground arith in
      (λ e. (loop.0 (sym same ∙ e)).1, λ a. same ∙ loop.1 (refl, a))

  -- With an engine, `ConfigureIMIX` succeeds where the profile is valid, and the engine then holds
  -- the profile, its rate and the distribution of its shares; else it fails, and the engine is as
  -- it was.
  pub configure_imix_cases :
      (v : TrafficGeneratorService d g) (m : ImixEngine g) (request : ImixConfig d.Carrier)
      → v.imix_engine ≡ some m
      → let entries = map convert_proto_imix_entry request.entries in
        let (v', response) = configure_imix d g v request in
        ((validate_entries d entries ≡ true)
          × (response.success ≡ true)
          × (v'.imix_engine
              ≡ some (record m {
                entries = entries;
                target_pps = request.target_pps;
                configured = true;
                size_distribution = g.of_weights (map (λ e. e.percentage) entries);
              })))
        ⊎ ((validate_entries d entries ≡ false)
            × (response.success ≡ false)
            × (v'.imix_engine ≡ some m))
  unfolding configure_imix
  configure_imix_cases v m request h =
      elim (configure_cases d g m (map convert_proto_imix_entry request.entries)
        request.target_pps) [
          | inl (done, valid, e) ↦
              inl (valid, rw (h, configure_imix) (rw done), rw (h, configure_imix) (ap some e))
          | inr (done, invalid, e) ↦
              inr (invalid, rw (h, configure_imix) (rw done), rw (h, configure_imix) (ap some e))
        ]
