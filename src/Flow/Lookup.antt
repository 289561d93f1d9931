-- ===== src/Flow/Lookup.antt =====
-- What `add_flow` and `remove_flow` of flow_scheduler.cpp do to the two maps.
use ngfwtraffic_gen.Common.{
  ℕ, ◌≡◌, refl, ◌⊎◌, inl, inr, true, false, ◌||◌, none, some, if◌then◌else◌, arith, Bool-cases,
  Option-cases, ◌==◌,
}
use ngfwtraffic_gen.Common.Assoc.{find, nat_key, find-insert, find-erase}
use ngfwtraffic_gen.Types.{FlowKey, reverse_key, flow_key_key, same_key}
use ngfwtraffic_gen.Packet.{Platform}
use ngfwtraffic_gen.Flow.{
  FlowConfigInternal, FlowScheduler, flow_template, new_flow, add_flow, remove_flow,
}

pub reverse_key_twice : (k : FlowKey) → reverse_key (reverse_key k) ≡ k
unfolding reverse_key
reverse_key_twice k = refl

-- `add_flow` on its two branches: a template that cannot be built changes nothing; else the new
-- flow stands under its id, the id stands under both directions of its key, and every other entry
-- of the two maps is as it was.
pub add_flow_cases :
    (pf : Platform) (now_ns : ℕ) (s : FlowScheduler) (config : FlowConfigInternal) (i : ℕ)
    (k : FlowKey)
    → let (s', done) = add_flow pf now_ns s config in
      let (template, built) = flow_template pf s config in
      ((built ≡ false) × (done ≡ false) × (s' ≡ s))
      ⊎ ((built ≡ true)
          × (done ≡ true)
          × (find i s'.flows ≡ (
              if config.flow_id == i
              then some (new_flow now_ns config template)
              else find i s.flows))
          × (find k s'.flow_lookup ≡ (
              if same_key (reverse_key config.flow_key) k || same_key config.flow_key k
              then some config.flow_id
              else find k s.flow_lookup)))
unfolding add_flow
add_flow_cases pf now_ns s config i k = elim (Bool-cases (flow_template pf s config).1) [
  | inl built ↦ inr (
    built,
    rw (built, add_flow),
    rw (built, add_flow) (find-insert config.flow_id i _ s.flows),
    rw (built, add_flow)
        (rw
          (
            find-insert (reverse_key config.flow_key) k config.flow_id _,
            find-insert config.flow_key k config.flow_id s.flow_lookup,
          )
          (ground arith)),
  )
  | inr failed ↦ inl (failed, rw (failed, add_flow), rw (failed, add_flow))
]

-- `remove_flow` on its two branches: an unknown id changes nothing; else its flow is gone, both
-- directions of its key lead nowhere, and every other entry is as it was.
pub remove_flow_cases :
    (s : FlowScheduler) (flow_id i : ℕ) (k : FlowKey)
    → let (s', done) = remove_flow s flow_id in
      ((find flow_id s.flows ≡ none) × (done ≡ false) × (s' ≡ s))
      ⊎ ((c : FlowConfigInternal) × (find flow_id s.flows ≡ some c)
          × (done ≡ true)
          × (find i s'.flows ≡ (if flow_id == i then none else find i s.flows))
          × (find k s'.flow_lookup ≡ (
              if same_key (reverse_key c.flow_key) k || same_key c.flow_key k
              then none
              else find k s.flow_lookup)))
unfolding remove_flow
remove_flow_cases s flow_id i k = elim (Option-cases (find flow_id s.flows)) [
  | inl e ↦ inl (e, rw (e, remove_flow), rw (e, remove_flow))
  | inr (c, e) ↦ inr (
    c,
    e,
    rw (e, remove_flow),
    rw (e, remove_flow) (find-erase flow_id i s.flows),
    rw (e, remove_flow)
        (rw (find-erase (reverse_key c.flow_key) k _, find-erase c.flow_key k s.flow_lookup)
          (ground arith)),
  )
]
