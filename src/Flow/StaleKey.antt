-- ===== src/Flow/StaleKey.antt =====
-- A flow of flow_scheduler.cpp that is replaced under its id.
use ngfwtraffic_gen.Common.{
  ℕ, ◌≡◌, ◌≢◌, ap, sym, ◌∙◌, inl, inr, true, false, ◌||◌, some, arith, Bool-cases,
}
use ngfwtraffic_gen.Common.Assoc.{find, nat_key}
use ngfwtraffic_gen.Types.{FlowKey, reverse_key, flow_key_key, same_key, same_key_iff}
use ngfwtraffic_gen.Packet.{Platform}
use ngfwtraffic_gen.Flow.{FlowConfigInternal, FlowScheduler, flow_template, add_flow, remove_flow}
use ngfwtraffic_gen.Flow.Lookup.{add_flow_cases, remove_flow_cases}
use ngfwtraffic_gen.Flow.KeyMap.{Consistent, new_flow_key}

different_key :
    (k k' : FlowKey)
    → k ≢ k'
    → k ≢ reverse_key k'
    → (same_key (reverse_key k') k || same_key k' k) ≡ false
different_key k k' p q = elim (Bool-cases (same_key (reverse_key k') k)) [
  | inl e ↦ absurd (q (sym ((same_key_iff _ k).0 e)))
  | inr e ↦ elim (Bool-cases (same_key k' k)) [
    | inl e' ↦ absurd (p (sym ((same_key_iff k' k).0 e')))
    | inr e' ↦ rw (e, e')
  ]
]

new_key :
    (pf : Platform) (now_ns : ℕ) (s : FlowScheduler) (config d : FlowConfigInternal)
    → find config.flow_id (add_flow pf now_ns s config).0.flows ≡ some d
    → (add_flow pf now_ns s config).1 ≡ true
    → d.flow_key ≡ config.flow_key
new_key pf now_ns s config d h done =
    elim (add_flow_cases pf now_ns s config config.flow_id config.flow_key) [
      | inl (_, failed, _) ↦ absurd (ground arith)
      | inr (_, _, e, _) ↦ ground (arith, new_flow_key now_ns config (flow_template pf s config).0)
    ]

-- Where each flow is found by both directions of its key, and `add_flow` replaces a flow under its
-- id by one whose key is another in either direction, the old key still leads to the id, and it
-- still does after the new flow is removed.
pub replaced_key_stale :
    (pf : Platform) (now_ns : ℕ) (s : FlowScheduler) (old config : FlowConfigInternal)
    → Consistent s
    → find config.flow_id s.flows ≡ some old
    → old.flow_key ≢ config.flow_key
    → old.flow_key ≢ reverse_key config.flow_key
    → (add_flow pf now_ns s config).1 ≡ true
    → let s' = (add_flow pf now_ns s config).0 in
      (find old.flow_key s'.flow_lookup ≡ some config.flow_id)
      × (find old.flow_key (remove_flow s' config.flow_id).0.flow_lookup ≡ some config.flow_id)
replaced_key_stale pf now_ns s old config v e p q done =
    let s' : FlowScheduler = (add_flow pf now_ns s config).0 in
    let other = different_key old.flow_key config.flow_key p q in
    let was = v.forward config.flow_id old e in
    let stays : find old.flow_key s'.flow_lookup ≡ some config.flow_id =
      elim (add_flow_cases pf now_ns s config config.flow_id old.flow_key) [
        | inl (_, failed, _) ↦ absurd (ground arith)
        | inr (_, _, _, l) ↦ l ∙ rw other was
      ] in
    (
      stays,
      elim (remove_flow_cases s' config.flow_id config.flow_id old.flow_key) [
        | inl (_, _, same) ↦ ap (λ t. find old.flow_key t.flow_lookup) same ∙ stays
        | inr (d, found, _, _, l) ↦ l ∙ rw (new_key pf now_ns s config d found done, other) stays
      ],
    )
