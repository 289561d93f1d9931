-- ===== src/Flow/KeyMap.antt =====
-- The two maps of flow_scheduler.cpp agree: each flow is found by both directions of its key.
use ngfwtraffic_gen.Common.{
  ℕ, ◌≡◌, ◌≢◌, refl, ap, sym, ◌∙◌, ◌⊎◌, inl, inr, true, false, ◌||◌, none, some, arith, Bool-cases,
  Option-cases, ◌==◌,
}
use ngfwtraffic_gen.Common.Assoc.{find, nat_key}
use ngfwtraffic_gen.Types.{FlowKey, reverse_key, flow_key_key, same_key, same_key_iff}
use ngfwtraffic_gen.Packet.{Platform, PacketTemplate}
use ngfwtraffic_gen.Flow.{
  FlowConfigInternal, FlowScheduler, flow_template, new_flow, add_flow, remove_flow,
}
use ngfwtraffic_gen.Flow.Lookup.{add_flow_cases, remove_flow_cases}

-- Every flow is found by both directions of its key.
pub record Consistent (s : FlowScheduler) : Type 0 where
  pub forward :
      (i : ℕ) (c : FlowConfigInternal)
      → find i s.flows ≡ some c
      → find c.flow_key s.flow_lookup ≡ some i
  pub backward :
      (i : ℕ) (c : FlowConfigInternal)
      → find i s.flows ≡ some c
      → find (reverse_key c.flow_key) s.flow_lookup ≡ some i

-- A key that no other flow uses: it leads nowhere, or to the flow itself.
abbrev pub FreeFor : ℕ → FlowKey → FlowScheduler → Type 0
FreeFor flow_id k s = (find k s.flow_lookup ≡ none) ⊎ (find k s.flow_lookup ≡ some flow_id)

other_key :
    (s : FlowScheduler) (k k' : FlowKey) (i flow_id : ℕ)
    → find k s.flow_lookup ≡ some i
    → FreeFor flow_id k' s
    → i ≢ flow_id
    → same_key k' k ≡ false
other_key s k k' i flow_id h free ne = elim (Bool-cases (same_key k' k)) [
  | inr e ↦ e
  | inl e ↦ absurd (meets (ap (λ x. find x s.flow_lookup) ((same_key_iff k' k).0 e)) free)
]
  where
    meets : find k' s.flow_lookup ≡ find k s.flow_lookup → FreeFor flow_id k' s → ⊥
    meets p (inl q) = ground arith
    meets p (inr q) = ground arith

same_key_refl : (k : FlowKey) → same_key k k ≡ true
same_key_refl k = (same_key_iff k k).1 refl

pub new_flow_key :
    (now_ns : ℕ) (config : FlowConfigInternal) (t : PacketTemplate)
    → (new_flow now_ns config t).flow_key ≡ config.flow_key
unfolding new_flow
new_flow_key now_ns config t = refl

either_key : (k : FlowKey) → (same_key (reverse_key k) k || same_key k k) ≡ true
either_key k = ground (arith, same_key_refl k)

either_key_back :
    (k : FlowKey) → (same_key (reverse_key k) (reverse_key k) || same_key k (reverse_key k)) ≡ true
either_key_back k = rw (same_key_refl (reverse_key k))

module _ (pf : Platform) (now_ns : ℕ) (s : FlowScheduler) (config : FlowConfigInternal) where
  -- A flow that is found after `add_flow` is the new one or an old one.
  found-add :
      (i : ℕ) (c : FlowConfigInternal)
      → find i (add_flow pf now_ns s config).0.flows ≡ some c
      → ((i ≡ config.flow_id)
          × (c.flow_key ≡ config.flow_key)
          × ((add_flow pf now_ns s config).1 ≡ true))
        ⊎ (find i s.flows ≡ some c) × ((i ≢ config.flow_id) ⊎ ((add_flow pf now_ns s config).0 ≡ s))
  found-add i c h = elim (add_flow_cases pf now_ns s config i config.flow_key) [
    | inl (_, _, same) ↦ inr (ap (λ t. find i t.flows) (sym same) ∙ h, inr same)
    | inr (_, done, e, _) ↦ elim (Bool-cases (config.flow_id == i)) [
      | inl here ↦ inl (
        ground arith,
        ground (arith, new_flow_key now_ns config (flow_template pf s config).0),
        done,
      )
      | inr there ↦ inr (ground arith, inl (ground arith))
    ]
  ]

  add_finds :
      (k : FlowKey)
      → (same_key (reverse_key config.flow_key) k || same_key config.flow_key k) ≡ true
      → (add_flow pf now_ns s config).1 ≡ true
      → find k (add_flow pf now_ns s config).0.flow_lookup ≡ some config.flow_id
  add_finds k hit done = elim (add_flow_cases pf now_ns s config config.flow_id k) [
    | inl (_, failed, _) ↦ absurd (ground arith)
    | inr (_, _, _, e) ↦ e ∙ rw hit
  ]

  module _ (free : FreeFor config.flow_id config.flow_key s)
      (free_back : FreeFor config.flow_id (reverse_key config.flow_key) s) where
    lookup-add_kept :
        (i : ℕ) (k : FlowKey)
        → find k s.flow_lookup ≡ some i
        → (i ≢ config.flow_id) ⊎ ((add_flow pf now_ns s config).0 ≡ s)
        → find k (add_flow pf now_ns s config).0.flow_lookup ≡ some i
    lookup-add_kept i k h (inr same) = ap (λ t. find k t.flow_lookup) same ∙ h
    lookup-add_kept i k h (inl ne) =
        let a = other_key s k config.flow_key i config.flow_id h free ne in
        let b = other_key s k (reverse_key config.flow_key) i config.flow_id h free_back ne in
        elim (add_flow_cases pf now_ns s config i k) [
          | inl (_, _, same) ↦ ap (λ t. find k t.flow_lookup) same ∙ h
          | inr (_, _, _, e) ↦ e ∙ rw (a, b) h
        ]

    lookup-add_new :
        (i : ℕ) (c : FlowConfigInternal)
        → i ≡ config.flow_id
        → c.flow_key ≡ config.flow_key
        → (add_flow pf now_ns s config).1 ≡ true
        → (find c.flow_key (add_flow pf now_ns s config).0.flow_lookup ≡ some i)
          × (find (reverse_key c.flow_key) (add_flow pf now_ns s config).0.flow_lookup ≡ some i)
    lookup-add_new i c e p done =
        rw (p, e)
          (
            add_finds config.flow_key (either_key config.flow_key) done,
            add_finds (reverse_key config.flow_key) (either_key_back config.flow_key) done,
          )

    -- Where each flow is found by both directions of its key, and each direction of the new flow's
    -- key leads nowhere or to the new flow's id, `add_flow` leaves each flow found by both
    -- directions of its key.
    pub add_flow-Consistent : Consistent s → Consistent (add_flow pf now_ns s config).0
    add_flow-Consistent v = record {
      forward = λ i c h. elim (found-add i c h) [
        | inl (e, p, done) ↦ (lookup-add_new i c e p done).0
        | inr (old, how) ↦ lookup-add_kept i c.flow_key (v.forward i c old) how
      ];
      backward = λ i c h. elim (found-add i c h) [
        | inl (e, p, done) ↦ (lookup-add_new i c e p done).1
        | inr (old, how) ↦ lookup-add_kept i (reverse_key c.flow_key) (v.backward i c old) how
      ];
    }

found-remove :
    (s : FlowScheduler) (flow_id i : ℕ) (c d : FlowConfigInternal)
    → find flow_id s.flows ≡ some d
    → find i (remove_flow s flow_id).0.flows ≡ some c
    → (i ≢ flow_id) × (find i s.flows ≡ some c)
found-remove s flow_id i c d e h = elim (remove_flow_cases s flow_id i c.flow_key) [
  | inl (missing, _, _) ↦ absurd (ground arith)
  | inr (_, _, _, l, _) ↦ (ground arith, ground arith)
]

lookup-remove_kept :
    (s : FlowScheduler) (flow_id i : ℕ) (k : FlowKey) (d : FlowConfigInternal)
    → Consistent s
    → find flow_id s.flows ≡ some d
    → find k s.flow_lookup ≡ some i
    → i ≢ flow_id
    → find k (remove_flow s flow_id).0.flow_lookup ≡ some i
lookup-remove_kept s flow_id i k d v e h ne = elim (remove_flow_cases s flow_id i k) [
  | inl (missing, _, _) ↦ absurd (ground arith)
  | inr (d', e', _, _, l) ↦
      let a = other_key s k d'.flow_key i flow_id h (inr (v.forward flow_id d' e')) ne in
      let b =
        other_key s k (reverse_key d'.flow_key) i flow_id h (inr (v.backward flow_id d' e')) ne in
      l ∙ rw (a, b) h
]

-- Where each flow is found by both directions of its key, it still is after `remove_flow`: no other
-- flow's key is taken away.
pub remove_flow-Consistent :
    (s : FlowScheduler) (flow_id : ℕ) → Consistent s → Consistent (remove_flow s flow_id).0
remove_flow-Consistent s flow_id v = elim (Option-cases (find flow_id s.flows)) [
  | inl missing ↦ unfold remove_flow in rw (missing, remove_flow) v
  | inr (d, e) ↦ record {
    forward = λ i c h.
        let (ne, old) = found-remove s flow_id i c d e h in
        lookup-remove_kept s flow_id i c.flow_key d v e (v.forward i c old) ne;
    backward = λ i c h.
        let (ne, old) = found-remove s flow_id i c d e h in
        lookup-remove_kept s flow_id i (reverse_key c.flow_key) d v e (v.backward i c old) ne;
  }
]
