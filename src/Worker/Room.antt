-- ===== src/Worker/Room.antt =====
-- The room that a packet of worker.cpp has: its size covers the headers of its template.
use mathlib.Core.Path.{subst}
use ngfwtraffic_gen.Common.{
  ℕ, ◌+◌, ◌^◌, ◌<◌, ◌≤◌, ◌≡◌, refl, ◌⊎◌, inl, inr, Bool, false, Option, none, some, List, [], ◌∷◌,
  All, ltb, ◌==◌, arith, Bool-cases, Option-cases,
}
use ngfwtraffic_gen.Common.Assoc.{find, nat_key}
use ngfwtraffic_gen.Common.Double.{Double}
use ngfwtraffic_gen.Packet.{Platform, PacketTemplate}
use ngfwtraffic_gen.Packet.Offset.{HasFrame}
use ngfwtraffic_gen.Packet.Mutate.{
  Mbuf, IdSource, PacketMutator, refused, mutated, clone_and_mutate, headers_size, data_size,
  resize,
}
use ngfwtraffic_gen.Packet.Vary.{resize-holds}
use ngfwtraffic_gen.Imix.{Sampler, ImixEngine}
use ngfwtraffic_gen.Imix.Select.{DrawsInRange, Inv, select_size-Inv, select_next_packet_size_bounds}
use ngfwtraffic_gen.Flow.{FlowConfigInternal, template_size, counted}
use ngfwtraffic_gen.Worker.{
  WorkerConfig, stamp, stamp_flow, finish_packet, engine_size, choose_size,
}

pub All-find :
    (P : FlowConfigInternal → Type 0) (flows : List (ℕ × FlowConfigInternal)) (i : ℕ)
    (c : FlowConfigInternal)
    → All (λ e. P e.1) flows
    → find i flows ≡ some c
    → P c
unfolding find
All-find P [] i c h e = absurd (ground arith)
All-find P ((j, x) ∷ flows) i c h e = elim (Bool-cases (j == i)) [
  | inl hit ↦ let same : x ≡ c = ground arith in subst P same h.0
  | inr miss ↦ All-find P flows i c h.1 (ground arith)
]

pub finish_packet-template :
    (pf : Platform) (cfg : WorkerConfig) (now_ns : ℕ) (c : FlowConfigInternal) (b : Mbuf)
    → ((finish_packet pf cfg now_ns c b).0.template_packet ≡ c.template_packet)
      × ((finish_packet pf cfg now_ns c b).0.packet_size ≡ c.packet_size)
unfolding finish_packet stamp_flow stamp counted
finish_packet-template pf cfg now_ns c b = ground arith

-- A template whose payload begins behind its headers and within the packet is never written outside of
-- the buffer, where the packet's size fits 16 bits.
pub clone_cases :
    (pf : Platform) (ids : IdSource) (now_s : ℕ) (m : PacketMutator ids) (b : Mbuf)
    (t : PacketTemplate) (sequence_number : ℕ) (update_checksums : Bool)
    → HasFrame pf t.total_size t
    → t.total_size < 2 ^ 16
    → let outcome = (clone_and_mutate pf ids now_s m b t sequence_number update_checksums).1 in
      ((b' : Mbuf) × (outcome ≡ refused b')) ⊎ ((b' : Mbuf) × (outcome ≡ mutated b'))
unfolding clone_and_mutate
clone_cases pf ids now_s m b t sequence_number update_checksums h small =
    let read : ltb (data_size pf h.content) t.payload_offset ≡ false = ground arith in
    let room : ltb t.total_size t.payload_offset ≡ false = ground arith in
    let whole : ltb t.payload_offset (headers_size pf h.content) ≡ false = ground arith in
    elim (Option-cases (resize pf t.total_size b)) [
      | inl e ↦ rw (h.has_content, e, clone_and_mutate) (inl (_, refl))
      | inr (b', e) ↦
          let held : ltb (b'.pkt_len + b'.tailroom) t.total_size ≡ false =
            resize-holds pf t.total_size b b' small e in
          rw (h.has_content, e, read, room, held, whole, clone_and_mutate) (inr (_, refl))
    ]

module _ (d : Double) (g : Sampler d.Carrier) (ids : IdSource) (pf : Platform)
    (documented : DrawsInRange g) where
  -- An engine that has only ever accepted valid profiles, if there is one.
  abbrev pub EngineValid : Option (ImixEngine g) → Type 0
  EngineValid none = Unit
  EngineValid (some m) = Inv d g m

  pub choose_size-fits :
      (engine : Option (ImixEngine g)) (c : FlowConfigInternal)
      → c.packet_size < 2 ^ 16
      → EngineValid engine
      → (n : ℕ) × ((choose_size d g ids pf engine c).1 ≡ some n)
        × (template_size c.packet_size ≤ n)
        × (n < 2 ^ 16)
        × EngineValid (choose_size d g ids pf engine c).0
  unfolding choose_size engine_size
  choose_size-fits none c small v = elim (Bool-cases (c.packet_size == 0)) [
    | inl e ↦ (64, ground arith, ground arith, omega arith, rw e tt)
    | inr e ↦ (c.packet_size, ground arith, ground arith, small, rw e tt)
  ]
  choose_size-fits (some m) c small v = elim (Bool-cases (c.packet_size == 0)) [
    | inl e ↦
        let (n, at, low, high) = select_next_packet_size_bounds d g documented m v in
        (
          n,
          (let nonzero : (n == 0) ≡ false = ground arith in rw (e, at, nonzero, engine_size)),
          ground arith,
          omega (arith, high),
          rw e (select_size-Inv d g m v),
        )
    | inr e ↦ (c.packet_size, ground arith, ground arith, small, rw e v)
  ]
