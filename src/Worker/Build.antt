-- ===== src/Worker/Build.antt =====
-- `build_packet_from_template` of worker.cpp, which makes one packet of its own.
use ngfwtraffic_gen.Common.{ℕ, ◌+◌, ◌^◌, ◌<◌, ◌≤◌, ◌≡◌, refl, Bool, true, false, Option, none, some}
use ngfwtraffic_gen.Packet.{Platform, PacketTemplate}
use ngfwtraffic_gen.Packet.Mutate.{
  Mbuf, IdSource, Outcome, refused, overrun, cut_short, mutated, new_mutator, initialize,
  clone_and_mutate,
}
use ngfwtraffic_gen.Packet.Offset.{HasFrame}
use ngfwtraffic_gen.Packet.Vary.{Varied, clone_and_mutate-Varied}
use ngfwtraffic_gen.Worker.{WorkerConfig}

-- The packet, if there is one, and whether a buffer was given back to its pool.
abbrev after_cloning : Outcome → Option (Option Mbuf × Bool)
after_cloning (mutated b) = some (some b, false)
after_cloning (refused b) = some (none, true)
after_cloning overrun = none
after_cloning cut_short = none

module _ (ids : IdSource) (pf : Platform) (cfg : WorkerConfig) where
  -- The buffer is `none` where there is no manager or no pool, or the pool is empty; the result is `none`
  -- where the buffer is overrun, or the headers are cut short.
  unfoldable pub build_packet_from_template :
      ℕ → Option Mbuf → PacketTemplate → Option (Option Mbuf × Bool)
  build_packet_from_template now_s none template_in = some (none, false)
  build_packet_from_template now_s (some mbuf) template_in =
      after_cloning
        (clone_and_mutate pf ids now_s (initialize ids now_s (new_mutator ids) cfg.core_id) mbuf
          template_in 0 true).1

  -- For a template whose payload begins behind its headers, within its data and within its size, and a
  -- buffer with room for that size, the packet is made from the template, and the buffer is not given back.
  pub build_packet_from_template-Varied :
      (now_s : ℕ) (b : Mbuf) (t : PacketTemplate) (h : HasFrame pf t.total_size t)
      → b.tailroom < 2 ^ 16
      → t.total_size ≤ b.pkt_len + b.tailroom
      → (b' : Mbuf) × (build_packet_from_template now_s (some b) t ≡ some (some b', false))
        × Varied pf t h.content b'
  unfolding build_packet_from_template
  build_packet_from_template-Varied now_s b t h small l =
      let (b', e, v) =
        clone_and_mutate-Varied pf ids now_s (initialize ids now_s (new_mutator ids) cfg.core_id) b
          t 0 h small l in
      (b', rw e refl, v)
