-- ===== src/Types.antt =====
-- core/common/types.hpp: the flow key. (Statistics and profile entries stand with their users.)
use mathlib.Core.Logic.{◌↔◌}
use ngfwtraffic_gen.Common.{ℕ, ◌≡◌, Bool, true, ◌&&◌, arith, ◌==◌}
use ngfwtraffic_gen.Common.Assoc.{Key}

pub record FlowKey : Type 0 where
  pub src_ip : ℕ  -- uint32
  pub dst_ip : ℕ  -- uint32
  pub src_port : ℕ  -- uint16
  pub dst_port : ℕ  -- uint16
  pub protocol : ℕ  -- uint8

-- `operator==`.
abbrev pub same_key : FlowKey → FlowKey → Bool
same_key a b =
    a.src_ip == b.src_ip
    && a.dst_ip == b.dst_ip
    && a.src_port == b.src_port
    && a.dst_port == b.dst_port
    && a.protocol == b.protocol

pub same_key_iff : (a b : FlowKey) → (same_key a b ≡ true) ↔ (a ≡ b)
same_key_iff a b = ground arith

instance abbrev pub flow_key_key : Key FlowKey
flow_key_key = record { beq = same_key; beq_iff = same_key_iff }

-- The two swaps of `add_flow` and `remove_flow`.
unfoldable pub reverse_key : FlowKey → FlowKey
reverse_key k = record k {
  src_ip = k.dst_ip;
  dst_ip = k.src_ip;
  src_port = k.dst_port;
  dst_port = k.src_port;
}
