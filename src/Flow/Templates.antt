-- ===== src/Flow/Templates.antt =====
-- The templates of the flows in flow_scheduler.cpp.
use ngfwtraffic_gen.Common.{ℕ, ◌^◌, ◌<◌, ◌≡◌, List, All, arith}
use ngfwtraffic_gen.Packet.{Platform}
use ngfwtraffic_gen.Packet.Offset.{HasFrame, build_template-HasFrame}
use ngfwtraffic_gen.Flow.{
  FlowConfigInternal, new_scheduler, template_size, new_flow, started, stopped, counted,
  or_broadcast,
}
use ngfwtraffic_gen.Flow.Ready.{visit, visited}
use ngfwtraffic_gen.Flow.Receive.{flow_receives}
use ngfwtraffic_gen.Flow.History.{Call, KeptWhere, Permits, AllFlows, run, run_new-AllFlowsWhere}

-- The packet size fits 16 bits.
abbrev pub Is16Bit : FlowConfigInternal → Type 0
Is16Bit c = c.packet_size < 2 ^ 16

-- The flow's template has a frame, and a payload that begins behind its headers and within the flow's packet
-- size, which fits 16 bits.
abbrev pub HasTemplate : Platform → FlowConfigInternal → Type 0
HasTemplate pf c = HasFrame pf (template_size c.packet_size) c.template_packet × Is16Bit c

pub same_template-HasTemplate :
    (pf : Platform) (c d : FlowConfigInternal)
    → d.template_packet ≡ c.template_packet
    → d.packet_size ≡ c.packet_size
    → HasTemplate pf c
    → HasTemplate pf d
same_template-HasTemplate pf c d e p h = rw (e, p) h

pub visit-HasTemplate :
    (pf : Platform) (now_ns bucket_ns : ℕ) (c : FlowConfigInternal)
    → HasTemplate pf c
    → HasTemplate pf (visited (visit now_ns bucket_ns c))
unfolding visit visited
visit-HasTemplate pf now_ns bucket_ns c h =
    same_template-HasTemplate pf c (visited (visit now_ns bucket_ns c)) (ground arith)
      (ground arith) h

pub template-Kept : (pf : Platform) → KeptWhere pf Is16Bit (HasTemplate pf)
unfolding new_flow started stopped counted flow_receives
template-Kept pf = record {
  at_birth = λ now_ns s config allowed built. (
    build_template-HasFrame pf config.flow_key (template_size config.packet_size) config.protocol
        (pf.print_colons s.src_mac) (or_broadcast config.dst_mac) built,
    allowed,
  );
  on_start = λ now_ns bucket_ns c h. h;
  on_stop = λ c h. h;
  on_visit = visit-HasTemplate pf;
  on_count = λ packets bytes c h. h;
  on_receive = λ now_ns later_ns hdr payload_len c h.
      same_template-HasTemplate pf c (flow_receives pf now_ns later_ns hdr payload_len c)
        (ground arith) (ground arith) h;
}

-- Every flow of a scheduler that was new has such a template, where the flows that are added have such a
-- size.
pub run_new-HasTemplate :
    (pf : Platform) (src_mac : List ℕ) (calls : List Call)
    → All (Permits Is16Bit) calls
    → AllFlows pf (HasTemplate pf) (run pf (new_scheduler src_mac) calls)
run_new-HasTemplate pf = run_new-AllFlowsWhere pf Is16Bit (HasTemplate pf) (template-Kept pf)
