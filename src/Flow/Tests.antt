-- ===== src/Flow/Tests.antt =====
-- Runs of flow_scheduler.cpp, and its theorems at concrete inputs.
use ngfwtraffic_gen.Common.{
  ℕ, ◌≤◌, ◌≡◌, refl, ◌⊎◌, inl, true, false, ◌||◌, none, some, List, [], ◌∷◌, All, In, arith, ◌==◌,
  if◌then◌else◌,
}
use ngfwtraffic_gen.Common.Assoc.{find, nat_key}
use ngfwtraffic_gen.Types.{FlowKey, reverse_key, flow_key_key, same_key}
use ngfwtraffic_gen.Packet.Sample.{plain, key_a, key_b}
use ngfwtraffic_gen.Flow.{
  FlowConfigInternal, FlowScheduler, new_scheduler, flow_template, new_flow, add_flow, remove_flow,
}
use ngfwtraffic_gen.Flow.Ready.{get_ready_flows}
use ngfwtraffic_gen.Flow.Lookup.{add_flow_cases}
use ngfwtraffic_gen.Flow.KeyMap.{Consistent, add_flow-Consistent, remove_flow-Consistent}
use ngfwtraffic_gen.Flow.Schedule.{ReadyIn, get_ready_flows-IsReady}
use ngfwtraffic_gen.Flow.History.{Call, adds, starts, readies, receives, AllFlows, run}
use ngfwtraffic_gen.Flow.Starve.{slow_flow_never_ready}
use ngfwtraffic_gen.Flow.Handshake.{NoConnection, connections_stay_closed}

abbrev mac : List ℕ
mac = 0 ∷ 1 ∷ 2 ∷ 3 ∷ 4 ∷ 5 ∷ []

abbrev config_of : ℕ → FlowKey → ℕ → FlowConfigInternal
config_of flow_id key pps = record {
  flow_id = flow_id;
  flow_key = key;
  packet_size = 64;
  protocol = "tcp";
  pps = pps;
  duration_seconds = 5;
  stateless = false;
  dst_mac = "";
  template_packet = record { flow_key = key; total_size = 64; payload_offset = 0; frame = none };
  token_bucket = none;
  tcp_state = none;
  tcp_state_machine = false;
  packets_sent = 0;
  bytes_sent = 0;
  start_time_ns = 0;
  active = false;
}

abbrev empty : FlowScheduler
empty = record { flows = []; flow_lookup = []; src_mac = mac }

-- Flow 1, started at second 1.
abbrev flow_1 : FlowConfigInternal
flow_1 = record (config_of 1 key_a 1000) {
  active = true;
  start_time_ns = 1000000000;
  token_bucket =
      some
        (record { rate_pps = 1000; burst_size = 100; tokens = 100; last_update_ns = 1000000000 });
}

abbrev one_flow : FlowScheduler
one_flow = record {
  flows = (1, flow_1) ∷ [];
  flow_lookup = (key_a, 1) ∷ (reverse_key key_a, 1) ∷ [];
  src_mac = mac;
}

add_flow_cases_example :
    let s' = (add_flow plain 0 empty (config_of 1 key_a 1000)).0 in
    let done = (add_flow plain 0 empty (config_of 1 key_a 1000)).1 in
    let (template, built) = flow_template plain empty (config_of 1 key_a 1000) in
    ((built ≡ false) × (done ≡ false) × (s' ≡ empty))
    ⊎ ((built ≡ true)
        × (done ≡ true)
        × (find 1 s'.flows ≡ (
            if 1 == 1
            then some (new_flow 0 (config_of 1 key_a 1000) template)
            else find 1 empty.flows))
        × (find key_b s'.flow_lookup ≡ (
            if same_key (reverse_key key_a) key_b || same_key key_a key_b
            then some 1
            else find key_b empty.flow_lookup)))
add_flow_cases_example = add_flow_cases plain 0 empty (config_of 1 key_a 1000) 1 key_b

empty-Consistent : Consistent empty
unfolding find
empty-Consistent = record {
  forward = λ i c h. absurd (ground arith);
  backward = λ i c h. absurd (ground arith);
}

one_flow-Consistent : Consistent one_flow
unfolding find reverse_key
one_flow-Consistent = record { forward = λ i c h. ground arith; backward = λ i c h. ground arith }

add_flow-Consistent_example : Consistent (add_flow plain 0 empty (config_of 1 key_a 1000)).0
unfolding find
add_flow-Consistent_example =
    add_flow-Consistent plain 0 empty (config_of 1 key_a 1000) (inl refl) (inl refl)
      empty-Consistent

remove_flow-Consistent_example : Consistent (remove_flow one_flow 1).0
remove_flow-Consistent_example = remove_flow-Consistent one_flow 1 one_flow-Consistent

get_ready_flows-IsReady_example :
    All
      (ReadyIn 2000000000 (λ _. 2000000000) one_flow.flows)
      (get_ready_flows 2000000000 (λ _. 2000000000) one_flow 10).1
get_ready_flows-IsReady_example = get_ready_flows-IsReady 2000000000 (λ _. 2000000000) one_flow 10

-- A flow of five packets per second is added and started, and a SYN-ACK arrives for it.
abbrev history : List Call
history =
    adds 0 (config_of 1 key_a 5)
    ∷ starts 1000000000 1000000001 1
    ∷ receives 1000000002 1000000003 key_a
        (record {
          src_port = 80;
          dst_port = 1000;
          sent_seq = 1;
          recv_ack = 1;
          data_off = 80;
          tcp_flags = 18;
          rx_win = 0;
          cksum = 0;
          tcp_urp = 0;
        })
        0
    ∷ readies 2000000000 (λ _. 2000000000) 10
    ∷ []

slow_flow_never_ready_example :
    let s = run plain (new_scheduler mac) history in
    All
      (λ i. (c : FlowConfigInternal) × In (i, c) s.flows × ((c.pps ≡ 0) ⊎ (10 ≤ c.pps)))
      (get_ready_flows 9000000000 (λ _. 9000000000) s 10).1
slow_flow_never_ready_example =
    slow_flow_never_ready plain mac history 9000000000 (λ _. 9000000000) 10

connections_stay_closed_example :
    AllFlows plain NoConnection (run plain (new_scheduler mac) history)
connections_stay_closed_example = connections_stay_closed plain mac history
