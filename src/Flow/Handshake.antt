-- ===== src/Flow/Handshake.antt =====
-- The connections of stateful flows, in flow_scheduler.cpp: no call raises SEND_SYN.
use ngfwtraffic_gen.Common.{ℕ, ◌≡◌, inl, inr, false, Option, none, some, List, arith, Option-cases}
use ngfwtraffic_gen.Packet.{Platform, TcpHdr}
use ngfwtraffic_gen.Tcp.{TcpConnectionState, closed, new_connection, process_event}
use ngfwtraffic_gen.Flow.{FlowConfigInternal, new_scheduler, new_flow, started, stopped, counted}
use ngfwtraffic_gen.Flow.Ready.{visit, visited}
use ngfwtraffic_gen.Flow.Receive.{receive, flow_receives}
use ngfwtraffic_gen.Flow.History.{Call, Kept, AllFlows, run, run_new-AllFlows}

abbrev pub ClosedIfAny : Option TcpConnectionState → Type 0
ClosedIfAny none = Unit
ClosedIfAny (some conn) = (conn.state ≡ closed) × (conn.active ≡ false)

abbrev pub NoConnection : FlowConfigInternal → Type 0
NoConnection c = ClosedIfAny c.tcp_state

module _ (pf : Platform) where
  receive-closed :
      (now_ns later_ns : ℕ) (h : TcpHdr) (payload_len : ℕ) (conn : TcpConnectionState)
      → (conn.state ≡ closed) × (conn.active ≡ false)
      → ((receive pf now_ns later_ns h payload_len conn).state ≡ closed)
        × ((receive pf now_ns later_ns h payload_len conn).active ≡ false)
  unfolding receive process_event
  receive-closed now_ns later_ns h payload_len conn v = ground arith

  flow_receives-NoConnection :
      (now_ns later_ns : ℕ) (h : TcpHdr) (payload_len : ℕ) (c : FlowConfigInternal)
      → NoConnection c
      → NoConnection (flow_receives pf now_ns later_ns h payload_len c)
  unfolding flow_receives
  flow_receives-NoConnection now_ns later_ns h payload_len c v = elim (Option-cases c.tcp_state) [
    | inl e ↦ ground arith
    | inr (conn, e) ↦ ground (arith, receive-closed now_ns later_ns h payload_len conn)
  ]

  closed-Kept : Kept pf NoConnection
  unfolding new_flow started stopped counted new_connection visit visited
  closed-Kept = record {
    at_birth = λ now_ns s config allowed built. ground arith;
    on_start = λ now_ns bucket_ns c h. h;
    on_stop = λ c h. h;
    on_visit = λ now_ns bucket_ns c h. ground arith;
    on_count = λ packets bytes c h. h;
    on_receive = flow_receives-NoConnection;
  }

  -- After any calls on a new scheduler, whatever segments arrive, every connection is in CLOSED and
  -- inactive: no handshake ever begins.
  pub connections_stay_closed :
      (src_mac : List ℕ) (calls : List Call)
      → AllFlows pf NoConnection (run pf (new_scheduler src_mac) calls)
  connections_stay_closed = run_new-AllFlows pf NoConnection closed-Kept
