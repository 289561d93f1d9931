-- ===== src/Tcp.antt =====
-- core/stateful/tcp_state.hpp and tcp_state.cpp: the connection record and the TCP state machine.
-- `now_ns` reads a clock, so the time it returns is an argument of `process_event`.
pub mod Lifecycle
mod Tests
use ngfwtraffic_gen.Common.{ℕ, Bool, true, false, List, [], ◌∷◌}

pub data State : Type 0 where
  closed syn_sent syn_rcvd established fin_wait_1 fin_wait_2 close_wait closing last_ack time_wait :
      State

pub data Event : Type 0 where
  send_syn recv_syn recv_syn_ack send_fin recv_fin recv_ack app_close timeout : Event

pub record TcpConnectionState : Type 0 where
  pub src_ip : ℕ  -- uint32
  pub dst_ip : ℕ  -- uint32
  pub src_port : ℕ  -- uint16
  pub dst_port : ℕ  -- uint16
  pub state : State
  pub send_seq : ℕ  -- uint32
  pub send_ack : ℕ  -- uint32
  pub recv_seq : ℕ  -- uint32
  pub recv_ack : ℕ  -- uint32
  pub send_window : ℕ  -- uint16
  pub recv_window : ℕ  -- uint16
  pub last_activity_ns : ℕ  -- uint64
  pub time_wait_end_ns : ℕ  -- uint64
  pub active : Bool

-- The member initialisers; the four identifiers have none, and the scheduler sets them at once.
unfoldable pub new_connection : ℕ → ℕ → ℕ → ℕ → TcpConnectionState
new_connection src_ip dst_ip src_port dst_port = record {
  src_ip = src_ip;
  dst_ip = dst_ip;
  src_port = src_port;
  dst_port = dst_port;
  state = closed;
  send_seq = 0;
  send_ack = 0;
  recv_seq = 0;
  recv_ack = 0;
  send_window = 65535;
  recv_window = 65535;
  last_activity_ns = 0;
  time_wait_end_ns = 0;
  active = false;
}

-- The `switch` on the state; the last clause is every `break`.
dispatch : State → Event → TcpConnectionState → TcpConnectionState × Bool
dispatch closed send_syn c = (record c { state = syn_sent; active = true }, true)
dispatch syn_sent recv_syn_ack c = (record c { state = established }, true)
dispatch syn_rcvd recv_ack c = (record c { state = established }, true)
dispatch established app_close c = (record c { state = fin_wait_1 }, true)
dispatch established send_fin c = (record c { state = fin_wait_1 }, true)
dispatch established recv_fin c = (record c { state = close_wait }, true)
dispatch fin_wait_1 recv_ack c = (record c { state = fin_wait_2 }, true)
dispatch fin_wait_1 recv_fin c = (record c { state = closing }, true)
dispatch fin_wait_2 recv_fin c = (record c { state = time_wait }, true)
dispatch close_wait app_close c = (record c { state = last_ack }, true)
dispatch close_wait send_fin c = (record c { state = last_ack }, true)
dispatch closing recv_ack c = (record c { state = time_wait }, true)
dispatch last_ack recv_ack c = (record c { state = closed; active = false }, true)
dispatch time_wait timeout c = (record c { state = closed; active = false }, true)
dispatch _ _ c = (c, false)

-- `now_ns` is what the clock shows; the result is the connection and whether a transition occurred.
unfoldable pub process_event : ℕ → TcpConnectionState → Event → TcpConnectionState × Bool
unfolding dispatch
process_event now_ns c e = dispatch c.state e (record c { last_activity_ns = now_ns })

-- A connection that is driven by timed events.
unfoldable pub run : TcpConnectionState → List (ℕ × Event) → TcpConnectionState
run c [] = c
run c ((now_ns, e) ∷ es) = run (process_event now_ns c e).0 es
