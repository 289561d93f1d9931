-- ===== src/Tcp/Lifecycle.antt =====
-- Whole histories of a connection of tcp_state.cpp.
use ngfwtraffic_gen.Common.{
  ℕ, ◌≤◌, ◌≡◌, refl, ◌≢◌, Bool, true, false, ◌||◌, List, [], ◌∷◌, map, length, arith,
}
use ngfwtraffic_gen.Tcp.{
  State, Event, TcpConnectionState, closed, syn_sent, syn_rcvd, established, fin_wait_1, fin_wait_2,
  close_wait, closing, last_ack, time_wait, send_syn, recv_syn_ack, send_fin, recv_fin, recv_ack,
  timeout, new_connection, process_event, run,
}

abbrev pub is_open : State → Bool
is_open closed = false
is_open _ = true

pub record Inv (c : TcpConnectionState) : Type 0 where
  pub active_open : c.active ≡ is_open c.state
  pub client_only : c.state ≢ syn_rcvd

pub process_event-Inv :
    (now_ns : ℕ) (c : TcpConnectionState) (e : Event) → Inv c → Inv (process_event now_ns c e).0
unfolding process_event
process_event-Inv now_ns c e h = ground arith

run-Inv : (c : TcpConnectionState) (es : List (ℕ × Event)) → Inv c → Inv (run c es)
unfolding run
run-Inv c [] h = h
run-Inv c ((now_ns, e) ∷ es) h =
    run-Inv (process_event now_ns c e).0 es (process_event-Inv now_ns c e h)

-- Whatever events a new connection sees, its `active` flag says whether its state is not CLOSED,
-- and it is never in SYN_RCVD.
pub run_new-Inv :
    (src_ip dst_ip src_port dst_port : ℕ) (es : List (ℕ × Event))
    → Inv (run (new_connection src_ip dst_ip src_port dst_port) es)
unfolding new_connection
run_new-Inv src_ip dst_ip src_port dst_port es = run-Inv _ es (ground arith)

-- What an event leaves alone.
pub record SameEndpoints (c d : TcpConnectionState) : Type 0 where
  pub src_ip : d.src_ip ≡ c.src_ip
  pub dst_ip : d.dst_ip ≡ c.dst_ip
  pub src_port : d.src_port ≡ c.src_port
  pub dst_port : d.dst_port ≡ c.dst_port
  pub send_seq : d.send_seq ≡ c.send_seq
  pub send_ack : d.send_ack ≡ c.send_ack
  pub recv_seq : d.recv_seq ≡ c.recv_seq
  pub recv_ack : d.recv_ack ≡ c.recv_ack
  pub send_window : d.send_window ≡ c.send_window
  pub recv_window : d.recv_window ≡ c.recv_window
  pub time_wait_end_ns : d.time_wait_end_ns ≡ c.time_wait_end_ns

event_frame :
    (now_ns : ℕ) (c d : TcpConnectionState) (e : Event)
    → SameEndpoints c d
    → SameEndpoints c (process_event now_ns d e).0
unfolding process_event
event_frame now_ns c d e h = ground arith

run_frame :
    (c d : TcpConnectionState) (es : List (ℕ × Event))
    → SameEndpoints c d
    → SameEndpoints c (run d es)
unfolding run
run_frame c d [] h = h
run_frame c d ((now_ns, e) ∷ es) h =
    run_frame c (process_event now_ns d e).0 es (event_frame now_ns c d e h)

-- A history of events never touches the addresses, the ports, the sequence and acknowledgement
-- numbers, the windows or the end of TIME_WAIT.
pub run-SameEndpoints :
    (c : TcpConnectionState) (es : List (ℕ × Event)) → SameEndpoints c (run c es)
run-SameEndpoints c es = run_frame c c es (ground arith)

-- The events, from the one after which the handshake is complete.
abbrev pub has_event : (Event → Bool) → List (ℕ × Event) → Bool
has_event p [] = false
has_event p ((now_ns, e) ∷ es) = p e || has_event p es

abbrev pub is_syn_ack : Event → Bool
is_syn_ack recv_syn_ack = true
is_syn_ack _ = false

abbrev pub is_send_syn : Event → Bool
is_send_syn send_syn = true
is_send_syn _ = false

-- A SEND_SYN with a RECV_SYN_ACK after it.
abbrev pub has_handshake : List (ℕ × Event) → Bool
has_handshake [] = false
has_handshake ((now_ns, send_syn) ∷ es) = has_event is_syn_ack es || has_handshake es
has_handshake ((now_ns, e) ∷ es) = has_handshake es

abbrev past_handshake : State → Bool
past_handshake closed = false
past_handshake syn_sent = false
past_handshake _ = true

syn_sent_needs :
    (c : TcpConnectionState) (es : List (ℕ × Event))
    → c.state ≡ syn_sent
    → past_handshake (run c es).state ≡ true
    → has_event is_syn_ack es ≡ true
unfolding run process_event
syn_sent_needs c [] h p = ground arith
syn_sent_needs c ((now_ns, recv_syn_ack) ∷ es) h p = refl
syn_sent_needs c ((now_ns, e) ∷ es) h p =
    syn_sent_needs (process_event now_ns c e).0 es (ground arith) p

closed_needs :
    (c : TcpConnectionState) (es : List (ℕ × Event))
    → c.state ≡ closed
    → past_handshake (run c es).state ≡ true
    → has_handshake es ≡ true
unfolding run process_event
closed_needs c [] h p = ground arith
closed_needs c ((now_ns, send_syn) ∷ es) h p =
    ground (arith, syn_sent_needs (process_event now_ns c send_syn).0 es)
closed_needs c ((now_ns, e) ∷ es) h p =
    closed_needs (process_event now_ns c e).0 es (ground arith) p

-- A connection that starts in CLOSED is past CLOSED and SYN_SENT only if a SYN was sent and a
-- SYN+ACK was received after it.
pub run_needs_handshake :
    (c : TcpConnectionState) (es : List (ℕ × Event))
    → c.state ≡ closed
    → (run c es).state ≢ closed
    → (run c es).state ≢ syn_sent
    → has_handshake es ≡ true
run_needs_handshake c es h p q = closed_needs c es h (ground arith)

-- Without a SYN sent a closed connection stays closed.
pub run_without_syn :
    (c : TcpConnectionState) (es : List (ℕ × Event))
    → c.state ≡ closed
    → has_event is_send_syn es ≡ false
    → (run c es).state ≡ closed
unfolding run process_event
run_without_syn c [] h p = h
run_without_syn c ((now_ns, send_syn) ∷ es) h p = cc
run_without_syn c ((now_ns, e) ∷ es) h p =
    run_without_syn (process_event now_ns c e).0 es (ground arith) p

-- Events that take a connection down in an orderly way, from each state.
abbrev pub teardown : State → List Event
teardown closed = []
teardown syn_sent = recv_syn_ack ∷ send_fin ∷ recv_ack ∷ recv_fin ∷ timeout ∷ []
teardown syn_rcvd = recv_ack ∷ send_fin ∷ recv_ack ∷ recv_fin ∷ timeout ∷ []
teardown established = send_fin ∷ recv_ack ∷ recv_fin ∷ timeout ∷ []
teardown fin_wait_1 = recv_ack ∷ recv_fin ∷ timeout ∷ []
teardown fin_wait_2 = recv_fin ∷ timeout ∷ []
teardown close_wait = send_fin ∷ recv_ack ∷ []
teardown closing = recv_ack ∷ timeout ∷ []
teardown last_ack = recv_ack ∷ []
teardown time_wait = timeout ∷ []

-- From each state of a connection whose `active` flag is right, and which is not in SYN_RCVD, some
-- five events at most lead to CLOSED, and the connection is then inactive.
pub run-teardown :
    (c : TcpConnectionState) (now_ns : ℕ)
    → Inv c
    → (length (teardown c.state) ≤ 5)
      × ((run c (map (λ e. (now_ns, e)) (teardown c.state))).state ≡ closed)
      × ((run c (map (λ e. (now_ns, e)) (teardown c.state))).active ≡ false)
unfolding run process_event
run-teardown c now_ns h = ground arith
