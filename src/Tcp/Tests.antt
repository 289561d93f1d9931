-- ===== src/Tcp/Tests.antt =====
-- Runs of the state machine of tcp_state.cpp, and its theorems at concrete inputs.
use ngfwtraffic_gen.Common.{ℕ, ◌≡◌, refl, true, false, List, [], ◌∷◌}
use ngfwtraffic_gen.Tcp.{
  Event, TcpConnectionState, established, send_syn, recv_syn, recv_syn_ack, new_connection,
  process_event, run,
}
use ngfwtraffic_gen.Tcp.Lifecycle.{Inv, has_handshake, run_new-Inv, run_needs_handshake}

abbrev fresh : TcpConnectionState
unfolding new_connection
fresh = new_connection 1 2 3 4

abbrev opening : List (ℕ × Event)
opening = (10, send_syn) ∷ (20, recv_syn_ack) ∷ []

opens : (run fresh opening).state ≡ established
unfolding run process_event new_connection
opens = refl

-- A SYN that arrives at a closed connection is not accepted.
passive_open_refused : (process_event 5 fresh recv_syn).1 ≡ false
unfolding process_event new_connection
passive_open_refused = refl

run_new-Inv_example : Inv (run (new_connection 1 2 3 4) opening)
run_new-Inv_example = run_new-Inv 1 2 3 4 opening

run_needs_handshake_example : has_handshake opening ≡ true
unfolding run process_event new_connection
run_needs_handshake_example = run_needs_handshake fresh opening refl (λ e. cc) (λ e. cc)

opened-Inv : Inv (run fresh opening)
unfolding new_connection
opened-Inv = run_new-Inv 1 2 3 4 opening
