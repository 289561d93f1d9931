-- ===== src/Service/Serving.antt =====
-- What `is_running` of `GRPCServer` in server.cpp says of the server, after any calls.
use ngfwtraffic_gen.Common.{ℕ, ◌≡◌, refl, Bytes, Bool, true, List, [], ◌∷◌, arith}
use ngfwtraffic_gen.Service.Server.{
  shut_down, GrpcServer, has_server, initialize, start, stop, is_running,
}

-- A call of the owner; the first one with what `BuildAndStart` does.
pub data Call : Type 0 where
  initializes : Bool → Bytes → ℕ → Call
  starts : Call
  stops : Call

unfoldable pub step : GrpcServer → Call → GrpcServer
step s (initializes started listen_address port) = (initialize started listen_address port s).0
step s starts = (start s).0
step s stops = stop s

unfoldable pub run : GrpcServer → List Call → GrpcServer
run s [] = s
run s (c ∷ calls) = run (step s c) calls

-- No call builds a server anew.
abbrev pub NotRebuilt : List Call → Type 0
NotRebuilt [] = Unit
NotRebuilt (initializes started listen_address port ∷ calls) = ⊥
NotRebuilt (starts ∷ calls) = NotRebuilt calls
NotRebuilt (stops ∷ calls) = NotRebuilt calls

start_shut_down :
    (s : GrpcServer)
    → s.server ≡ shut_down
    → ((start s).0.server ≡ shut_down) × ((start s).1 ≡ true) × (is_running (start s).0 ≡ true)
unfolding start is_running
start_shut_down s e = ground arith

stop_shut_down : (s : GrpcServer) → has_server s.server ≡ true → (stop s).server ≡ shut_down
unfolding stop
stop_shut_down s h = ground arith

run_shut_down :
    (calls : List Call) (s : GrpcServer)
    → NotRebuilt calls
    → s.server ≡ shut_down
    → (run s calls).server ≡ shut_down
unfolding run step
run_shut_down [] s n e = e
run_shut_down (initializes started listen_address port ∷ calls) s n e = absurd n
run_shut_down (starts ∷ calls) s n e = run_shut_down calls (start s).0 n (start_shut_down s e).0
run_shut_down (stops ∷ calls) s n e = run_shut_down calls (stop s) n (stop_shut_down s (rw e refl))

-- After `stop` on a server that was built, and any further calls of `start` and `stop`, `start`
-- returns true and `is_running` says true, though the server is shut down.
pub restarted_not_serving :
    (s : GrpcServer) (calls : List Call)
    → has_server s.server ≡ true
    → NotRebuilt calls
    → let r = start (run (stop s) calls) in
      (r.1 ≡ true) × (is_running r.0 ≡ true) × (r.0.server ≡ shut_down)
restarted_not_serving s calls h n =
    let (kept, done, running) =
      start_shut_down (run (stop s) calls) (run_shut_down calls (stop s) n (stop_shut_down s h)) in
    (done, running, kept)
