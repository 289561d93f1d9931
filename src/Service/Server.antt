-- ===== src/Service/Server.antt =====
-- `GRPCServer` of server.hpp and server.cpp: the server's life. What the gRPC library does is an argument:
-- whether it builds and starts a server.
use ngfwtraffic_gen.Common.{ℕ, Bool, true, false, [], ◌∷◌, ◌++◌, Bytes, codes, to_string}

-- What `server_` points to: nothing, a server that serves, or one that was shut down.
pub data Handle : Type 0 where
  absent serving shut_down : Handle

pub record GrpcServer : Type 0 where
  pub server : Handle
  pub server_address : Bytes
  pub running : Bool

abbrev pub new_server : GrpcServer
new_server = record { server = absent; server_address = []; running = false }

abbrev pub has_server : Handle → Bool
has_server absent = false
has_server serving = true
has_server shut_down = true

abbrev built : Bool → Handle
built true = serving
built false = absent

-- `started` says that `BuildAndStart` gives a server, which takes calls from then on.
unfoldable pub initialize : Bool → Bytes → ℕ → GrpcServer → GrpcServer × Bool
initialize started listen_address port s = (
  record s {
    server = built started;
    server_address = listen_address ++ (b':' ∷ codes (to_string port));
  },
  started,
)

start_with : Handle → GrpcServer → GrpcServer × Bool
start_with absent s = (s, false)
start_with serving s = (record s { running = true }, true)
start_with shut_down s = (record s { running = true }, true)

unfoldable pub start : GrpcServer → GrpcServer × Bool
unfolding start_with
start s = start_with s.server s

stop_with : Handle → GrpcServer → GrpcServer
stop_with absent s = s
stop_with serving s = record s { server = shut_down; running = false }
stop_with shut_down s = record s { server = shut_down; running = false }

unfoldable pub stop : GrpcServer → GrpcServer
unfolding stop_with
stop s = stop_with s.server s

unfoldable pub is_running : GrpcServer → Bool
is_running s = s.running
