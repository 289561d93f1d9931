-- ===== src/Flow.antt =====
-- core/scheduler/flow_scheduler.hpp and flow_scheduler.cpp: the flows, and the calls that add, remove,
-- start and stop them. (`Flow.Ready` and `Flow.Receive` have the two larger calls.)
-- The maps are association lists in the order of iteration; a flow is kept by value, and whoever holds
-- its `shared_ptr` names it by its id. What the clock shows is an argument.
mod State
pub mod Ready
pub mod Receive
pub mod Lookup
pub mod KeyMap
pub mod StaleKey
pub mod Expiry
pub mod History
pub mod Schedule
pub mod Handshake
pub mod Starve
pub mod Templates
mod Tests
pub use State.*
use Prim.Native.String.{String}
use text.Mathlib.Text.{◌==◌ as str_eq}
use ngfwtraffic_gen.Common.{
  ℕ, ◌+◌, ◌*◌, ◌/◌, Bool, true, false, not, ◌&&◌, Option, none, some, List, [], ◌∷◌, map, ltb, leb,
  ◌==◌, if◌then◌else◌, length, u64, sub64,
}
use ngfwtraffic_gen.Common.Assoc.{nat_key, find, insert, erase, adjust}
use ngfwtraffic_gen.Types.{flow_key_key, reverse_key}
use ngfwtraffic_gen.Packet.{Platform, PacketTemplate, build_template}
use ngfwtraffic_gen.Bucket
use ngfwtraffic_gen.Bucket.{TokenBucket}
use ngfwtraffic_gen.Tcp.{TcpConnectionState, new_connection}

-- The constructor; `src_mac_` has no initialiser, and `initialize` sets it.
unfoldable pub new_scheduler : List ℕ → FlowScheduler
new_scheduler src_mac = record { flows = []; flow_lookup = []; src_mac = src_mac }

unfoldable pub initialize : FlowScheduler → List ℕ → FlowScheduler × Bool
initialize s src_mac = (record s { src_mac = src_mac }, true)

-- A flow of 0 packets per second has a bucket of 1000 tokens that is never refilled.
unfoldable pub flow_bucket : ℕ → ℕ → TokenBucket
flow_bucket now_ns pps = Bucket.new_bucket now_ns pps (if ltb 0 pps then pps / 10 else 1000)

is_stateful : FlowConfigInternal → Bool
is_stateful c = not c.stateless && str_eq c.protocol "tcp"

flow_connection : FlowConfigInternal → Option TcpConnectionState
unfolding is_stateful
flow_connection c =
    let key = c.flow_key in
    if is_stateful c
    then some (new_connection key.src_ip key.dst_ip key.src_port key.dst_port)
    else none

abbrev pub template_size : ℕ → ℕ
template_size packet_size = if packet_size == 0 then 64 else packet_size

abbrev pub or_broadcast : String → String
or_broadcast mac = if str_eq mac "" then "FF:FF:FF:FF:FF:FF" else mac

-- `new_config`, once its template is built.
unfoldable pub new_flow : ℕ → FlowConfigInternal → PacketTemplate → FlowConfigInternal
unfolding is_stateful flow_connection
new_flow now_ns config template = record {
  flow_id = config.flow_id;
  flow_key = config.flow_key;
  packet_size = config.packet_size;
  protocol = config.protocol;
  pps = config.pps;
  duration_seconds = config.duration_seconds;
  stateless = config.stateless;
  dst_mac = or_broadcast config.dst_mac;
  template_packet = template;
  token_bucket = some (flow_bucket now_ns config.pps);
  tcp_state = flow_connection config;
  tcp_state_machine = is_stateful config;
  packets_sent = 0;
  bytes_sent = 0;
  start_time_ns = 0;
  active = false;
}

abbrev pub flow_template : Platform → FlowScheduler → FlowConfigInternal → PacketTemplate × Bool
flow_template pf s config =
    build_template pf config.flow_key (template_size config.packet_size) config.protocol
      (pf.print_colons s.src_mac) (or_broadcast config.dst_mac)

unfoldable pub add_flow : Platform → ℕ → FlowScheduler → FlowConfigInternal → FlowScheduler × Bool
add_flow pf now_ns s config =
    let (template, built) = flow_template pf s config in
    let key = config.flow_key in
    if built
    then (
      record s {
        flows = insert config.flow_id (new_flow now_ns config template) s.flows;
        flow_lookup =
            insert (reverse_key key) config.flow_id (insert key config.flow_id s.flow_lookup);
      },
      true,
    )
    else (s, false)

drop_flow : FlowScheduler → ℕ → Option FlowConfigInternal → FlowScheduler × Bool
drop_flow s flow_id none = (s, false)
drop_flow s flow_id (some c) = (
  record s {
    flows = erase flow_id s.flows;
    flow_lookup = erase (reverse_key c.flow_key) (erase c.flow_key s.flow_lookup);
  },
  true,
)

unfoldable pub remove_flow : FlowScheduler → ℕ → FlowScheduler × Bool
unfolding drop_flow
remove_flow s flow_id = drop_flow s flow_id (find flow_id s.flows)

reset_bucket : ℕ → Option TokenBucket → Option TokenBucket
reset_bucket now_ns none = none
reset_bucket now_ns (some b) = some (Bucket.reset now_ns b)

-- `bucket_ns` is what the clock shows when the bucket is reset, just after `now_ns`.
unfoldable pub started : ℕ → ℕ → FlowConfigInternal → FlowConfigInternal
unfolding reset_bucket
started now_ns bucket_ns c = record c {
  start_time_ns = now_ns;
  active = true;
  token_bucket = reset_bucket bucket_ns c.token_bucket;
}

abbrev pub found {ℓ} : {A : Type ℓ} → Option A → Bool
found none = false
found (some _) = true

unfoldable pub start_flow : ℕ → ℕ → FlowScheduler → ℕ → FlowScheduler × Bool
start_flow now_ns bucket_ns s flow_id = (
  record s { flows = adjust flow_id (started now_ns bucket_ns) s.flows },
  found (find flow_id s.flows),
)

unfoldable pub stopped : FlowConfigInternal → FlowConfigInternal
stopped c = record c { active = false }

unfoldable pub stop_flow : FlowScheduler → ℕ → FlowScheduler × Bool
stop_flow s flow_id =
    (record s { flows = adjust flow_id stopped s.flows }, found (find flow_id s.flows))

unfoldable pub counted : ℕ → ℕ → FlowConfigInternal → FlowConfigInternal
counted packets bytes c = record c {
  packets_sent = u64 (c.packets_sent + packets);
  bytes_sent = u64 (c.bytes_sent + bytes);
}

unfoldable pub update_flow_stats : FlowScheduler → ℕ → ℕ → ℕ → FlowScheduler
update_flow_stats s flow_id packets bytes = record s {
  flows = adjust flow_id (counted packets bytes) s.flows;
}

unfoldable pub get_flow : FlowScheduler → ℕ → Option FlowConfigInternal
get_flow s flow_id = find flow_id s.flows

unfoldable pub active_ids : List (ℕ × FlowConfigInternal) → List ℕ
active_ids [] = []
active_ids ((flow_id, c) ∷ flows) =
    let rest = active_ids flows in if c.active then flow_id ∷ rest else rest

unfoldable pub get_active_flows : FlowScheduler → List ℕ
unfolding active_ids
get_active_flows s = active_ids s.flows

unfoldable pub snapshot : FlowConfigInternal → FlowSnapshot
snapshot c = record {
  flow_id = c.flow_id;
  flow_key = c.flow_key;
  packet_size = c.packet_size;
  protocol = c.protocol;
  pps = c.pps;
  duration_seconds = c.duration_seconds;
  stateless = c.stateless;
  packets_sent = c.packets_sent;
  bytes_sent = c.bytes_sent;
  start_time_ns = c.start_time_ns;
  active = c.active;
}

unfoldable pub get_all_flows_snapshot : FlowScheduler → List (ℕ × FlowSnapshot)
get_all_flows_snapshot s = map (λ e. (e.0, snapshot e.1)) s.flows

unfoldable pub is_flow_expired_locked : FlowConfigInternal → ℕ → Bool
is_flow_expired_locked c now_ns =
    if c.duration_seconds == 0
    then false
    else if c.start_time_ns == 0
    then false
    else leb (u64 (c.duration_seconds * 1000000000)) (sub64 now_ns c.start_time_ns)

unfoldable pub is_flow_expired : ℕ → FlowScheduler → ℕ → Bool
is_flow_expired now_ns s flow_id = elim (find flow_id s.flows) [
  | none ↦ true
  | some c ↦ is_flow_expired_locked c now_ns
]

unfoldable pub clear_all_flows : FlowScheduler → FlowScheduler
clear_all_flows s = record s { flows = [] }

unfoldable pub get_flow_count : FlowScheduler → ℕ
get_flow_count s = length s.flows
