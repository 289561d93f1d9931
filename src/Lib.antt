-- ===== src/Lib.antt =====
-- A DPDK traffic generator: flows, each with a rate and a prebuilt packet template, are configured
-- by remote calls; workers ask a scheduler which flows may send, fill packets and count them. This
-- library models the control plane and the scheduling core, and proves what the parts promise.
--
-- The parts and their modules:
--
-- - Common: names shared by all modules; lists over native numbers, words of 8 to 128 bits with
--   their wrap-around written out, association lists for the maps, and the record of operations on
--   `double`, which is a parameter (there are no floats here) with fractions as an instance to run
--   code with.
-- - Types (core/common/types.hpp): the flow key and its comparison. A key has its reverse, under
--   which replies are found.
-- - Tcp (core/stateful/tcp_state.cpp): the connection and `process_event`, one clause per accepted
--   pair of state and event. Tcp.Lifecycle has what holds over histories of events.
-- - Bucket (core/scheduler/token_bucket.cpp): the token bucket. `try_consume` gets the clock and
--   the values that failed exchanges bring back; Bucket.Refill and Bucket.Consume have single
--   calls, Bucket.Rate sequences of calls, Bucket.Race the atomic steps of one refill at a time
--   (its mutex) and of lock-free takers as a step relation.
-- - Imix (core/scheduler/imix_engine.cpp): the packet size profile. The random engine and the
--   discrete distribution are a parameter, `Sampler`.
-- - Packet (core/packet/packet_builder.cpp): packet templates, as the headers that the code lays
--   over the bytes and the payload behind them. `Platform` has what comes from DPDK and the C
--   library: constants, byte order, checksums, `sscanf`, `inet_aton`.
-- - Packet.Mutate (core/packet/packet_mutator.cpp): a template is copied into a buffer and varied;
--   the library's calls take sizes in 16 bits, a write outside the buffer is an outcome of its own,
--   and so is a template whose payload begins within its headers, of which no more is said.
-- - Flow (core/scheduler/flow_scheduler.cpp): the scheduler, its two maps, and its calls;
--   Flow.Ready has `get_ready_flows`, Flow.Receive `handle_tcp_rx`, the other modules what they do.
--   It builds templates by Packet, limits rates by Bucket and keeps connections by Tcp.
--   Flow.History has any sequence of calls.
-- - Metrics (core/stats/metrics_collector.cpp): counters per core, rates over snapshots
--   (Metrics.Rates), and latency (Metrics.Latency).
-- - Service (control/grpc/server.cpp, and its messages in proto/traffic_generator.proto): the
--   remote calls that configure, start and stop; they drive Flow, Imix and Metrics. Service.Report
--   has the two that report, Service.Server the life of `GRPCServer`.
-- - Mempool (core/mempools/mempool_manager.cpp): one pool of buffers for each socket. DPDK's pools
--   are a parameter; that it keeps the names of its pools is state.
-- - Worker (core/worker/worker.cpp, and `allocate_burst` of core/mempools/mempool_manager.cpp): the
--   sending side asks Flow which flows are ready, Imix for a size, fills buffers by Packet.Mutate
--   and counts in Metrics; what the pool gives and how many packets the port takes are parameters,
--   and `none` is a read or write out of bounds. Worker.Receive hands received segments to Flow and
--   counts them, Worker.Segments and Worker.Delivers describe which these are, Worker.Loop has the
--   rounds of both, and Worker.Thread the two atomic flags and the thread, whose steps
--   Worker.Running interleaves with the owner's. Worker.Build has `build_packet_from_template`,
--   which nothing calls.
-- - Config (util/config/config_parser.cpp): the configuration, its defaults and its validation.
--   Config.Scan finds a key's value in the bytes of the text, Config.Number reads numbers as
--   `strtoull` does, Config.Parse fills the configuration; Config.Print is a printer of the format
--   in README.md, against which the parser is proved.
-- - Main (main.cpp): the start-up, which reads the options and the configuration by Config and
--   builds Mempool, the ports (Main.Ports), Flow, Imix, Metrics, Service and the workers in this
--   order, and the shutdown (Main.Shutdown). What DPDK and the file system do is the record
--   `Environment`.
--
-- Where a component has many types, they stand in a child whose names it passes on: Packet.Header,
-- Flow.State, Service.Message, Worker.Parts. A module named Tests has runs at concrete inputs, a
-- module named Sample the data for them.
--
-- Conventions: a call's state is an argument and part of its result; what the clock shows is an
-- argument, one for each time it is read. The calls of a scheduler, and the four calls of the
-- service that control it, hold a mutex, which makes a call one step. The service's GetMetrics and
-- GetStats hold none, and read atomic counters one by one; they are modelled as if nothing else ran
-- between the reads. So there are no interleavings; the token bucket, whose takers hold no lock of
-- its own, has them. The loops over lists are structural recursion; the exchange loop recurs over
-- the failed exchanges. The fuel of `to_string` is ten digits, which every 32-bit number fits into;
-- that of the loop over the objects of a JSON array is the length of the text and 1, and each round
-- takes a byte at least. The rounds of a worker are a list, one entry for each round that it makes.
-- A map is iterated in the order of its association list, so the theorems hold for any order.
--
-- Not modelled: `wait` of the server, which only calls gRPC; `print_usage` and other messages;
-- packets as bytes, which are headers and payload here, so that a received buffer is what the code
-- reads at the fixed offsets, any headers whatever the packet's length is, since the code does not
-- look at it; the generated gRPC code; the Python client. Debugging output is left out everywhere.
pub mod Common
pub mod Tcp
pub mod Bucket
pub mod Imix
pub mod Types
pub mod Packet
pub mod Flow
pub mod Mempool
pub mod Metrics
pub mod Service
pub mod Config
pub mod Worker
pub mod Main
