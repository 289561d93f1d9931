-- ===== src/Worker/Tests.antt =====
-- A run of worker.cpp, and its theorem at a concrete input.
use ngfwtraffic_gen.Common.{
  ◌==◌, if◌then◌else◌, ℕ, ◌+◌, ◌≡◌, true, false, none, some, List, [], ◌∷◌, arith,
}
use ngfwtraffic_gen.Common.Double.{fractions}
use ngfwtraffic_gen.Packet.Sample.{plain, key_a, counting}
use ngfwtraffic_gen.Packet.Mutate.{Mbuf}
use ngfwtraffic_gen.Imix.{new_engine}
use ngfwtraffic_gen.Imix.Sample.{counter, counter_documented}
use ngfwtraffic_gen.Imix.Select
use ngfwtraffic_gen.Flow.{FlowConfigInternal, new_scheduler}
use ngfwtraffic_gen.Flow.History
use ngfwtraffic_gen.Flow.History.{Call, adds, starts}
use ngfwtraffic_gen.Metrics.{new_collector}
use ngfwtraffic_gen.Worker.{Allocation, yields, runs_out, WorkerConfig}
use ngfwtraffic_gen.Worker.Idle.{worker_loop_silent}
use ngfwtraffic_gen.Common.{List, u64, ℕ, refl, ◌↔◌}
use ngfwtraffic_gen.Common.Double.{Fraction}
use ngfwtraffic_gen.Metrics.{MetricsCollector, no_stats, get_global_stats}
use ngfwtraffic_gen.Worker.Loop.{Round, World, worker_loop}
use ngfwtraffic_gen.Worker.Receive.{Received, process_received_packets}
use ngfwtraffic_gen.Worker.Received.{
  Burst, present, bytes, timed, with_received, process_received_packets_totals,
}
use ngfwtraffic_gen.Worker.Delivers.{Delivers, process_received_packets-Delivers}
use ngfwtraffic_gen.Worker.Rounds.{worker_loop_balance}
use ngfwtraffic_gen.Worker.Running.{Reach, begin, next, starts, runs, Reach-start_aborts}
use ngfwtraffic_gen.Worker.Thread.{Lifecycle, new_worker, start, thread_step, returned, spawned}

abbrev config : WorkerConfig
config = record {
  core_id = 1;
  tx_burst_size = 32;
  rx_burst_size = 32;
  enable_rx = true;
  has_timestamp = true;
}

-- A flow that leaves its packet size to the engine.
abbrev flow : FlowConfigInternal
flow = record {
  flow_id = 1;
  flow_key = key_a;
  packet_size = 0;
  protocol = "tcp";
  pps = 1000;
  duration_seconds = 0;
  stateless = false;
  dst_mac = "";
  template_packet = record { flow_key = key_a; total_size = 0; payload_offset = 0; frame = none };
  token_bucket = none;
  tcp_state = none;
  tcp_state_machine = false;
  packets_sent = 0;
  bytes_sent = 0;
  start_time_ns = 0;
  active = false;
}

abbrev history : List Call
history = adds 0 flow ∷ starts 1000000000 1000000001 1 ∷ []

abbrev buffer : ℕ → Mbuf
buffer i = record { pkt_len = 0; data_len = 0; tailroom = 2048; frame = none; timestamp = i }

-- One buffer, and an empty pool after it.
abbrev pool : ℕ → Allocation
pool i = if i == 0 then yields (buffer 0) else runs_out 105

-- A TCP segment of the flow's connection, stamped at 500 ns.
abbrev segment : Received
segment = record {
  pkt_len = 64;
  timestamp = 500;
  ip = record {
    version_ihl = 69;
    type_of_service = 0;
    total_length = 50;
    packet_id = 0;
    fragment_offset = 0;
    time_to_live = 64;
    next_proto_id = 6;
    hdr_checksum = 7;
    src_addr = 20;
    dst_addr = 10;
  };
  tcp = record {
    src_port = 80;
    dst_port = 1000;
    sent_seq = 1;
    recv_ack = 1;
    data_off = 80;
    tcp_flags = 18;
    rx_win = 65535;
    cksum = 9;
    tcp_urp = 0;
  };
}

abbrev burst : Burst
burst = some segment ∷ none ∷ some segment ∷ []

-- Two cores, of which the second is the worker's.
abbrev collector : MetricsCollector Fraction
collector = record (new_collector fractions 0) {
  per_core_stats = no_stats ∷ no_stats ∷ [];
  num_cores = 2;
}

process_received_packets-Delivers_example :
    let s = History.run plain (new_scheduler (1 ∷ [])) history in
    (calls : List Call) × Delivers plain (λ _. (900, 901)) 0 burst calls
    × ((process_received_packets fractions plain config 900
          (λ _. (900, 901))
          burst
          (some s)
          none).flow_scheduler
        ≡ some (History.run plain s calls))
process_received_packets-Delivers_example =
    process_received_packets-Delivers fractions plain refl config 900 (λ _. (900, 901)) burst
      (History.run plain (new_scheduler (1 ∷ [])) history) none
      ((omega arith, omega arith), (tt, ((omega arith, omega arith), tt)))

process_received_packets_totals_example :
    let r =
      process_received_packets fractions plain config 900
        (λ _. (900, 901))
        burst
        none
        (some collector) in
    (m' : MetricsCollector Fraction) × (r.metrics_collector ≡ some m')
    × (r.freed ≡ present burst)
    × (m'.latency_samples ≡ u64 (0 + timed fractions plain config 900 (λ _. (900, 901)) burst))
    × (get_global_stats m' ≡ with_received 3 (bytes burst) (get_global_stats collector))
unfolding new_collector
process_received_packets_totals_example =
    process_received_packets_totals fractions plain config 900 (λ _. (900, 901)) burst none
      collector (omega arith) (omega arith)

-- A round that finds one buffer in the pool, and two segments at the port.
abbrev round : Round
round = record {
  now_s = 1;
  now_ns = 2000000000;
  bucket_ns = λ _. 2000000000;
  clock = λ _. 2000000000;
  pool = pool;
  rx_ns = 900;
  rx_clock = λ _. (900, 901);
  arrivals = λ n. burst;
}

-- The pool gives a buffer whenever it is asked.
abbrev full_round : Round
full_round = record round { pool = λ i. yields (buffer i) }

worker_loop_silent_example :
    (w' : World counter) × (worker_loop fractions counter counting plain
        (λ n. n)
        config
        true
        true
        (full_round ∷ full_round ∷ [])
        (record {
          flow_scheduler = some (History.run plain (new_scheduler (1 ∷ [])) history);
          imix_engine = none;
          metrics_collector = some collector;
          sent = 0;
          allocated = 0;
          freed = 0;
          lost = 0;
          received = 0;
        })
      ≡ some w')
    × (w'.sent ≡ 0)
    × (w'.freed ≡ 0)
    × (w'.lost ≡ w'.allocated)
worker_loop_silent_example =
    worker_loop_silent fractions counter counting plain (λ n. n) config true true
      (full_round ∷ full_round ∷ []) (some (History.run plain (new_scheduler (1 ∷ [])) history))
      none (some collector) ((λ i. (buffer i, refl)), ((λ i. (buffer i, refl)), tt))

worker_loop_balance_example :
    (w' : World counter) × (worker_loop fractions counter counting plain
        (λ n. n)
        config
        true
        true
        (round ∷ round ∷ [])
        (record {
          flow_scheduler = some (History.run plain (new_scheduler (1 ∷ [])) history);
          imix_engine = some (Select.run fractions counter (new_engine fractions counter 1) []);
          metrics_collector = some collector;
          sent = 0;
          allocated = 0;
          freed = 0;
          lost = 0;
          received = 0;
        })
      ≡ some w')
    × (w'.allocated ≡ w'.sent + w'.freed + w'.lost)
worker_loop_balance_example =
    worker_loop_balance fractions counter counting plain counter_documented (λ n. n)
      (λ n. omega arith) config true true (round ∷ round ∷ []) 1 (1 ∷ []) history []
      (some collector) (omega arith, (tt, tt))

-- A worker whose thread could not be registered.
abbrev returned_worker : Lifecycle
returned_worker = record { running = false; should_stop = false; worker_thread = returned }

returned_worker-Reach : Reach returned_worker
unfolding start thread_step
returned_worker-Reach =
    next (next begin (starts new_worker _ true refl))
      (runs (record { running = true; should_stop = false; worker_thread = spawned }) false)

Reach-start_aborts_example :
    (start returned_worker ≡ none) ↔ (returned_worker.worker_thread ≡ returned)
Reach-start_aborts_example = Reach-start_aborts returned_worker-Reach
