-- ===== src/Main/Shutdown.antt =====
-- `signal_handler` and the end of `main` in main.cpp, from the end of its loop on.
use ngfwtraffic_gen.Common.{
  ◌≡◌, refl, arith, Bool, true, false, Option, none, some, List, [], ◌∷◌, map, All, ℕ, ◌≢◌,
  Bool-cases, inl, inr,
}
use ngfwtraffic_gen.Common.Double.{Double}
use ngfwtraffic_gen.Imix.{Sampler}
use ngfwtraffic_gen.Config.{AppConfig, CoreMapping}
use ngfwtraffic_gen.Main.Started.{workers_of}
use ngfwtraffic_gen.Main.{Launched, Program}
use ngfwtraffic_gen.Service.Server.{GrpcServer, serving}
use ngfwtraffic_gen.Service.Server
use ngfwtraffic_gen.Worker.Thread.{
  Lifecycle, new_worker, start, stop, join, is_running, thread_step,
}
use ngfwtraffic_gen.Worker.Running.{Reach, begin, next, starts, stops, stop-join}

abbrev on_lifecycle : (Lifecycle → Lifecycle) → Launched → Launched
on_lifecycle f w = record w { lifecycle = f w.lifecycle }

unfoldable pub stop_workers : List Launched → List Launched
stop_workers [] = []
stop_workers (w ∷ workers) = on_lifecycle stop w ∷ stop_workers workers

-- `none` while a join waits.
unfoldable pub join_workers : List Launched → Option (List Launched)
join_workers [] = some []
join_workers (w ∷ workers) = elim (join w.lifecycle) [
  | none ↦ none
  | some t ↦ elim (join_workers workers) [
    | none ↦ none
    | some joined ↦ some (record w { lifecycle = t } ∷ joined)
  ]
]

module _ {d : Double} {g : Sampler d.Carrier} {Pool : Type 0} where
  -- What a signal does, `g_running` aside, and what `main` does first when its loop has ended.
  unfoldable pub signal_handler : Program d g Pool → Program d g Pool
  signal_handler p = record p {
    grpc_server = Server.stop p.grpc_server;
    workers = stop_workers p.workers;
  }

  -- What is left of the program when `main` returns, and the ports that it has stopped. `threads` is what the
  -- threads of the workers do until they are joined.
  unfoldable pub end_of_main :
      (Launched → Launched) → Program d g Pool → Option (Program d g Pool × List ℕ)
  unfolding signal_handler
  end_of_main threads p =
      let stopped = signal_handler p in
      elim (join_workers (map threads stopped.workers)) [
        | none ↦ none
        | some joined ↦
            some (record stopped { workers = joined }, map (λ c. c.port_id) p.app_config.ports)
      ]

-- Three steps of a worker's thread; whether the thread can be registered and has a pool is the worker's.
abbrev pub three_steps : (Launched → Bool) → Launched → Launched
three_steps usable w =
    on_lifecycle (λ s. thread_step (usable w) (thread_step (usable w) (thread_step (usable w) s))) w

abbrev pub Live : Launched → Type 0
Live w = Reach w.lifecycle

abbrev pub Ended : Launched → Type 0
Ended w = is_running w.lifecycle ≡ false

join-stop_workers :
    (usable : Launched → Bool) (workers : List Launched)
    → All Live workers
    → (joined : List Launched) × (join_workers
          (map (three_steps usable) (stop_workers (stop_workers workers)))
        ≡ some joined)
      × All Ended joined
unfolding stop_workers join_workers stop
join-stop_workers usable [] h = ([], refl, tt)
join-stop_workers usable (w ∷ workers) h =
    let last = on_lifecycle stop (on_lifecycle stop w) in
    let u = usable last in
    let (t, e, ended, restarts) = stop-join u u u (next h.0 (stops w.lifecycle)) in
    let (joined, f, rest) = join-stop_workers usable workers h.1 in
    (record w { lifecycle = t } ∷ joined, rw (join_workers, e, f) refl, (ended, rest))

stop_twice-serving : (s : GrpcServer) → (Server.stop (Server.stop s)).server ≢ serving
unfolding Server.stop
stop_twice-serving s e = ground arith

-- Whatever each worker's owner and thread have done before a signal, once each thread has made
-- three steps more, the end of `main` joins all workers, none of which runs then, the server does
-- not serve, and the configured ports are stopped, in order.
pub end_of_main-signal_handler :
    {d : Double} {g : Sampler d.Carrier} {Pool : Type 0} (usable : Launched → Bool)
    (p : Program d g Pool)
    → All Live p.workers
    → (q : Program d g Pool) × (end_of_main (three_steps usable) (signal_handler p)
        ≡ some (q, map (λ c. c.port_id) p.app_config.ports))
      × All Ended q.workers
      × (q.grpc_server.server ≢ serving)
unfolding end_of_main signal_handler
end_of_main-signal_handler usable p h =
    let (joined, e, ended) = join-stop_workers usable p.workers h in
    (
      record p { grpc_server = Server.stop (Server.stop p.grpc_server); workers = joined },
      rw (end_of_main, e) refl,
      ended,
      stop_twice-serving p.grpc_server,
    )

-- The workers that the start-up launches.
pub workers_of-Live :
    (enabled : ℕ → Bool) (c : AppConfig) (mappings : List CoreMapping)
    → All Live (workers_of enabled c mappings)
unfolding start
workers_of-Live enabled c [] = tt
workers_of-Live enabled c (mapping ∷ mappings) = elim (Bool-cases (enabled mapping.core_id)) [
  | inl on ↦ rw on (next begin (starts new_worker _ true refl), workers_of-Live enabled c mappings)
  | inr off ↦ rw off (workers_of-Live enabled c mappings)
]
