-- ===== src/Mempool/Tests.antt =====
-- Runs of mempool_manager.cpp, and its theorems at concrete inputs.
use text.Mathlib.Text.{◌==◌ as str_eq}
use text.Mathlib.TextEquality.{eq_iff}
use ngfwtraffic_gen.Common.{
  ℕ, ◌≡◌, refl, inl, inr, String, Bool, true, false, Option, none, some, List, [], ◌∷◌, In, ltb,
  if◌then◌else◌, to_string, ◌||◌, arith,
}
use ngfwtraffic_gen.Mempool.{Dpdk, new_manager, create_mempool, initialize, get_mempool}
use ngfwtraffic_gen.Mempool.Pools.{Initialized, initialize_cases}
use ngfwtraffic_gen.Mempool.Retry.{RefusesNames, initialize_retry}

in_use : String → List String → Bool
in_use name [] = false
in_use name (n ∷ names) = str_eq name n || in_use name names

in_use_In : (name : String) (names : List String) → In name names → in_use name names ≡ true
unfolding in_use
in_use_In name [] h = absurd h
in_use_In name (n ∷ names) (inl e) = ground (arith, eq_iff name n, e)
in_use_In name (n ∷ names) (inr h) = ground (arith, in_use_In name names h)

-- A pool is its socket; only the sockets below `n` have memory.
abbrev create_for : ℕ → List String → String → ℕ → ℕ → ℕ → Option ℕ
create_for n names name nb_mbufs cache_size socket_id =
    if in_use name names then none else if ltb socket_id n then some socket_id else none

abbrev machine : ℕ → Dpdk
machine n = record {
  Pool = ℕ;
  pool_create_by_ops = create_for n;
  pool_create = create_for n;
  avail_count = λ p. 8192;
  in_use_count = λ p. 0;
  total_count = λ p. 8192;
}

machine-RefusesNames : (n : ℕ) → RefusesNames (machine n)
machine-RefusesNames n = record {
  by_ops = λ names name nb_mbufs cache_size socket_id h. rw (in_use_In name names h) refl;
  by_default = λ names name nb_mbufs cache_size socket_id h. rw (in_use_In name names h) refl;
}

-- Two sockets with memory; a core on a third gets the first pool.
falls_back : get_mempool (initialize (machine 2) 2 8192 512 "mbuf_pool" [] new_manager).0 2 ≡ some 0
unfolding initialize create_mempool get_mempool in_use to_string
falls_back = refl

initialize_cases_example :
    Initialized
      (machine 2)
      8192
      512
      "mbuf_pool"
      2
      (initialize (machine 2) 2 8192 512 "mbuf_pool" [] new_manager)
initialize_cases_example = initialize_cases (machine 2) 8192 512 "mbuf_pool" 2 []

-- The second of two sockets has no memory, and it still fails when one socket is asked for.
initialize_retry_example :
    initialize
      (machine 1)
      1
      4096
      256
      "mbuf_pool"
      (initialize (machine 1) 2 8192 512 "mbuf_pool" [] new_manager).1
      (initialize (machine 1) 2 8192 512 "mbuf_pool" [] new_manager).0
    ≡ (new_manager, (initialize (machine 1) 2 8192 512 "mbuf_pool" [] new_manager).1, false)
unfolding initialize create_mempool in_use to_string
initialize_retry_example =
    initialize_retry (machine 1) (machine-RefusesNames 1) 2 1 8192 4096 512 256 "mbuf_pool" [] 0
      refl refl
