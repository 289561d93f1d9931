-- ===== src/Mempool/Retry.antt =====
-- `initialize` of mempool_manager.cpp after a failure: the pools that it created keep their names.
use ngfwtraffic_gen.Common.{
  ℕ, zero, suc, ◌+◌, ◌-◌, ◌≡◌, refl, ap, inl, inr, String, Bool, true, false, none, some, List, [],
  ◌∷◌, ◌++◌, In, arith, Option-cases,
}
use ngfwtraffic_gen.Mempool.{
  Dpdk, PoolEntry, MempoolManager, new_manager, pool_name, create_mempool, create_pools, max_socket,
  initialize,
}
use ngfwtraffic_gen.Mempool.Pools.{Initialized, initialize_cases}

-- DPDK refuses a name that is in use.
pub record RefusesNames (dpdk : Dpdk) : Type 0 where
  pub by_ops :
      (names : List String) (name : String) (nb_mbufs cache_size socket_id : ℕ)
      → In name names
      → dpdk.pool_create_by_ops names name nb_mbufs cache_size socket_id ≡ none
  pub by_default :
      (names : List String) (name : String) (nb_mbufs cache_size socket_id : ℕ)
      → In name names
      → dpdk.pool_create names name nb_mbufs cache_size socket_id ≡ none

module _ (dpdk : Dpdk) (documented : RefusesNames dpdk) where
  open dpdk use {Pool}

  taken_name :
      (names : List String) (socket_id nb_mbufs cache_size : ℕ) (name : String)
      → In name names
      → create_mempool dpdk names socket_id nb_mbufs cache_size name ≡ none
  unfolding create_mempool
  taken_name names socket_id nb_mbufs cache_size name h =
      rw
        (
          documented.by_ops names name nb_mbufs cache_size socket_id h,
          documented.by_default names name nb_mbufs cache_size socket_id h,
        )
        refl

  names_kept :
      (nb_mbufs cache_size : ℕ) (name_prefix : String) (left a : ℕ) (names : List String)
      (pools : List (PoolEntry Pool)) (name : String)
      → In name names
      → In name (create_pools dpdk nb_mbufs cache_size name_prefix left a names pools).1
  unfolding create_pools
  names_kept nb_mbufs cache_size name_prefix zero a names pools name h = h
  names_kept nb_mbufs cache_size name_prefix (suc left) a names pools name h =
      let here = pool_name name_prefix a in
      elim (Option-cases (create_mempool dpdk names a nb_mbufs cache_size here)) [
        | inl e ↦ rw (e, create_pools) h
        | inr (pool, e) ↦
            rw (e, create_pools)
              (names_kept nb_mbufs cache_size name_prefix left (a + 1) (here ∷ names)
                (pools ++ record { socket_id = a; pool = pool; name = here } ∷ []) name (inr h))
      ]

  create_pools_taken :
      (nb_mbufs cache_size : ℕ) (name_prefix : String) (left : ℕ) (names : List String)
      (pools : List (PoolEntry Pool))
      → In (pool_name name_prefix 0) names
      → create_pools dpdk nb_mbufs cache_size name_prefix (suc left) 0 names pools
        ≡ ([], names, false)
  unfolding create_pools
  create_pools_taken nb_mbufs cache_size name_prefix left names pools h =
      rw (taken_name names 0 nb_mbufs cache_size (pool_name name_prefix 0) h, create_pools) refl

  first_name :
      (nb_mbufs cache_size : ℕ) (name_prefix : String) (left : ℕ) (names : List String)
      (pool : Pool)
      → create_mempool dpdk names 0 nb_mbufs cache_size (pool_name name_prefix 0) ≡ some pool
      → In
          (pool_name name_prefix 0)
          (create_pools dpdk nb_mbufs cache_size name_prefix (suc left) 0 names []).1
  unfolding create_pools
  first_name nb_mbufs cache_size name_prefix left names pool e =
      let here = pool_name name_prefix 0 in
      rw (e, create_pools)
        (names_kept nb_mbufs cache_size name_prefix left 1 (here ∷ names)
          (record { socket_id = 0; pool = pool; name = here } ∷ []) here (inl refl))

  emptied :
      (nb_mbufs cache_size : ℕ) (name_prefix : String) (count : ℕ)
      (r : MempoolManager Pool × List String × Bool)
      → Initialized dpdk nb_mbufs cache_size name_prefix count r
      → r.2 ≡ false
      → r.0.pools ≡ []
  emptied nb_mbufs cache_size name_prefix count (m, names, true) i failed = absurd (ground arith)
  emptied nb_mbufs cache_size name_prefix count (m, names, false) i failed =
      ap (λ (m : MempoolManager Pool). m.pools) i

  max_socket-suc : (count : ℕ) → max_socket dpdk count ≡ suc (max_socket dpdk count - 1)
  max_socket-suc count = ground arith

  -- After an `initialize` of a new manager that failed though the first pool was created, every
  -- later `initialize` with the same prefix fails, whatever is asked for, since the first pool
  -- keeps its name. It relies on DPDK refusing a name that is in use.
  pub initialize_retry :
      (count count' nb_mbufs nb_mbufs' cache_size cache_size' : ℕ) (name_prefix : String)
      (names : List String) (pool : Pool)
      → let r = initialize dpdk count nb_mbufs cache_size name_prefix names new_manager in
        create_mempool dpdk names 0 nb_mbufs cache_size (pool_name name_prefix 0) ≡ some pool
        → r.2 ≡ false
        → initialize dpdk count' nb_mbufs' cache_size' name_prefix r.1 r.0
          ≡ (new_manager, r.1, false)
  unfolding initialize
  initialize_retry count count' nb_mbufs nb_mbufs' cache_size cache_size' name_prefix names pool e
        failed =
      let n : ℕ = max_socket dpdk count in
      let made = create_pools dpdk nb_mbufs cache_size name_prefix n 0 names [] in
      let taken : In (pool_name name_prefix 0) made.1 =
        rw (max_socket-suc count)
          (first_name nb_mbufs cache_size name_prefix (n - 1) names pool e) in
      let gone : made.0 ≡ [] =
        emptied nb_mbufs cache_size name_prefix count
          (initialize dpdk count nb_mbufs cache_size name_prefix names new_manager)
          (initialize_cases dpdk nb_mbufs cache_size name_prefix count names) failed in
      rw (failed, gone, max_socket-suc count')
        (rw
          (create_pools_taken nb_mbufs' cache_size' name_prefix (max_socket dpdk count' - 1) made.1
            [] taken)
          refl)
