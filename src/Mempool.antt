-- ===== src/Mempool.antt =====
-- core/mempools/mempool_manager.hpp and mempool_manager.cpp: the memory pools, one for each socket. The
-- mutex makes each call one step. `allocate_burst` stands with the worker, which calls it.
pub mod Pools
pub mod Retry
mod Tests
use Prim.Native.String.{◌++◌ as str_append}
use ngfwtraffic_gen.Common.{
  ℕ, zero, suc, ◌+◌, String, Bool, true, false, Option, none, some, List, [], ◌∷◌, ◌++◌, map, ◌==◌,
  if◌then◌else◌, to_string,
}

-- DPDK's pools. A call that creates one gets the names that are in use, the name, the number of buffers,
-- the size of the cache, and the socket.
pub record Dpdk : Type 1 where
  pub Pool : Type 0
  pub pool_create_by_ops : List String → String → ℕ → ℕ → ℕ → Option Pool
  pub pool_create : List String → String → ℕ → ℕ → ℕ → Option Pool
  pub avail_count : Pool → ℕ
  pub in_use_count : Pool → ℕ
  pub total_count : Pool → ℕ

pub record PoolEntry (Pool : Type 0) : Type 0 where
  pub socket_id : ℕ
  pub pool : Pool
  pub name : String

pub record MempoolManager (Pool : Type 0) : Type 0 where
  pub pools : List (PoolEntry Pool)
  pub initialized : Bool

pub record PoolStats : Type 0 where
  pub socket_id : ℕ
  pub available : ℕ
  pub in_use : ℕ
  pub total_allocated : ℕ

abbrev pub new_manager : {Pool : Type 0} → MempoolManager Pool
new_manager = record { pools = []; initialized = false }

abbrev first_pool : {Pool : Type 0} → List (PoolEntry Pool) → Option Pool
first_pool [] = none
first_pool (entry ∷ pools) = some entry.pool

unfoldable pub find_pool : {Pool : Type 0} → ℕ → List (PoolEntry Pool) → Option Pool
find_pool socket_id [] = none
find_pool socket_id (entry ∷ pools) =
    let rest = find_pool socket_id pools in
    if entry.socket_id == socket_id then some entry.pool else rest

abbrev or_else : {A : Type 0} → Option A → Option A → Option A
or_else none o = o
or_else (some a) o = some a

unfoldable pub get_mempool : {Pool : Type 0} → MempoolManager Pool → ℕ → Option Pool
unfolding find_pool
get_mempool m socket_id = or_else (find_pool socket_id m.pools) (first_pool m.pools)

-- `socket_id` is what `rte_socket_id` returns.
unfoldable pub get_local_mempool : {Pool : Type 0} → ℕ → MempoolManager Pool → Option Pool
get_local_mempool socket_id m = get_mempool m socket_id

-- The pointers that are given back, null ones passed over.
unfoldable pub free_burst : {B : Type 0} → List (Option B) → List B
free_burst [] = []
free_burst (none ∷ mbufs) = free_burst mbufs
free_burst (some b ∷ mbufs) = b ∷ free_burst mbufs

abbrev pub pool_name : String → ℕ → String
pool_name name_prefix socket_id =
    str_append name_prefix (str_append "_socket" (to_string socket_id))

module _ (dpdk : Dpdk) where
  open dpdk use {Pool, pool_create_by_ops, pool_create, avail_count, in_use_count, total_count}

  unfoldable pub create_mempool : List String → ℕ → ℕ → ℕ → String → Option Pool
  create_mempool names socket_id nb_mbufs cache_size name =
      or_else (pool_create_by_ops names name nb_mbufs cache_size socket_id)
        (pool_create names name nb_mbufs cache_size socket_id)

  -- The loop over the sockets, with those left, the next one, the names in use and the pools so far.
  unfoldable pub create_pools :
      ℕ
      → ℕ
      → String
      → ℕ
      → ℕ
      → List String
      → List (PoolEntry Pool)
      → List (PoolEntry Pool) × List String × Bool
  create_pools nb_mbufs cache_size name_prefix zero socket_id names pools = (pools, names, true)
  create_pools nb_mbufs cache_size name_prefix (suc left) socket_id names pools =
      let name = pool_name name_prefix socket_id in
      elim (create_mempool names socket_id nb_mbufs cache_size name) [
        | none ↦ ([], names, false)
        | some pool ↦
            create_pools nb_mbufs cache_size name_prefix left (socket_id + 1) (name ∷ names)
              (pools ++ record { socket_id = socket_id; pool = pool; name = name } ∷ [])
      ]

  -- `rte_socket_count`, or 1.
  abbrev pub max_socket : ℕ → ℕ
  max_socket count = if count == 0 then 1 else count

  -- The manager, the names in use, and the result.
  unfoldable pub initialize :
      ℕ
      → ℕ
      → ℕ
      → String
      → List String
      → MempoolManager Pool
      → MempoolManager Pool × List String × Bool
  unfolding create_pools
  initialize socket_count nb_mbufs cache_size name_prefix names m =
      if m.initialized
      then (m, names, true)
      else let (pools, names', done) =
          create_pools nb_mbufs cache_size name_prefix (max_socket socket_count) 0 names m.pools in
        (record { pools = pools; initialized = done }, names', done)

  unfoldable pub get_stats : MempoolManager Pool → List PoolStats
  get_stats m =
      map
        (λ entry. record {
          socket_id = entry.socket_id;
          available = avail_count entry.pool;
          in_use = in_use_count entry.pool;
          total_allocated = total_count entry.pool;
        })
        m.pools
