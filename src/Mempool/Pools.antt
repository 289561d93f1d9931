-- ===== src/Mempool/Pools.antt =====
-- What `initialize` of mempool_manager.cpp leaves, and what `get_mempool` finds then.
use mathlib.Core.List.{append_assoc, append-nil}
use ngfwtraffic_gen.Common.{
  ℕ, zero, suc, ◌+◌, ◌≤◌, ◌<◌, ◌≡◌, refl, sym, ◌∙◌, inl, inr, String, Bool, true, false, none, some,
  List, [], ◌∷◌, ◌++◌, length, In, ltb, ◌==◌, if◌then◌else◌, arith, Option-cases, Bool-cases,
}
use ngfwtraffic_gen.Mempool.{
  Dpdk, PoolEntry, MempoolManager, new_manager, find_pool, get_mempool, pool_name, create_mempool,
  create_pools, max_socket, initialize,
}

-- Entries for consecutive sockets.
abbrev Numbered : {Pool : Type 0} → ℕ → List (PoolEntry Pool) → Type 0
Numbered a [] = Unit
Numbered a (e ∷ es) = (e.socket_id ≡ a) × Numbered (a + 1) es

find_pool-Numbered :
    {Pool : Type 0} (a : ℕ) (es : List (PoolEntry Pool)) (s : ℕ)
    → Numbered a es
    → a ≤ s
    → s < a + length es
    → (e : PoolEntry Pool) × (find_pool s es ≡ some e.pool) × (e.socket_id ≡ s) × In e es
unfolding find_pool
find_pool-Numbered a [] s n l h = absurd (omega arith)
find_pool-Numbered a (e ∷ es) s n l h = elim (Bool-cases (e.socket_id == s)) [
  | inl here ↦ (e, rw here refl, ground arith, inl refl)
  | inr there ↦
      let (e', f, i, m) = find_pool-Numbered (a + 1) es s n.1 (ground arith) (omega arith) in
      (e', rw there f, i, inr m)
]

find_pool_past :
    {Pool : Type 0} (a : ℕ) (es : List (PoolEntry Pool)) (s : ℕ)
    → Numbered a es
    → a + length es ≤ s
    → find_pool s es ≡ none
unfolding find_pool
find_pool_past a [] s n h = refl
find_pool_past a (e ∷ es) s n h = ground (arith, find_pool_past (a + 1) es s n.1)

-- The pool that a socket gets: its own, or the first socket's.
abbrev pub Serves : {Pool : Type 0} → MempoolManager Pool → ℕ → ℕ → Type 0
Serves {Pool = Pool} m count s =
    (e : PoolEntry Pool) × In e m.pools
    × (get_mempool m s ≡ some e.pool)
    × (e.socket_id ≡ (if ltb s count then s else 0))

get_mempool-Numbered :
    {Pool : Type 0} (es : List (PoolEntry Pool)) (b : Bool) (s : ℕ)
    → Numbered 0 es
    → 0 < length es
    → Serves (record { pools = es; initialized = b }) (length es) s
unfolding get_mempool
get_mempool-Numbered [] b s n h = absurd (omega arith)
get_mempool-Numbered (e ∷ es) b s n h = elim (Bool-cases (ltb s (length (e ∷ es)))) [
  | inl inside ↦
      let (e', f, i, m) = find_pool-Numbered 0 (e ∷ es) s n (omega arith) (ground arith) in
      (e', m, rw f refl, rw inside i)
  | inr outside ↦
      (e, inl refl, rw (find_pool_past 0 (e ∷ es) s n (ground arith)) refl, rw outside n.0)
]

module _ (dpdk : Dpdk) (nb_mbufs cache_size : ℕ) (name_prefix : String) where
  open dpdk use {Pool}

  abbrev Created : Type 0
  Created = List (PoolEntry Pool) × List String × Bool

  -- Every socket has its pool, or there are no pools.
  abbrev Outcome : ℕ → ℕ → List (PoolEntry Pool) → Created → Type 0
  Outcome left a pools (r, names, true) =
      (new : List (PoolEntry Pool)) × (r ≡ pools ++ new) × Numbered a new × (length new ≡ left)
  Outcome left a pools (r, names, false) = r ≡ []

  extend :
      (left a : ℕ) (pools : List (PoolEntry Pool)) (e : PoolEntry Pool) (r : Created)
      → e.socket_id ≡ a
      → Outcome left (a + 1) (pools ++ e ∷ []) r
      → Outcome (suc left) a pools r
  extend left a pools e (r, names, true) i (new, f, n, l) =
      (e ∷ new, f ∙ append_assoc pools (e ∷ []) new, (i, n), omega (arith, l))
  extend left a pools e (r, names, false) i h = h

  create_pools-Outcome :
      (left a : ℕ) (names : List String) (pools : List (PoolEntry Pool))
      → Outcome left a pools (create_pools dpdk nb_mbufs cache_size name_prefix left a names pools)
  unfolding create_pools
  create_pools-Outcome zero a names pools = ([], sym (append-nil pools), tt, refl)
  create_pools-Outcome (suc left) a names pools =
      let name = pool_name name_prefix a in
      elim (Option-cases (create_mempool dpdk names a nb_mbufs cache_size name)) [
        | inl e ↦ rw (e, create_pools) refl
        | inr (pool, e) ↦
            let entry : PoolEntry Pool = record { socket_id = a; pool = pool; name = name } in
            rw (e, create_pools)
              (extend left a pools entry
                (create_pools dpdk nb_mbufs cache_size name_prefix left (a + 1) (name ∷ names)
                  (pools ++ entry ∷ []))
                refl (create_pools-Outcome left (a + 1) (name ∷ names) (pools ++ entry ∷ [])))
      ]

  max_socket_pos : (count : ℕ) → 0 < max_socket dpdk count
  max_socket_pos count = ground arith

  -- What `initialize` leaves: a pool for every socket, or nothing.
  abbrev pub Initialized : ℕ → MempoolManager Pool × List String × Bool → Type 0
  Initialized count (m, names, true) =
      (m.initialized ≡ true) × ((s : ℕ) → Serves m (max_socket dpdk count) s)
  Initialized count (m, names, false) = m ≡ new_manager

  served :
      (count : ℕ) (r : Created)
      → Outcome (max_socket dpdk count) 0 [] r
      → Initialized count (record { pools = r.0; initialized = r.2 }, r.1, r.2)
  served count (r, names, true) (new, f, n, l) = (
    refl,
    λ s.
        let got = get_mempool-Numbered new true s n (omega (arith, max_socket_pos count)) in
        rw (f, ← l) got,
  )
  served count (r, names, false) h = rw h refl

  -- On a new manager, `initialize` either succeeds, and then each socket below the number of
  -- sockets gets its own pool and any other the pool of socket 0; or it fails and leaves a new
  -- manager.
  pub initialize_cases :
      (count : ℕ) (names : List String)
      → Initialized count (initialize dpdk count nb_mbufs cache_size name_prefix names new_manager)
  unfolding initialize
  initialize_cases count names =
      served count
        (create_pools dpdk nb_mbufs cache_size name_prefix (max_socket dpdk count) 0 names [])
        (create_pools-Outcome (max_socket dpdk count) 0 names [])
