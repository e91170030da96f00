-- ===== src/Base/MemoryPool/Tests.antt =====
-- The memory pool at a concrete input, with a pool that is the list of its free chunks.
use network_core.Common.{ℕ, ◌+◌, true, false, Option, none, some, List, [], ◌∷◌}
use network_core.Base.MemoryPool.{PoolOps, MemoryPool, init, pools_from}

abbrev take_first : List ℕ → Option ℕ × List ℕ
take_first [] = (none, [])
take_first (a ∷ rest) = (some a, rest)

abbrev chunks : PoolOps (List ℕ)
chunks = record {
  new_pool = λ size. 1000 ∷ ((1000 + size) ∷ []);
  malloc = take_first;
  free = λ a p. a ∷ p;
  is_from = λ a p. true;
}

-- a new pool, of which the fifth pool has the first chunks of 64 bytes
abbrev new_memory : MemoryPool (List ℕ)
new_memory = init chunks (record { pool_map = []; max_size = 0; is_init = false; memory = λ k. 0 })

abbrev of_size : ℕ → ℕ × List ℕ
of_size size = (size, 1000 ∷ ((1000 + size) ∷ []))

abbrev smaller_pools : List (ℕ × List ℕ)
smaller_pools = of_size 4 ∷ (of_size 8 ∷ (of_size 16 ∷ (of_size 32 ∷ [])))

abbrev larger_pools : List (ℕ × List ℕ)
larger_pools = pools_from chunks 11 128
