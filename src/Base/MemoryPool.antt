-- ===== src/Base/MemoryPool.antt =====
-- `memory_pool` of network/base/memory_pool.hpp. The boost pools are a parameter, and so is
-- `::malloc`; addresses are numbers, and the `int` that is stored at an address is the memory. A
-- block from a pool has its size in the four bytes in front of it.
pub mod Reuse
mod Tests
use network_core.Common.{
  ℕ, zero, suc, ◌+◌, ◌-◌, ◌*◌, Bool, true, false, Option, none, some, List, [], ◌∷◌, if◌then◌else◌,
  ltb, ◌==◌,
}

-- the calls of boost::pool<>
pub record PoolOps (P : Type 0) : Type 0 where
  pub new_pool : ℕ → P
  pub malloc : P → Option ℕ × P
  pub free : ℕ → P → P
  pub is_from : ℕ → P → Bool

pub record MemoryPool (P : Type 0) : Type 0 where
  -- by size, in ascending order
  pub pool_map : List (ℕ × P)
  pub max_size : ℕ
  pub is_init : Bool
  pub memory : ℕ → ℕ

-- what malloc_memory gives: a block, or a std::bad_alloc
pub data Block : Type 0 where
  block_at : ℕ → Block
  bad_alloc : Block

-- _memory_head_size
abbrev pub head_size : ℕ
head_size = 4

unfoldable pub get_internal_size : ℕ → ℕ
get_internal_size alloc_size = alloc_size + head_size

module _ {P : Type 0} (ops : PoolOps P) where
  -- the loop of init
  unfoldable pub pools_from : ℕ → ℕ → List (ℕ × P)
  pools_from zero size = []
  pools_from (suc n) size = (size, ops.new_pool size) ∷ pools_from n (size * 2)

  unfoldable pub last_size : ℕ → List (ℕ × P) → ℕ
  last_size max [] = max
  last_size max ((size, p) ∷ pools) = last_size size pools

  unfoldable pub init : MemoryPool P → MemoryPool P
  unfolding pools_from last_size
  init s = if s.is_init then s else record s {
    is_init = true;
    pool_map = pools_from 16 4;
    max_size = last_size s.max_size (pools_from 16 4);
  }

  -- the loop over the pools that are left: the first that has a block
  unfoldable pub try_pools : List (ℕ × P) → Option ℕ × List (ℕ × P)
  try_pools [] = (none, [])
  try_pools ((size, p) ∷ pools) =
      let (taken, rest) = try_pools pools in
      let (given, p') = ops.malloc p in
      elim given [ none ↦ (taken, (size, p') ∷ rest) | some a ↦ (some a, (size, p') ∷ pools) ]

  -- get_iterator, and the loop from there
  unfoldable pub take_block : ℕ → List (ℕ × P) → Option ℕ × List (ℕ × P)
  unfolding try_pools
  take_block size [] = (none, [])
  take_block size ((k, p) ∷ pools) =
      let (taken, rest) = take_block size pools in
      if ltb k size then (taken, (k, p) ∷ rest) else try_pools ((k, p) ∷ pools)

  -- default_malloc: its loop ends in malloc_faild, which throws
  unfoldable pub default_malloc : Option ℕ → Block
  default_malloc none = bad_alloc
  default_malloc (some a) = block_at a

  -- get_ptr: the size is stored, and the block is behind it
  unfoldable pub finish_malloc : Option ℕ → ℕ → Option ℕ → MemoryPool P → Block × MemoryPool P
  unfolding default_malloc
  finish_malloc system size none s = (default_malloc system, s)
  finish_malloc system size (some a) s =
      (block_at (a + head_size), record s { memory = λ k. if k == a then size else s.memory k })

  unfoldable pub malloc_memory : Option ℕ → ℕ → MemoryPool P → Block × MemoryPool P
  unfolding take_block finish_malloc get_internal_size
  malloc_memory system alloc_size s =
      let size = get_internal_size alloc_size in
      let (taken, pools) = take_block size s.pool_map in
      finish_malloc system size taken (record s { pool_map = pools })

  -- the loop of free_memory: the pool that the block is from, if there is one
  unfoldable pub free_in : ℕ → List (ℕ × P) → Option (List (ℕ × P))
  free_in ptr [] = none
  free_in ptr ((k, p) ∷ pools) =
      let rest = free_in ptr pools in
      if ops.is_from ptr p
      then some ((k, ops.free ptr p) ∷ pools)
      else elim rest [ none ↦ none | some pools' ↦ some ((k, p) ∷ pools') ]

  -- from get_iterator on
  unfoldable pub give_back : ℕ → ℕ → List (ℕ × P) → Option (List (ℕ × P))
  unfolding free_in
  give_back size ptr [] = none
  give_back size ptr ((k, p) ∷ pools) =
      let rest = give_back size ptr pools in
      if ltb k size
      then elim rest [ none ↦ none | some pools' ↦ some ((k, p) ∷ pools') ]
      else free_in ptr ((k, p) ∷ pools)

  -- the flag says that the block went to `::free`
  unfoldable pub finish_free : Option (List (ℕ × P)) → MemoryPool P → Bool × MemoryPool P
  finish_free none s = (true, s)
  finish_free (some pools) s = (false, record s { pool_map = pools })

  unfoldable pub free_memory : ℕ → MemoryPool P → Bool × MemoryPool P
  unfolding give_back finish_free
  free_memory ptr s =
      let size = s.memory (ptr - head_size) in
      if ltb size s.max_size then finish_free (give_back size ptr s.pool_map) s else (true, s)
