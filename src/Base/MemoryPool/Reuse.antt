-- ===== src/Base/MemoryPool/Reuse.antt =====
-- What memory_pool.hpp gives back when a block that it handed out is freed.
use network_core.Common.{
  ℕ, ◌+◌, ◌<◌, ◌≤◌, ◌≡◌, ◌⊎◌, Bool, true, false, ◌&&◌, Option, none, some, List, [], ◌∷◌, ◌++◌,
  if◌then◌else◌, ltb, ◌==◌,
}
use network_core.Base.MemoryPool.{PoolOps, MemoryPool, head_size}

-- pools with chunks that are too small for `size`
unfoldable pub all_below : {P : Type 0} → ℕ → List (ℕ × P) → Bool
all_below size [] = true
all_below size ((k, p) ∷ pools) = ltb k size && all_below size pools

-- the pool `p`, behind smaller ones, is the first that is large enough for `n` bytes, and its next
-- chunk is `a`
pub record Serves {P : Type 0} (ops : PoolOps P) (n a size : ℕ) (p q : P)
    (before after : List (ℕ × P)) (s : MemoryPool P) : Type 0 where
  pub map_eq : s.pool_map ≡ before ++ ((size, p) ∷ after)
  pub smaller : all_below (n + head_size) before ≡ true
  pub fits : n + head_size ≤ size
  pub below_max : n + head_size < s.max_size
  pub given_eq : ops.malloc p ≡ (some a, q)

prepend : {P : Type 0} → List (ℕ × P) → Option (List (ℕ × P)) → Option (List (ℕ × P))
prepend before none = none
prepend before (some pools) = some (before ++ pools)

module _ {P : Type 0} (ops : PoolOps P) where
  -- what a pool that handed out the chunk `a` and is now `q` has, when the block behind `a` has been
  -- freed: it is given the block's address, or nothing, but not the chunk
  abbrev pub GivenBack :
      (a size : ℕ) (q : P) (before after : List (ℕ × P)) → Bool × MemoryPool P → Type 0
  GivenBack a size q before after freed =
      ((ops.is_from (a + head_size) q ≡ true)
        × (freed.0 ≡ false)
        × (freed.1.pool_map ≡ before ++ ((size, ops.free (a + head_size) q) ∷ after)))
      ⊎ ((ops.is_from (a + head_size) q ≡ false)
          × ((after' : List (ℕ × P)) × (freed.1.pool_map ≡ before ++ ((size, q) ∷ after'))))

  -- the state behind a block that was handed out
  abbrev served : (n a size : ℕ) (q : P) (before after : List (ℕ × P)) → MemoryPool P → MemoryPool P
  served n a size q before after s = record s {
    pool_map = before ++ ((size, q) ∷ after);
    memory = λ k. if k == a then n + head_size else s.memory k;
  }
