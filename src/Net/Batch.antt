-- ===== src/Net/Batch.antt =====
-- `batch_msg` of network/net/raw_msg.hpp, over any message type with its length on the wire.
pub mod Fill
use network_core.Common.{
  ℕ, ◌+◌, ◌%◌, ◌^◌, Bool, true, false, ◌&&◌, ◌||◌, List, [], ◌∷◌, ◌++◌, map, ltb, leb,
  if◌then◌else◌, length,
}

pub record Batch (M : Type 0) : Type 0 where
  pub msgs : List M
  pub capacity : ℕ
  pub length_capacity : ℕ
  pub cur_length : ℕ

module _ {M : Type 0} where
  unfoldable pub new_batch : ℕ → ℕ → Batch M
  new_batch capacity length_capacity = record {
    msgs = [];
    capacity = capacity;
    length_capacity = length_capacity;
    cur_length = 0;
  }

  unfoldable pub full : Batch M → Bool
  full b = ltb 0 b.capacity && leb b.capacity (length b.msgs)

  unfoldable pub empty : Batch M → Bool
  empty b = elim b.msgs [ [] ↦ true | _ ∷ _ ↦ false ]

  unfoldable pub length_full : Batch M → Bool
  length_full b = ltb 0 b.length_capacity && leb b.length_capacity b.cur_length

  -- `cur_length_` is a `size_t`; `total_length` gives the message's length
  unfoldable pub add_msg : (M → ℕ) → Batch M → M → Bool × Batch M
  unfolding full length_full
  add_msg total_length b m = if full b || length_full b then (false, b) else (
    true,
    record b { msgs = b.msgs ++ m ∷ []; cur_length = (b.cur_length + total_length m) % 2 ^ 64 },
  )

  -- `hton()` and `ntoh()` convert every message
  unfoldable pub convert : (M → M) → Batch M → Batch M
  convert f b = record b { msgs = map f b.msgs }

  -- the loop of `async_write_msg`: messages move from the front of the queue until one is refused
  unfoldable pub fill : (M → ℕ) → Batch M → List M → Batch M × List M
  unfolding add_msg
  fill total_length b [] = (b, [])
  fill total_length b (m ∷ queue) =
      let (taken, b') = add_msg total_length b m in
      let rest = fill total_length b' queue in if taken then rest else (b, m ∷ queue)
