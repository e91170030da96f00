-- ===== src/Net/Batch/Fill.antt =====
-- What a batch takes from a queue, and how large it can grow.
use network_core.Common.{
  ℕ, ◌+◌, ◌%◌, ◌^◌, ◌≤◌, ◌<◌, ◌≡◌, refl, sym, ◌⊎◌, inl, inr, true, ◌||◌, List, [], ◌∷◌, ◌++◌,
  append-nil, append_assoc, arith, length, length-append, Bool-cases,
}
use network_core.Net.Batch.{Batch, new_batch, full, length_full, add_msg, fill}

module _ {M : Type 0} (total_length : M → ℕ) where
  abbrev pub sum_length : List M → ℕ
  sum_length [] = 0
  sum_length (m ∷ ms) = total_length m + sum_length ms

  pub sum_length-append : (xs ys : List M) → sum_length (xs ++ ys) ≡ sum_length xs + sum_length ys
  sum_length-append [] ys = omega arith
  sum_length-append (x ∷ xs) ys = omega (arith, sum_length-append xs ys)

  -- The count is within the capacity, the length counter is the sum of the messages' lengths, and
  -- only the last message may pass the length capacity.
  pub record IsValid (b : Batch M) : Type 0 where
    pub within : 0 < b.capacity → length b.msgs ≤ b.capacity
    pub counted : b.cur_length ≡ sum_length b.msgs
    pub passed : 0 < b.length_capacity → b.cur_length < b.length_capacity + 2 ^ 32

  pub new_batch-IsValid :
      (capacity length_capacity : ℕ) → IsValid (new_batch capacity length_capacity)
  unfolding new_batch
  new_batch-IsValid capacity length_capacity = ground arith

  -- `total_length` is a uint32_t, and the sum of what is queued fits in `size_t`
  add_msg-IsValid :
      (b : Batch M) (m : M)
      → total_length m < 2 ^ 32
      → sum_length b.msgs + total_length m < 2 ^ 64
      → IsValid b
      → IsValid (add_msg total_length b m).1
  unfolding add_msg
  add_msg-IsValid b m small fits v =
      ground (arith, length-append b.msgs (m ∷ []), sum_length-append b.msgs (m ∷ []))

  abbrev pub AllSmall : List M → Type 0
  AllSmall [] = Unit {0}
  AllSmall (m ∷ ms) = (total_length m < 2 ^ 32) × AllSmall ms

  -- Filling a batch from a queue keeps the messages and their order, keeps the batch valid, and
  -- leaves messages behind only when the batch is full by count or by length.
  pub fill_lem :
      (b : Batch M) (queue : List M)
      → IsValid b
      → AllSmall queue
      → sum_length b.msgs + sum_length queue < 2 ^ 64
      → let (b', rest) = fill total_length b queue in
        (b'.msgs ++ rest ≡ b.msgs ++ queue)
        × IsValid b'
        × ((rest ≡ []) ⊎ ((full b' || length_full b') ≡ true))
        × (b'.capacity ≡ b.capacity)
        × (b'.length_capacity ≡ b.length_capacity)
  unfolding fill add_msg
  fill_lem b [] v small fits = (refl, v, inl refl, refl, refl)
  fill_lem b (m ∷ queue) v (s, small) fits = elim (Bool-cases (full b || length_full b)) [
    | inl stopped ↦ ground (arith, v)
    | inr open_ ↦
        let b' = (add_msg total_length b m).1 in
        ground (
          arith,
          add_msg-IsValid b m s,
          append_assoc b.msgs (m ∷ []) queue,
          sum_length-append b.msgs (m ∷ []),
          fill_lem b' queue,
        )
  ]

  -- A batch without limits takes the whole queue.
  pub fill_unlimited :
      (b : Batch M) (queue : List M)
      → b.capacity ≡ 0
      → b.length_capacity ≡ 0
      → ((fill total_length b queue).1 ≡ [])
        × ((fill total_length b queue).0.msgs ≡ b.msgs ++ queue)
  unfolding fill add_msg full length_full
  fill_unlimited b [] c l = (refl, sym (append-nil b.msgs))
  fill_unlimited b (m ∷ queue) c l =
      let b' = record b {
        msgs = b.msgs ++ m ∷ [];
        cur_length = (b.cur_length + total_length m) % 2 ^ 64;
      } in
      ground (arith, fill_unlimited b' queue, append_assoc b.msgs (m ∷ []) queue)
