-- ===== src/Base/MemoryStream/Queue.antt =====
-- A memory_stream of network/base/memory_stream.hpp as a queue of bytes, and the writes.
use network_core.Common.{
  ℕ, ◌+◌, ◌*◌, ◌^◌, ◌≤◌, ◌<◌, ◌≡◌, refl, sym, ap, ◌∙◌, true, false, Option, some, [], ◌++◌, leb,
  le→leb, lt→leb, ◌>>=◌, length, take, drop, Bytes, arith, append_assoc, length-append, length-take,
  length-drop, take-append, drop-append_le, Bool-cases, inl, inr, leb→le,
}
use network_core.Common.Memory.{le_store, length-le_store}
use network_core.Base.MemoryStream.{
  MemoryStream, copy_in, copy_out, new_stream, check_space, append, write_value, write_binary,
}

-- the bytes that are written and not yet read
abbrev pub unread : MemoryStream → Bytes
unread s = drop s.rd_pos (take s.wr_pos s.block)

-- a stream of the pool that is in order and holds a queue of bytes
pub record Holds (s : MemoryStream) (queue : Bytes) : Type 0 where
  pub block_length : length s.block ≡ s.data_size
  pub wr_le : s.wr_pos ≤ s.data_size
  pub rd_le : s.rd_pos ≤ s.wr_pos
  pub from_pool : s.pooled ≡ true
  pub unread_eq : unread s ≡ queue

-- a write gives a stream that holds a queue, with the write position behind it
pub record Wrote (r : Option MemoryStream) (queue : Bytes) (wr : ℕ) : Type 0 where
  pub state : MemoryStream
  pub result_eq : r ≡ some state
  pub holds : Holds state queue
  pub wr_eq : state.wr_pos ≡ wr

-- a write that keeps the block
pub record Kept (r : Option MemoryStream) (queue : Bytes) (wr size : ℕ) : Type 0 where
  pub wrote : Wrote r queue wr
  pub size_eq : wrote.state.data_size ≡ size

pub copy_out-some :
    (pos n : ℕ) (block : Bytes)
    → pos + n ≤ length block
    → copy_out pos n block ≡ some (take n (drop pos block))
unfolding copy_out
copy_out-some pos n block h = rw (le→leb (pos + n) (length block) h) refl

copy_in-some :
    (pos : ℕ) (bytes block : Bytes)
    → pos + length bytes ≤ length block
    → copy_in pos bytes block ≡ some (take pos block ++ (bytes ++ drop (pos + length bytes) block))
unfolding copy_in
copy_in-some pos bytes block h = rw (le→leb (pos + length bytes) (length block) h) refl

length-copy :
    (pos : ℕ) (bytes block : Bytes)
    → pos + length bytes ≤ length block
    → length (take pos block ++ (bytes ++ drop (pos + length bytes) block)) ≡ length block
length-copy pos bytes block h = omega (
  arith,
  length-append (take pos block) (bytes ++ drop (pos + length bytes) block),
  length-append bytes (drop (pos + length bytes) block),
  length-take pos block,
  length-drop (pos + length bytes) block,
)

-- the block up to the end of the bytes that were copied in
take-copy :
    (pos : ℕ) (bytes block : Bytes)
    → pos + length bytes ≤ length block
    → take (pos + length bytes) (take pos block ++ (bytes ++ drop (pos + length bytes) block))
      ≡ take pos block ++ bytes
take-copy pos bytes block h =
    let rest = drop (pos + length bytes) block in
    ap (take (pos + length bytes)) (sym (append_assoc (take pos block) bytes rest))
    ∙ ap (λ n. take n ((take pos block ++ bytes) ++ rest))
        (omega (arith, length-append (take pos block) bytes, length-take pos block))
    ∙ take-append (take pos block ++ bytes) rest

module _ (alloc : ℕ → Bytes) (length-alloc : (n : ℕ) → length (alloc n) ≡ n) where
  pub new_stream-Holds : (n : ℕ) → Holds (new_stream alloc n) []
  unfolding new_stream
  new_stream-Holds n = record {
    block_length = length-alloc n;
    wr_le = omega arith;
    rd_le = omega arith;
    from_pool = refl;
    unread_eq = refl;
  }

  pub append-Kept :
      (s : MemoryStream) (queue bytes : Bytes)
      → Holds s queue
      → s.wr_pos + length bytes ≤ s.data_size
      → Kept (append alloc bytes s) (queue ++ bytes) (s.wr_pos + length bytes) s.data_size
  unfolding append
  append-Kept s queue bytes h fit =
      let fit' : s.wr_pos + length bytes ≤ length s.block = omega (arith, h.block_length) in
      record {
        wrote = record {
          state = record s {
            block = take s.wr_pos s.block ++ (bytes ++ drop (s.wr_pos + length bytes) s.block);
            wr_pos = s.wr_pos + length bytes;
          };
          result_eq = rw (copy_in-some s.wr_pos bytes s.block fit') refl;
          holds = record {
            block_length = length-copy s.wr_pos bytes s.block fit' ∙ h.block_length;
            wr_le = fit;
            rd_le = omega (arith, h.rd_le);
            from_pool = h.from_pool;
            unread_eq =
                ap (drop s.rd_pos) (take-copy s.wr_pos bytes s.block fit')
                ∙ drop-append_le s.rd_pos (take s.wr_pos s.block) bytes
                    (omega (arith, length-take s.wr_pos s.block, h.rd_le, h.wr_le, h.block_length))
                ∙ ap (λ q. q ++ bytes) h.unread_eq;
          };
          wr_eq = refl;
        };
        size_eq = refl;
      }

  -- room for `len` bytes, with the queue kept
  pub record Room (len : ℕ) (r : Option MemoryStream) (queue : Bytes) (wr : ℕ) : Type 0 where
    pub room : Wrote r queue wr
    pub fits : wr + len ≤ room.state.data_size

  -- the stream after its block has grown
  abbrev grown : ℕ → MemoryStream → MemoryStream
  grown len s =
      let kept = take s.wr_pos s.block in
      let size = (s.wr_pos + len) * 2 in
      record s { block = kept ++ drop (0 + length kept) (alloc size); data_size = size }

  length-kept :
      (s : MemoryStream) (queue : Bytes) → Holds s queue → length (take s.wr_pos s.block) ≡ s.wr_pos
  length-kept s queue h = omega (arith, length-take s.wr_pos s.block, h.wr_le, h.block_length)

  check_space-grown :
      (len : ℕ) (s : MemoryStream) (queue : Bytes)
      → Holds s queue
      → (s.wr_pos + len) * 2 < 2 ^ 31
      → leb (s.wr_pos + len) s.data_size ≡ false
      → check_space alloc len s ≡ some (grown len s)
  unfolding check_space copy_out copy_in
  check_space-grown len s queue h small e =
      let size = (s.wr_pos + len) * 2 in
      let kept = take s.wr_pos s.block in
      rw
        (
          e,
          h.from_pool,
          lt→leb (2 ^ 31) size small,
          le→leb (0 + s.wr_pos) (length s.block) (omega (arith, h.wr_le, h.block_length)),
          le→leb (0 + length kept) (length (alloc size))
              (omega (arith, length-alloc size, length-kept s queue h)),
        )
        refl

  grown-Holds :
      (len : ℕ) (s : MemoryStream) (queue : Bytes) → Holds s queue → Holds (grown len s) queue
  grown-Holds len s queue h =
      let size = (s.wr_pos + len) * 2 in
      let kept = take s.wr_pos s.block in
      let kept_length = length-kept s queue h in
      record {
        block_length = omega (
          arith,
          length-append kept (drop (0 + length kept) (alloc size)),
          length-drop (0 + length kept) (alloc size),
          length-alloc size,
          kept_length,
        );
        wr_le = omega arith;
        rd_le = h.rd_le;
        from_pool = h.from_pool;
        unread_eq =
            ap (λ n. drop s.rd_pos (take n (kept ++ drop (0 + length kept) (alloc size))))
              (sym kept_length)
            ∙ ap (drop s.rd_pos) (take-append kept (drop (0 + length kept) (alloc size)))
            ∙ h.unread_eq;
      }

  pub check_space-Room :
      (len : ℕ) (s : MemoryStream) (queue : Bytes)
      → Holds s queue
      → (s.wr_pos + len) * 2 < 2 ^ 31
      → Room len (check_space alloc len s) queue s.wr_pos
  unfolding check_space
  check_space-Room len s queue h small = elim (Bool-cases (leb (s.wr_pos + len) s.data_size)) [
    | inl e ↦ record {
      room = record { state = s; result_eq = rw e refl; holds = h; wr_eq = refl };
      fits = leb→le (s.wr_pos + len) s.data_size e;
    }
    | inr e ↦ record {
      room = record {
        state = grown len s;
        result_eq = check_space-grown len s queue h small e;
        holds = grown-Holds len s queue h;
        wr_eq = refl;
      };
      fits = omega arith;
    }
  ]

  -- append after check_space, as every write does
  pub write-Wrote :
      (bytes : Bytes) (len : ℕ) (s : MemoryStream) (queue : Bytes)
      → length bytes ≡ len
      → Holds s queue
      → (s.wr_pos + len) * 2 < 2 ^ 31
      → Wrote
          (check_space alloc len s >>= λ t. append alloc bytes t)
          (queue ++ bytes)
          (s.wr_pos + len)
  write-Wrote bytes len s queue e h small =
      let r = check_space-Room len s queue h small in
      let t = r.room.state in
      let w =
        (append-Kept t queue bytes r.room.holds (omega (arith, r.fits, r.room.wr_eq, e))).wrote in
      record {
        state = w.state;
        result_eq = ap (λ o. o >>= λ t. append alloc bytes t) r.room.result_eq ∙ w.result_eq;
        holds = w.holds;
        wr_eq = omega (arith, w.wr_eq, r.room.wr_eq, e);
      }

  -- write_value puts the bytes of the value behind the queue, whatever the block's size, while the
  -- doubled size is an `int`.
  pub write_value-Wrote :
      (width v : ℕ) (s : MemoryStream) (queue : Bytes)
      → Holds s queue
      → (s.wr_pos + width) * 2 < 2 ^ 31
      → Wrote (write_value alloc width v s) (queue ++ le_store width v) (s.wr_pos + width)
  unfolding write_value
  write_value-Wrote width v s queue h small =
      write-Wrote (le_store width v) width s queue (length-le_store width v) h small

  -- write_binary puts its bytes behind the queue, under the same bound.
  pub write_binary-Wrote :
      (bytes : Bytes) (s : MemoryStream) (queue : Bytes)
      → Holds s queue
      → (s.wr_pos + length bytes) * 2 < 2 ^ 31
      → Wrote (write_binary alloc bytes s) (queue ++ bytes) (s.wr_pos + length bytes)
  unfolding write_binary
  write_binary-Wrote bytes s queue h small = write-Wrote bytes (length bytes) s queue refl h small
