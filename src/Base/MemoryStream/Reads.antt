-- ===== src/Base/MemoryStream/Reads.antt =====
-- The reads of network/base/memory_stream.hpp, from the front of the queue of bytes.
use network_core.Common.{
  ℕ, ◌+◌, ◌-◌, ◌^◌, ◌≤◌, ◌<◌, ◌≡◌, refl, sym, ap, ◌∙◌, subst, append-nil, Option, none, some, [],
  ◌++◌, if◌then◌else◌, ◌>>=◌, length, take, drop, Bytes, arith, length-append, length-take,
  length-drop, take-append, take-drop-take, drop-append, lt→ltb, le→ltb, drop-add,
}
use network_core.Common.Memory.{le_store, le_load, le_load-le_store, length-le_store}
use network_core.Base.MemoryStream.{MemoryStream, copy_out, read_value, read_binary}
use network_core.Base.MemoryStream.Queue.{Holds, copy_out-some}

pub length-unread :
    (s : MemoryStream) (queue : Bytes) → Holds s queue → length queue ≡ s.wr_pos - s.rd_pos
length-unread s queue h = omega (
  arith,
  ap length h.unread_eq,
  length-drop s.rd_pos (take s.wr_pos s.block),
  length-take s.wr_pos s.block,
  h.wr_le,
  h.block_length,
)

-- the front of the queue, where it stands in the block
front :
    (n : ℕ) (s : MemoryStream) (queue : Bytes)
    → Holds s queue
    → n ≤ length queue
    → copy_out s.rd_pos n s.block ≡ some (take n queue)
front n s queue h fit =
    copy_out-some s.rd_pos n s.block
      (omega (arith, length-unread s queue h, h.wr_le, h.block_length, h.rd_le))
    ∙ ap some (
        sym (
          take-drop-take n s.rd_pos s.wr_pos s.block
            (omega (arith, length-unread s queue h, h.rd_le)))
        ∙ ap (take n) h.unread_eq)

-- the stream after `n` bytes are read
advance-Holds :
    (n : ℕ) (s : MemoryStream) (queue : Bytes)
    → Holds s queue
    → n ≤ length queue
    → Holds (record s { rd_pos = s.rd_pos + n }) (drop n queue)
advance-Holds n s queue h fit = record {
  block_length = h.block_length;
  wr_le = h.wr_le;
  rd_le = omega (arith, length-unread s queue h, h.rd_le);
  from_pool = h.from_pool;
  unread_eq = drop-add s.rd_pos n (take s.wr_pos s.block) ∙ ap (drop n) h.unread_eq;
}

-- a read gives a value and a stream that holds the rest
pub record Got {A : Type 0} (r : Option (MemoryStream × A)) (value : A) (rest : Bytes) (wr : ℕ)
    : Type 0 where
  pub state : MemoryStream
  pub result_eq : r ≡ some (state, value)
  pub holds : Holds state rest
  pub wr_eq : state.wr_pos ≡ wr

read_value-some :
    (width : ℕ) (s : MemoryStream) (bytes : Bytes)
    → s.rd_pos + width ≤ s.wr_pos
    → copy_out s.rd_pos width s.block ≡ some bytes
    → read_value width s ≡ some (record s { rd_pos = s.rd_pos + width }, some (le_load width bytes))
unfolding read_value
read_value-some width s bytes h e =
    ap
      (λ b.
        if b
        then some (s, none)
        else (copy_out s.rd_pos width s.block >>= λ bytes.
            some (record s { rd_pos = s.rd_pos + width }, some (le_load width bytes))))
      (le→ltb s.wr_pos (s.rd_pos + width) h)
    ∙ ap
        (λ o.
          o >>= λ bytes. some (record s { rd_pos = s.rd_pos + width }, some (le_load width bytes)))
        e

-- bytes at the front of the queue
cut-front :
    (n : ℕ) (bytes rest : Bytes)
    → length bytes ≡ n
    → (take n (bytes ++ rest) ≡ bytes) × (drop n (bytes ++ rest) ≡ rest)
cut-front n bytes rest e = (
  ap (λ k. take k (bytes ++ rest)) (sym e) ∙ take-append bytes rest,
  ap (λ k. drop k (bytes ++ rest)) (sym e) ∙ drop-append bytes rest,
)

-- read_value takes the value off the front of the queue.
pub read_value-Got :
    (width v : ℕ) (s : MemoryStream) (rest : Bytes)
    → Holds s (le_store width v ++ rest)
    → v < 256 ^ width
    → Got (read_value width s) (some v) rest s.wr_pos
read_value-Got width v s rest h small =
    let bytes = le_store width v in
    let cut = cut-front width bytes rest (length-le_store width v) in
    let fit : width ≤ length (bytes ++ rest) =
      omega (arith, length-append bytes rest, length-le_store width v) in
    record {
      state = record s { rd_pos = s.rd_pos + width };
      result_eq =
          read_value-some width s bytes
            (omega (arith, length-unread s (bytes ++ rest) h, fit, h.rd_le))
            (front width s (bytes ++ rest) h fit ∙ ap some (cut.0))
          ∙ ap (λ x. some (record s { rd_pos = s.rd_pos + width }, some x))
              (ap (le_load width) (sym (append-nil bytes)) ∙ le_load-le_store width v [] small);
      holds =
          subst (Holds (record s { rd_pos = s.rd_pos + width })) (cut.1)
            (advance-Holds width s (bytes ++ rest) h fit);
      wr_eq = refl;
    }

-- read_binary takes its bytes off the front of the queue, when there are as many.
pub read_binary-Got :
    (bytes : Bytes) (s : MemoryStream) (rest : Bytes)
    → Holds s (bytes ++ rest)
    → Got (read_binary (length bytes) s) bytes rest s.wr_pos
unfolding read_binary
read_binary-Got bytes s rest h =
    let n = length bytes in
    let fit : n ≤ length (bytes ++ rest) = omega (arith, length-append bytes rest) in
    record {
      state = record s { rd_pos = s.rd_pos + n };
      result_eq =
          ap (λ o. o >>= λ b. some (record s { rd_pos = s.rd_pos + n }, b))
            (front n s (bytes ++ rest) h fit ∙ ap some (take-append bytes rest));
      holds =
          subst (Holds (record s { rd_pos = s.rd_pos + n })) (drop-append bytes rest)
            (advance-Holds n s (bytes ++ rest) h fit);
      wr_eq = refl;
    }

-- read_value refuses a queue that is too short, and leaves the stream as it is.
pub read_value-short :
    (width : ℕ) (s : MemoryStream) (queue : Bytes)
    → Holds s queue
    → length queue < width
    → read_value width s ≡ some (s, none)
unfolding read_value
read_value-short width s queue h short =
    rw (lt→ltb s.wr_pos (s.rd_pos + width) (omega (arith, length-unread s queue h, h.rd_le))) refl
