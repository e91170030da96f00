-- ===== src/Base/MemoryStream.antt =====
-- `memory_stream` of network/base/memory_stream.hpp: a block of bytes with a write position and a
-- read position. A new block of the pool is an argument, a function of its size. Where the
-- source copies or reads outside of its block, frees a block which the pool did not give out, or
-- overflows an `int`, the result is none. The methods for wide strings are not modelled.
pub mod Queue
pub mod Reads
pub mod Strings
use network_core.Common.{
  ℕ, zero, suc, ◌+◌, ◌-◌, ◌*◌, ◌^◌, ◌%◌, Bool, true, false, not, Option, none, some, List, [], ◌∷◌,
  ◌++◌, ltb, leb, ◌==◌, ◌>>=◌, if◌then◌else◌, length, take, drop, get_elem?, Bytes,
}
use network_core.Common.Memory.{le_store, le_load}

-- `pooled`: the block came from the pool
pub record MemoryStream : Type 0 where
  pub block : Bytes
  pub data_size : ℕ
  pub alloc_type : ℕ
  pub pooled : Bool
  pub wr_pos : ℕ
  pub rd_pos : ℕ

-- memcpy into a block, and out of it
unfoldable pub copy_in : ℕ → Bytes → Bytes → Option Bytes
copy_in pos bytes block =
    if leb (pos + length bytes) (length block)
    then some (take pos block ++ (bytes ++ drop (pos + length bytes) block))
    else none

unfoldable pub copy_out : ℕ → ℕ → Bytes → Option Bytes
copy_out pos n block = if leb (pos + n) (length block) then some (take n (drop pos block)) else none

-- memory_stream(char*, int, int) with alloc_type 0: the caller's block, full
unfoldable pub view_of : Bytes → MemoryStream
view_of bytes = record {
  block = bytes;
  data_size = length bytes;
  alloc_type = 0;
  pooled = false;
  wr_pos = length bytes;
  rd_pos = 0;
}

unfoldable pub reset : MemoryStream → MemoryStream
reset s = record s { rd_pos = 0; wr_pos = 0 }

unfoldable pub stream_length : MemoryStream → ℕ
stream_length s = if ltb s.rd_pos s.wr_pos then s.wr_pos - s.rd_pos else 0

unfoldable pub crunch : MemoryStream → Option MemoryStream
unfolding reset stream_length copy_in copy_out
crunch s = if s.rd_pos == 0 then some s else if leb s.wr_pos s.rd_pos then some (reset s) else do
  moved ← copy_out s.rd_pos (stream_length s) s.block
  block ← copy_in 0 moved s.block
  some (record s { block = block; rd_pos = 0; wr_pos = stream_length s })

-- data_ + rd_pos_ after `rd_ptr(offset)` for an offset that is not negative; none is nullptr
unfoldable pub rd_ptr : ℕ → MemoryStream → Option MemoryStream
rd_ptr offset s =
    if ltb s.wr_pos (offset + s.rd_pos)
    then none
    else some (record s { rd_pos = offset + s.rd_pos })

unfoldable pub wr_ptr : ℕ → MemoryStream → Option MemoryStream
wr_ptr offset s =
    if ltb s.data_size (offset + s.wr_pos)
    then none
    else some (record s { wr_pos = offset + s.wr_pos })

module _ (alloc : ℕ → Bytes) where
  -- the constructor with a size
  unfoldable pub new_stream : ℕ → MemoryStream
  new_stream data_size = record {
    block = alloc data_size;
    data_size = data_size;
    alloc_type = 1;
    pooled = true;
    wr_pos = 0;
    rd_pos = 0;
  }

  unfoldable pub reallocate : ℕ → MemoryStream → MemoryStream
  reallocate len s =
      if ltb 0 len
      then record {
        block = alloc len;
        data_size = len;
        alloc_type = 1;
        pooled = true;
        wr_pos = 0;
        rd_pos = 0;
      }
      else s

  unfoldable pub check_space : ℕ → MemoryStream → Option MemoryStream
  unfolding copy_in copy_out
  check_space len s =
      let data_size = (s.wr_pos + len) * 2 in
      if leb (s.wr_pos + len) s.data_size
      then some s
      else if not s.pooled
      then none
      else if leb (2 ^ 31) data_size
      then none
      else do
        kept ← copy_out 0 s.wr_pos s.block
        block ← copy_in 0 kept (alloc data_size)
        some (record s { block = block; data_size = data_size })

  -- memcpy behind the write position
  unfoldable pub append : Bytes → MemoryStream → Option MemoryStream
  unfolding copy_in
  append bytes s = do
    block ← copy_in s.wr_pos bytes s.block
    some (record s { block = block; wr_pos = s.wr_pos + length bytes })

  -- write_value<T> for a type of `width` bytes
  unfoldable pub write_value : ℕ → ℕ → MemoryStream → Option MemoryStream
  unfolding check_space append le_store
  write_value width t s = do s ← check_space width s; append (le_store width t) s

  unfoldable pub write_bool : Bool → MemoryStream → Option MemoryStream
  unfolding write_value
  write_bool val s = write_value 1 (if val then 1 else 0) s

  -- the low two bytes of the length, then the text
  unfoldable pub write_string : Bytes → MemoryStream → Option MemoryStream
  unfolding check_space append le_store
  write_string str s = do
    s ← check_space (length str + 2) s
    s ← append (le_store 2 (length str % 2 ^ 32)) s
    append str s

  -- the two bytes of a `short` size, then the object; a negative size is not modelled
  unfoldable pub write_object : Bytes → MemoryStream → Option MemoryStream
  unfolding check_space append le_store
  write_object object s = if leb (2 ^ 15) (length object) then none else do
    s ← check_space (length object + 2) s
    s ← append (le_store 2 (length object)) s
    append object s

  unfoldable pub write_binary : Bytes → MemoryStream → Option MemoryStream
  unfolding check_space append
  write_binary bytes s = do s ← check_space (length bytes) s; append bytes s

-- read_value<T>: false and the value untouched, or the value
unfoldable pub read_value : ℕ → MemoryStream → Option (MemoryStream × Option ℕ)
unfolding copy_out le_load
read_value width s = if ltb s.wr_pos (s.rd_pos + width) then some (s, none) else do
  bytes ← copy_out s.rd_pos width s.block
  some (record s { rd_pos = s.rd_pos + width }, some (le_load width bytes))

unfoldable pub read_bool : MemoryStream → Option (MemoryStream × (Bool × Bool))
unfolding read_value
read_bool s = do
  r ← read_value 1 s
  some (r.0, elim (r.1) [ none ↦ (false, false) | some uval ↦ (true, uval == 1) ])

-- a position moved by a `short`, which is negative from 2 ^ 15 on
unfoldable pub move_by : ℕ → ℕ → Option ℕ
move_by pos len =
    if ltb len (2 ^ 15)
    then some (pos + len)
    else if ltb (pos + len) (2 ^ 16)
    then none
    else some (pos + len - 2 ^ 16)

-- the text up to the first zero; none when there is none in the block
unfoldable pub c_string : Bytes → Option Bytes
c_string [] = none
c_string (zero ∷ b) = some []
c_string (suc c ∷ b) = do rest ← c_string b; some (suc c ∷ rest)

-- The byte behind the text is read, set to zero, and restored after the copy.
unfoldable pub read_text : ℕ → MemoryStream → Option (MemoryStream × Bytes)
unfolding copy_out copy_in move_by c_string
read_text len s = if len == 0 then some (s, []) else do
  stop ← move_by s.rd_pos len
  c ← copy_out stop 1 s.block
  cut ← copy_in stop (0 ∷ []) s.block
  str ← c_string (drop s.rd_pos cut)
  block ← copy_in stop c cut
  some (record s { block = block; rd_pos = stop }, str)

unfoldable pub read_string : MemoryStream → Option (MemoryStream × Option Bytes)
unfolding copy_out le_load read_text
read_string s = if leb s.wr_pos (s.rd_pos + 2) then some (s, none) else do
  header ← copy_out s.rd_pos 2 s.block
  r ← read_text (le_load 2 header) (record s { rd_pos = s.rd_pos + 2 })
  some (r.0, some (r.1))

unfoldable pub read_binary : ℕ → MemoryStream → Option (MemoryStream × Bytes)
unfolding copy_out
read_binary rd_sz s = do
  bytes ← copy_out s.rd_pos rd_sz s.block
  some (record s { rd_pos = s.rd_pos + rd_sz }, bytes)

-- The length it returns, and the object when it fits in `obj_size` bytes: for a longer one the
-- read position goes back by three. A negative length copies out of bounds, or nothing is known.
unfoldable pub read_object : ℕ → MemoryStream → Option (MemoryStream × (ℕ × Option Bytes))
unfolding copy_out le_load
read_object obj_size s = do header ← copy_out s.rd_pos 2 s.block; read_body (le_load 2 header)
  where
    read_body : ℕ → Option (MemoryStream × (ℕ × Option Bytes))
    read_body len =
        if leb (2 ^ 15) len
        then none
        else if ltb obj_size len
        then (if s.rd_pos == 0
            then none
            else some (record s { rd_pos = s.rd_pos - 1 }, (len, none)))
        else do
          object ← copy_out (s.rd_pos + 2) len s.block
          some (record s { rd_pos = s.rd_pos + 2 + len }, (len, some object))
