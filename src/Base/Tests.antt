-- ===== src/Base/Tests.antt =====
-- The theorems on network/base at concrete inputs.
use network_core.Common.{
  ℕ, ◌≡◌, true, some, List, [], ◌∷◌, ◌>>=◌, Bytes, arith, replicate, length, length-replicate,
}
use network_core.Common.Memory.{le_store}
use network_core.Base.MemoryStream.{MemoryStream, new_stream}
use network_core.Base.MemoryStream.Queue.{Holds, new_stream-Holds}
use network_core.Base.MemoryStream.Strings.{
  write_values, read_values, read_back, widths, Fit, none_left, fits, encoded,
  read_values-write_values,
}

abbrev zero_block : ℕ → Bytes
zero_block n = replicate n 0

length-zero_block : (n : ℕ) → length (zero_block n) ≡ n
length-zero_block n = length-replicate n 0

-- a stream of four bytes, which the writes below outgrow
abbrev small_stream : MemoryStream
small_stream = new_stream zero_block 4

small_stream-Holds : Holds small_stream []
small_stream-Holds = new_stream-Holds zero_block length-zero_block 4

abbrev items : List (ℕ × ℕ)
items = (2, 513) ∷ ((4, 70000) ∷ ((1, 7) ∷ []))

items-Fit : Fit items
items-Fit = fits (omega arith) (fits (omega arith) (fits (omega arith) none_left))

read_values-write_values_example :
    (write_values zero_block items small_stream >>= read_values (2 ∷ (4 ∷ (1 ∷ []))))
    ≡ some (some 513 ∷ (some 70000 ∷ (some 7 ∷ [])))
unfolding widths read_back encoded le_store new_stream
read_values-write_values_example =
    read_values-write_values zero_block length-zero_block items small_stream small_stream-Holds
      items-Fit (omega arith)

-- a stream with the bytes of a value, or of an empty string, and nothing else
abbrev filled : Bytes → MemoryStream
filled bytes = record {
  block = bytes;
  data_size = length bytes;
  alloc_type = 1;
  pooled = true;
  wr_pos = length bytes;
  rd_pos = 0;
}
