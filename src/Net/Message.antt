-- ===== src/Net/Message.antt =====
-- `msg_header`, `msg_body` and `basic_msg` of network/net/raw_msg.hpp as they are built, sent and
-- queued. A body is the block that it owns, with its length and offset; the memory pool is not
-- part of the model, so `alloc` takes the block that the pool returned.
pub mod Delivery
use network_core.Common.{
  ℕ, ◌+◌, ◌-◌, ◌%◌, ◌^◌, Bool, true, false, Option, none, some, List, [], ◌∷◌, ◌++◌, ltb, leb, ◌&&◌,
  ◌||◌, if◌then◌else◌, drop, take, length, map, Bytes,
}
use network_core.Net.Header.{NetOrder, MsgHeader, init, init_reply, store, hton}
use network_core.Net.Reader.{Msg}

pub record MsgBody : Type 0 where
  pub block : Option Bytes
  pub length_field : ℕ
  pub offset : ℕ

unfoldable pub no_body : MsgBody
no_body = record { block = none; length_field = 0; offset = 0 }

unfoldable pub alloc : Bytes → ℕ → MsgBody
alloc block data_size = record { block = some block; length_field = data_size % 2 ^ 32; offset = 0 }

-- the old block goes back to the pool: it is the first part of the result
unfoldable pub reset_body : MsgBody → Bytes → ℕ → Option Bytes × MsgBody
reset_body b block data_size =
    (b.block, record { block = some block; length_field = data_size % 2 ^ 32; offset = 0 })

-- `length()`, in uint32_t
unfoldable pub body_length : MsgBody → ℕ
body_length b = (b.length_field + 2 ^ 32 - b.offset) % 2 ^ 32

-- the bytes of `to_buffer()`: `length()` bytes from `data()`
unfoldable pub body_bytes : MsgBody → Bytes
unfolding body_length
body_bytes b = elim b.block [ none ↦ [] | some held ↦ take (body_length b) (drop b.offset held) ]

pub record BasicMsg : Type 0 where
  pub header : MsgHeader
  pub body : MsgBody

-- the constructor from a header: `int len`, so a length of 2 ^ 31 or more is negative there
unfoldable pub from_header : MsgHeader → Bytes → BasicMsg
unfolding alloc no_body
from_header h block = record {
  header = h;
  body =
      if ltb 0 h.length_field && ltb h.length_field (2 ^ 31)
      then alloc block h.length_field
      else no_body;
}

-- `reset(data_ptr, data_size)`
unfoldable pub reset : BasicMsg → Bytes → ℕ → Option Bytes × BasicMsg
unfolding reset_body
reset m block data_size =
    let (old, body) = reset_body m.body block data_size in
    (old, record { header = record m.header { length_field = data_size % 2 ^ 32 }; body = body })

unfoldable pub total_length : BasicMsg → ℕ
total_length m = (24 + m.header.length_field) % 2 ^ 32

-- the bytes of `to_buffers()` after `hton()`
module _ (order : NetOrder) (big_endian : Bool) where
  unfoldable pub wire_bytes : BasicMsg → Bytes
  unfolding body_bytes
  wire_bytes m = store (hton order big_endian m.header) ++ body_bytes m.body
