-- ===== src/Net/Wire.antt =====
-- What the connection code asks of a message header: the template parameter HEADER of
-- network/net/raw_msg.hpp, with its size, its byte-order conversions and its length field.
use network_core.Common.{ℕ, ◌+◌, ◌-◌, ◌*◌, ◌<◌, ◌^◌, Bytes}

pub record HeaderType (H : Type 0) : Type 0 where
  -- sizeof(header_t)
  pub size : ℕ
  -- memcpy of the first `size` bytes into the struct, and the struct as bytes
  pub load : Bytes → H
  pub store : H → Bytes
  pub ntoh : H → H
  pub hton : H → H
  -- the field `length`, and set_header_length
  pub length_of : H → ℕ
  pub with_length : H → ℕ → H
  pub size_pos : 0 < size
  -- the receive buffer has room for a header
  pub size_lt : size < 1024 * 100
  -- a header fits in memory, so its size and a 32-bit length do not wrap in `size_t`
  pub length_lt : (b : Bytes) → size + length_of (ntoh (load b)) < 2 ^ 64 - 1
