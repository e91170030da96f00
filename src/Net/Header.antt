-- ===== src/Net/Header.antt =====
-- `msg_header` of network/net/raw_msg.hpp: eight fields in 24 bytes. The union of `conn_id` and
-- `user_id` is one field. `ntohs` and its like are the platform's, and `big_endian` is the
-- static flag of the class.
pub mod Transfer
use network_core.Common.{
  ℕ, ◌+◌, ◌-◌, ◌*◌, ◌<◌, ◌^◌, ◌≡◌, Bool, not, if◌then◌else◌, [], ◌++◌, arith, drop, Bytes,
}
use network_core.Common.Memory.{le_store, le_load, le_load-lt}
use network_core.Net.Wire.{HeaderType}

-- <arpa/inet.h>: conversions that undo one another and keep their width
pub record NetOrder : Type 0 where
  pub ntohs : ℕ → ℕ
  pub htons : ℕ → ℕ
  pub ntohl : ℕ → ℕ
  pub htonl : ℕ → ℕ
  pub ntohs-htons : (v : ℕ) → v < 2 ^ 16 → ntohs (htons v) ≡ v
  pub ntohl-htonl : (v : ℕ) → v < 2 ^ 32 → ntohl (htonl v) ≡ v
  pub htons_lt : (v : ℕ) → v < 2 ^ 16 → htons v < 2 ^ 16
  pub htonl_lt : (v : ℕ) → v < 2 ^ 32 → htonl v < 2 ^ 32
  pub ntohl_lt : (v : ℕ) → v < 2 ^ 32 → ntohl v < 2 ^ 32

pub record MsgHeader : Type 0 where
  pub from_unique_id : ℕ
  pub to_unique_id : ℕ
  pub conn_id : ℕ
  pub call_id : ℕ
  pub result : ℕ
  pub reserve_bytes : ℕ
  pub protocol_id : ℕ
  pub length_field : ℕ

-- the object representation
unfoldable pub store : MsgHeader → Bytes
store h =
    le_store 2 h.from_unique_id
    ++ (le_store 2 h.to_unique_id
        ++ (le_store 4 h.conn_id
            ++ (le_store 4 h.call_id
                ++ (le_store 2 h.result
                    ++ (le_store 2 h.reserve_bytes
                        ++ (le_store 4 h.protocol_id ++ (le_store 4 h.length_field ++ [])))))))

unfoldable pub load : Bytes → MsgHeader
load b = record {
  from_unique_id = le_load 2 b;
  to_unique_id = le_load 2 (drop 2 b);
  conn_id = le_load 4 (drop 4 b);
  call_id = le_load 4 (drop 8 b);
  result = le_load 2 (drop 12 b);
  reserve_bytes = le_load 2 (drop 14 b);
  protocol_id = le_load 4 (drop 16 b);
  length_field = le_load 4 (drop 20 b);
}

-- `init` with the seven arguments, and with three
unfoldable pub init : ℕ → ℕ → ℕ → ℕ → ℕ → ℕ → ℕ → MsgHeader
init from_id to_id conn_id call_id code protocol len = record {
  from_unique_id = from_id;
  to_unique_id = to_id;
  conn_id = conn_id;
  call_id = call_id;
  result = code;
  reserve_bytes = 0;
  protocol_id = protocol;
  length_field = len;
}

unfoldable pub init_reply : ℕ → ℕ → ℕ → MsgHeader
unfolding init
init_reply code protocol len = init 0 0 0 0 code protocol len

-- every field fits its type
pub record InRange (h : MsgHeader) : Type 0 where
  pub from_lt : h.from_unique_id < 2 ^ 16
  pub to_lt : h.to_unique_id < 2 ^ 16
  pub conn_lt : h.conn_id < 2 ^ 32
  pub call_lt : h.call_id < 2 ^ 32
  pub result_lt : h.result < 2 ^ 16
  pub reserve_lt : h.reserve_bytes < 2 ^ 16
  pub protocol_lt : h.protocol_id < 2 ^ 32
  pub length_lt : h.length_field < 2 ^ 32

module _ (order : NetOrder) (big_endian : Bool) where
  unfoldable pub ntoh : MsgHeader → MsgHeader
  ntoh h = if not big_endian then h else record {
    from_unique_id = order.ntohs h.from_unique_id;
    to_unique_id = order.ntohs h.to_unique_id;
    conn_id = order.ntohl h.conn_id;
    call_id = order.ntohl h.call_id;
    result = order.ntohs h.result;
    reserve_bytes = order.ntohs h.reserve_bytes;
    protocol_id = order.ntohl h.protocol_id;
    length_field = order.ntohl h.length_field;
  }

  unfoldable pub hton : MsgHeader → MsgHeader
  hton h = if not big_endian then h else record {
    from_unique_id = order.htons h.from_unique_id;
    to_unique_id = order.htons h.to_unique_id;
    conn_id = order.htonl h.conn_id;
    call_id = order.htonl h.call_id;
    result = order.htons h.result;
    reserve_bytes = order.htons h.reserve_bytes;
    protocol_id = order.htonl h.protocol_id;
    length_field = order.htonl h.length_field;
  }

pub header_size_pos : 0 < 24
header_size_pos = omega arith

pub header_size_lt : 24 < 1024 * 100
header_size_lt = omega arith

pub header_length_lt :
    (order : NetOrder) (big_endian : Bool) (b : Bytes)
    → 24 + (ntoh order big_endian (load b)).length_field < 2 ^ 64 - 1
unfolding ntoh load
header_length_lt order big_endian b =
    ground (arith, le_load-lt 4 (drop 20 b), order.ntohl_lt (le_load 4 (drop 20 b)))

module _ (order : NetOrder) (big_endian : Bool) where
  -- the header as the reader and the writer of a connection use it
  abbrev pub msg_header_type : HeaderType MsgHeader
  msg_header_type = record {
    size = 24;
    load = load;
    store = store;
    ntoh = ntoh order big_endian;
    hton = hton order big_endian;
    length_of = λ h. h.length_field;
    with_length = λ h n. record h { length_field = n };
    size_pos = header_size_pos;
    size_lt = header_size_lt;
    length_lt = header_length_lt order big_endian;
  }
