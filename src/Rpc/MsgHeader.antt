-- ===== src/Rpc/MsgHeader.antt =====
-- The headers of network/rpc/net/msg_header.hpp. `server_msg_header` has the fields and the layout of
-- the header of network/net/raw_msg.hpp, which models it; `common_msg_header` is a union, so a
-- `msg_header` is its 24 bytes, and every method looks at the flag in the first two.
pub mod Client
pub mod Access
pub mod Order
pub mod Laws
use network_core.Common.{
  ℕ, ◌+◌, ◌*◌, ◌/◌, ◌%◌, ◌^◌, Bool, true, false, not, ◌&&◌, ◌++◌, [], ◌==◌, if◌then◌else◌, drop,
  Bytes,
}
use network_core.Common.Memory.{le_store, le_load}
use network_core.Net.Header.{NetOrder, MsgHeader, store, load, init, init_reply, ntoh, hton}
use network_core.Rpc.Protocol.{to_protocol, reply_protocol, bit}

-- msg_option: two bits of flags, two of the type, four and eight in reserve
pub record MsgOption : Type 0 where
  pub is_reply_bit : Bool
  pub is_one_way : Bool
  pub protocol_type : ℕ
  pub reserve : ℕ
  pub reserve1 : ℕ

unfoldable pub number_of_option : MsgOption → ℕ
number_of_option o =
    bit o.is_reply_bit
    + (2 * bit o.is_one_way
        + (2 ^ 2 * (o.protocol_type % 2 ^ 2)
            + (2 ^ 4 * (o.reserve % 2 ^ 4) + 2 ^ 8 * (o.reserve1 % 2 ^ 8))))

unfoldable pub to_option : ℕ → MsgOption
to_option n = record {
  is_reply_bit = n % 2 == 1;
  is_one_way = n / 2 % 2 == 1;
  protocol_type = n / 2 ^ 2 % 2 ^ 2;
  reserve = n / 2 ^ 4 % 2 ^ 4;
  reserve1 = n / 2 ^ 8 % 2 ^ 8;
}

pub record InternalHeader : Type 0 where
  pub flag : ℕ
  pub code : ℕ
  pub option : MsgOption
  pub spare : ℕ
  pub call : ℕ
  pub len : ℕ
  pub hash : ℕ

-- internal_msg_header::init
unfoldable pub init_internal : ℕ → MsgOption → ℕ → ℕ → ℕ → InternalHeader
init_internal code option call_id len hash = record {
  flag = 65535;
  code = code;
  option = option;
  spare = 0;
  call = call_id;
  len = len;
  hash = hash;
}

-- the object representation
unfoldable pub store_internal : InternalHeader → Bytes
unfolding number_of_option
store_internal h =
    le_store 2 h.flag
    ++ (le_store 2 h.code
        ++ (le_store 2 (number_of_option h.option)
            ++ (le_store 2 h.spare
                ++ (le_store 4 h.call ++ (le_store 4 h.len ++ (le_store 8 h.hash ++ []))))))

unfoldable pub load_internal : Bytes → InternalHeader
unfolding to_option
load_internal b = record {
  flag = le_load 2 b;
  code = le_load 2 (drop 2 b);
  option = to_option (le_load 2 (drop 4 b));
  spare = le_load 2 (drop 6 b);
  call = le_load 4 (drop 8 b);
  len = le_load 4 (drop 12 b);
  hash = le_load 8 (drop 16 b);
}

-- the three constructors of msg_header
unfoldable pub internal_header : ℕ → MsgOption → ℕ → ℕ → ℕ → Bytes
unfolding store_internal init_internal
internal_header code option call_id len hash =
    store_internal (init_internal code option call_id len hash)

unfoldable pub server_header : ℕ → ℕ → ℕ → ℕ → ℕ → ℕ → ℕ → Bytes
unfolding store init
server_header from_id to_id conn_id call_id code protocol len =
    store (init from_id to_id conn_id call_id code protocol len)

unfoldable pub server_reply_header : ℕ → ℕ → ℕ → Bytes
unfolding store init_reply
server_reply_header code protocol len = store (init_reply code protocol len)

unfoldable pub is_internal : Bytes → Bool
is_internal b = le_load 2 b == 65535

unfoldable pub is_reply : Bytes → Bool
unfolding is_internal load_internal load to_protocol
is_reply b =
    if is_internal b
    then (load_internal b).option.is_reply_bit
    else (to_protocol (load b).protocol_id).is_reply

-- the argument counts for an internal header only
unfoldable pub reply : Bool → Bytes → Bytes
unfolding is_internal load_internal store_internal load store reply_protocol
reply is_reply b =
    if is_internal b
    then (let h = load_internal b in
        store_internal (record h { option = record h.option { is_reply_bit = is_reply } }))
    else (let h = load b in store (record h { protocol_id = reply_protocol h.protocol_id }))

unfoldable pub need_reply : Bytes → Bool
unfolding is_internal load_internal load to_protocol
need_reply b =
    if is_internal b
    then not (load_internal b).option.is_reply_bit && not (load_internal b).option.is_one_way
    else not (to_protocol (load b).protocol_id).is_reply
      && (to_protocol (load b).protocol_id).need_reply

unfoldable pub result : Bytes → ℕ
unfolding is_internal load_internal load
result b = if is_internal b then (load_internal b).code else (load b).result

unfoldable pub set_result : ℕ → Bytes → Bytes
unfolding is_internal load_internal store_internal load store
set_result r b =
    if is_internal b
    then store_internal (record (load_internal b) { code = r })
    else store (record (load b) { result = r })

unfoldable pub set_conn_id : ℕ → Bytes → Bytes
unfolding is_internal load store
set_conn_id id b = if not (is_internal b) then store (record (load b) { conn_id = id }) else b

unfoldable pub call_id : Bytes → ℕ
unfolding is_internal load_internal load
call_id b = if is_internal b then (load_internal b).call else (load b).call_id

unfoldable pub set_call_id : ℕ → Bytes → Bytes
unfolding is_internal load_internal store_internal load store
set_call_id id b =
    if is_internal b
    then store_internal (record (load_internal b) { call = id })
    else store (record (load b) { call_id = id })

-- `length`, and get_header_length
unfoldable pub length_of : Bytes → ℕ
unfolding is_internal load_internal load
length_of b = if is_internal b then (load_internal b).len else (load b).length_field

-- `length` with an argument, and set_header_length
unfoldable pub set_length : ℕ → Bytes → Bytes
unfolding is_internal load_internal store_internal load store
set_length n b =
    if is_internal b
    then store_internal (record (load_internal b) { len = n })
    else store (record (load b) { length_field = n })

unfoldable pub proto : Bytes → ℕ
unfolding is_internal load_internal load
proto b = if is_internal b then (load_internal b).hash else (load b).protocol_id

module _ (order : NetOrder) (big_endian : Bool) where
  -- an internal header keeps its byte order
  unfoldable pub header_ntoh : Bytes → Bytes
  unfolding is_internal load store ntoh
  header_ntoh b = if is_internal b then b else store (ntoh order big_endian (load b))

  unfoldable pub header_hton : Bytes → Bytes
  unfolding is_internal load store hton
  header_hton b = if is_internal b then b else store (hton order big_endian (load b))
