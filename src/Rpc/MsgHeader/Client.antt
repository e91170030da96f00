-- ===== src/Rpc/MsgHeader/Client.antt =====
-- `client_msg_header` of network/rpc/net/msg_header.hpp: the 12 bytes between a client and a server.
use network_core.Common.{ℕ, Bool, false, not, ◌&&◌, ◌++◌, [], if◌then◌else◌, drop, Bytes}
use network_core.Common.Memory.{le_store, le_load}
use network_core.Net.Header.{NetOrder}
use network_core.Rpc.Protocol.{to_protocol, reply_protocol}

pub record ClientHeader : Type 0 where
  pub result_ : ℕ
  pub reserve_bytes_ : ℕ
  pub protocol_id : ℕ
  pub length_ : ℕ

-- the constructor with three arguments
unfoldable pub new_client : ℕ → ℕ → ℕ → ClientHeader
new_client code protocol len = record {
  result_ = code;
  reserve_bytes_ = 0;
  protocol_id = protocol;
  length_ = len;
}

unfoldable pub client_is_internal : ClientHeader → Bool
client_is_internal h = false

unfoldable pub client_is_reply : ClientHeader → Bool
unfolding to_protocol
client_is_reply h = (to_protocol h.protocol_id).is_reply

-- the argument is not read
unfoldable pub client_reply : Bool → ClientHeader → ClientHeader
unfolding reply_protocol
client_reply is_reply h = record h { protocol_id = reply_protocol h.protocol_id }

unfoldable pub client_need_reply : ClientHeader → Bool
unfolding to_protocol
client_need_reply h =
    not (to_protocol h.protocol_id).is_reply && (to_protocol h.protocol_id).need_reply

unfoldable pub client_call_id : ClientHeader → ℕ
client_call_id h = h.protocol_id

unfoldable pub store_client : ClientHeader → Bytes
store_client h =
    le_store 2 h.result_
    ++ (le_store 2 h.reserve_bytes_ ++ (le_store 4 h.protocol_id ++ (le_store 4 h.length_ ++ [])))

unfoldable pub load_client : Bytes → ClientHeader
load_client b = record {
  result_ = le_load 2 b;
  reserve_bytes_ = le_load 2 (drop 2 b);
  protocol_id = le_load 4 (drop 4 b);
  length_ = le_load 4 (drop 8 b);
}

module _ (order : NetOrder) (big_endian : Bool) where
  unfoldable pub client_ntoh : ClientHeader → ClientHeader
  client_ntoh h = if not big_endian then h else record {
    result_ = order.ntohs h.result_;
    reserve_bytes_ = order.ntohs h.reserve_bytes_;
    protocol_id = order.ntohl h.protocol_id;
    length_ = order.ntohl h.length_;
  }

  unfoldable pub client_hton : ClientHeader → ClientHeader
  client_hton h = if not big_endian then h else record {
    result_ = order.htons h.result_;
    reserve_bytes_ = order.htons h.reserve_bytes_;
    protocol_id = order.htonl h.protocol_id;
    length_ = order.htonl h.length_;
  }
