-- ===== src/Rpc/Tests.antt =====
-- The theorems on network/rpc's headers at concrete inputs.
use network_core.Common.{ℕ, ◌+◌, ◌*◌, ◌≡◌, refl, true, false, none, [], ◌∷◌, Bytes, arith}
use network_core.Common.Memory.{le_load, le_store}
use network_core.Net.Header.{MsgHeader, InRange, init, store, load}
use network_core.Net.Tests.{swapping, swap16_ones}
use network_core.Rpc.Protocol.{to_protocol, reply_protocol, reply_protocol_idem}
use network_core.Rpc.MsgHeader.{
  is_internal, is_reply, need_reply, reply, proto, server_header, header_ntoh, header_hton,
}
use network_core.Rpc.MsgHeader.Access.{Replied, reply-Replied}
use network_core.Rpc.MsgHeader.Order.{is_internal-server_header, header_ntoh-header_hton}
use network_core.Rpc.MsgHeader.Laws.{
  msg_header, msg_header-HeaderLaws, client_msg_header, client_msg_header-HeaderLaws,
}
use network_core.Rpc.MsgHeader.Client.{ClientHeader, new_client, client_need_reply}
use network_core.Rpc.Router.{Router, apply_invoker, answer_returned, find_invoker}
use network_core.Rpc.Router.Answers.{
  HasNone, all_done, also, AsksBack, bounce, bounce-asks, Replies, answer_returned-Replies,
}

-- protocol 7 of server type 3 for game 5, with a reply
abbrev login : ℕ
login = 7 + (3 * 65536 + (16777216 + 5 * 67108864))

reply_protocol_idem_example : reply_protocol (reply_protocol login) ≡ reply_protocol login
reply_protocol_idem_example = reply_protocol_idem login

abbrev request : MsgHeader
request = init 65535 2 30 40 0 login 12

request-InRange : InRange request
unfolding init
request-InRange = record {
  from_lt = omega arith;
  to_lt = omega arith;
  conn_lt = omega arith;
  call_lt = omega arith;
  result_lt = omega arith;
  reserve_lt = omega arith;
  protocol_lt = omega arith;
  length_lt = omega arith;
}

is_internal-server_header_example : is_internal (server_header 65535 2 30 40 0 login 12) ≡ true
is_internal-server_header_example =
    is_internal-server_header 65535 2 30 40 0 login 12 request-InRange

reply-Replied_example :
    Replied (server_header 1 2 30 40 0 login 12) (reply true (server_header 1 2 30 40 0 login 12))
reply-Replied_example = reply-Replied (server_header 1 2 30 40 0 login 12)

header_ntoh-header_hton_example :
    header_ntoh swapping true (header_hton swapping true (store request)) ≡ store request
header_ntoh-header_hton_example =
    header_ntoh-header_hton swapping true swap16_ones request request-InRange

abbrev bare : Router Bytes
bare = record { invokers = []; proto_invokers = []; before_invoker = none }

bare-HasNone : (proto : ℕ) → HasNone proto bare
unfolding find_invoker
bare-HasNone proto = record { no_before = refl; no_proto = refl; no_invoker = refl }

abbrev sent : Bytes
sent = server_header 1 2 30 40 0 login 12

bounce-asks_example :
    let ops = msg_header swapping false in
    AsksBack ops
      (proto sent)
      (bounce ops (bare ∷ (bare ∷ [])) (apply_invoker ops bare false sent []))
unfolding server_header init store is_reply need_reply is_internal load to_protocol le_load le_store
bounce-asks_example =
    bounce-asks (msg_header swapping false) (msg_header-HeaderLaws swapping false) bare
      (bare ∷ (bare ∷ [])) sent [] (bare-HasNone (proto sent))
      (also (bare-HasNone (proto sent)) (also (bare-HasNone (proto sent)) all_done)) refl refl

abbrev from_client : ClientHeader
from_client = new_client 0 login 0

answer_returned-Replies_example :
    let ops = client_msg_header swapping false in
    Replies ops from_client
      (1 ∷ (2 ∷ []))
      (answer_returned ops from_client.protocol_id false from_client (1 ∷ (2 ∷ [])))
unfolding new_client client_need_reply
answer_returned-Replies_example =
    answer_returned-Replies (client_msg_header swapping false)
      (client_msg_header-HeaderLaws swapping false) false from_client (1 ∷ (2 ∷ [])) refl refl
