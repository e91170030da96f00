-- ===== src/Rpc/MsgHeader/Laws.antt =====
-- The two headers of network/rpc/net/msg_header.hpp as what the RPC layer asks of a header.
use network_core.Common.{
  ℕ, ◌<◌, ◌^◌, ◌≡◌, refl, sym, ap, ◌∙◌, Bool, true, false, not, ◌&&◌, ◌==◌, Bytes, Bool-cases, inl,
  inr,
}
use network_core.Net.Header.{NetOrder, MsgHeader, InRange, store, load}
use network_core.Rpc.Protocol.{to_protocol, to_protocol-reply_protocol}
use network_core.Rpc.Wire.{RpcHeader, HeaderLaws}
use network_core.Rpc.MsgHeader.{
  InternalHeader, store_internal, load_internal, is_internal, is_reply, reply, need_reply, result,
  set_result, call_id, set_call_id, length_of, set_length, proto, header_ntoh, header_hton,
}
use network_core.Rpc.MsgHeader.Access.{
  load-InRange, load-store_all, is_internal-store, InternalRange, load_internal-InternalRange,
  load_internal-store_internal, is_internal-store_internal, server_flag, internal_flag,
  server-is_reply, server-need_reply, server-result, server-length_of, internal-is_reply,
  internal-need_reply, internal-result, internal-length_of, reply-Replied,
}
use network_core.Rpc.MsgHeader.Client.{
  ClientHeader, client_is_reply, client_need_reply, client_reply, client_call_id, client_ntoh,
  client_hton,
}

module _ (order : NetOrder) (big_endian : Bool) where
  -- `msg_header`
  abbrev pub msg_header : RpcHeader Bytes
  msg_header = record {
    is_reply = is_reply;
    need_reply = need_reply;
    reply = reply;
    result = result;
    set_result = set_result;
    call_id = call_id;
    set_call_id = set_call_id;
    length_of = length_of;
    set_length = set_length;
    proto = proto;
    ntoh = header_ntoh order big_endian;
    hton = header_hton order big_endian;
  }

  -- `client_msg_header`, which has nothing that sets a call's id: that is its protocol
  abbrev pub client_msg_header : RpcHeader ClientHeader
  client_msg_header = record {
    is_reply = client_is_reply;
    need_reply = client_need_reply;
    reply = client_reply;
    result = λ h. h.result_;
    set_result = λ r h. record h { result_ = r };
    call_id = client_call_id;
    set_call_id = λ id h. h;
    length_of = λ h. h.length_;
    set_length = λ n h. record h { length_ = n };
    proto = λ h. h.protocol_id;
    ntoh = client_ntoh order big_endian;
    hton = client_hton order big_endian;
  }

  -- `client_msg_header` keeps a result and a length beside the rest, and can be made a reply
  pub client_msg_header-HeaderLaws : HeaderLaws client_msg_header
  unfolding client_is_reply client_need_reply client_reply
  client_msg_header-HeaderLaws = record {
    result-set_result = λ r h b. refl;
    is_reply-set_result = λ r h b. refl;
    need_reply-set_result = λ r h b. refl;
    proto-set_result = λ r h b. refl;
    is_reply-set_length = λ n h b. refl;
    need_reply-set_length = λ n h b. refl;
    proto-set_length = λ n h b. refl;
    result-set_length = λ n h b. refl;
    length_of-set_length = λ n h b. refl;
    result-reply = λ h. refl;
    is_reply-reply = λ h. ap (λ f. f.is_reply) (to_protocol-reply_protocol h.protocol_id);
    need_reply-reply =
        λ h. ap (λ f. not f.is_reply && f.need_reply) (to_protocol-reply_protocol h.protocol_id);
  }

-- what a new result or a new length leaves as it is
record Kept (before after : Bytes) : Type 0 where
  pub is_reply_eq : is_reply after ≡ is_reply before
  pub need_reply_eq : need_reply after ≡ need_reply before
  pub proto_eq : proto after ≡ proto before

server-proto :
    (b : Bytes) (h : MsgHeader) → is_internal b ≡ false → load b ≡ h → proto b ≡ h.protocol_id
unfolding proto
server-proto b h n e = rw n (ap (λ h. h.protocol_id) e)

internal-proto :
    (b : Bytes) (h : InternalHeader) → is_internal b ≡ true → load_internal b ≡ h → proto b ≡ h.hash
unfolding proto
internal-proto b h n e = rw n (ap (λ h. h.hash) e)

-- a server's header with the same sender and protocol
server-Kept :
    (b : Bytes) (h : MsgHeader)
    → is_internal b ≡ false
    → InRange h
    → h.from_unique_id ≡ (load b).from_unique_id
    → h.protocol_id ≡ (load b).protocol_id
    → Kept b (store h) × (result (store h) ≡ h.result) × (length_of (store h) ≡ h.length_field)
server-Kept b h n w from p =
    let e = load-store_all h w in
    let n' = is_internal-store h w ∙ (ap (λ k. k == 65535) from ∙ server_flag b n) in
    (
      record {
        is_reply_eq =
            server-is_reply (store h) h n' e
            ∙ (ap (λ k. (to_protocol k).is_reply) p ∙ sym (server-is_reply b (load b) n refl));
        need_reply_eq =
            server-need_reply (store h) h n' e
            ∙ (ap (λ k. not (to_protocol k).is_reply && (to_protocol k).need_reply) p
                ∙ sym (server-need_reply b (load b) n refl));
        proto_eq = server-proto (store h) h n' e ∙ (p ∙ sym (server-proto b (load b) n refl));
      },
      server-result (store h) h n' e,
      server-length_of (store h) h n' e,
    )

-- an internal header with the same flag, option and hash
internal-Kept :
    (b : Bytes) (h : InternalHeader)
    → is_internal b ≡ true
    → InternalRange h
    → h.flag ≡ (load_internal b).flag
    → h.option ≡ (load_internal b).option
    → h.hash ≡ (load_internal b).hash
    → Kept b (store_internal h)
      × (result (store_internal h) ≡ h.code)
      × (length_of (store_internal h) ≡ h.len)
internal-Kept b h n w flag o p =
    let g = load_internal b in
    let e = load_internal-store_internal h w in
    let n' = is_internal-store_internal h w ∙ (ap (λ k. k == 65535) flag ∙ internal_flag b n) in
    (
      record {
        is_reply_eq =
            internal-is_reply (store_internal h) h n' e
            ∙ (ap (λ k. k.is_reply_bit) o ∙ sym (internal-is_reply b g n refl));
        need_reply_eq =
            internal-need_reply (store_internal h) h n' e
            ∙ (ap (λ k. not k.is_reply_bit && not k.is_one_way) o
                ∙ sym (internal-need_reply b g n refl));
        proto_eq = internal-proto (store_internal h) h n' e ∙ (p ∙ sym (internal-proto b g n refl));
      },
      internal-result (store_internal h) h n' e,
      internal-length_of (store_internal h) h n' e,
    )

result-InRange :
    (r : ℕ) (h : MsgHeader) → r < 2 ^ 16 → InRange h → InRange (record h { result = r })
result-InRange r h l v = record {
  from_lt = v.from_lt;
  to_lt = v.to_lt;
  conn_lt = v.conn_lt;
  call_lt = v.call_lt;
  result_lt = l;
  reserve_lt = v.reserve_lt;
  protocol_lt = v.protocol_lt;
  length_lt = v.length_lt;
}

length-InRange :
    (n : ℕ) (h : MsgHeader) → n < 2 ^ 32 → InRange h → InRange (record h { length_field = n })
length-InRange n h l v = record {
  from_lt = v.from_lt;
  to_lt = v.to_lt;
  conn_lt = v.conn_lt;
  call_lt = v.call_lt;
  result_lt = v.result_lt;
  reserve_lt = v.reserve_lt;
  protocol_lt = v.protocol_lt;
  length_lt = l;
}

code-InternalRange :
    (r : ℕ) (h : InternalHeader)
    → r < 2 ^ 16
    → InternalRange h
    → InternalRange (record h { code = r })
code-InternalRange r h l v = record {
  flag_lt = v.flag_lt;
  code_lt = l;
  type_lt = v.type_lt;
  reserve_lt = v.reserve_lt;
  reserve1_lt = v.reserve1_lt;
  spare_lt = v.spare_lt;
  call_lt = v.call_lt;
  len_lt = v.len_lt;
  hash_lt = v.hash_lt;
}

len-InternalRange :
    (n : ℕ) (h : InternalHeader)
    → n < 2 ^ 32
    → InternalRange h
    → InternalRange (record h { len = n })
len-InternalRange n h l v = record {
  flag_lt = v.flag_lt;
  code_lt = v.code_lt;
  type_lt = v.type_lt;
  reserve_lt = v.reserve_lt;
  reserve1_lt = v.reserve1_lt;
  spare_lt = v.spare_lt;
  call_lt = v.call_lt;
  len_lt = l;
  hash_lt = v.hash_lt;
}

set_result-Kept :
    (r : ℕ) (b : Bytes) → r < 2 ^ 16 → Kept b (set_result r b) × (result (set_result r b) ≡ r)
unfolding set_result
set_result-Kept r b l = elim (Bool-cases (is_internal b)) [
  | inl n ↦
      (let h = load_internal b in
        let w = code-InternalRange r h l (load_internal-InternalRange b) in
        let (kept, same, len) = internal-Kept b (record h { code = r }) n w refl refl refl in
        rw n (kept, same))
  | inr n ↦
      (let w = result-InRange r (load b) l (load-InRange b) in
        let (kept, same, len) = server-Kept b (record (load b) { result = r }) n w refl refl in
        rw n (kept, same))
]

set_length-Kept :
    (n : ℕ) (b : Bytes)
    → n < 2 ^ 32
    → Kept b (set_length n b)
      × (result (set_length n b) ≡ result b)
      × (length_of (set_length n b) ≡ n)
unfolding set_length
set_length-Kept k b l = elim (Bool-cases (is_internal b)) [
  | inl n ↦
      (let h = load_internal b in
        let w = len-InternalRange k h l (load_internal-InternalRange b) in
        let (kept, r, len) = internal-Kept b (record h { len = k }) n w refl refl refl in
        rw n (kept, r ∙ sym (internal-result b h n refl), len))
  | inr n ↦
      (let h = load b in
        let w = length-InRange k h l (load-InRange b) in
        let (kept, r, len) = server-Kept b (record h { length_field = k }) n w refl refl in
        rw n (kept, r ∙ sym (server-result b h n refl), len))
]

-- so does `msg_header`, of either kind
pub msg_header-HeaderLaws :
    (order : NetOrder) (big_endian : Bool) → HeaderLaws (msg_header order big_endian)
msg_header-HeaderLaws order big_endian = record {
  result-set_result = λ r h b. (set_result-Kept r h b).1;
  is_reply-set_result = λ r h b. (set_result-Kept r h b).0.is_reply_eq;
  need_reply-set_result = λ r h b. (set_result-Kept r h b).0.need_reply_eq;
  proto-set_result = λ r h b. (set_result-Kept r h b).0.proto_eq;
  is_reply-set_length = λ n h b. (set_length-Kept n h b).0.is_reply_eq;
  need_reply-set_length = λ n h b. (set_length-Kept n h b).0.need_reply_eq;
  proto-set_length = λ n h b. (set_length-Kept n h b).0.proto_eq;
  result-set_length = λ n h b. (set_length-Kept n h b).1;
  length_of-set_length = λ n h b. (set_length-Kept n h b).2;
  result-reply = λ h. (reply-Replied h).result_eq;
  is_reply-reply = λ h. (reply-Replied h).is_reply_eq;
  need_reply-reply = λ h. (reply-Replied h).need_reply_eq;
}
