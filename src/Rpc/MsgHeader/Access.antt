-- ===== src/Rpc/MsgHeader/Access.antt =====
-- What the methods of `msg_header` see of a header, of either kind.
use network_core.Common.{
  ◌/◌, ◌%◌, ◌^◌, ◌<◌, ◌≡◌, refl, sym, ap, subst, ◌∙◌, true, false, not, ◌&&◌, [], ◌==◌, drop, Bytes,
  arith, Bool-cases, inl, inr, append-nil,
}
use network_core.Common.Memory.{le_store, le_load-le_store, le_load-lt}
use network_core.Net.Header.{MsgHeader, InRange, store, load}
use network_core.Net.Header.Transfer.{load-store}
use network_core.Rpc.Protocol.{
  to_protocol, reply_protocol, bit, to_protocol-reply_protocol, bit_lt, odd-bit, reply_protocol_lt,
}
use network_core.Rpc.MsgHeader.{
  MsgOption, number_of_option, to_option, InternalHeader, store_internal, load_internal,
  is_internal, is_reply, reply, need_reply, result, call_id, length_of,
}

pub load-InRange : (b : Bytes) → InRange (load b)
unfolding load
load-InRange b = record {
  from_lt = le_load-lt 2 b;
  to_lt = le_load-lt 2 (drop 2 b);
  conn_lt = le_load-lt 4 (drop 4 b);
  call_lt = le_load-lt 4 (drop 8 b);
  result_lt = le_load-lt 2 (drop 12 b);
  reserve_lt = le_load-lt 2 (drop 14 b);
  protocol_lt = le_load-lt 4 (drop 16 b);
  length_lt = le_load-lt 4 (drop 20 b);
}

pub load-store_all : (h : MsgHeader) → InRange h → load (store h) ≡ h
load-store_all h v = ap load (sym (append-nil (store h))) ∙ load-store h [] v

-- A header that a server made is taken for an internal one exactly when the server's id is 65535.
pub is_internal-store :
    (h : MsgHeader) → InRange h → is_internal (store h) ≡ (h.from_unique_id == 65535)
unfolding is_internal load
is_internal-store h v = ap (λ h. h.from_unique_id == 65535) (load-store_all h v)

pub record InternalRange (h : InternalHeader) : Type 0 where
  pub flag_lt : h.flag < 2 ^ 16
  pub code_lt : h.code < 2 ^ 16
  pub type_lt : h.option.protocol_type < 2 ^ 2
  pub reserve_lt : h.option.reserve < 2 ^ 4
  pub reserve1_lt : h.option.reserve1 < 2 ^ 8
  pub spare_lt : h.spare < 2 ^ 16
  pub call_lt : h.call < 2 ^ 32
  pub len_lt : h.len < 2 ^ 32
  pub hash_lt : h.hash < 2 ^ 64

pub load_internal-InternalRange : (b : Bytes) → InternalRange (load_internal b)
unfolding load_internal to_option
load_internal-InternalRange b = record {
  flag_lt = le_load-lt 2 b;
  code_lt = le_load-lt 2 (drop 2 b);
  type_lt = omega arith;
  reserve_lt = omega arith;
  reserve1_lt = omega arith;
  spare_lt = le_load-lt 2 (drop 6 b);
  call_lt = le_load-lt 4 (drop 8 b);
  len_lt = le_load-lt 4 (drop 12 b);
  hash_lt = le_load-lt 8 (drop 16 b);
}

number_of_option_lt : (o : MsgOption) → number_of_option o < 2 ^ 16
unfolding number_of_option
number_of_option_lt o = omega (arith, bit_lt o.is_reply_bit, bit_lt o.is_one_way)

to_option-number_of_option :
    (h : InternalHeader) → InternalRange h → to_option (number_of_option h.option) ≡ h.option
unfolding to_option number_of_option
to_option-number_of_option h v =
    let r = bit_lt h.option.is_reply_bit in
    let o = bit_lt h.option.is_one_way in
    let n = number_of_option h.option in
    let reply_eq : n % 2 ≡ bit h.option.is_reply_bit = omega (arith, r, o) in
    let way_eq : n / 2 % 2 ≡ bit h.option.is_one_way = omega (arith, r, o) in
    let type_eq : n / 2 ^ 2 % 2 ^ 2 ≡ h.option.protocol_type = omega (arith, r, o, v.type_lt) in
    let reserve_eq : n / 2 ^ 4 % 2 ^ 4 ≡ h.option.reserve = omega (arith, r, o, v.reserve_lt) in
    let reserve1_eq : n / 2 ^ 8 % 2 ^ 8 ≡ h.option.reserve1 = omega (arith, r, o, v.reserve1_lt) in
    λ i. record {
      is_reply_bit = odd-bit h.option.is_reply_bit (n % 2) reply_eq i;
      is_one_way = odd-bit h.option.is_one_way (n / 2 % 2) way_eq i;
      protocol_type = type_eq i;
      reserve = reserve_eq i;
      reserve1 = reserve1_eq i;
    }

pub load_internal-store_internal :
    (h : InternalHeader) → InternalRange h → load_internal (store_internal h) ≡ h
unfolding load_internal store_internal le_store
load_internal-store_internal h v = λ i. record {
  flag = le_load-le_store 2 h.flag (drop 2 (store_internal h)) v.flag_lt i;
  code = le_load-le_store 2 h.code (drop 4 (store_internal h)) v.code_lt i;
  option =
      (ap to_option (
            le_load-le_store 2 (number_of_option h.option) (drop 6 (store_internal h))
              (number_of_option_lt h.option))
          ∙ to_option-number_of_option h v)
        i;
  spare = le_load-le_store 2 h.spare (drop 8 (store_internal h)) v.spare_lt i;
  call = le_load-le_store 4 h.call (drop 12 (store_internal h)) v.call_lt i;
  len = le_load-le_store 4 h.len (drop 16 (store_internal h)) v.len_lt i;
  hash = le_load-le_store 8 h.hash (drop 24 (store_internal h)) v.hash_lt i;
}

-- what `reply(true)` keeps and what it sets
pub record Replied (before after : Bytes) : Type 0 where
  pub is_reply_eq : is_reply after ≡ true
  pub need_reply_eq : need_reply after ≡ false
  pub internal_eq : is_internal after ≡ is_internal before
  pub call_id_eq : call_id after ≡ call_id before
  pub result_eq : result after ≡ result before
  pub length_eq : length_of after ≡ length_of before

pub is_internal-store_internal :
    (h : InternalHeader) → InternalRange h → is_internal (store_internal h) ≡ (h.flag == 65535)
unfolding is_internal load_internal
is_internal-store_internal h v = ap (λ h. h.flag == 65535) (load_internal-store_internal h v)

pub server_flag : (b : Bytes) → is_internal b ≡ false → ((load b).from_unique_id == 65535) ≡ false
unfolding is_internal load
server_flag b n = n

pub internal_flag : (b : Bytes) → is_internal b ≡ true → ((load_internal b).flag == 65535) ≡ true
unfolding is_internal load_internal
internal_flag b n = n

server_bytes :
    (b : Bytes)
    → is_internal b ≡ false
    → reply true b ≡ store (record (load b) { protocol_id = reply_protocol (load b).protocol_id })
unfolding reply
server_bytes b n = rw n refl

internal_bytes :
    (b : Bytes)
    → is_internal b ≡ true
    → reply true b
      ≡ store_internal (record (load_internal b) {
        option = record (load_internal b).option { is_reply_bit = true };
      })
unfolding reply
internal_bytes b n = rw n refl

-- the methods on a header of a server
module _ (b : Bytes) (h : MsgHeader) (n : is_internal b ≡ false) (e : load b ≡ h) where
  pub server-is_reply : is_reply b ≡ (to_protocol h.protocol_id).is_reply
  unfolding is_reply
  server-is_reply = rw n (ap (λ h. (to_protocol h.protocol_id).is_reply) e)

  pub server-need_reply :
      need_reply b
      ≡ (not (to_protocol h.protocol_id).is_reply && (to_protocol h.protocol_id).need_reply)
  unfolding need_reply
  server-need_reply = rw n (
      ap (λ h. (not (to_protocol h.protocol_id).is_reply && (to_protocol h.protocol_id).need_reply))
        e)

  server-call_id : call_id b ≡ h.call_id
  unfolding call_id
  server-call_id = rw n (ap (λ h. h.call_id) e)

  pub server-result : result b ≡ h.result
  unfolding result
  server-result = rw n (ap (λ h. h.result) e)

  pub server-length_of : length_of b ≡ h.length_field
  unfolding length_of
  server-length_of = rw n (ap (λ h. h.length_field) e)

-- the methods on an internal header
module _ (b : Bytes) (h : InternalHeader) (n : is_internal b ≡ true) (e : load_internal b ≡ h) where
  pub internal-is_reply : is_reply b ≡ h.option.is_reply_bit
  unfolding is_reply
  internal-is_reply = rw n (ap (λ h. h.option.is_reply_bit) e)

  pub internal-need_reply : need_reply b ≡ (not h.option.is_reply_bit && not h.option.is_one_way)
  unfolding need_reply
  internal-need_reply = rw n (ap (λ h. (not h.option.is_reply_bit && not h.option.is_one_way)) e)

  internal-call_id : call_id b ≡ h.call
  unfolding call_id
  internal-call_id = rw n (ap (λ h. h.call) e)

  pub internal-result : result b ≡ h.code
  unfolding result
  internal-result = rw n (ap (λ h. h.code) e)

  pub internal-length_of : length_of b ≡ h.len
  unfolding length_of
  internal-length_of = rw n (ap (λ h. h.len) e)

reply-server : (b : Bytes) → is_internal b ≡ false → Replied b (reply true b)
reply-server b n =
    let g = load b in
    let h : MsgHeader = record g { protocol_id = reply_protocol g.protocol_id } in
    let v = load-InRange b in
    let w : InRange h = record {
      from_lt = v.from_lt;
      to_lt = v.to_lt;
      conn_lt = v.conn_lt;
      call_lt = v.call_lt;
      result_lt = v.result_lt;
      reserve_lt = v.reserve_lt;
      protocol_lt = reply_protocol_lt g.protocol_id;
      length_lt = v.length_lt;
    } in
    let e = load-store_all h w in
    let p = to_protocol-reply_protocol g.protocol_id in
    let n' = is_internal-store h w ∙ server_flag b n in
    subst (Replied b) (sym (server_bytes b n)) (record {
      is_reply_eq = server-is_reply (store h) h n' e ∙ ap (λ f. f.is_reply) p;
      need_reply_eq =
          server-need_reply (store h) h n' e ∙ ap (λ f. not f.is_reply && f.need_reply) p;
      internal_eq = n' ∙ sym n;
      call_id_eq = server-call_id (store h) h n' e ∙ sym (server-call_id b g n refl);
      result_eq = server-result (store h) h n' e ∙ sym (server-result b g n refl);
      length_eq = server-length_of (store h) h n' e ∙ sym (server-length_of b g n refl);
    })

reply-internal : (b : Bytes) → is_internal b ≡ true → Replied b (reply true b)
reply-internal b n =
    let g = load_internal b in
    let h : InternalHeader = record g { option = record g.option { is_reply_bit = true } } in
    let v = load_internal-InternalRange b in
    let w : InternalRange h = record {
      flag_lt = v.flag_lt;
      code_lt = v.code_lt;
      type_lt = v.type_lt;
      reserve_lt = v.reserve_lt;
      reserve1_lt = v.reserve1_lt;
      spare_lt = v.spare_lt;
      call_lt = v.call_lt;
      len_lt = v.len_lt;
      hash_lt = v.hash_lt;
    } in
    let e = load_internal-store_internal h w in
    let n' = is_internal-store_internal h w ∙ internal_flag b n in
    subst (Replied b) (sym (internal_bytes b n)) (record {
      is_reply_eq = internal-is_reply (store_internal h) h n' e;
      need_reply_eq = internal-need_reply (store_internal h) h n' e;
      internal_eq = n' ∙ sym n;
      call_id_eq = internal-call_id (store_internal h) h n' e ∙ sym (internal-call_id b g n refl);
      result_eq = internal-result (store_internal h) h n' e ∙ sym (internal-result b g n refl);
      length_eq =
          internal-length_of (store_internal h) h n' e ∙ sym (internal-length_of b g n refl);
    })

-- Made a reply, a header of either kind is one and needs none, and its kind, its call, its result
-- and its length are what they were.
pub reply-Replied : (b : Bytes) → Replied b (reply true b)
reply-Replied b = elim (Bool-cases (is_internal b)) [
  | inl n ↦ reply-internal b n
  | inr n ↦ reply-server b n
]
