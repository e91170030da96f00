-- ===== src/Net/Header/Transfer.antt =====
-- A header survives its way through memory and through the byte order of the network.
use network_core.Common.{◌≡◌, refl, ◌∙◌, ap, Bool, ◌++◌, arith, drop, Bytes, length}
use network_core.Common.Memory.{le_store, le_load-le_store}
use network_core.Net.Header.{NetOrder, MsgHeader, InRange, store, load, hton, ntoh}

pub load-store : (h : MsgHeader) (rest : Bytes) → InRange h → load (store h ++ rest) ≡ h
unfolding load store le_store
load-store h rest v = λ i. record {
  from_unique_id = le_load-le_store 2 h.from_unique_id (drop 2 (store h ++ rest)) v.from_lt i;
  to_unique_id = le_load-le_store 2 h.to_unique_id (drop 4 (store h ++ rest)) v.to_lt i;
  conn_id = le_load-le_store 4 h.conn_id (drop 8 (store h ++ rest)) v.conn_lt i;
  call_id = le_load-le_store 4 h.call_id (drop 12 (store h ++ rest)) v.call_lt i;
  result = le_load-le_store 2 h.result (drop 14 (store h ++ rest)) v.result_lt i;
  reserve_bytes = le_load-le_store 2 h.reserve_bytes (drop 16 (store h ++ rest)) v.reserve_lt i;
  protocol_id = le_load-le_store 4 h.protocol_id (drop 20 (store h ++ rest)) v.protocol_lt i;
  length_field = le_load-le_store 4 h.length_field (drop 24 (store h ++ rest)) v.length_lt i;
}

pub length-store : (h : MsgHeader) → length (store h) ≡ 24
unfolding store le_store
length-store h = refl

module _ (order : NetOrder) (big_endian : Bool) where
  pub hton-InRange : (h : MsgHeader) → InRange h → InRange (hton order big_endian h)
  unfolding hton
  hton-InRange h v = ground (
    arith,
    order.htons_lt h.from_unique_id,
    order.htons_lt h.to_unique_id,
    order.htonl_lt h.conn_id,
    order.htonl_lt h.call_id,
    order.htons_lt h.result,
    order.htons_lt h.reserve_bytes,
    order.htonl_lt h.protocol_id,
    order.htonl_lt h.length_field,
  )

  pub ntoh-hton : (h : MsgHeader) → InRange h → ntoh order big_endian (hton order big_endian h) ≡ h
  unfolding hton ntoh
  ntoh-hton h v = ground (
    arith,
    order.ntohs-htons h.from_unique_id,
    order.ntohs-htons h.to_unique_id,
    order.ntohl-htonl h.conn_id,
    order.ntohl-htonl h.call_id,
    order.ntohs-htons h.result,
    order.ntohs-htons h.reserve_bytes,
    order.ntohl-htonl h.protocol_id,
    order.ntohl-htonl h.length_field,
  )

  -- The receiver that loads the bytes which the sender stored, and undoes the byte order, has the
  -- sender's header, whatever bytes follow, on either setting of `big_endian`.
  pub ntoh-load-store-hton :
      (h : MsgHeader) (rest : Bytes)
      → InRange h
      → ntoh order big_endian (load (store (hton order big_endian h) ++ rest)) ≡ h
  ntoh-load-store-hton h rest v =
      ap (ntoh order big_endian) (load-store (hton order big_endian h) rest (hton-InRange h v))
      ∙ ntoh-hton h v
