-- ===== src/Rpc/MsgHeader/Order.antt =====
-- The byte order of a `msg_header` of network/rpc/net/msg_header.hpp, and how its kind is told.
use network_core.Common.{
  ℕ, ◌^◌, ◌<◌, ◌≡◌, refl, sym, ap, ◌∙◌, Bool, true, false, ◌==◌, ==_iff, Bytes, arith, Bool-cases,
  inl, inr,
}
use network_core.Net.Header.{NetOrder, MsgHeader, InRange, store, init, ntoh, hton}
use network_core.Net.Header.Transfer.{hton-InRange, ntoh-hton}
use network_core.Rpc.MsgHeader.{is_internal, server_header, header_ntoh, header_hton}
use network_core.Rpc.MsgHeader.Access.{load-store_all, is_internal-store}

-- A header that a server makes is taken for an internal one exactly when the id of the server is
-- 65535.
pub is_internal-server_header :
    (from_id to_id conn_id call_id code protocol len : ℕ)
    → InRange (init from_id to_id conn_id call_id code protocol len)
    → is_internal (server_header from_id to_id conn_id call_id code protocol len)
      ≡ (from_id == 65535)
unfolding server_header init
is_internal-server_header from_id to_id conn_id call_id code protocol len v =
    is_internal-store (init from_id to_id conn_id call_id code protocol len) v

module _ (order : NetOrder) (big_endian : Bool) (swap_flag : order.htons 65535 ≡ 65535) where
  -- the byte order makes no flag of another number
  htons_flag : (f : ℕ) → f < 2 ^ 16 → f == 65535 ≡ false → order.htons f == 65535 ≡ false
  htons_flag f small h = elim (Bool-cases (order.htons f == 65535)) [
    | inr e ↦ e
    | inl e ↦ absurd (
        ground (
          arith,
          sym (order.ntohs-htons f small)
              ∙ ap order.ntohs ((==_iff (order.htons f) 65535).0 e ∙ sym swap_flag)
              ∙ order.ntohs-htons 65535 (omega arith),
        ))
  ]

  hton_flag :
      (h : MsgHeader)
      → InRange h
      → h.from_unique_id == 65535 ≡ false
      → (hton order big_endian h).from_unique_id == 65535 ≡ false
  unfolding hton
  hton_flag h v f = elim (Bool-cases big_endian) [
    | inl e ↦ rw e (htons_flag h.from_unique_id v.from_lt f)
    | inr e ↦ rw e f
  ]

  server_hton :
      (h : MsgHeader)
      → InRange h
      → is_internal (store h) ≡ false
      → header_hton order big_endian (store h) ≡ store (hton order big_endian h)
  unfolding header_hton
  server_hton h v n = rw n (ap (λ g. store (hton order big_endian g)) (load-store_all h v))

  server_ntoh :
      (h : MsgHeader)
      → InRange h
      → is_internal (store h) ≡ false
      → header_ntoh order big_endian (store h) ≡ store (ntoh order big_endian h)
  unfolding header_ntoh
  server_ntoh h v n = rw n (ap (λ g. store (ntoh order big_endian g)) (load-store_all h v))

  internal_order :
      (b : Bytes)
      → is_internal b ≡ true
      → header_ntoh order big_endian (header_hton order big_endian b) ≡ b
  unfolding header_ntoh header_hton
  internal_order b n = rw (n, n) refl

  -- A header whose byte order is changed for the network and changed back is the same, of either
  -- kind, on either setting of `big_endian`, when the order of 65535 is 65535.
  pub header_ntoh-header_hton :
      (h : MsgHeader)
      → InRange h
      → header_ntoh order big_endian (header_hton order big_endian (store h)) ≡ store h
  header_ntoh-header_hton h v = elim (Bool-cases (is_internal (store h))) [
    | inl n ↦ internal_order (store h) n
    | inr n ↦
        let w = hton-InRange order big_endian h v in
        ap (header_ntoh order big_endian) (server_hton h v n)
        ∙ server_ntoh (hton order big_endian h) w (
            is_internal-store (hton order big_endian h) w
            ∙ hton_flag h v (sym (is_internal-store h v) ∙ n))
        ∙ ap store (ntoh-hton order big_endian h v)
  ]
