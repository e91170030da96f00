-- ===== src/Rpc/Protocol.antt =====
-- The protocol number of network/net/common.hpp: 32 bits that a union shows as bit fields, from
-- the lowest bit up, as the platforms of the repository lay them out.
use network_core.Common.{ℕ, ◌+◌, ◌*◌, ◌/◌, ◌%◌, ◌^◌, ◌<◌, ◌≡◌, ap, Bool, true, false, ◌==◌, arith}

pub record FullProtocol : Type 0 where
  pub id : ℕ
  pub server_type : ℕ
  pub need_reply : Bool
  pub is_reply : Bool
  pub game_type : ℕ

abbrev pub bit : Bool → ℕ
bit true = 1
bit false = 0

-- to_protocol(full_procotol)
unfoldable pub number_of : FullProtocol → ℕ
number_of f =
    f.id % 2 ^ 16
    + (2 ^ 16 * (f.server_type % 2 ^ 8)
        + (2 ^ 24 * bit f.need_reply + (2 ^ 25 * bit f.is_reply + 2 ^ 26 * (f.game_type % 2 ^ 6))))

-- to_protocol(uint32_t)
unfoldable pub to_protocol : ℕ → FullProtocol
to_protocol p = record {
  id = p % 2 ^ 16;
  server_type = p / 2 ^ 16 % 2 ^ 8;
  need_reply = p / 2 ^ 24 % 2 == 1;
  is_reply = p / 2 ^ 25 % 2 == 1;
  game_type = p / 2 ^ 26 % 2 ^ 6;
}

unfoldable pub reply_protocol : ℕ → ℕ
unfolding number_of to_protocol
reply_protocol proto =
    number_of (record (to_protocol proto) { is_reply = true; need_reply = false })

-- every field fits its bits
pub record InRange (f : FullProtocol) : Type 0 where
  pub id_lt : f.id < 2 ^ 16
  pub server_type_lt : f.server_type < 2 ^ 8
  pub game_type_lt : f.game_type < 2 ^ 6

bit-odd : (n : ℕ) → bit (n % 2 == 1) ≡ n % 2
bit-odd n = ground arith

pub odd-bit : (b : Bool) (n : ℕ) → n ≡ bit b → (n == 1) ≡ b
odd-bit true n h = ground arith
odd-bit false n h = ground arith

-- The fields of a number give the number back.
pub number_of-to_protocol : (p : ℕ) → p < 2 ^ 32 → number_of (to_protocol p) ≡ p
unfolding number_of to_protocol
number_of-to_protocol p h = omega (arith, bit-odd (p / 2 ^ 24), bit-odd (p / 2 ^ 25))

pub bit_lt : (b : Bool) → bit b < 2
bit_lt true = omega arith
bit_lt false = omega arith

-- a sum of digits, taken apart
digits :
    (a b c d e n : ℕ)
    → a < 2 ^ 16
    → b < 2 ^ 8
    → c < 2
    → d < 2
    → e < 2 ^ 6
    → n ≡ a + (2 ^ 16 * b + (2 ^ 24 * c + (2 ^ 25 * d + 2 ^ 26 * e)))
    → (n % 2 ^ 16 ≡ a)
      × ((n / 2 ^ 16 % 2 ^ 8 ≡ b)
          × ((n / 2 ^ 24 % 2 ≡ c) × ((n / 2 ^ 25 % 2 ≡ d) × (n / 2 ^ 26 % 2 ^ 6 ≡ e))))
digits a b c d e n ha hb hc hd he hn =
    (omega arith, (omega arith, (omega arith, (omega arith, omega arith))))

number-digits :
    (f : FullProtocol)
    → InRange f
    → number_of f
      ≡ f.id
        + (2 ^ 16 * f.server_type
            + (2 ^ 24 * bit f.need_reply + (2 ^ 25 * bit f.is_reply + 2 ^ 26 * f.game_type)))
unfolding number_of
number-digits f v = omega (arith, v.id_lt, v.server_type_lt, v.game_type_lt)

-- The number of fields that fit gives the fields back.
pub to_protocol-number_of : (f : FullProtocol) → InRange f → to_protocol (number_of f) ≡ f
unfolding to_protocol
to_protocol-number_of f v =
    let (id_eq, (type_eq, (need_eq, (is_eq, game_eq)))) =
      digits f.id f.server_type (bit f.need_reply) (bit f.is_reply) f.game_type (number_of f)
        v.id_lt v.server_type_lt (bit_lt f.need_reply) (bit_lt f.is_reply) v.game_type_lt
        (number-digits f v) in
    λ i. record {
      id = id_eq i;
      server_type = type_eq i;
      need_reply = odd-bit f.need_reply _ need_eq i;
      is_reply = odd-bit f.is_reply _ is_eq i;
      game_type = game_eq i;
    }

pub to_protocol-InRange : (p : ℕ) → InRange (to_protocol p)
unfolding to_protocol
to_protocol-InRange p = record {
  id_lt = omega arith;
  server_type_lt = omega arith;
  game_type_lt = omega arith;
}

-- A reply keeps the protocol's number, server and game, is a reply, and needs none.
pub to_protocol-reply_protocol :
    (p : ℕ)
    → to_protocol (reply_protocol p)
      ≡ record (to_protocol p) { is_reply = true; need_reply = false }
unfolding reply_protocol
to_protocol-reply_protocol p =
    let v = to_protocol-InRange p in
    to_protocol-number_of (record (to_protocol p) { is_reply = true; need_reply = false })
      (record { id_lt = v.id_lt; server_type_lt = v.server_type_lt; game_type_lt = v.game_type_lt })

pub number_of_lt : (f : FullProtocol) → number_of f < 2 ^ 32
unfolding number_of
number_of_lt f = omega (arith, bit_lt f.need_reply, bit_lt f.is_reply)

pub reply_protocol_lt : (p : ℕ) → reply_protocol p < 2 ^ 32
unfolding reply_protocol
reply_protocol_lt p = number_of_lt (record (to_protocol p) { is_reply = true; need_reply = false })

-- The reply to a reply has the same protocol.
pub reply_protocol_idem : (p : ℕ) → reply_protocol (reply_protocol p) ≡ reply_protocol p
unfolding reply_protocol
reply_protocol_idem p =
    ap (λ f. number_of (record f { is_reply = true; need_reply = false }))
      (to_protocol-reply_protocol p)
