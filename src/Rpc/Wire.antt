-- ===== src/Rpc/Wire.antt =====
-- What the RPC layer asks of a header: the template parameter header_type of network/rpc/net, with
-- the methods that msg_header and client_msg_header of msg_header.hpp have.
use network_core.Common.{ℕ, ◌<◌, ◌^◌, ◌≡◌, Bool, true, false}

pub record RpcHeader (H : Type 0) : Type 0 where
  pub is_reply : H → Bool
  pub need_reply : H → Bool
  pub reply : Bool → H → H
  pub result : H → ℕ
  pub set_result : ℕ → H → H
  pub call_id : H → ℕ
  pub set_call_id : ℕ → H → H
  pub length_of : H → ℕ
  pub set_length : ℕ → H → H
  pub proto : H → ℕ
  pub ntoh : H → H
  pub hton : H → H

-- a 16-bit result and a 32-bit length are stored without a change to the rest, and a header can be
-- made a reply: both headers of the program satisfy this, by Rpc/MsgHeader/Laws
pub record HeaderLaws {H : Type 0} (ops : RpcHeader H) : Type 0 where
  pub result-set_result : (r : ℕ) (h : H) → r < 2 ^ 16 → ops.result (ops.set_result r h) ≡ r
  pub is_reply-set_result :
      (r : ℕ) (h : H) → r < 2 ^ 16 → ops.is_reply (ops.set_result r h) ≡ ops.is_reply h
  pub need_reply-set_result :
      (r : ℕ) (h : H) → r < 2 ^ 16 → ops.need_reply (ops.set_result r h) ≡ ops.need_reply h
  pub proto-set_result : (r : ℕ) (h : H) → r < 2 ^ 16 → ops.proto (ops.set_result r h) ≡ ops.proto h
  pub is_reply-set_length :
      (n : ℕ) (h : H) → n < 2 ^ 32 → ops.is_reply (ops.set_length n h) ≡ ops.is_reply h
  pub need_reply-set_length :
      (n : ℕ) (h : H) → n < 2 ^ 32 → ops.need_reply (ops.set_length n h) ≡ ops.need_reply h
  pub proto-set_length : (n : ℕ) (h : H) → n < 2 ^ 32 → ops.proto (ops.set_length n h) ≡ ops.proto h
  pub result-set_length :
      (n : ℕ) (h : H) → n < 2 ^ 32 → ops.result (ops.set_length n h) ≡ ops.result h
  pub length_of-set_length : (n : ℕ) (h : H) → n < 2 ^ 32 → ops.length_of (ops.set_length n h) ≡ n
  pub result-reply : (h : H) → ops.result (ops.reply true h) ≡ ops.result h
  pub is_reply-reply : (h : H) → ops.is_reply (ops.reply true h) ≡ true
  pub need_reply-reply : (h : H) → ops.need_reply (ops.reply true h) ≡ false
