-- ===== src/Net/Message/Delivery.antt =====
-- From the sender's messages to the receiver's: `to_buffers` on one side, the reader on the other.
use network_core.Common.{
  ℕ, ◌+◌, ◌≤◌, ◌≡◌, refl, sym, ap, subst, ◌∙◌, Bool, true, false, Option, some, List, [], ◌∷◌, ◌++◌,
  append-nil, append_assoc, arith, length, length-append, take, drop, take-append, drop-append,
  Bytes, map,
}
use network_core.Net.Header.{NetOrder, MsgHeader, InRange, load, store, hton, ntoh, msg_header_type}
use network_core.Net.Header.Transfer.{length-store, ntoh-load-store-hton}
use network_core.Net.Message.{BasicMsg, body_bytes, wire_bytes}
use network_core.Net.Reader.{
  buff_max, Msg, Reader, prepare_next_recv, arrive, completion_condition, parse,
}
use network_core.Net.Reader.Frames.{header_of, IsFrame, IsPartial, Stream, stop, more}
use network_core.Net.Reader.Parse.{Holds, arrive-Holds}
use network_core.Net.Reader.Completion.{Stream-IsWhole, completion_condition_lem}
use network_core.Net.Reader.Receive.{parse_frames}

-- a message whose header tells the length of its body, small enough for the receive buffer
pub record IsSendable (m : BasicMsg) : Type 0 where
  pub in_range : InRange m.header
  pub told : length (body_bytes m.body) ≡ m.header.length_field
  pub fits : 24 + m.header.length_field ≤ buff_max

-- what the receiver should see of it
abbrev pub received : BasicMsg → Msg MsgHeader
received m = record { header = m.header; body = body_bytes m.body }

module _ (order : NetOrder) (big_endian : Bool) where
  abbrev pub all_bytes : List BasicMsg → Bytes
  all_bytes [] = []
  all_bytes (m ∷ ms) = wire_bytes order big_endian m ++ all_bytes ms

  abbrev pub AllSendable : List BasicMsg → Type 0
  AllSendable [] = Unit {0}
  AllSendable (m ∷ ms) = IsSendable m × AllSendable ms

  module _ (m : BasicMsg) (v : IsSendable m) where
    wire_header : MsgHeader
    wire_header = hton order big_endian m.header

    wire_front : take 24 (store wire_header ++ body_bytes m.body) ≡ store wire_header ++ []
    wire_front =
        ap (λ k. take k (store wire_header ++ body_bytes m.body)) (sym (length-store wire_header))
        ∙ take-append (store wire_header) (body_bytes m.body)
        ∙ sym (append-nil (store wire_header))

    wire_header_of :
        header_of (msg_header_type order big_endian) (wire_bytes order big_endian m) ≡ m.header
    unfolding wire_bytes wire_header
    wire_header_of =
        ap (λ b. ntoh order big_endian (load b)) wire_front
        ∙ ntoh-load-store-hton order big_endian m.header [] v.in_range

    wire_len : length (wire_bytes order big_endian m) ≡ 24 + m.header.length_field
    unfolding wire_bytes wire_header
    wire_len = omega (
      arith,
      length-append (store wire_header) (body_bytes m.body),
      length-store wire_header,
      v.told,
    )

    pub wire_bytes-IsFrame :
        IsFrame (msg_header_type order big_endian) (wire_bytes order big_endian m) (received m)
    unfolding wire_bytes wire_header
    wire_bytes-IsFrame = record {
      header = sym wire_header_of;
      len = wire_len ∙ ap (λ h. 24 + h.length_field) (sym wire_header_of);
      fits = omega (arith, wire_len, v.fits);
      body = sym (
          ap (λ k. drop k (store wire_header ++ body_bytes m.body)) (sym (length-store wire_header))
          ∙ drop-append (store wire_header) (body_bytes m.body));
    }

  all_bytes-Stream :
      (ms : List BasicMsg) (rest : Bytes)
      → AllSendable ms
      → IsPartial (msg_header_type order big_endian) rest
      → Stream
          (msg_header_type order big_endian)
          (IsPartial (msg_header_type order big_endian))
          (all_bytes ms ++ rest)
          (map received ms)
          rest
  all_bytes-Stream [] rest v p = stop p refl
  all_bytes-Stream (m ∷ ms) rest (v, vs) p =
      more (wire_bytes order big_endian m) (all_bytes ms ++ rest) (received m)
        (wire_bytes-IsFrame m v) (all_bytes-Stream ms rest vs p)
        (append_assoc (wire_bytes order big_endian m) (all_bytes ms) rest)

  -- one read of a connection: the buffer is prepared, bytes arrive, asio is told that the read is
  -- complete, and the reader parses
  abbrev pub receive : ℕ → Reader MsgHeader → Bytes → Option (Bool × Reader MsgHeader)
  receive max_transfer r chunk =
      let ops = msg_header_type order big_endian in
      let n = length chunk in
      let arrived = arrive ops (prepare_next_recv ops r).1 chunk in
      parse ops n (completion_condition ops max_transfer false n arrived).1

  prepared :
      (r : Reader MsgHeader) (d : Bytes)
      → Holds (msg_header_type order big_endian) r d
      → Holds
          (msg_header_type order big_endian)
          (prepare_next_recv (msg_header_type order big_endian) r).1
          d
  unfolding prepare_next_recv
  prepared r d v = record {
    junk = v.junk;
    split = v.split;
    room = v.room;
    agrees = v.agrees;
    fine = v.fine;
  }

  -- However the bytes of the sender's messages are cut into reads: if the bytes held and the bytes
  -- that arrive make up one message or more and then a part of one, the read delivers exactly those
  -- messages, with the sender's headers and bodies, and holds the part.
  pub receive-all_bytes :
      (max_transfer : ℕ) (r : Reader MsgHeader) (held chunk rest : Bytes) (m : BasicMsg)
      (ms : List BasicMsg)
      → Holds (msg_header_type order big_endian) r held
      → r.remain_len ≡ length held
      → held ++ chunk ≡ all_bytes (m ∷ ms) ++ rest
      → length (held ++ chunk) ≤ buff_max
      → AllSendable (m ∷ ms)
      → IsPartial (msg_header_type order big_endian) rest
      → (q : Reader MsgHeader) × (receive max_transfer r chunk ≡ some (true, q))
        × (q.msg_list ≡ map received (m ∷ ms))
        × (q.remain_len ≡ length rest)
        × Holds (msg_header_type order big_endian) q rest
  unfolding prepare_next_recv arrive
  receive-all_bytes max_transfer r held chunk rest m ms v n e fits vs p =
      let ops = msg_header_type order big_endian in
      let r₁ = (prepare_next_recv ops r).1 in
      let stream =
        subst (λ d. Stream ops (IsPartial ops) d (map received (m ∷ ms)) rest) (sym e)
          (all_bytes-Stream (m ∷ ms) rest vs p) in
      let arrived =
        arrive-Holds ops r₁ held chunk (prepared r held v) n
          (omega (arith, fits, length-append held chunk)) in
      let count : r.remain_len + length chunk ≡ length (held ++ chunk) =
        omega (arith, n, length-append held chunk) in
      let (r₂, done, holds, remain, listed) =
        (completion_condition_lem ops max_transfer (length chunk) (arrive ops r₁ chunk)
            (held ++ chunk) arrived count).1
          (Stream-IsWhole ops stream) in
      let (q, run, msgs, left, held', _) =
        parse_frames ops r₂ (length chunk) (held ++ chunk) rest (received m) (map received ms) holds
          (ap (λ k. k + length chunk) remain ∙ count) stream in
      (
        q,
        ap (λ out. parse ops (length chunk) out.1) done ∙ run,
        msgs ∙ ap (λ xs. xs ++ map received (m ∷ ms)) listed,
        left,
        held',
      )
