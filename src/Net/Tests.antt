-- ===== src/Net/Tests.antt =====
-- The connection code at concrete messages: a network order that swaps bytes, a message of three
-- bytes, and one without a body.
use network_core.Common.{
  ℕ, ◌+◌, ◌*◌, ◌/◌, ◌%◌, ◌<◌, ◌≤◌, ◌≡◌, refl, ◌⊎◌, ◌||◌, Bool, true, false, some, List, [], ◌∷◌,
  ◌++◌, arith, length, replicate, length-replicate, Bytes, map, inl,
}
use network_core.Common.Memory.{le_store, le_load}
use network_core.Net.Wire.{HeaderType}
use network_core.Net.Header.{
  NetOrder, MsgHeader, InRange, init, load, store, hton, ntoh, msg_header_type,
}
use network_core.Net.Batch.{fill, new_batch, full, length_full}
use network_core.Net.Batch.Fill.{IsValid, new_batch-IsValid, fill_lem}
use network_core.Net.Message.{BasicMsg, body_bytes, from_header, wire_bytes}
use network_core.Net.Message.Delivery.{
  IsSendable, received, all_bytes, wire_bytes-IsFrame, receive, receive-all_bytes,
}
use network_core.Net.Reader.{buff_max, Reader, new_reader, arrive, parse, valid}
use network_core.Net.Reader.Frames.{IsBad, Stream, stop, more}
use network_core.Net.Reader.Parse.{Holds, new_reader-Holds, arrive-Holds}
use network_core.Net.Reader.Receive.{parse_refuses, parse-total}

pub swap16 : ℕ → ℕ
swap16 v = v % 256 * 256 + v / 256 % 256

pub swap16_ones : swap16 65535 ≡ 65535
unfolding swap16
swap16_ones = refl

pub swap32 : ℕ → ℕ
swap32 v = v % 256 * 16777216 + v / 256 % 256 * 65536 + v / 65536 % 256 * 256 + v / 16777216 % 256

pub swap16_twice : (v : ℕ) → v < 65536 → swap16 (swap16 v) ≡ v
unfolding swap16
swap16_twice v h = omega arith

pub swap32_twice : (v : ℕ) → v < 4294967296 → swap32 (swap32 v) ≡ v
unfolding swap32
swap32_twice v h = omega arith

pub swap16_lt : (v : ℕ) → v < 65536 → swap16 v < 65536
unfolding swap16
swap16_lt v h = omega arith

pub swap32_lt : (v : ℕ) → v < 4294967296 → swap32 v < 4294967296
unfolding swap32
swap32_lt v h = omega arith

abbrev pub swapping : NetOrder
swapping = record {
  ntohs = swap16;
  htons = swap16;
  ntohl = swap32;
  htonl = swap32;
  ntohs-htons = swap16_twice;
  ntohl-htonl = swap32_twice;
  htons_lt = swap16_lt;
  htonl_lt = swap32_lt;
  ntohl_lt = swap32_lt;
}

abbrev pub hello_header : MsgHeader
hello_header = init 1 2 7 9 0 4660 3

abbrev hello : BasicMsg
hello = from_header hello_header (10 ∷ 20 ∷ 30 ∷ [])

abbrev quiet : BasicMsg
quiet = from_header (init 1 2 7 0 0 4661 0) []

-- the network sees the length in its own order
hello_wire :
    wire_bytes swapping true hello
    ≡ 0 ∷ 1 ∷ 0 ∷ 2 ∷ 0 ∷ 0 ∷ 0 ∷ 7 ∷ 0 ∷ 0 ∷ 0 ∷ 9 ∷ 0 ∷ 0 ∷ 0 ∷ 0 ∷ 0 ∷ 0 ∷ 18 ∷ 52 ∷ 0 ∷ 0 ∷ 0
      ∷ 3 ∷ 10 ∷ 20 ∷ 30 ∷ []
unfolding wire_bytes from_header init store hton le_store swap16 swap32
hello_wire = refl

hello_header-InRange : InRange hello_header
unfolding init
hello_header-InRange = omega arith

hello-IsSendable : IsSendable hello
unfolding from_header init body_bytes
hello-IsSendable = omega arith

quiet-IsSendable : IsSendable quiet
unfolding from_header init body_bytes
quiet-IsSendable = omega arith

pub blank : Bytes
blank = replicate buff_max 0

length-blank : length blank ≡ buff_max
unfolding blank
length-blank = length-replicate {A = ℕ} buff_max 0

abbrev pub ops : HeaderType MsgHeader
ops = msg_header_type swapping true

abbrev reader : Reader MsgHeader
reader = new_reader ops blank hello_header

reader-Holds : Holds ops reader []
reader-Holds = new_reader-Holds ops blank hello_header length-blank

remain-reader : reader.remain_len ≡ 0
unfolding new_reader
remain-reader = refl

abbrev two_messages : List BasicMsg
two_messages = hello ∷ quiet ∷ []

-- two messages and two bytes of a third
abbrev arriving : Bytes
arriving = all_bytes swapping true two_messages ++ 1 ∷ 2 ∷ []

arriving-fits : length arriving ≤ buff_max
unfolding wire_bytes from_header init store hton le_store
arriving-fits = omega arith

receive-all_bytes_example :
    (q : Reader MsgHeader) × (receive swapping true 65536 reader arriving ≡ some (true, q))
    × (q.msg_list ≡ map received two_messages)
    × (q.remain_len ≡ 2)
    × Holds ops q (1 ∷ 2 ∷ [])
receive-all_bytes_example =
    receive-all_bytes swapping true 65536 reader [] arriving (1 ∷ 2 ∷ []) hello (quiet ∷ [])
      reader-Holds remain-reader refl arriving-fits (hello-IsSendable, (quiet-IsSendable, tt))
      (inl (omega arith))

-- a header that announces 0x7fffffff bytes
abbrev bad_header : Bytes
bad_header =
    0 ∷ 1 ∷ 0 ∷ 2 ∷ 0 ∷ 0 ∷ 0 ∷ 7 ∷ 0 ∷ 0 ∷ 0 ∷ 9 ∷ 0 ∷ 0 ∷ 0 ∷ 0 ∷ 0 ∷ 0 ∷ 18 ∷ 52 ∷ 127 ∷ 255
    ∷ 255 ∷ 255 ∷ []

abbrev spoilt : Bytes
spoilt = wire_bytes swapping true hello ++ bad_header

bad_header-IsBad : IsBad ops bad_header
unfolding ntoh load le_load swap16 swap32
bad_header-IsBad = omega arith

spoilt-Stream : Stream ops (IsBad ops) spoilt (received hello ∷ []) bad_header
spoilt-Stream =
    more (wire_bytes swapping true hello) bad_header (received hello)
      (wire_bytes-IsFrame swapping true hello hello-IsSendable) (stop bad_header-IsBad refl) refl

spoilt-Holds : Holds ops (arrive ops reader spoilt) spoilt
unfolding wire_bytes from_header init store hton le_store
spoilt-Holds = arrive-Holds ops reader [] spoilt reader-Holds remain-reader (omega arith)

spoilt-count : (arrive ops reader spoilt).remain_len + length spoilt ≡ length spoilt
unfolding arrive new_reader wire_bytes from_header init store hton le_store
spoilt-count = omega arith

parse_refuses_example :
    (q : Reader MsgHeader) × (parse ops (length spoilt) (arrive ops reader spoilt)
      ≡ some (false, q))
    × (valid ops q ≡ false)
    × (q.msg_list ≡ reader.msg_list ++ received hello ∷ [])
unfolding arrive
parse_refuses_example =
    parse_refuses ops (arrive ops reader spoilt) (length spoilt) spoilt bad_header
      (received hello ∷ []) spoilt-Holds spoilt-count spoilt-Stream

parse-total_example :
    (out : Bool × Reader MsgHeader) × (parse ops 51 (arrive ops reader spoilt) ≡ some out)
parse-total_example = parse-total ops 51 (arrive ops reader spoilt)

fill_lem_example :
    let (b, rest) = fill (λ (n : ℕ). n) (new_batch 2 100) (30 ∷ 40 ∷ 50 ∷ []) in
    (b.msgs ++ rest ≡ 30 ∷ 40 ∷ 50 ∷ [])
    × IsValid (λ (n : ℕ). n) b
    × ((rest ≡ []) ⊎ ((full b || length_full b) ≡ true))
    × (b.capacity ≡ 2)
    × (b.length_capacity ≡ 100)
unfolding new_batch
fill_lem_example =
    fill_lem (λ (n : ℕ). n) (new_batch 2 100) (30 ∷ 40 ∷ 50 ∷ [])
      (new_batch-IsValid (λ (n : ℕ). n) 2 100) (omega arith) (omega arith)
