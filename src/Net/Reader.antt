-- ===== src/Net/Reader.antt =====
-- `connection_reader` of network/net/tcp_connect.hpp: the receive buffer of a connection and the
-- loop that cuts it into messages. Pointers into the buffer are indices, and the `memcpy` that
-- moves the tail to the front reads its source before it writes.
pub mod Frames
pub mod Loop
pub mod Run
pub mod Parse
pub mod Receive
pub mod Completion
use network_core.Common.{
  ℕ, zero, suc, ◌+◌, ◌-◌, ◌*◌, ◌%◌, ◌^◌, Bool, true, false, not, ◌&&◌, ◌||◌, Option, none, some,
  List, [], ◌∷◌, ◌++◌, ltb, leb, ◌==◌, if◌then◌else◌, take, drop, length, Bytes,
}
use network_core.Net.Wire.{HeaderType}

-- CLIENT_MSG_BUFF_MAX
abbrev pub buff_max : ℕ
buff_max = 1024 * 100

-- (size_t)-1: no header has been read
abbrev pub no_len : ℕ
no_len = 2 ^ 64 - 1

-- `basic_msg<header_t, msg_body>` as the reader builds it
pub record Msg (H : Type 0) : Type 0 where
  pub header : H
  pub body : Bytes

pub record Reader (H : Type 0) : Type 0 where
  pub buff : Bytes
  pub header : H
  pub cur_len : ℕ
  pub remain_len : ℕ
  pub cur_index : ℕ
  pub msg_list : List (Msg H)
  pub is_valid : Bool

module _ {H : Type 0} (ops : HeaderType H) where
  -- the constructor: `buff_` and `header_` are not initialised
  unfoldable pub new_reader : Bytes → H → Reader H
  new_reader buff header = record {
    buff = buff;
    header = header;
    cur_len = no_len;
    remain_len = 0;
    cur_index = 0;
    msg_list = [];
    is_valid = true;
  }

  -- the returned buffer starts at `remain_len`: its place and its size
  unfoldable pub prepare_next_recv : Reader H → (ℕ × ℕ) × Reader H
  prepare_next_recv r =
      ((r.remain_len, buff_max - r.remain_len), record r { cur_index = 0; msg_list = [] })

  -- what `async_read` does to the buffer: the bytes arrive behind the first `remain_len`
  unfoldable pub arrive : Reader H → Bytes → Reader H
  arrive r bytes = record r {
    buff = take r.remain_len r.buff ++ (bytes ++ drop (r.remain_len + length bytes) r.buff);
  }

  unfoldable pub parse_header : ℕ → Reader H → Bool × Reader H
  parse_header src r =
      let h = ops.ntoh (ops.load (take ops.size (drop src r.buff))) in
      let n = (ops.size + ops.length_of h) % 2 ^ 64 in
      if ltb buff_max n || ltb n ops.size
      then (false, record r { header = h; cur_len = n; is_valid = false })
      else (true, record r { header = h; cur_len = n })

  -- the bytes that asio still waits for, 0 to complete the read; `max_transfer` is
  -- boost::asio::detail::default_max_transfer_size
  unfoldable pub completion_condition : ℕ → Bool → ℕ → Reader H → ℕ × Reader H
  unfolding parse_header
  completion_condition max_transfer err bytes_transfered r =
      let data_len = r.remain_len + bytes_transfered in
      let wanted = λ (q : Reader H). if leb q.cur_len data_len then 0 else max_transfer in
      let parsed = parse_header 0 r in
      if err
      then (0, r)
      else if r.cur_len == no_len && leb ops.size data_len
      then (if parsed.0 then (wanted parsed.1, parsed.1) else (0, parsed.1))
      else (wanted r, r)

  -- the branch of the loop that makes a message
  unfoldable pub take_msg : ℕ → Reader H → Reader H
  take_msg pnext r =
      let n = ops.length_of r.header in
      let body = if ltb 0 n then take n (drop (pnext + ops.size) r.buff) else [] in
      record r {
        msg_list = r.msg_list ++ (record { header = r.header; body = body } ∷ []);
        remain_len = r.remain_len - r.cur_len;
        cur_index = r.cur_index + r.cur_len;
        cur_len = no_len;
      }

  -- `while (parse_ok)`, with fuel; the result is `parse_ok`, `pnext` and the reader
  unfoldable pub parse_loop : ℕ → ℕ → Reader H → Option (Bool × ℕ × Reader H)
  unfolding take_msg parse_header
  parse_loop zero pnext r = none
  parse_loop (suc fuel) pnext r =
      let taken = parse_loop fuel (pnext + r.cur_len) (take_msg pnext r) in
      let headed = parse_loop fuel pnext (parse_header pnext r).1 in
      if not (r.cur_len == no_len)
      then (if ltb buff_max r.cur_len || ltb r.cur_len ops.size
          then some (false, pnext, r)
          else if leb r.cur_len r.remain_len
          then taken
          else some (true, pnext, r))
      else if leb ops.size r.remain_len
      then headed
      else some (true, pnext, r)

  -- behind the loop: no message is a failure, and what is left moves to the front
  unfoldable pub settle : Bool × ℕ × Reader H → Bool × Reader H
  settle (parse_ok, pnext, r) =
      if pnext == 0
      then (false, r)
      else if parse_ok && ltb 0 r.remain_len
      then (
        parse_ok,
        record r { buff = take r.remain_len (drop pnext r.buff) ++ drop r.remain_len r.buff },
      )
      else (parse_ok, r)

  unfoldable pub parse : ℕ → Reader H → Option (Bool × Reader H)
  unfolding settle
  parse bytes_transfered r =
      let total = r.remain_len + bytes_transfered in
      elim (parse_loop (2 * total + 2) 0 (record r { remain_len = total })) [
        | none ↦ none
        | some out ↦ some (settle out)
      ]

  unfoldable pub reset : Reader H → Reader H
  reset r = record r {
    cur_len = no_len;
    remain_len = 0;
    cur_index = 0;
    header = ops.with_length r.header 0;
    msg_list = [];
    is_valid = true;
  }

  -- `is_valid()`
  unfoldable pub valid : Reader H → Bool
  valid r = r.is_valid && leb r.cur_len buff_max
