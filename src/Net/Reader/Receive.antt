-- ===== src/Net/Reader/Receive.antt =====
-- What a client of `connection_reader` can rely on: every whole frame becomes a message, a part
-- of a frame waits for its rest, and a header that is too large is refused.
use network_core.Common.{
  ℕ, zero, suc, ◌+◌, ◌-◌, ◌*◌, ◌<◌, ◌≡◌, ◌≢◌, refl, ap, ◌∙◌, inl, inr, Bool, true, false, some,
  List, ◌∷◌, ◌++◌, arith, length, take, drop, Bytes, ◌==◌, none, Option-cases, if◌then◌else◌,
}
use network_core.Net.Wire.{HeaderType}
use network_core.Net.Reader.{
  buff_max, no_len, Msg, Reader, prepare_next_recv, parse_header, take_msg, parse_loop, settle,
  parse, valid,
}
use network_core.Net.Reader.Frames.{IsPartial, IsBad, Stream}
use network_core.Net.Reader.Loop.{At}
use network_core.Net.Reader.Run.{loop_partial, loop_bad}
use network_core.Net.Reader.Parse.{Holds, Stream-split, Stream-more-lt, Stream-end, settle-Holds}

module _ {H : Type 0} (ops : HeaderType H) where
  parse-parse_loop :
      (n : ℕ) (r : Reader H) (out : Bool × ℕ × Reader H)
      → parse_loop ops (2 * (r.remain_len + n) + 2) 0 (record r { remain_len = r.remain_len + n })
        ≡ some out
      → parse ops n r ≡ some (settle ops out)
  unfolding parse
  parse-parse_loop n r out e = rw (e, parse)

  -- If the buffer holds whole frames and then a part of one, `parse` succeeds: it lists exactly the
  -- messages of the frames, in order, keeps the part at the front of the buffer, and leaves room
  -- for the next receive.
  pub parse_frames :
      (r : Reader H) (n : ℕ) (d rest : Bytes) (m : Msg H) (ms : List (Msg H))
      → Holds ops r d
      → r.remain_len + n ≡ length d
      → Stream ops (IsPartial ops) d (m ∷ ms) rest
      → (q : Reader H) × (parse ops n r ≡ some (true, q))
        × (q.msg_list ≡ r.msg_list ++ m ∷ ms)
        × (q.remain_len ≡ length rest)
        × Holds ops q rest
        × (0 < (prepare_next_recv ops q).0.1)
  unfolding prepare_next_recv
  parse_frames r n d rest m ms v count s =
      let r₀ : Reader H = record r { remain_len = r.remain_len + n } in
      let a : At ops 0 r₀ d = record { junk = v.junk; split = v.split; count = count } in
      let l =
        loop_partial ops (2 * (r.remain_len + n) + 2) 0 r₀ s a v.agrees v.fine (omega arith) in
      let (q, done, listed, left, held) =
        settle-Holds ops l.reader l.next d rest v.junk (l.same_buff ∙ v.split)
          (ap length l.same_buff ∙ v.room) (omega (arith, l.next_is))
          (omega (arith, l.next_is, Stream-more-lt ops s)) (Stream-split ops s) l.left l.after in
      (
        q,
        parse-parse_loop n r (true, l.next, l.reader) l.returns ∙ ap some done,
        listed ∙ l.listed,
        left,
        held,
        room q (Stream-end ops s) left,
      )
    where
      room :
          (q : Reader H)
          → IsPartial ops rest
          → q.remain_len ≡ length rest
          → 0 < buff_max - q.remain_len
      room q (inl short) e = omega (arith, ops.size_lt)
      room q (inr e) f = omega arith

  settle_refused :
      (q : Reader H) (next : ℕ)
      → (s : Reader H) × (settle ops (false, next, q) ≡ (false, s))
        × (s.is_valid ≡ q.is_valid)
        × (s.msg_list ≡ q.msg_list)
  unfolding settle
  settle_refused q next = (q, ground arith, refl, refl)

  -- If the buffer holds any number of whole frames and then a header that announces more than the
  -- buffer can hold, `parse` fails, and the reader is marked as not valid.
  pub parse_refuses :
      (r : Reader H) (n : ℕ) (d rest : Bytes) (ms : List (Msg H))
      → Holds ops r d
      → r.remain_len + n ≡ length d
      → Stream ops (IsBad ops) d ms rest
      → (q : Reader H) × (parse ops n r ≡ some (false, q))
        × (valid ops q ≡ false)
        × (q.msg_list ≡ r.msg_list ++ ms)
  unfolding valid
  parse_refuses r n d rest ms v count s =
      let r₀ : Reader H = record r { remain_len = r.remain_len + n } in
      let a : At ops 0 r₀ d = record { junk = v.junk; split = v.split; count = count } in
      let l = loop_bad ops (2 * (r.remain_len + n) + 2) 0 r₀ s a v.agrees v.fine (omega arith) in
      let (q, done, kept, same) = settle_refused l.reader l.next in
      (
        q,
        parse-parse_loop n r (false, l.next, l.reader) l.returns ∙ ap some done,
        rw (kept, l.after),
        same ∙ l.listed,
      )

  -- the turns that the loop can still make
  abbrev turns : Reader H → ℕ
  turns r = if r.cur_len == no_len then 2 * r.remain_len + 1 else 2 * r.remain_len

  turns-parse_header :
      (src : ℕ) (r : Reader H)
      → ((parse_header ops src r).1.remain_len ≡ r.remain_len)
        × ((parse_header ops src r).1.cur_len ≢ no_len)
  unfolding parse_header
  turns-parse_header src r = ground (arith, ops.length_lt (take ops.size (drop src r.buff)))

  turns-take_msg :
      (src : ℕ) (r : Reader H)
      → ((take_msg ops src r).remain_len ≡ r.remain_len - r.cur_len)
        × ((take_msg ops src r).cur_len ≡ no_len)
  unfolding take_msg
  turns-take_msg src r = (refl, refl)

  parse_loop-ne-none :
      (fuel pnext : ℕ) (r : Reader H) → turns r < fuel → parse_loop ops fuel pnext r ≢ none
  unfolding parse_loop
  parse_loop-ne-none zero pnext r h = absurd (omega arith)
  parse_loop-ne-none (suc fuel) pnext r h = ground (
    arith,
    ops.size_pos,
    turns-take_msg pnext r,
    turns-parse_header pnext r,
    parse_loop-ne-none fuel (pnext + r.cur_len) (take_msg ops pnext r),
    parse_loop-ne-none fuel pnext (parse_header ops pnext r).1,
  )

  -- `parse` ends on every reader and every count of bytes: the fuel is always enough.
  pub parse-total : (n : ℕ) (r : Reader H) → (out : Bool × Reader H) × (parse ops n r ≡ some out)
  parse-total n r =
      let r₀ : Reader H = record r { remain_len = r.remain_len + n } in
      let loop = parse_loop ops (2 * (r.remain_len + n) + 2) 0 r₀ in
      elim (Option-cases loop) [
        | inl e ↦ absurd (parse_loop-ne-none (2 * (r.remain_len + n) + 2) 0 r₀ (ground arith) e)
        | inr (out, e) ↦ (settle ops out, parse-parse_loop n r out e)
      ]
