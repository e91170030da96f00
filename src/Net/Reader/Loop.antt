-- ===== src/Net/Reader/Loop.antt =====
-- The loop of `parse` on the frames that the buffer holds.
use network_core.Common.{
  ℕ, suc, ◌+◌, ◌≤◌, ◌<◌, ◌≡◌, refl, sym, ap, ◌∙◌, Bool, true, false, Option, some, List, [], ◌∷◌,
  ◌++◌, append-nil, append_assoc, arith, take, drop, length, length-append, length-drop, take_all,
  drop_all, drop-append, drop-add, take-append_le, drop-append_le, Bytes,
}
use network_core.Net.Wire.{HeaderType}
use network_core.Net.Reader.{buff_max, no_len, Msg, Reader, parse_header, take_msg, parse_loop}
use network_core.Net.Reader.Frames.{header_of, frame_len, IsFrame, frame_len-lt}

module _ {H : Type 0} (ops : HeaderType H) where
  -- the loop on `d`: the messages are listed, `rest` is what is left, and `After` holds of the end
  pub record Reads (After : Reader H → Bytes → Type 0) (r : Reader H) (ms : List (Msg H))
      (d rest : Bytes) (ok : Bool) (pnext : ℕ) (out : Option (Bool × ℕ × Reader H)) : Type 0 where
    pub reader : Reader H
    pub next : ℕ
    pub returns : out ≡ some (ok, next, reader)
    pub next_is : next + length rest ≡ pnext + length d
    pub same_buff : reader.buff ≡ r.buff
    pub listed : reader.msg_list ≡ r.msg_list ++ ms
    pub left : reader.remain_len ≡ length rest
    pub after : After reader rest

  -- at `pnext` the buffer holds `d`
  pub record At (pnext : ℕ) (r : Reader H) (d : Bytes) : Type 0 where
    pub junk : Bytes
    pub split : drop pnext r.buff ≡ d ++ junk
    pub count : r.remain_len ≡ length d

  parse_header-buff : (src : ℕ) (r : Reader H) → (parse_header ops src r).1.buff ≡ r.buff
  unfolding parse_header
  parse_header-buff src r = ground arith

  header_at :
      (pnext : ℕ) (r : Reader H) (d junk : Bytes)
      → drop pnext r.buff ≡ d ++ junk
      → ops.size ≤ length d
      → ops.ntoh (ops.load (take ops.size (drop pnext r.buff))) ≡ header_of ops d
  header_at pnext r d junk e h =
      rw e (ap (λ b. ops.ntoh (ops.load b)) (take-append_le ops.size d junk h))

  pub parse_header-fits :
      (pnext : ℕ) (r : Reader H) (d junk : Bytes)
      → drop pnext r.buff ≡ d ++ junk
      → ops.size ≤ length d
      → frame_len ops d ≤ buff_max
      → parse_header ops pnext r
        ≡ (true, record r { header = header_of ops d; cur_len = frame_len ops d })
  unfolding parse_header
  parse_header-fits pnext r d junk e h fits =
      rw (header_at pnext r d junk e h) (ground (arith, frame_len-lt ops d))

  pub parse_header-bad :
      (pnext : ℕ) (r : Reader H) (d junk : Bytes)
      → drop pnext r.buff ≡ d ++ junk
      → ops.size ≤ length d
      → buff_max < frame_len ops d
      → parse_header ops pnext r ≡ (
        false,
        record r { header = header_of ops d; cur_len = frame_len ops d; is_valid = false },
      )
  unfolding parse_header
  parse_header-bad pnext r d junk e h bad =
      rw (header_at pnext r d junk e h) (ground (arith, frame_len-lt ops d))

  -- the bytes behind the header of the frame at `pnext`
  frame_body :
      (pnext : ℕ) (r : Reader H) (b ds : Bytes) (n : ℕ)
      → At pnext r (b ++ ds)
      → length b ≡ ops.size + n
      → take n (drop (pnext + ops.size) r.buff) ≡ drop ops.size b
  frame_body pnext r b ds n a len =
      rw (drop-add pnext ops.size r.buff, a.split, append_assoc b ds a.junk)
        (rw (drop-append_le ops.size b (ds ++ a.junk) (omega arith)) (
          rw
            (take-append_le n (drop ops.size b) (ds ++ a.junk)
              (omega (arith, length-drop ops.size b)))
            (take_all n (drop ops.size b) (omega (arith, length-drop ops.size b)))))

  unfoldable pub taken : Reader H → Msg H → Bytes → Reader H
  taken r m ds = record r {
    msg_list = r.msg_list ++ m ∷ [];
    remain_len = length ds;
    cur_index = r.cur_index + r.cur_len;
    cur_len = no_len;
  }

  pub take_msg_lem :
      (pnext : ℕ) (r : Reader H) (b ds : Bytes) (m : Msg H)
      → At pnext r (b ++ ds)
      → IsFrame ops b m
      → r.cur_len ≡ frame_len ops b
      → r.header ≡ header_of ops b
      → take_msg ops pnext r ≡ taken r m ds
  unfolding take_msg taken
  take_msg_lem pnext r b ds m a f cur head = ground (
    arith,
    f.header,
    f.len,
    f.body,
    a.count,
    length-append b ds,
    ap ops.length_of head,
    frame_body pnext r b ds (ops.length_of r.header) a
        (f.len ∙ ap (λ x. ops.size + ops.length_of x) (sym head)),
    drop_all ops.size b,
  )

  pub taken-At :
      (pnext : ℕ) (r : Reader H) (b ds : Bytes) (m : Msg H)
      → At pnext r (b ++ ds)
      → At (pnext + length b) (taken r m ds) ds
  unfolding taken
  taken-At pnext r b ds m a = record {
    junk = a.junk;
    split =
        drop-add pnext (length b) r.buff
        ∙ ap (drop (length b)) (a.split ∙ append_assoc b ds a.junk)
        ∙ drop-append b (ds ++ a.junk);
    count = refl;
  }

  -- one turn that reads a header, one that makes a message, and the turns that leave the loop
  pub turn_header :
      (fuel pnext : ℕ) (r : Reader H) (d : Bytes)
      → At pnext r d
      → r.cur_len ≡ no_len
      → ops.size ≤ length d
      → parse_loop ops (suc fuel) pnext r ≡ parse_loop ops fuel pnext (parse_header ops pnext r).1
  unfolding parse_loop
  turn_header fuel pnext r d a cur h = ground (arith, a.count)

  pub turn_message :
      (fuel pnext : ℕ) (r : Reader H) (b ds : Bytes) (m : Msg H)
      → At pnext r (b ++ ds)
      → IsFrame ops b m
      → r.cur_len ≡ frame_len ops b
      → parse_loop ops (suc fuel) pnext r
        ≡ parse_loop ops fuel (pnext + r.cur_len) (take_msg ops pnext r)
  unfolding parse_loop
  turn_message fuel pnext r b ds m a f cur =
      ground (arith, a.count, f.len, f.fits, length-append b ds, frame_len-lt ops b)

  pub leave_partial :
      (fuel pnext : ℕ) (r : Reader H) (d : Bytes)
      → At pnext r d
      → r.cur_len ≡ frame_len ops d
      → frame_len ops d ≤ buff_max
      → length d < frame_len ops d
      → parse_loop ops (suc fuel) pnext r ≡ some (true, pnext, r)
  unfolding parse_loop
  leave_partial fuel pnext r d a cur fits short = ground (arith, a.count, frame_len-lt ops d)

  pub leave_short :
      (fuel pnext : ℕ) (r : Reader H) (d : Bytes)
      → At pnext r d
      → r.cur_len ≡ no_len
      → length d < ops.size
      → parse_loop ops (suc fuel) pnext r ≡ some (true, pnext, r)
  unfolding parse_loop
  leave_short fuel pnext r d a cur short = ground (arith, a.count)

  pub leave_bad :
      (fuel pnext : ℕ) (r : Reader H) (d : Bytes)
      → r.cur_len ≡ frame_len ops d
      → buff_max < frame_len ops d
      → parse_loop ops (suc fuel) pnext r ≡ some (false, pnext, r)
  unfolding parse_loop
  leave_bad fuel pnext r d cur bad = ground (arith, frame_len-lt ops d)

  module _ (After : Reader H → Bytes → Type 0) where
    pub Reads-stop :
        (r : Reader H) (d : Bytes) (ok : Bool) (pnext : ℕ) {q : Reader H}
        {out : Option (Bool × ℕ × Reader H)}
        → out ≡ some (ok, pnext, q)
        → q.buff ≡ r.buff
        → q.msg_list ≡ r.msg_list
        → q.remain_len ≡ length d
        → After q d
        → Reads After r [] d d ok pnext out
    Reads-stop r d ok pnext {q} e b l n h = record {
      reader = q;
      next = pnext;
      returns = e;
      next_is = refl;
      same_buff = b;
      listed = l ∙ sym (append-nil r.msg_list);
      left = n;
      after = h;
    }

    -- a message before what the loop reads afterwards
    pub Reads-more :
        (r : Reader H) (b ds : Bytes) (m : Msg H) (ms : List (Msg H)) (rest : Bytes) (ok : Bool)
        (pnext : ℕ) {out : Option (Bool × ℕ × Reader H)}
        → Reads After (taken r m ds) ms ds rest ok (pnext + length b) out
        → Reads After r (m ∷ ms) (b ++ ds) rest ok pnext out
    unfolding taken
    Reads-more r b ds m ms rest ok pnext s = record {
      reader = s.reader;
      next = s.next;
      returns = s.returns;
      next_is = omega (arith, s.next_is, length-append b ds);
      same_buff = s.same_buff;
      listed = s.listed ∙ append_assoc r.msg_list (m ∷ []) ms;
      left = s.left;
      after = s.after;
    }

    -- the loop's result depends on the buffer and the messages that it began with
    pub Reads-from :
        (r r' : Reader H) (ms : List (Msg H)) (d rest : Bytes) (ok : Bool) (pnext : ℕ)
        {out : Option (Bool × ℕ × Reader H)}
        → r'.buff ≡ r.buff
        → r'.msg_list ≡ r.msg_list
        → Reads After r' ms d rest ok pnext out
        → Reads After r ms d rest ok pnext out
    Reads-from r r' ms d rest ok pnext b l s = record {
      reader = s.reader;
      next = s.next;
      returns = s.returns;
      next_is = s.next_is;
      same_buff = s.same_buff ∙ b;
      listed = s.listed ∙ ap (λ xs. xs ++ ms) l;
      left = s.left;
      after = s.after;
    }
