-- ===== src/Net/Reader/Parse.antt =====
-- `parse`, `completion_condition` and `reset` against the frames of the connection's bytes.
use network_core.Common.{
  inl, ℕ, ◌+◌, ◌≤◌, ◌<◌, ◌≡◌, ◌≢◌, refl, sym, ap, ◌∙◌, true, List, [], ◌∷◌, ◌++◌, append_assoc,
  arith, take, drop, length, length-append, length-drop, take-append, drop-append, Bytes,
}
use network_core.Net.Wire.{HeaderType}
use network_core.Net.Reader.{buff_max, Msg, Reader, new_reader, arrive, settle, reset}
use network_core.Net.Reader.Frames.{Stream, stop, more, Agrees, Agrees-append}
use network_core.Net.Reader.Run.{Waits}

module _ {H : Type 0} (ops : HeaderType H) where
  -- the buffer begins with the bytes `d` of the connection
  pub record Holds (r : Reader H) (d : Bytes) : Type 0 where
    pub junk : Bytes
    pub split : r.buff ≡ d ++ junk
    pub room : length r.buff ≡ buff_max
    pub agrees : Agrees ops r d
    pub fine : r.is_valid ≡ true

  -- the stream is the bytes of its frames and then the rest
  pub Stream-split :
      {End : Bytes → Type 0} {d rest : Bytes} {ms : List (Msg H)}
      → Stream ops End d ms rest
      → (p : Bytes) × (d ≡ p ++ rest)
  Stream-split (stop e same) = ([], sym same)
  Stream-split {rest = rest} (more b ds m f s e) =
      let (p, split) = Stream-split s in
      (b ++ p, e ∙ ap (◌++◌ b) split ∙ sym (append_assoc b p rest))

  pub Stream-more-lt :
      {End : Bytes → Type 0} {d rest : Bytes} {m : Msg H} {ms : List (Msg H)}
      → Stream ops End d (m ∷ ms) rest
      → length rest < length d
  Stream-more-lt {rest = rest} (more b ds m f s e) =
      let (p, split) = Stream-split s in
      omega (
        arith,
        f.len,
        ops.size_pos,
        ap length e,
        length-append b ds,
        ap length split,
        length-append p rest,
      )

  pub Stream-end :
      {End : Bytes → Type 0} {d rest : Bytes} {ms : List (Msg H)}
      → Stream ops End d ms rest
      → End rest
  Stream-end (stop {d} e same) = rw same e
  Stream-end (more b ds m f s e) = Stream-end s

  -- a new reader, and one that was reset, holds nothing and trusts the next bytes
  pub new_reader-Holds : (b : Bytes) (h : H) → length b ≡ buff_max → Holds (new_reader ops b h) []
  unfolding new_reader
  new_reader-Holds b h room = record {
    junk = b;
    split = refl;
    room = room;
    agrees = inl refl;
    fine = refl;
  }

  pub reset-Holds : (r : Reader H) → length r.buff ≡ buff_max → Holds (reset ops r) []
  unfolding reset
  reset-Holds r room = record {
    junk = r.buff;
    split = refl;
    room = room;
    agrees = inl refl;
    fine = refl;
  }

  -- arriving bytes join those that are held
  pub arrive-Holds :
      (r : Reader H) (d chunk : Bytes)
      → Holds r d
      → r.remain_len ≡ length d
      → length d + length chunk ≤ buff_max
      → Holds (arrive ops r chunk) (d ++ chunk)
  unfolding arrive
  arrive-Holds r d chunk v n fits =
      let front : take r.remain_len r.buff ≡ d =
        ap (λ k. take k r.buff) n ∙ ap (take (length d)) v.split ∙ take-append d v.junk in
      record {
        junk = drop (r.remain_len + length chunk) r.buff;
        split = rw front (sym (append_assoc d chunk _));
        room = rw front (
            omega (
              arith,
              v.room,
              length-append d (chunk ++ drop (r.remain_len + length chunk) r.buff),
              length-append chunk (drop (r.remain_len + length chunk) r.buff),
              length-drop (r.remain_len + length chunk) r.buff,
            ));
        agrees = Agrees-append ops r d chunk v.agrees;
        fine = v.fine;
      }

  -- what the loop leaves, moved to the front of the buffer
  pub settle-Holds :
      (q : Reader H) (next : ℕ) (d rest junk : Bytes)
      → q.buff ≡ d ++ junk
      → length q.buff ≡ buff_max
      → next + length rest ≡ length d
      → next ≢ 0
      → (p : Bytes) × (d ≡ p ++ rest)
      → q.remain_len ≡ length rest
      → Waits ops q rest
      → (s : Reader H) × (settle ops (true, next, q) ≡ (true, s))
        × (s.msg_list ≡ q.msg_list)
        × (s.remain_len ≡ length rest)
        × Holds s rest
  unfolding settle
  settle-Holds q next d [] junk b room n ne p left (g, v) = (
    q,
    ground arith,
    refl,
    left,
    record { junk = q.buff; split = refl; room = room; agrees = g; fine = v },
  )
  settle-Holds q next d (x ∷ rest) junk b room n ne (p, split) left (g, v) =
      let moved : take q.remain_len (drop next q.buff) ≡ x ∷ rest =
        ap (λ k. take k (drop next q.buff)) left
        ∙ ap (take (length (x ∷ rest))) (
            ap (drop next) (b ∙ ap (λ y. y ++ junk) split ∙ append_assoc p (x ∷ rest) junk)
            ∙ ap (λ k. drop k (p ++ ((x ∷ rest) ++ junk)))
                (omega (arith, ap length split, length-append p (x ∷ rest)))
            ∙ drop-append p ((x ∷ rest) ++ junk))
        ∙ take-append (x ∷ rest) junk in
      let s : Reader H = record q {
        buff = take q.remain_len (drop next q.buff) ++ drop q.remain_len q.buff;
      } in
      (
        s,
        ground arith,
        refl,
        left,
        record {
          junk = drop q.remain_len q.buff;
          split = ap (λ y. y ++ drop q.remain_len q.buff) moved;
          room = rw moved (
              omega (
                arith,
                length-append (x ∷ rest) (drop q.remain_len q.buff),
                length-drop q.remain_len q.buff,
                ap length split,
                ap length b,
                length-append d junk,
              ));
          agrees = g;
          fine = v;
        },
      )
