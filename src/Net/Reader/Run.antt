-- ===== src/Net/Reader/Run.antt =====
-- The whole loop of `parse`, by induction on the stream that the buffer holds.
use network_core.Common.{
  ℕ, zero, suc, ◌+◌, ◌*◌, ◌<◌, ◌≡◌, refl, sym, ap, ◌∙◌, inl, inr, Bool, true, false, List, [], ◌∷◌,
  ◌++◌, arith, length, length-append, Bytes,
}
use network_core.Net.Wire.{HeaderType}
use network_core.Net.Reader.{Msg, Reader, parse_header, take_msg, parse_loop}
use network_core.Net.Reader.Frames.{
  header_of, frame_len, IsFrame, IsPartial, IsBad, Stream, stop, more, Agrees, header_of-append,
  frame_len-append, IsFrame-size,
}
use network_core.Net.Reader.Loop.{
  Reads, Reads-stop, Reads-more, Reads-from, At, taken, parse_header-fits, parse_header-bad,
  take_msg_lem, taken-At, turn_header, turn_message, leave_partial, leave_short, leave_bad,
}

module _ {H : Type 0} (ops : HeaderType H) where
  -- a read that stops inside a frame
  abbrev pub Waits : Reader H → Bytes → Type 0
  Waits q rest = Agrees ops q rest × (q.is_valid ≡ true)

  -- a read that met a header too large
  abbrev pub Refused : Reader H → Bytes → Type 0
  Refused q rest = q.is_valid ≡ false

  -- what is said of the end of a stream, for the induction
  abbrev Base : (Bytes → Type 0) → (Reader H → Bytes → Type 0) → Bool → Type 0
  Base End After ok =
      (fuel pnext : ℕ) (r : Reader H) (d : Bytes)
      → At ops pnext r d
      → Agrees ops r d
      → r.is_valid ≡ true
      → End d
      → 1 < fuel
      → Reads ops After r [] d d ok pnext (parse_loop ops fuel pnext r)

  run_at_rest : Base (IsPartial ops) Waits true
  run_at_rest (suc fuel) pnext r d a (inl c) v (inl short) h =
      rw (leave_short ops fuel pnext r d a c short)
        (Reads-stop ops Waits r d true pnext refl refl refl a.count (inl c, v))
  run_at_rest (suc (suc fuel)) pnext r d a (inl c) v (inr (s, fits, short)) h =
      let r' = record r { header = header_of ops d; cur_len = frame_len ops d } in
      let e = parse_header-fits ops pnext r d a.junk a.split s fits in
      rw (turn_header ops (suc fuel) pnext r d a c s, e)
        (rw
          (leave_partial ops fuel pnext r' d
            (record { junk = a.junk; split = a.split; count = a.count }) refl fits short)
          (Reads-stop ops Waits r d true pnext refl refl refl a.count
            (inr (refl, refl, s, fits), v)))
  run_at_rest (suc zero) pnext r d a (inl c) v (inr e) h = absurd (omega arith)
  run_at_rest (suc fuel) pnext r d a (inr (c, hd, s, fits)) v (inl short) h = absurd (omega arith)
  run_at_rest (suc fuel) pnext r d a (inr (c, hd, s, fits)) v (inr (s', f', short)) h =
      rw (leave_partial ops fuel pnext r d a c fits short)
        (Reads-stop ops Waits r d true pnext refl refl refl a.count (inr (c, hd, s, fits), v))
  run_at_rest zero pnext r d a g v e h = absurd (omega arith)

  run_stops : Base (IsBad ops) Refused false
  run_stops (suc (suc fuel)) pnext r d a (inl c) v (s, bad) h =
      let r' = record r { header = header_of ops d; cur_len = frame_len ops d; is_valid = false } in
      rw
        (
          turn_header ops (suc fuel) pnext r d a c s,
          parse_header-bad ops pnext r d a.junk a.split s bad,
        )
        (rw (leave_bad ops fuel pnext r' d refl bad)
          (Reads-stop ops Refused r d false pnext refl refl refl a.count refl))
  run_stops (suc zero) pnext r d a g v e h = absurd (omega arith)
  run_stops zero pnext r d a g v e h = absurd (omega arith)
  run_stops (suc (suc fuel)) pnext r d a (inr (c, hd, s, fits)) v (s', bad) h = absurd (omega arith)

  module _ (End : Bytes → Type 0) (After : Reader H → Bytes → Type 0) (ok : Bool)
      (base : Base End After ok) where
    -- from a header that is known: the message is made and the loop goes on
    from_header :
        (fuel pnext : ℕ) (r : Reader H) (b ds rest : Bytes) (m : Msg H) (ms : List (Msg H))
        → IsFrame ops b m
        → At ops pnext r (b ++ ds)
        → r.cur_len ≡ frame_len ops b
        → r.header ≡ header_of ops b
        → Reads ops After
            (taken ops r m ds)
            ms
            ds
            rest
            ok
            (pnext + length b)
            (parse_loop ops fuel (pnext + length b) (taken ops r m ds))
        → Reads ops After r (m ∷ ms) (b ++ ds) rest ok pnext (parse_loop ops (suc fuel) pnext r)
    from_header fuel pnext r b ds rest m ms f a c hd later =
        let e =
          turn_message ops fuel pnext r b ds m a f c
          ∙ ap (λ k. parse_loop ops fuel (pnext + k) (take_msg ops pnext r)) (c ∙ sym f.len)
          ∙ ap (parse_loop ops fuel (pnext + length b))
              (take_msg_lem ops pnext r b ds m a f c hd) in
        rw e (Reads-more ops After r b ds m ms rest ok pnext later)

    -- the loop reads the frames of the stream one after another, and ends as the stream ends
    loop_stream :
        (fuel pnext : ℕ) (r : Reader H) {d rest : Bytes} {ms : List (Msg H)}
        → Stream ops End d ms rest
        → At ops pnext r d
        → Agrees ops r d
        → r.is_valid ≡ true
        → 2 * length d + 1 < fuel
        → Reads ops After r ms d rest ok pnext (parse_loop ops fuel pnext r)
    unfolding taken
    loop_stream fuel pnext r {d} (stop e same) a g v h =
        rw same (base fuel pnext r d a g v e (omega arith))
    loop_stream (suc (suc fuel)) pnext r {d} {rest} (more {ms = ms} b ds m f s e) a (inl c) v h =
        let size = IsFrame-size ops f in
        let a' = rw e at a in
        let r' : Reader H = record r {
          header = header_of ops (b ++ ds);
          cur_len = frame_len ops (b ++ ds);
        } in
        let at' : At ops pnext r' (b ++ ds) = record {
          junk = a'.junk;
          split = a'.split;
          count = a'.count;
        } in
        let known : parse_header ops pnext r ≡ (true, r') =
          parse_header-fits ops pnext r (b ++ ds) a'.junk a'.split
            (omega (arith, length-append b ds))
            (omega (arith, f.fits, f.len, frame_len-append ops b ds size)) in
        let later =
          loop_stream fuel (pnext + length b) (taken ops r' m ds) s
            (taken-At ops pnext r' b ds m at') (inl refl) v
            (omega (arith, f.len, ops.size_pos, length-append b ds, ap length e)) in
        rw
          (
            e,
            turn_header ops (suc fuel) pnext r (b ++ ds) a' c (omega (arith, length-append b ds)),
            known,
          )
          (Reads-from ops After r r' (m ∷ ms) (b ++ ds) rest ok pnext refl refl (
            from_header fuel pnext r' b ds rest m ms f at' (frame_len-append ops b ds size)
              (header_of-append ops b ds size) later))
    loop_stream (suc (suc fuel)) pnext r {d} {rest} (more {ms = ms} b ds m f s e) a
          (inr (c, hd, _, _)) v h =
        let size = IsFrame-size ops f in
        let a' = rw e at a in
        let later =
          loop_stream (suc fuel) (pnext + length b) (taken ops r m ds) s
            (taken-At ops pnext r b ds m a') (inl refl) v
            (omega (arith, f.len, ops.size_pos, length-append b ds, ap length e)) in
        rw e (
          from_header (suc fuel) pnext r b ds rest m ms f a'
            (c ∙ ap (frame_len ops) e ∙ frame_len-append ops b ds size)
            (hd ∙ ap (header_of ops) e ∙ header_of-append ops b ds size) later)
    loop_stream zero pnext r (more b ds m f s e) a g v h = absurd (omega arith)
    loop_stream (suc zero) pnext r (more b ds m f s e) a g v h = absurd (omega arith)

  -- the loop on frames and a part of one, and on frames and a bad header
  pub loop_partial :
      (fuel pnext : ℕ) (r : Reader H) {d rest : Bytes} {ms : List (Msg H)}
      → Stream ops (IsPartial ops) d ms rest
      → At ops pnext r d
      → Agrees ops r d
      → r.is_valid ≡ true
      → 2 * length d + 1 < fuel
      → Reads ops Waits r ms d rest true pnext (parse_loop ops fuel pnext r)
  loop_partial = loop_stream (IsPartial ops) Waits true run_at_rest

  pub loop_bad :
      (fuel pnext : ℕ) (r : Reader H) {d rest : Bytes} {ms : List (Msg H)}
      → Stream ops (IsBad ops) d ms rest
      → At ops pnext r d
      → Agrees ops r d
      → r.is_valid ≡ true
      → 2 * length d + 1 < fuel
      → Reads ops Refused r ms d rest false pnext (parse_loop ops fuel pnext r)
  loop_bad = loop_stream (IsBad ops) Refused false run_stops
