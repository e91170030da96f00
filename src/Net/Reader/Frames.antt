-- ===== src/Net/Reader/Frames.antt =====
-- What the bytes of a connection mean, said without the reader's state: frames that follow one
-- another, and an end that is a part of a frame or a header that cannot be right.
use network_core.Common.{
  ℕ, ◌+◌, ◌≤◌, ◌<◌, ◌≡◌, sym, ap, ◌∙◌, ◌⊎◌, inl, inr, List, [], ◌∷◌, ◌++◌, arith, take, drop,
  length, length-append, take-append_le, Bytes,
}
use network_core.Net.Wire.{HeaderType}
use network_core.Net.Reader.{buff_max, no_len, Msg, Reader}

module _ {H : Type 0} (ops : HeaderType H) where
  abbrev pub header_of : Bytes → H
  header_of d = ops.ntoh (ops.load (take ops.size d))

  -- the length of the frame that begins with these bytes, its header included
  abbrev pub frame_len : Bytes → ℕ
  frame_len d = ops.size + ops.length_of (header_of d)

  -- `b` is the whole frame of `m`
  pub record IsFrame (b : Bytes) (m : Msg H) : Type 0 where
    pub header : m.header ≡ header_of b
    pub len : length b ≡ frame_len b
    pub fits : length b ≤ buff_max
    pub body : m.body ≡ drop ops.size b

  -- not yet a frame, and nothing wrong with it
  abbrev pub IsPartial : Bytes → Type 0
  IsPartial d =
      (length d < ops.size)
      ⊎ ((ops.size ≤ length d) × (frame_len d ≤ buff_max) × (length d < frame_len d))

  -- a header that announces more than the buffer holds
  abbrev pub IsBad : Bytes → Type 0
  IsBad d = (ops.size ≤ length d) × (buff_max < frame_len d)

  -- `d` is the frames of `ms`, followed by `rest`, of which `End` holds
  pub data Stream (End : Bytes → Type 0) : Bytes → List (Msg H) → Bytes → Type 0 where
    stop : {d rest : Bytes} → End d → rest ≡ d → Stream End d [] rest
    more :
        {d rest : Bytes} {ms : List (Msg H)} (b ds : Bytes) (m : Msg H)
        → IsFrame b m
        → Stream End ds ms rest
        → d ≡ b ++ ds
        → Stream End d (m ∷ ms) rest

  -- what the reader knows of the frame at the front of `d`: nothing, or its whole header
  abbrev pub Agrees : Reader H → Bytes → Type 0
  Agrees r d =
      (r.cur_len ≡ no_len)
      ⊎ ((r.cur_len ≡ frame_len d)
          × (r.header ≡ header_of d)
          × (ops.size ≤ length d)
          × (frame_len d ≤ buff_max))

  pub header_of-append : (d ds : Bytes) → ops.size ≤ length d → header_of (d ++ ds) ≡ header_of d
  header_of-append d ds h = ap (λ b. ops.ntoh (ops.load b)) (take-append_le ops.size d ds h)

  pub frame_len-append : (d ds : Bytes) → ops.size ≤ length d → frame_len (d ++ ds) ≡ frame_len d
  frame_len-append d ds h = ap (λ x. ops.size + ops.length_of x) (header_of-append d ds h)

  pub frame_len-lt : (d : Bytes) → frame_len d < no_len
  frame_len-lt d = ops.length_lt (take ops.size d)

  pub IsFrame-size : {b : Bytes} {m : Msg H} → IsFrame b m → ops.size ≤ length b
  IsFrame-size f = omega (arith, f.len)

  pub Agrees-append : (r : Reader H) (d ds : Bytes) → Agrees r d → Agrees r (d ++ ds)
  Agrees-append r d ds (inl e) = inl e
  Agrees-append r d ds (inr (c, h, s, f)) = inr (
    c ∙ sym (frame_len-append d ds s),
    h ∙ sym (header_of-append d ds s),
    omega (arith, length-append d ds),
    omega (arith, frame_len-append d ds s),
  )
