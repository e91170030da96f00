-- ===== src/Net/Reader/Completion.antt =====
-- `completion_condition`, which asio asks after each piece of a read whether to go on.
use network_core.Common.{
  ℕ, ◌+◌, ◌≤◌, ◌<◌, ◌≡◌, refl, ◌∙◌, inl, inr, false, arith, length, length-append, ap, List, ◌∷◌,
  Bytes, leb, if◌then◌else◌,
}
use network_core.Net.Wire.{HeaderType}
use network_core.Net.Reader.{buff_max, no_len, Msg, Reader, completion_condition, valid}
use network_core.Net.Reader.Frames.{
  header_of, frame_len, IsPartial, IsBad, frame_len-lt, Stream, more, IsFrame-size,
  frame_len-append,
}
use network_core.Net.Reader.Loop.{parse_header-fits, parse_header-bad}
use network_core.Net.Reader.Parse.{Holds}

module _ {H : Type 0} (ops : HeaderType H) where
  -- the frame at the front is there with all its bytes
  abbrev pub IsWhole : Bytes → Type 0
  IsWhole d = (ops.size ≤ length d) × (frame_len ops d ≤ buff_max) × (frame_len ops d ≤ length d)

  -- a stream that begins with a message begins with a whole frame
  pub Stream-IsWhole :
      {End : Bytes → Type 0} {d rest : Bytes} {m : Msg H} {ms : List (Msg H)}
      → Stream ops End d (m ∷ ms) rest
      → IsWhole d
  Stream-IsWhole (more b ds m f s e) =
      let size = IsFrame-size ops f in
      let same : frame_len ops _ ≡ frame_len ops b =
        ap (frame_len ops) e ∙ frame_len-append ops b ds size in
      (
        omega (arith, size, ap length e, length-append b ds),
        omega (arith, same, f.fits, f.len),
        omega (arith, same, f.len, ap length e, length-append b ds),
      )

  module _ (max_transfer n : ℕ) (r : Reader H) (d : Bytes) (v : Holds ops r d)
      (count : r.remain_len + n ≡ length d) where
    completion-short :
        r.cur_len ≡ no_len
        → length d < ops.size
        → completion_condition ops max_transfer false n r ≡ (max_transfer, r)
    unfolding completion_condition
    completion-short c short = ground (arith, ops.size_lt)

    completion-known :
        r.cur_len ≡ frame_len ops d
        → completion_condition ops max_transfer false n r
          ≡ (if leb (frame_len ops d) (length d) then 0 else max_transfer, r)
    unfolding completion_condition
    completion-known c = ground (arith, frame_len-lt ops d)

    completion-fits :
        r.cur_len ≡ no_len
        → ops.size ≤ length d
        → frame_len ops d ≤ buff_max
        → completion_condition ops max_transfer false n r ≡ (
          if leb (frame_len ops d) (length d) then 0 else max_transfer,
          record r { header = header_of ops d; cur_len = frame_len ops d },
        )
    unfolding completion_condition
    completion-fits c s fits = ground (arith, parse_header-fits ops 0 r d v.junk v.split s fits)

    completion-bad :
        r.cur_len ≡ no_len
        → IsBad ops d
        → completion_condition ops max_transfer false n r
          ≡ (0, record r { header = header_of ops d; cur_len = frame_len ops d; is_valid = false })
    unfolding completion_condition
    completion-bad c (s, bad) = ground (arith, parse_header-bad ops 0 r d v.junk v.split s bad)

    -- the reader with the header that was read holds the same bytes
    known-Holds :
        ops.size ≤ length d
        → frame_len ops d ≤ buff_max
        → Holds ops (record r { header = header_of ops d; cur_len = frame_len ops d }) d
    known-Holds s fits = record {
      junk = v.junk;
      split = v.split;
      room = v.room;
      agrees = inr (refl, refl, s, fits);
      fine = v.fine;
    }

    completion-partial :
        IsPartial ops d
        → (q : Reader H) × (completion_condition ops max_transfer false n r ≡ (max_transfer, q))
          × Holds ops q d
          × (q.remain_len ≡ r.remain_len)
          × (q.msg_list ≡ r.msg_list)
    completion-partial (inl short) = elim v.agrees [
      | inl c ↦ (r, completion-short c short, v, refl, refl)
      | inr (c, hd, s, fits) ↦ absurd (omega arith)
    ]
    completion-partial (inr (s, fits, short)) = elim v.agrees [
      | inl c ↦ (_, completion-fits c s fits ∙ ground arith, known-Holds s fits, refl, refl)
      | inr (c, hd, _, _) ↦ (r, completion-known c ∙ ground arith, v, refl, refl)
    ]

    completion-whole :
        IsWhole d
        → (q : Reader H) × (completion_condition ops max_transfer false n r ≡ (0, q))
          × Holds ops q d
          × (q.remain_len ≡ r.remain_len)
          × (q.msg_list ≡ r.msg_list)
    completion-whole (s, fits, whole) = elim v.agrees [
      | inl c ↦ (_, completion-fits c s fits ∙ ground arith, known-Holds s fits, refl, refl)
      | inr (c, hd, _, _) ↦ (r, completion-known c ∙ ground arith, v, refl, refl)
    ]

    completion-refuses :
        IsBad ops d
        → (q : Reader H) × (completion_condition ops max_transfer false n r ≡ (0, q))
          × (valid ops q ≡ false)
    unfolding valid
    completion-refuses (s, bad) = elim v.agrees [
      | inl c ↦ (_, completion-bad c (s, bad), refl)
      | inr (c, hd, _, fits) ↦ absurd (omega arith)
    ]

    -- On the bytes received so far, with no error: the read goes on while the frame at the front is
    -- not whole; it completes as soon as the frame is whole, and the reader still holds the same
    -- bytes; and at a header that is too large it completes with a reader that is not valid.
    pub completion_condition_lem :
        (IsPartial ops d
          → (q : Reader H) × (completion_condition ops max_transfer false n r ≡ (max_transfer, q))
            × Holds ops q d
            × (q.remain_len ≡ r.remain_len)
            × (q.msg_list ≡ r.msg_list))
        × (IsWhole d
            → (q : Reader H) × (completion_condition ops max_transfer false n r ≡ (0, q))
              × Holds ops q d
              × (q.remain_len ≡ r.remain_len)
              × (q.msg_list ≡ r.msg_list))
        × (IsBad ops d
            → (q : Reader H) × (completion_condition ops max_transfer false n r ≡ (0, q))
              × (valid ops q ≡ false))
    completion_condition_lem = (completion-partial, completion-whole, completion-refuses)
