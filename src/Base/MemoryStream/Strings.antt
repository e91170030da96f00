-- ===== src/Base/MemoryStream/Strings.antt =====
-- Strings and sequences of values in a memory_stream.
use network_core.Common.{
  ℕ, ◌+◌, ◌*◌, ◌^◌, ◌%◌, ◌<◌, ◌≡◌, refl, sym, ap, ◌∙◌, subst, Option, none, some, List, [], ◌∷◌,
  ◌++◌, le→leb, ◌>>=◌, length, Bytes, arith, append_assoc, append-nil, length-append,
}
use network_core.Common.Memory.{le_store, length-le_store}
use network_core.Base.MemoryStream.{
  MemoryStream, write_value, read_value, write_string, read_string, append,
}
use network_core.Base.MemoryStream.Queue.{
  Holds, Wrote, write_value-Wrote, append-Kept, check_space-Room,
}
use network_core.Base.MemoryStream.Reads.{read_value-Got, length-unread}

-- values with their widths, written and read one after the other
unfoldable pub write_values : (ℕ → Bytes) → List (ℕ × ℕ) → MemoryStream → Option MemoryStream
unfolding write_value
write_values alloc [] s = some s
write_values alloc ((width, v) ∷ vs) s = write_value alloc width v s >>= write_values alloc vs

unfoldable pub read_values : List ℕ → MemoryStream → Option (List (Option ℕ))
unfolding read_value
read_values [] s = some []
read_values (width ∷ ws) s =
    read_value width s >>= λ r. (read_values ws (r.0) >>= λ vs. some (r.1 ∷ vs))

unfoldable pub encoded : List (ℕ × ℕ) → Bytes
unfolding le_store
encoded [] = []
encoded ((width, v) ∷ vs) = le_store width v ++ encoded vs

unfoldable pub widths : List (ℕ × ℕ) → List ℕ
widths [] = []
widths ((width, v) ∷ vs) = width ∷ widths vs

unfoldable pub read_back : List (ℕ × ℕ) → List (Option ℕ)
read_back [] = []
read_back ((width, v) ∷ vs) = some v ∷ read_back vs

-- every value fits its width
pub data Fit : List (ℕ × ℕ) → Type 0 where
  none_left : Fit []
  fits : {width v : ℕ} {vs : List (ℕ × ℕ)} → v < 256 ^ width → Fit vs → Fit ((width, v) ∷ vs)

module _ (alloc : ℕ → Bytes) (length-alloc : (n : ℕ) → length (alloc n) ≡ n) where
  -- Values are written behind the queue, one after the other.
  pub write_values-Wrote :
      (vs : List (ℕ × ℕ)) (s : MemoryStream) (queue : Bytes)
      → Holds s queue
      → (s.wr_pos + length (encoded vs)) * 2 < 2 ^ 31
      → Wrote (write_values alloc vs s) (queue ++ encoded vs) (s.wr_pos + length (encoded vs))
  unfolding write_values encoded
  write_values-Wrote [] s queue h small = record {
    state = s;
    result_eq = refl;
    holds = subst (Holds s) (sym (append-nil queue)) h;
    wr_eq = omega arith;
  }
  write_values-Wrote ((width, v) ∷ vs) s queue h small =
      let bytes = le_store width v in
      let both : length (bytes ++ encoded vs) ≡ width + length (encoded vs) =
        omega (arith, length-append bytes (encoded vs), length-le_store width v) in
      let w = write_value-Wrote alloc length-alloc width v s queue h (omega (arith, both, small)) in
      let ws =
        write_values-Wrote vs w.state (queue ++ bytes) w.holds
          (omega (arith, both, small, w.wr_eq)) in
      record {
        state = ws.state;
        result_eq = ap (λ o. o >>= write_values alloc vs) w.result_eq ∙ ws.result_eq;
        holds = subst (Holds ws.state) (append_assoc queue bytes (encoded vs)) ws.holds;
        wr_eq = omega (arith, ws.wr_eq, w.wr_eq, both);
      }

read_values-encoded :
    (vs : List (ℕ × ℕ)) (s : MemoryStream)
    → Holds s (encoded vs)
    → Fit vs
    → read_values (widths vs) s ≡ some (read_back vs)
unfolding read_values encoded widths read_back
read_values-encoded [] s h none_left = refl
read_values-encoded ((width, v) ∷ vs) s h (fits small rest) =
    let g = read_value-Got width v s (encoded vs) h small in
    ap (λ o. o >>= λ r. (read_values (widths vs) (r.0) >>= λ vs. some (r.1 ∷ vs))) g.result_eq
    ∙ ap (λ o. o >>= λ vs. some (some v ∷ vs)) (read_values-encoded vs g.state g.holds rest)

module _ (alloc : ℕ → Bytes) (length-alloc : (n : ℕ) → length (alloc n) ≡ n) where
  -- Values that fit their widths, written one after the other to a stream that holds nothing, are
  -- read back in the same order with the same widths, when twice their bytes behind the write
  -- position is an `int`; the writes and the reads all succeed.
  pub read_values-write_values :
      (vs : List (ℕ × ℕ)) (s : MemoryStream)
      → Holds s []
      → Fit vs
      → (s.wr_pos + length (encoded vs)) * 2 < 2 ^ 31
      → (write_values alloc vs s >>= read_values (widths vs)) ≡ some (read_back vs)
  read_values-write_values vs s h f small =
      let w = write_values-Wrote alloc length-alloc vs s [] h small in
      ap (λ o. o >>= read_values (widths vs)) w.result_eq ∙ read_values-encoded vs w.state w.holds f

  -- write_string puts two bytes of length and the text behind the queue.
  pub write_string-Wrote :
      (str : Bytes) (s : MemoryStream) (queue : Bytes)
      → Holds s queue
      → (s.wr_pos + (length str + 2)) * 2 < 2 ^ 31
      → Wrote
          (write_string alloc str s)
          (queue ++ (le_store 2 (length str) ++ str))
          (s.wr_pos + (2 + length str))
  unfolding write_string
  write_string-Wrote str s queue h small =
      let n = length str % 2 ^ 32 in
      let exact : n ≡ length str = omega arith in
      let r = check_space-Room alloc length-alloc (length str + 2) s queue h small in
      let t = r.room.state in
      let two = length-le_store 2 n in
      let k =
        append-Kept alloc length-alloc t queue (le_store 2 n) r.room.holds
          (omega (arith, two, r.fits, r.room.wr_eq)) in
      let w = k.wrote in
      let x =
        (append-Kept alloc length-alloc w.state (queue ++ le_store 2 n) str w.holds
          (omega (arith, two, r.fits, r.room.wr_eq, w.wr_eq, k.size_eq))).wrote in
      record {
        state = x.state;
        result_eq =
            ap (λ o. o >>= λ s. (append alloc (le_store 2 n) s >>= λ s. append alloc str s))
              r.room.result_eq
            ∙ ap (λ o. o >>= λ s. append alloc str s) w.result_eq
            ∙ x.result_eq;
        holds =
            subst (Holds x.state)
              (append_assoc queue (le_store 2 n) str
                ∙ ap (λ k. queue ++ (le_store 2 k ++ str)) exact)
              x.holds;
        wr_eq = omega (arith, x.wr_eq, w.wr_eq, two, r.room.wr_eq);
      }

-- read_string refuses the empty string that ends the queue: a string that was written as the
-- last one and is empty is not read back.
pub read_string-last_empty :
    (s : MemoryStream) → Holds s (le_store 2 0) → read_string s ≡ some (s, none)
unfolding read_string
read_string-last_empty s h =
    rw
      (le→leb s.wr_pos (s.rd_pos + 2)
        (omega (arith, length-unread s (le_store 2 0) h, length-le_store 2 0)))
      refl
