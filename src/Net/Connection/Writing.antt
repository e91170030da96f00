-- ===== src/Net/Connection/Writing.antt =====
-- The write queue: what goes to the socket, in which order, and one write at a time.
use network_core.Common.{
  ℕ, suc, ◌≡◌, refl, sym, ap, subst, ◌∙◌, inl, inr, true, false, none, some, List, [], ◌∷◌, ◌++◌,
  map, map-append, append-nil, append_assoc, arith, length, Bool-cases, not, ◌||◌, ◌==◌,
}
use network_core.Net.Batch
use network_core.Net.Batch.{Batch}
use network_core.Net.Batch.Fill.{fill_unlimited}
use network_core.Net.Connection.{
  Connection, Effect, hton, total_length, write_as_batch, write_in_progress, write_queue,
  async_write_msg, do_write, handle_write, handle_write_batch, write, write_batch,
}
use network_core.Net.Reader.{Msg}
use network_core.Net.Wire.{HeaderType}

-- the write that the socket has not completed
pub data Flying : Type 0 where
  idle single batch : Flying

pub data WriteEvent (H : Type 0) : Type 0 where
  enqueue : Msg H → WriteEvent H
  complete : WriteEvent H

-- a connection with its socket: all messages handed to `async_write`, and the write under way
pub record Socket (H : Type 0) : Type 0 where
  pub conn : Connection H
  pub sent : List (Msg H)
  pub flying : Flying

module _ {H : Type 0} where
  abbrev pub handed_over : List (Effect H) → List (Msg H)
  handed_over [] = []
  handed_over (write ms ∷ out) = ms ++ handed_over out
  handed_over (write_batch ms ∷ out) = ms ++ handed_over out
  handed_over (_ ∷ out) = handed_over out

  abbrev pub fly : List (Effect H) → Flying → Flying
  fly [] f = f
  fly (write ms ∷ out) f = fly out single
  fly (write_batch ms ∷ out) f = fly out batch
  fly (_ ∷ out) f = fly out f

  abbrev pub follow : Socket H → Flying → Connection H × List (Effect H) → Socket H
  follow s f (c, out) = record { conn = c; sent = s.sent ++ handed_over out; flying = fly out f }

  abbrev pub accepted : List (WriteEvent H) → List (Msg H)
  accepted [] = []
  accepted (enqueue m ∷ es) = m ∷ accepted es
  accepted (complete ∷ es) = accepted es

  -- the messages that no write has taken yet, and one more while a write is under way
  abbrev pub pending : Flying → Connection H → ℕ
  pending idle c = 0
  pending single c = length c.write_msg_queue
  pending batch c = suc (length c.write_msg_queue)

module _ {H : Type 0} (ops : HeaderType H) where
  -- a write that completes without error calls the handler that it was given
  unfoldable pub completes : Flying → Socket H → Socket H
  completes idle s = s
  completes single s = follow s idle (handle_write ops false s.conn)
  completes batch s = follow s idle (handle_write_batch ops false s.conn)

  unfoldable pub step : Socket H → WriteEvent H → Socket H
  step s (enqueue m) = follow s s.flying (do_write ops m s.conn)
  step s complete = completes s.flying s

  unfoldable pub run : Socket H → List (WriteEvent H) → Socket H
  run s [] = s
  run s (e ∷ es) = run (step s e) es

  -- the queue and the batch, by the write under way; `ms` are the messages accepted so far
  abbrev pub Shape : Flying → Socket H → List (Msg H) → Type 0
  Shape idle s ms =
      (s.conn.write_msg_queue ≡ []) × (s.conn.batch_msg ≡ none) × (s.sent ≡ map (hton ops) ms)
  Shape single s ms =
      (m : Msg H) × (rest : List (Msg H)) × (s.conn.write_msg_queue ≡ m ∷ rest)
      × (s.conn.batch_msg ≡ none)
      × (s.sent ++ map (hton ops) rest ≡ map (hton ops) ms)
  Shape batch s ms =
      (b : Batch (Msg H)) × (s.conn.batch_msg ≡ some b)
      × (s.sent ++ map (hton ops) s.conn.write_msg_queue ≡ map (hton ops) ms)

  pub record Inv (s : Socket H) (ms : List (Msg H)) : Type 0 where
    pub running : s.conn.is_running ≡ true
    pub shape : Shape s.flying s ms

  pub write_as_batch_lem :
      (m : Msg H) (queue : List (Msg H)) (c : Connection H)
      → (b : Batch (Msg H)) × (write_as_batch ops (m ∷ queue) c ≡ (
        record c { batch_msg = some b; write_msg_queue = [] },
        write_batch (map (hton ops) (m ∷ queue)) ∷ [],
      ))
  unfolding write_as_batch Batch.empty Batch.convert Batch.new_batch
  write_as_batch_lem m queue c =
      let b = (Batch.fill (total_length ops) (Batch.new_batch 0 0) (m ∷ queue)).0 in
      (
        Batch.convert (hton ops) b,
        ground
            (arith, fill_unlimited (total_length ops) (Batch.new_batch 0 0) (m ∷ queue) refl refl),
      )

  -- starting the next write on a queue that holds the messages not yet sent
  write_queue-Inv :
      (s : Socket H) (c : Connection H) (queue ms : List (Msg H))
      → c.is_running ≡ true
      → c.write_msg_queue ≡ queue
      → c.batch_msg ≡ none
      → s.sent ++ map (hton ops) queue ≡ map (hton ops) ms
      → Inv (follow s idle (write_queue ops queue c)) ms
  unfolding write_queue
  write_queue-Inv s c [] ms on q b e = record { running = on; shape = (q, b, e) }
  write_queue-Inv s c (m ∷ queue) ms on q b e =
      elim (Bool-cases (not c.batch_send_msg || length (m ∷ queue) == 1)) [
        | inl one ↦ rw one (record {
          running = on;
          shape = (
            hton ops m,
            queue,
            refl,
            b,
            append_assoc s.sent (hton ops m ∷ []) (map (hton ops) queue) ∙ e,
          );
        })
        | inr many ↦
            let (batched, known) = write_as_batch_lem m queue c in
            rw (many, known)
              (record {
                running = on;
                shape = (
                  batched,
                  refl,
                  rw (append-nil (map (hton ops) (m ∷ queue))) (append-nil _ ∙ e),
                );
              })
      ]

  append_one :
      (xs rest ms : List (Msg H)) (m : Msg H)
      → xs ++ map (hton ops) rest ≡ map (hton ops) ms
      → xs ++ map (hton ops) (rest ++ m ∷ []) ≡ map (hton ops) (ms ++ m ∷ [])
  append_one xs rest ms m e =
      ap (◌++◌ xs) (map-append (hton ops) rest (m ∷ []))
      ∙ sym (append_assoc xs (map (hton ops) rest) (hton ops m ∷ []))
      ∙ ap (λ l. l ++ hton ops m ∷ []) e
      ∙ sym (map-append (hton ops) ms (m ∷ []))

  do_write_idle :
      (m : Msg H) (c : Connection H)
      → c.is_running ≡ true
      → c.write_msg_queue ≡ []
      → c.batch_msg ≡ none
      → do_write ops m c ≡ write_queue ops (m ∷ []) (record c { write_msg_queue = m ∷ [] })
  unfolding do_write async_write_msg
  do_write_idle m c on q b = ground arith

  do_write_busy :
      (m : Msg H) (c : Connection H)
      → c.is_running ≡ true
      → write_in_progress ops c.write_msg_queue c.batch_msg ≡ true
      → do_write ops m c ≡ (record c { write_msg_queue = c.write_msg_queue ++ m ∷ [] }, [])
  unfolding do_write
  do_write_busy m c on busy = ground arith

  do_write-Inv :
      (f : Flying) (s : Socket H) (m : Msg H) (ms : List (Msg H))
      → s.conn.is_running ≡ true
      → Shape f s ms
      → Inv (follow s f (do_write ops m s.conn)) (ms ++ m ∷ [])
  do_write-Inv idle s m ms on (q, b, e) = rw (do_write_idle m s.conn on q b) (
      write_queue-Inv s (record s.conn { write_msg_queue = m ∷ [] }) (m ∷ []) (ms ++ m ∷ []) on refl
        b (append_one s.sent [] ms m (append-nil s.sent ∙ e)))
  do_write-Inv single s m ms on (w, rest, q, b, e) =
      rw (do_write_busy m s.conn on (ground arith)) (record {
        running = on;
        shape = (
          w,
          rest ++ m ∷ [],
          ap (λ l. l ++ m ∷ []) q,
          b,
          append_one (s.sent ++ []) rest ms m
              (ap (λ l. l ++ map (hton ops) rest) (append-nil s.sent) ∙ e),
        );
      })
  do_write-Inv batch s m ms on (bt, b, e) = rw (do_write_busy m s.conn on (ground arith)) (record {
    running = on;
    shape = (
      bt,
      b,
      append_one (s.sent ++ []) s.conn.write_msg_queue ms m
          (ap (λ l. l ++ map (hton ops) s.conn.write_msg_queue) (append-nil s.sent) ∙ e),
    );
  })

  pub handle_write_done :
      (c : Connection H) (w : Msg H) (rest : List (Msg H))
      → c.is_running ≡ true
      → c.write_msg_queue ≡ w ∷ rest
      → handle_write ops false c ≡ write_queue ops rest (record c { write_msg_queue = rest })
  unfolding handle_write async_write_msg
  handle_write_done c w rest on q = ground arith

  pub handle_write_batch_done :
      (c : Connection H)
      → c.is_running ≡ true
      → handle_write_batch ops false c
        ≡ write_queue ops c.write_msg_queue (record c { batch_msg = none })
  unfolding handle_write_batch async_write_msg
  handle_write_batch_done c on = ground arith

  completes-Inv :
      (f : Flying) (s : Socket H) (ms : List (Msg H))
      → s.conn.is_running ≡ true
      → s.flying ≡ f
      → Shape f s ms
      → Inv (completes f s) ms
  unfolding completes
  completes-Inv idle s ms on fe sh = record {
    running = on;
    shape = subst (λ f. Shape f s ms) (sym fe) sh;
  }
  completes-Inv single s ms on fe (w, rest, q, b, e) =
      rw (handle_write_done s.conn w rest on q)
        (write_queue-Inv s (record s.conn { write_msg_queue = rest }) rest ms on refl b e)
  completes-Inv batch s ms on fe (bt, b, e) = rw (handle_write_batch_done s.conn on) (
      write_queue-Inv s (record s.conn { batch_msg = none }) s.conn.write_msg_queue ms on refl refl
        e)

  pub step-Inv :
      (s : Socket H) (e : WriteEvent H) (ms : List (Msg H))
      → Inv s ms
      → Inv (step s e) (ms ++ accepted (e ∷ []))
  unfolding step
  step-Inv s (enqueue m) ms v = do_write-Inv s.flying s m ms v.running v.shape
  step-Inv s complete ms v = rw (append-nil ms) (completes-Inv s.flying s ms v.running refl v.shape)

  accepted-append :
      (e : WriteEvent H) (es : List (WriteEvent H))
      → accepted (e ∷ []) ++ accepted es ≡ accepted (e ∷ es)
  accepted-append (enqueue m) es = refl
  accepted-append complete es = refl

  -- In every history of writes and completions the connection keeps its invariant: at most one write
  -- is under way, and what was handed to the socket, followed by what waits, is exactly the accepted
  -- messages in network order, each once and in the order of acceptance.
  pub run-Inv :
      (s : Socket H) (es : List (WriteEvent H)) (ms : List (Msg H))
      → Inv s ms
      → Inv (run s es) (ms ++ accepted es)
  unfolding run
  run-Inv s [] ms v = rw (append-nil ms) v
  run-Inv s (e ∷ es) ms v =
      subst (Inv (run (step s e) es))
        (append_assoc ms (accepted (e ∷ [])) (accepted es) ∙ ap (◌++◌ ms) (accepted-append e es))
        (run-Inv (step s e) es (ms ++ accepted (e ∷ [])) (step-Inv s e ms v))
