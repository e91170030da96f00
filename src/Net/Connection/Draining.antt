-- ===== src/Net/Connection/Draining.antt =====
-- Accepted messages do get written, if the socket completes its writes.
use network_core.Common.{
  ℕ, zero, suc, ◌-◌, ◌≤◌, ◌≡◌, refl, ap, subst, inl, inr, true, none, List, [], ◌∷◌, map,
  append-nil, arith, length, replicate, Bool-cases, not, ◌||◌, ◌==◌,
}
use network_core.Net.Connection.{Connection, hton, write_queue}
use network_core.Net.Connection.Writing.{
  Flying, idle, single, batch, complete, Socket, follow, completes, step, run, Shape, Inv, pending,
  write_as_batch_lem, handle_write_done, handle_write_batch_done, step-Inv,
}
use network_core.Net.Reader.{Msg}
use network_core.Net.Wire.{HeaderType}

module _ {H : Type 0} (ops : HeaderType H) where
  abbrev left : Socket H → ℕ
  left s = pending s.flying s.conn

  left-write_queue :
      (s : Socket H) (c : Connection H) (queue : List (Msg H))
      → left (follow s idle (write_queue ops queue c)) ≤ length queue
  unfolding write_queue
  left-write_queue s c [] = omega arith
  left-write_queue s c (m ∷ queue) =
      elim (Bool-cases (not c.batch_send_msg || length (m ∷ queue) == 1)) [
        | inl one ↦ rw one (omega arith)
        | inr many ↦ rw (many, (write_as_batch_lem ops m queue c).1) (omega arith)
      ]

  left-completes :
      (f : Flying) (s : Socket H) (ms : List (Msg H))
      → s.conn.is_running ≡ true
      → s.flying ≡ f
      → Shape ops f s ms
      → left (completes ops f s) ≤ pending f s.conn - 1
  unfolding completes
  left-completes idle s ms on fe sh = ground (arith, ap (λ f. pending f s.conn) fe)
  left-completes single s ms on fe (w, rest, q, b, e) =
      rw (handle_write_done ops s.conn w rest on q) (
        omega
          (arith, ap length q, left-write_queue s (record s.conn { write_msg_queue = rest }) rest))
  left-completes batch s ms on fe (bt, b, e) = rw (handle_write_batch_done ops s.conn on) (
      omega (arith, left-write_queue s (record s.conn { batch_msg = none }) s.conn.write_msg_queue))

  pending-zero :
      (f : Flying) (s : Socket H) (ms : List (Msg H))
      → Shape ops f s ms
      → pending f s.conn ≤ 0
      → (f ≡ idle) × (s.sent ≡ map (hton ops) ms)
  pending-zero idle s ms sh h = (refl, sh.2)
  pending-zero single s ms (w, rest, q, b, e) h = absurd (omega (arith, ap length q))
  pending-zero batch s ms sh h = absurd (omega arith)

  -- Once every write that is under way completes, and no more messages are accepted, the socket has
  -- been handed all accepted messages, and no write is left: as many completions as there are
  -- messages pending are enough.
  pub drains :
      (n : ℕ) (s : Socket H) (ms : List (Msg H))
      → Inv ops s ms
      → pending s.flying s.conn ≤ n
      → let s' = run ops s (replicate n complete) in
        (s'.flying ≡ idle) × (s'.sent ≡ map (hton ops) ms)
  unfolding run step
  drains zero s ms v h = pending-zero s.flying s ms v.shape h
  drains (suc n) s ms v h =
      drains n (step ops s complete) ms
        (subst (Inv ops (step ops s complete)) (append-nil ms) (step-Inv ops s complete ms v))
        (omega (arith, left-completes s.flying s ms v.running refl v.shape))
