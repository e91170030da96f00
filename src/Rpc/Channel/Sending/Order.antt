-- ===== src/Rpc/Channel/Sending/Order.antt =====
-- A connected channel of async_rpc_channel.hpp whose router refuses nothing, over any interleaving
-- of calls, posted functions and completions of writes.
use network_core.Common.{
  ℕ, ◌+◌, ◌-◌, ◌≡◌, refl, sym, ap, subst, ◌∙◌, true, ◌||◌, List, [], ◌∷◌, ◌++◌, if◌then◌else◌,
  arith, Bool-cases, inl, inr, append_assoc, append-nil, drop, length, ltb, ◌==◌,
}
use network_core.Rpc.Channel.{
  connected, Channel, Effect, is_empty, call_context, posted_call, handle_send,
}
use network_core.Rpc.Channel.Failing.{writes}
use network_core.Rpc.Wire.{RpcHeader}
use network_core.Rpc.Channel.Sending.Pulled.{
  posts, always, waiting, Pulled, popped, handle_send-Pulled, call_context-Accepted,
  posted_call_empty, posted_call_busy, call_impl-Pulled,
}

pub record Trace (H : Type 0) : Type 0 where
  pub state : Channel H
  pub accepted : List ℕ
  pub written : List ℕ
  pub in_flight : ℕ
  pub posted : ℕ

pub data Move : Type 0 where
  calls : ℕ → Move
  runs_post : Move
  write_done : Move

unfoldable pub absorb : {H : Type 0} → Channel H × List (Effect H) → Trace H → Trace H
unfolding writes posts
absorb (s, es) t = record t {
  state = s;
  written = t.written ++ writes es;
  in_flight = t.in_flight + length (writes es);
  posted = t.posted + posts es;
}

module _ {H : Type 0} (ops : RpcHeader H) where
  -- the completion of the write of the front
  unfoldable pub complete_front : List ℕ → Trace H → Trace H
  unfolding absorb handle_send
  complete_front [] t = t
  complete_front (id ∷ ids) t =
      absorb (handle_send ops always 0 id t.state) (record t { in_flight = t.in_flight - 1 })

  unfoldable pub move : Move → Trace H → Trace H
  unfolding absorb call_context posted_call complete_front
  move (calls id) t =
      absorb (call_context ops id t.state) (record t { accepted = t.accepted ++ (id ∷ []) })
  move runs_post t =
      if t.posted == 0
      then t
      else absorb (posted_call ops always t.state) (record t { posted = t.posted - 1 })
  move write_done t = complete_front t.state.to_calls t

  unfoldable pub run_moves : List Move → Trace H → Trace H
  unfolding move
  run_moves [] t = t
  run_moves (m ∷ ms) t = run_moves ms (move m t)

pub record Inv {H : Type 0} (t : Trace H) : Type 0 where
  pub status_eq : t.state.status ≡ connected
  pub open_eq : t.state.is_open ≡ true
  -- what was written and what waits is what was accepted, in this order
  pub order_eq : t.written ++ waiting t.state ≡ t.accepted
  -- one write at a time
  pub flight_eq : t.in_flight ≡ (if is_empty t.state.to_calls then 0 else 1)
  -- something is on its way while something waits
  pub progress :
      is_empty t.state.to_calls ≡ true → (is_empty t.state.calls.call_list || ltb 0 t.posted) ≡ true

-- a step of the channel, absorbed
absorb-Inv :
    {H : Type 0} (t : Trace H) (r : Channel H × List (Effect H))
    → r.0.status ≡ connected
    → r.0.is_open ≡ true
    → (t.written ++ writes r.1) ++ waiting r.0 ≡ t.accepted
    → t.in_flight + length (writes r.1) ≡ (if is_empty r.0.to_calls then 0 else 1)
    → (is_empty r.0.to_calls ≡ true
        → (is_empty r.0.calls.call_list || ltb 0 (t.posted + posts r.1)) ≡ true)
    → Inv (absorb r t)
unfolding absorb
absorb-Inv t r st o ord fl pr = record {
  status_eq = st;
  open_eq = o;
  order_eq = ord;
  flight_eq = fl;
  progress = pr;
}

-- so is a step that takes the next call to the socket, when no write is under way
absorb_next-Inv :
    {H : Type 0} (t : Trace H) (s : Channel H) (r : Channel H × List (Effect H))
    → Pulled s r
    → s.status ≡ connected
    → s.is_open ≡ true
    → t.written ++ (s.to_calls ++ s.calls.call_list) ≡ t.accepted
    → t.in_flight ≡ 0
    → Inv (absorb r t)
absorb_next-Inv t s r p st o ord fl =
    absorb-Inv t r (p.status_eq ∙ st) (p.open_eq ∙ o)
      (append_assoc t.written (writes r.1) (waiting r.0) ∙ ap (◌++◌ t.written) p.order_eq ∙ ord)
      (ap (λ n. n + length (writes r.1)) fl ∙ omega (arith, p.flight_eq) ∙ p.flight_eq)
      (λ h. ap (λ b. b || ltb 0 (t.posted + posts r.1)) (p.progress h))

queued :
    (l : List ℕ) (id p q : ℕ)
    → (is_empty l || ltb 0 p) ≡ true
    → q ≡ (if is_empty l then 1 else 0)
    → (is_empty (l ++ (id ∷ [])) || ltb 0 (p + q)) ≡ true
queued [] id p q h e = ground arith
queued (x ∷ l) id p q h e = ground arith

module _ {H : Type 0} (ops : RpcHeader H) where
  calls-Inv : (id : ℕ) (t : Trace H) → Inv t → Inv (move ops (calls id) t)
  unfolding move
  calls-Inv id t v =
      let s = t.state in
      let r = call_context ops id s in
      let a = call_context-Accepted ops id s v.status_eq in
      absorb-Inv (record t { accepted = t.accepted ++ (id ∷ []) }) r (a.status_eq ∙ v.status_eq)
        (a.open_eq ∙ v.open_eq)
        (ap (λ w. (t.written ++ w) ++ waiting r.0) a.writes_eq
          ∙ ap (λ w. w ++ waiting r.0) (append-nil t.written)
          ∙ ap (λ l. t.written ++ (drop 1 l ++ r.0.calls.call_list)) a.to_calls_eq
          ∙ ap (λ l. t.written ++ (drop 1 s.to_calls ++ l)) a.list_eq
          ∙ ap (◌++◌ t.written) (sym (append_assoc (drop 1 s.to_calls) s.calls.call_list (id ∷ [])))
          ∙ sym (append_assoc t.written (waiting s) (id ∷ []))
          ∙ ap (λ l. l ++ (id ∷ [])) v.order_eq)
        (omega (arith, ap length a.writes_eq)
          ∙ v.flight_eq
          ∙ ap (λ l. if is_empty l then 0 else 1) (sym a.to_calls_eq))
        (λ h.
          subst (λ l. (is_empty l || ltb 0 (t.posted + posts r.1)) ≡ true) (sym a.list_eq)
            (queued s.calls.call_list id t.posted (posts r.1)
              (v.progress (ap is_empty (sym a.to_calls_eq) ∙ h)) a.posts_eq))

  posted-Inv :
      (l : List ℕ) (t : Trace H)
      → t.state.to_calls ≡ l
      → Inv t
      → Inv (absorb (posted_call ops always t.state) (record t { posted = t.posted - 1 }))
  unfolding writes posts
  posted-Inv [] t e v =
      let s = t.state in
      absorb_next-Inv (record t { posted = t.posted - 1 }) s (posted_call ops always s)
        (subst (Pulled s) (sym (posted_call_empty ops s e)) (call_impl-Pulled ops s e)) v.status_eq
        v.open_eq
        (ap (λ l. t.written ++ (l ++ s.calls.call_list)) e
          ∙ ap (λ l. t.written ++ (drop 1 l ++ s.calls.call_list)) (sym e)
          ∙ v.order_eq)
        (v.flight_eq ∙ ap (λ l. if is_empty l then 0 else 1) e)
  posted-Inv (id ∷ ids) t e v =
      let s = t.state in
      subst (λ r. Inv (absorb r (record t { posted = t.posted - 1 })))
        (sym (posted_call_busy ops id ids s e))
        (absorb-Inv (record t { posted = t.posted - 1 }) (s, []) v.status_eq v.open_eq
          (ap (λ w. w ++ waiting s) (append-nil t.written) ∙ v.order_eq) (omega arith ∙ v.flight_eq)
          (λ h. absurd (ground (arith, e))))

  post-Inv : (t : Trace H) → Inv t → Inv (move ops runs_post t)
  unfolding move
  post-Inv t v =
      let next = absorb (posted_call ops always t.state) (record t { posted = t.posted - 1 }) in
      elim (Bool-cases (t.posted == 0)) [
        | inl e ↦ subst Inv (ap (λ b. if b then t else next) (sym e)) v
        | inr e ↦
            subst Inv (ap (λ b. if b then t else next) (sym e))
              (posted-Inv t.state.to_calls t refl v)
      ]

  done-Inv :
      (l : List ℕ) (t : Trace H) → t.state.to_calls ≡ l → Inv t → Inv (complete_front ops l t)
  unfolding complete_front
  done-Inv [] t e v = v
  done-Inv (id ∷ ids) t e v =
      let s = t.state in
      absorb_next-Inv (record t { in_flight = t.in_flight - 1 }) (popped ops id s)
        (handle_send ops always 0 id s) (handle_send-Pulled ops id s v.open_eq) v.status_eq
        v.open_eq v.order_eq
        (omega (arith, v.flight_eq, ap {B = ℕ} (λ l. if is_empty l then 0 else 1) e))

  move-Inv : (m : Move) (t : Trace H) → Inv t → Inv (move ops m t)
  unfolding move
  move-Inv (calls id) t v = calls-Inv id t v
  move-Inv runs_post t v = post-Inv t v
  move-Inv write_done t v = done-Inv t.state.to_calls t refl v

  -- Over any interleaving of calls, of the functions they post and of completions of writes, a
  -- connected channel whose router refuses nothing keeps its invariant: what has been written and
  -- then what waits is what was accepted, in the order of acceptance and each once; at most one
  -- write is under way; and while a call waits, a write or a posted function is outstanding.
  pub run_moves-Inv : (ms : List Move) (t : Trace H) → Inv t → Inv (run_moves ops ms t)
  unfolding run_moves
  run_moves-Inv [] t v = v
  run_moves-Inv (m ∷ ms) t v = run_moves-Inv ms (move ops m t) (move-Inv m t v)
