-- ===== src/Rpc/Channel/Sending/Pulled.antt =====
-- One step of the sending of async_rpc_channel.hpp: what it takes to the socket, and what it keeps.
use network_core.Common.{
  ℕ, suc, ◌+◌, ◌≡◌, refl, sym, ap, subst, ◌∙◌, Bool, true, false, not, ◌&&◌, List, [], ◌∷◌, ◌++◌,
  if◌then◌else◌, arith, append_assoc, append-nil, drop, length,
}
use network_core.Rpc.Calls.{push_call, push_call_response, task_list}
use network_core.Net.Errors
use network_core.Rpc.Context.{Context, app_error, apply_post_func, when, ran_post_func}
use network_core.Rpc.Channel.{
  connected, Channel, Effect, post_call, async_write, is_empty, is_connected, live, set_ctx,
  callbacks, fail_call, after_send, set_timeout, call_context, send_front, call_impl1, call_impl,
  posted_call, send_next, handle_send,
}
use network_core.Rpc.Channel.Failing.{writes, writes-append}
use network_core.Rpc.Channel.Sending.{send_next_front}
use network_core.Rpc.Wire.{RpcHeader}

-- the functions that effects post
unfoldable pub posts : {H : Type 0} → List (Effect H) → ℕ
posts [] = 0
posts (post_call ∷ es) = suc (posts es)
posts (_ ∷ es) = posts es

abbrev pub always : {H : Type 0} → H → Bool
always h = true

-- what has been accepted and not yet handed to the socket
abbrev pub waiting : {H : Type 0} → Channel H → List ℕ
waiting s = drop 1 s.to_calls ++ s.calls.call_list

-- a step that takes one call to the socket, or none, and keeps the rest
record Kept {H : Type 0} (s : Channel H) (r : Channel H × List (Effect H)) : Type 0 where
  pub status_eq : r.0.status ≡ s.status
  pub open_eq : r.0.is_open ≡ s.is_open
  pub to_calls_eq : r.0.to_calls ≡ s.to_calls
  pub list_eq : r.0.calls.call_list ≡ s.calls.call_list
  pub posts_eq : posts r.1 ≡ 0

module _ {H : Type 0} where
  set_timeout-Kept : (id : ℕ) (s : Channel H) → Kept s (set_timeout id s)
  unfolding set_timeout posts
  set_timeout-Kept id s = ground arith

  writes-set_timeout : (id : ℕ) (s : Channel H) → writes (set_timeout id s).1 ≡ []
  unfolding set_timeout writes
  writes-set_timeout id s = ground arith

-- the next call has been taken to the socket, when there was one
pub record Pulled {H : Type 0} (s : Channel H) (r : Channel H × List (Effect H)) : Type 0 where
  pub status_eq : r.0.status ≡ s.status
  pub open_eq : r.0.is_open ≡ s.is_open
  pub order_eq : writes r.1 ++ waiting r.0 ≡ s.to_calls ++ s.calls.call_list
  pub flight_eq : length (writes r.1) ≡ (if is_empty r.0.to_calls then 0 else 1)
  pub progress : is_empty r.0.to_calls ≡ true → is_empty r.0.calls.call_list ≡ true
  pub posts_eq : posts r.1 ≡ 0

posts-append : {H : Type 0} (es fs : List (Effect H)) → posts (es ++ fs) ≡ posts es + posts fs
unfolding posts
posts-append [] fs = omega arith
posts-append (post_call ∷ es) fs = omega (arith, posts-append es fs)
posts-append (_ ∷ es) fs = posts-append es fs

module _ {H : Type 0} (ops : RpcHeader H) where
  send_front-Pulled :
      (id : ℕ) (ids : List ℕ) (s : Channel H)
      → s.to_calls ≡ id ∷ ids
      → Pulled s (send_front ops always (id ∷ ids) s)
  unfolding send_front writes posts
  send_front-Pulled id ids s e =
      let sent = record s {
        ctxs = set_ctx id (record (s.ctxs id) { head = ops.hton (s.ctxs id).head }) s.ctxs;
      } in
      let k = set_timeout-Kept id sent in
      let r = set_timeout id sent in
      let w : writes (send_front ops always (id ∷ ids) s).1 ≡ id ∷ [] =
        writes-append r.1 (async_write id (ops.hton (s.ctxs id).head) (s.ctxs id).send_msg ∷ [])
        ∙ ap (λ l. l ++ (id ∷ [])) (writes-set_timeout id sent) in
      let t : r.0.to_calls ≡ id ∷ ids = k.to_calls_eq ∙ e in
      record {
        status_eq = k.status_eq;
        open_eq = k.open_eq;
        order_eq =
            ap (λ l. l ++ waiting r.0) w
            ∙ ap (λ l. id ∷ (drop 1 l ++ r.0.calls.call_list)) t
            ∙ ap (λ l. id ∷ (ids ++ l)) k.list_eq
            ∙ ap (λ l. l ++ s.calls.call_list) (sym e);
        flight_eq = ap length w ∙ ap (λ l. if is_empty l then 0 else 1) (sym t);
        progress = λ h. absurd (ground (arith, t));
        posts_eq =
            posts-append r.1 (async_write id (ops.hton (s.ctxs id).head) (s.ctxs id).send_msg ∷ [])
            ∙ ap (λ n. n + 0) k.posts_eq;
      }

  -- call_impl on a list
  abbrev impl_of : Channel H → List ℕ → Channel H × List (Effect H)
  impl_of s l =
      if not (is_empty l)
      then send_front ops always l
          (record s { to_calls = l; calls = record s.calls { call_list = [] } })
      else (s, [])

  call_impl-impl_of : (s : Channel H) → call_impl ops always s ≡ impl_of s s.calls.call_list
  unfolding call_impl call_impl1 task_list
  call_impl-impl_of s = refl

  impl_of-Pulled :
      (s : Channel H) (l : List ℕ)
      → s.to_calls ≡ []
      → s.calls.call_list ≡ l
      → Pulled s (impl_of s l)
  unfolding writes posts
  impl_of-Pulled s [] e f = record {
    status_eq = refl;
    open_eq = refl;
    order_eq = ap (λ l. drop 1 l ++ s.calls.call_list) e ∙ ap (λ l. l ++ s.calls.call_list) (sym e);
    flight_eq = ap (λ l. if is_empty l then 0 else 1) (sym e);
    progress = λ h. ap is_empty f;
    posts_eq = refl;
  }
  impl_of-Pulled s (id ∷ ids) e f =
      let s' = record s { to_calls = id ∷ ids; calls = record s.calls { call_list = [] } } in
      let p = send_front-Pulled id ids s' refl in
      record {
        status_eq = p.status_eq;
        open_eq = p.open_eq;
        order_eq =
            p.order_eq ∙ append-nil (id ∷ ids) ∙ sym f ∙ ap (λ l. l ++ s.calls.call_list) (sym e);
        flight_eq = p.flight_eq;
        progress = p.progress;
        posts_eq = p.posts_eq;
      }

  pub call_impl-Pulled : (s : Channel H) → s.to_calls ≡ [] → Pulled s (call_impl ops always s)
  call_impl-Pulled s e =
      subst (Pulled s) (sym (call_impl-impl_of s)) (impl_of-Pulled s s.calls.call_list e refl)

  send_next_empty :
      (s : Channel H) → s.to_calls ≡ [] → send_next ops always s ≡ call_impl ops always s
  unfolding send_next
  send_next_empty s e =
      ap (λ l. if is_empty l then call_impl ops always s else call_impl1 ops always s) e

  send_next-Pulled :
      (l : List ℕ) (s : Channel H) → s.to_calls ≡ l → Pulled s (send_next ops always s)
  send_next-Pulled [] s e = subst (Pulled s) (sym (send_next_empty s e)) (call_impl-Pulled s e)
  send_next-Pulled (id ∷ ids) s e =
      subst (Pulled s) (sym (send_next_front ops always id ids s e)) (send_front-Pulled id ids s e)

  pub posted_call_empty :
      (s : Channel H) → s.to_calls ≡ [] → posted_call ops always s ≡ call_impl ops always s
  unfolding posted_call
  posted_call_empty s e = ap (λ l. if is_empty l then call_impl ops always s else (s, [])) e

  pub posted_call_busy :
      (id : ℕ) (ids : List ℕ) (s : Channel H)
      → s.to_calls ≡ id ∷ ids
      → posted_call ops always s ≡ (s, [])
  unfolding posted_call
  posted_call_busy id ids s e = ap (λ l. if is_empty l then call_impl ops always s else (s, [])) e

  -- a call that is accepted waits at the end
  pub record Accepted (id : ℕ) (s : Channel H) (r : Channel H × List (Effect H)) : Type 0 where
    pub status_eq : r.0.status ≡ s.status
    pub open_eq : r.0.is_open ≡ s.is_open
    pub to_calls_eq : r.0.to_calls ≡ s.to_calls
    pub list_eq : r.0.calls.call_list ≡ s.calls.call_list ++ (id ∷ [])
    pub writes_eq : writes r.1 ≡ []
    pub posts_eq : posts r.1 ≡ (if is_empty s.calls.call_list then 1 else 0)

  push_call-list :
      (id : ℕ) (s : Channel H)
      → (push_call ops id (s.ctxs id) s.calls).0.call_list ≡ s.calls.call_list ++ (id ∷ [])
  unfolding push_call push_call_response
  push_call-list id s = ground arith

  abbrev post_if : Bool → List (Effect H)
  post_if b = if b then post_call ∷ [] else []

  writes-post_if : (b : Bool) → writes (post_if b) ≡ []
  unfolding writes
  writes-post_if true = refl
  writes-post_if false = refl

  posts-post_if : (b : Bool) → posts (post_if (b && true)) ≡ (if b then 1 else 0)
  unfolding posts
  posts-post_if true = refl
  posts-post_if false = refl

  pub call_context-Accepted :
      (id : ℕ) (s : Channel H) → s.status ≡ connected → Accepted id s (call_context ops id s)
  unfolding call_context
  call_context-Accepted id s e =
      let (kept, ctx) = push_call ops id (s.ctxs id) s.calls in
      let pushed = record s { calls = kept; ctxs = set_ctx id ctx s.ctxs } in
      let cl = s.calls.call_list in
      subst (Accepted id s)
        (ap
          (λ st.
            if not (live st)
            then fail_call id (app_error Errors.badconnect) s
            else (pushed, post_if (is_empty cl && is_connected st)))
          (sym e))
        (record {
          status_eq = refl;
          open_eq = refl;
          to_calls_eq = refl;
          list_eq = push_call-list id s;
          writes_eq = writes-post_if (is_empty cl && true);
          posts_eq = posts-post_if (is_empty cl);
        })

  sent_effects-none :
      (id : ℕ) (ctx : Context H) (b r p : Bool)
      → (writes (
            (if b then after_send ctx.head ∷ [] else [])
            ++ (if r then callbacks id (when p ran_post_func) else []))
          ≡ [])
        × (posts (
              (if b then after_send ctx.head ∷ [] else [])
              ++ (if r then callbacks id (when p ran_post_func) else []))
            ≡ 0)
  unfolding writes posts
  sent_effects-none id ctx true true true = (refl, refl)
  sent_effects-none id ctx true true false = (refl, refl)
  sent_effects-none id ctx true false p = (refl, refl)
  sent_effects-none id ctx false true true = (refl, refl)
  sent_effects-none id ctx false true false = (refl, refl)
  sent_effects-none id ctx false false p = (refl, refl)

  -- the state in which the front has been taken off
  abbrev pub popped : ℕ → Channel H → Channel H
  popped id s = record s {
    to_calls = drop 1 s.to_calls;
    ctxs = set_ctx id (record (s.ctxs id) { head = ops.ntoh (s.ctxs id).head }) s.ctxs;
  }

  handle_send-open :
      (id : ℕ) (s : Channel H)
      → s.is_open ≡ true
      → let next = send_next ops always (popped id s) in
        let ctx = record (s.ctxs id) { head = ops.ntoh (s.ctxs id).head } in
        handle_send ops always 0 id s ≡ (
          next.0,
          (if s.has_after_send then after_send ctx.head ∷ [] else [])
              ++ ((if ops.is_reply ctx.head
                    then callbacks id (when ctx.has_post_func ran_post_func)
                    else [])
                  ++ next.1),
        )
  unfolding handle_send apply_post_func
  handle_send-open id s o =
      let next = send_next ops always (popped id s) in
      let ctx = record (s.ctxs id) { head = ops.ntoh (s.ctxs id).head } in
      ap
        (λ b. if not b then (s, []) else (
          next.0,
          (if s.has_after_send then after_send ctx.head ∷ [] else [])
              ++ ((if ops.is_reply ctx.head
                    then callbacks id (when ctx.has_post_func ran_post_func)
                    else [])
                  ++ next.1),
        ))
        o

  pub handle_send-Pulled :
      (id : ℕ) (s : Channel H)
      → s.is_open ≡ true
      → Pulled (popped id s) (handle_send ops always 0 id s)
  handle_send-Pulled id s o =
      let next = send_next ops always (popped id s) in
      let ctx = record (s.ctxs id) { head = ops.ntoh (s.ctxs id).head } in
      let first = if s.has_after_send then after_send ctx.head ∷ [] else [] in
      let second =
        if ops.is_reply ctx.head then callbacks id (when ctx.has_post_func ran_post_func) else [] in
      let p = send_next-Pulled (drop 1 s.to_calls) (popped id s) refl in
      let none =
        sent_effects-none id ctx s.has_after_send (ops.is_reply ctx.head) ctx.has_post_func in
      let split = append_assoc first second next.1 in
      let w : writes (first ++ (second ++ next.1)) ≡ writes next.1 =
        ap writes (sym split)
        ∙ writes-append (first ++ second) next.1
        ∙ ap (λ l. l ++ writes next.1) none.0 in
      let q : posts (first ++ (second ++ next.1)) ≡ 0 + posts next.1 =
        ap posts (sym split)
        ∙ posts-append (first ++ second) next.1
        ∙ ap (λ n. n + posts next.1) none.1 in
      subst (Pulled (popped id s)) (sym (handle_send-open id s o)) (record {
        status_eq = p.status_eq;
        open_eq = p.open_eq;
        order_eq = ap (λ l. l ++ waiting next.0) w ∙ p.order_eq;
        flight_eq = ap length w ∙ p.flight_eq;
        progress = p.progress;
        posts_eq = q ∙ omega (arith, p.posts_eq);
      })
