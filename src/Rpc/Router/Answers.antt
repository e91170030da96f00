-- ===== src/Rpc/Router/Answers.antt =====
-- The answers of router_impl.hpp: which of them the caller can know as the reply to its call.
use network_core.Common.{
  ℕ, ◌%◌, ◌^◌, ◌<◌, ◌≡◌, refl, sym, ap, subst, ◌∙◌, Bool, true, false, not, ◌||◌, none, List, [],
  ◌∷◌, ◌==◌, if◌then◌else◌, arith, Bytes, length,
}
use network_core.Net.Errors
use network_core.Rpc.Context.{Context, make_message, make_error_message, new_context, code_number}
use network_core.Rpc.Router.{
  Router, Answer, respond, no_answer, find_invoker, answer_error, answer_returned, apply_invoker,
  apply_found, apply_proto, passes, not_reply,
}
use network_core.Rpc.Wire.{RpcHeader, HeaderLaws}

-- a router that has nothing for a protocol
pub record HasNone {H : Type 0} (proto : ℕ) (r : Router H) : Type 0 where
  pub no_before : r.before_invoker ≡ none
  pub no_proto : r.proto_invokers ≡ []
  pub no_invoker : find_invoker proto r.invokers ≡ none

-- an answer that is a request with the result no_handler
pub record AsksBack {H : Type 0} (ops : RpcHeader H) (proto : ℕ) (a : Answer H) : Type 0 where
  pub ctx : Context H
  pub answer_eq : a ≡ respond ctx
  pub no_bytes : ctx.send_msg ≡ []
  pub is_reply_eq : ops.is_reply ctx.head ≡ false
  pub need_reply_eq : ops.need_reply ctx.head ≡ true
  pub proto_eq : ops.proto ctx.head ≡ proto
  pub result_eq : ops.result ctx.head ≡ 110

-- what the router of the other side makes of an answer that is a request
unfoldable pub forward : {H : Type 0} → RpcHeader H → Router H → Answer H → Answer H
unfolding apply_invoker
forward ops r (respond ctx) = apply_invoker ops r false ctx.head ctx.send_msg
forward ops r _ = no_answer

-- an answer that goes from one router to the next
unfoldable pub bounce : {H : Type 0} → RpcHeader H → List (Router H) → Answer H → Answer H
unfolding forward
bounce ops [] a = a
bounce ops (r ∷ rs) a = bounce ops rs (forward ops r a)

pub data AllHaveNone {H : Type 0} (proto : ℕ) : List (Router H) → Type 0 where
  all_done : AllHaveNone proto []
  also :
      {r : Router H} {rs : List (Router H)}
      → HasNone proto r
      → AllHaveNone proto rs
      → AllHaveNone proto (r ∷ rs)

module _ {H : Type 0} (ops : RpcHeader H) where
  -- the answer to `h` is a reply with the bytes, their number and the result of `h`
  pub record Replies (h : H) (msg : Bytes) (a : Answer H) : Type 0 where
    pub ctx : Context H
    pub answer_eq : a ≡ respond ctx
    pub bytes_eq : ctx.send_msg ≡ msg
    pub is_reply_eq : ops.is_reply ctx.head ≡ true
    pub need_reply_eq : ops.need_reply ctx.head ≡ false
    pub result_eq : ops.result ctx.head ≡ ops.result h
    pub length_eq : ops.length_of ctx.head ≡ length msg % 2 ^ 32

module _ {H : Type 0} (ops : RpcHeader H) (laws : HeaderLaws ops) where
  apply_invoker-none :
      (r : Router H) (h : H) (bytes : Bytes)
      → HasNone (ops.proto h) r
      → apply_invoker ops r false h bytes ≡ answer_error ops h Errors.no_handler
  unfolding apply_invoker apply_proto apply_found
  apply_invoker-none r h bytes has =
      let found = find_invoker (ops.proto h) r.invokers in
      let next = apply_found ops false found h bytes in
      ap (λ o. if passes ops o h then apply_proto ops r.proto_invokers h bytes next else no_answer)
        has.no_before
      ∙ (ap (λ is. apply_proto ops is h bytes next) has.no_proto
          ∙ ap (λ o. apply_found ops false o h bytes) has.no_invoker)

  answer_error-asks :
      (h : H)
      → ops.is_reply h ≡ false
      → ops.need_reply h ≡ true
      → AsksBack ops (ops.proto h) (answer_error ops h Errors.no_handler)
  unfolding answer_error make_error_message make_message new_context code_number
  answer_error-asks h request asks =
      let h' = ops.set_result 110 h in
      record {
        ctx = make_error_message ops h Errors.no_handler;
        answer_eq =
            ap (λ b. if b then respond (make_error_message ops h Errors.no_handler) else no_answer)
              asks;
        no_bytes = refl;
        is_reply_eq =
            laws.is_reply-set_length 0 h' (omega arith)
            ∙ (laws.is_reply-set_result 110 h (omega arith) ∙ request);
        need_reply_eq =
            laws.need_reply-set_length 0 h' (omega arith)
            ∙ (laws.need_reply-set_result 110 h (omega arith) ∙ asks);
        proto_eq =
            laws.proto-set_length 0 h' (omega arith) ∙ laws.proto-set_result 110 h (omega arith);
        result_eq =
            laws.result-set_length 0 h' (omega arith) ∙ laws.result-set_result 110 h (omega arith);
      }

  apply_invoker-asks :
      (r : Router H) (h : H) (bytes : Bytes) (proto : ℕ)
      → ops.proto h ≡ proto
      → ops.is_reply h ≡ false
      → ops.need_reply h ≡ true
      → HasNone proto r
      → AsksBack ops proto (apply_invoker ops r false h bytes)
  apply_invoker-asks r h bytes proto p request asks has =
      subst (λ p. HasNone p r → AsksBack ops p (apply_invoker ops r false h bytes)) p
        (λ has.
          subst (AsksBack ops (ops.proto h)) (sym (apply_invoker-none r h bytes has))
            (answer_error-asks h request asks))
        has

  forward-asks :
      (r : Router H) (proto : ℕ) (a : Answer H)
      → HasNone proto r
      → AsksBack ops proto a
      → AsksBack ops proto (forward ops r a)
  unfolding forward
  forward-asks r proto a has back =
      subst (λ a. AsksBack ops proto (forward ops r a)) (sym back.answer_eq)
        (apply_invoker-asks r back.ctx.head back.ctx.send_msg proto back.proto_eq back.is_reply_eq
          back.need_reply_eq has)

  bounce-keeps :
      (rs : List (Router H)) (proto : ℕ) (a : Answer H)
      → AllHaveNone proto rs
      → AsksBack ops proto a
      → AsksBack ops proto (bounce ops rs a)
  unfolding bounce
  bounce-keeps [] proto a all_done back = back
  bounce-keeps (r ∷ rs) proto a (also has all) back =
      bounce-keeps rs proto (forward ops r a) all (forward-asks r proto a has back)

  -- For a header that satisfies HeaderLaws, as both headers of the program do: a request that needs a
  -- reply and for which no router on its way has a handler or a function to call before, and no
  -- channel an irouter, is never answered by a reply: however often the answer has gone from one
  -- router to the next, what is sent is a request again, which needs a reply, for the same protocol
  -- and with the result `no_handler`.
  pub bounce-asks :
      (r : Router H) (rs : List (Router H)) (h : H) (bytes : Bytes)
      → HasNone (ops.proto h) r
      → AllHaveNone (ops.proto h) rs
      → ops.is_reply h ≡ false
      → ops.need_reply h ≡ true
      → AsksBack ops (ops.proto h) (bounce ops rs (apply_invoker ops r false h bytes))
  bounce-asks r rs h bytes has all request asks =
      bounce-keeps rs (ops.proto h) (apply_invoker ops r false h bytes) all
        (apply_invoker-asks r h bytes (ops.proto h) refl request asks has)

  answer_returned-if :
      (post : Bool) (h : H) (msg : Bytes)
      → answer_returned ops (ops.proto h) post h msg ≡ (
          if (ops.result h == not_reply) || not (ops.need_reply h)
          then no_answer
          else respond (make_message ops (ops.reply true h) msg post))
  unfolding answer_returned
  answer_returned-if post h msg = ground arith

  make_message-Replies :
      (post : Bool) (h : H) (msg : Bytes)
      → Replies ops h msg (respond (make_message ops (ops.reply true h) msg post))
  unfolding make_message new_context
  make_message-Replies post h msg =
      let n = length msg % 2 ^ 32 in
      let bound : n < 2 ^ 32 = omega arith in
      record {
        ctx = make_message ops (ops.reply true h) msg post;
        answer_eq = refl;
        bytes_eq = refl;
        is_reply_eq = laws.is_reply-set_length n (ops.reply true h) bound ∙ laws.is_reply-reply h;
        need_reply_eq =
            laws.need_reply-set_length n (ops.reply true h) bound ∙ laws.need_reply-reply h;
        result_eq = laws.result-set_length n (ops.reply true h) bound ∙ laws.result-reply h;
        length_eq = laws.length_of-set_length n (ops.reply true h) bound;
      }

  -- For a header that satisfies HeaderLaws, as both headers of the program do: when a handler returns
  -- and has left the header's protocol as it is, and a reply is asked for and the handler has not
  -- set the result `not_reply`, what is sent back is a reply, which asks for none in turn, with the
  -- bytes of the handler's result, their number as its length and the result that the handler set.
  pub answer_returned-Replies :
      (post : Bool) (h : H) (msg : Bytes)
      → ops.need_reply h ≡ true
      → (ops.result h == not_reply) ≡ false
      → Replies ops h msg (answer_returned ops (ops.proto h) post h msg)
  answer_returned-Replies post h msg asks heard =
      let sent = respond (make_message ops (ops.reply true h) msg post) in
      subst (Replies ops h msg)
        (sym (
          answer_returned-if post h msg
          ∙ (ap (λ b. if b || not (ops.need_reply h) then no_answer else sent) heard
              ∙ ap (λ b. if not b then no_answer else sent) asks)))
        (make_message-Replies post h msg)
