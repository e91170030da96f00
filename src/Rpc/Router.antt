-- ===== src/Rpc/Router.antt =====
-- `router` of network/rpc/net/router.hpp and router_impl.hpp, and the invokers of
-- invoker_traits.hpp: which handler a request goes to, and what is answered. A handler, with the
-- decoding before it and the packing of its result, is a function of the header and the bytes.
pub mod Registry
pub mod Answers
use network_core.Common.{
  ℕ, ◌≡◌, Bool, true, false, not, ◌&&◌, Option, none, some, List, [], ◌∷◌, ◌==◌, if◌then◌else◌,
  Bytes,
}
use network_core.Net.Errors
use network_core.Net.Errors.{ErrorCode}
use network_core.Rpc.Context.{Context, make_message, make_error_message}
use network_core.Rpc.Wire.{RpcHeader}

-- what became of a handler, with the header as it left it: it returned and its result was packed,
-- or a net_exception was thrown
pub data Ran (H : Type 0) : Type 0 where
  returned : H → Bytes → Ran H
  threw : H → ErrorCode → Ran H

-- `invoker_t`: what `get` of invoker_traits makes, with or without a function to run after the
-- answer; a raw function, which answers by itself; or an empty std::function
pub data Invoker (H : Type 0) : Type 0 where
  codec : (H → Bytes → Ran H) → Bool → Invoker H
  raw : (H → Bytes → Ran H) → Invoker H
  empty : Invoker H

pub record Router (H : Type 0) : Type 0 where
  pub invokers : List (ℕ × Invoker H)
  pub proto_invokers : List ((H → Bool) × Invoker H)
  pub before_invoker : Option (H → Bool)

-- what is left to the connection: nothing, `response`, `on_receive` of its irouter, or a
-- std::bad_function_call, which is not caught
pub data Answer (H : Type 0) : Type 0 where
  no_answer : Answer H
  respond : Context H → Answer H
  to_irouter : Answer H
  bad_call : Answer H

-- result_code::not_reply
abbrev pub not_reply : ℕ
not_reply = 99

unfoldable pub find_invoker : {H : Type 0} → ℕ → List (ℕ × Invoker H) → Option (Invoker H)
find_invoker name [] = none
find_invoker name ((k, i) ∷ invokers) =
    let rest = find_invoker name invokers in if k == name then some i else rest

abbrev pub is_none : {H : Type 0} → Option (Invoker H) → Bool
is_none none = true
is_none (some i) = false

-- register_codec_invoker_impl and register_raw_invoker_impl, and the flag that they return
unfoldable pub register_invoker : {H : Type 0} → ℕ → Invoker H → Router H → Bool × Router H
unfolding find_invoker
register_invoker name i r =
    if is_none (find_invoker name r.invokers)
    then (true, record r { invokers = (name, i) ∷ r.invokers })
    else (false, r)

module _ {H : Type 0} (ops : RpcHeader H) where
  -- the answer to an error
  unfoldable pub answer_error : H → ErrorCode → Answer H
  unfolding make_error_message
  answer_error h code =
      if ops.need_reply h then respond (make_error_message ops h code) else no_answer

  -- the tail of an invoker: the header was the handler's to change
  unfoldable pub answer_returned : ℕ → Bool → H → Bytes → Answer H
  unfolding make_message
  answer_returned recv_proto has_post_func h msg =
      if ops.result h == not_reply
      then no_answer
      else if recv_proto == ops.proto h
      then if not (ops.need_reply h)
        then no_answer
        else respond (make_message ops (ops.reply true h) msg has_post_func)
      else respond (make_message ops h msg has_post_func)

  unfoldable pub answer_codec : ℕ → Bool → Ran H → Answer H
  unfolding answer_returned answer_error
  answer_codec recv_proto post (returned h msg) = answer_returned recv_proto post h msg
  answer_codec recv_proto post (threw h code) = answer_error h code

  unfoldable pub answer_raw : Ran H → Answer H
  unfolding answer_error
  answer_raw (returned h msg) = no_answer
  answer_raw (threw h code) = answer_error h code

  unfoldable pub invoke : Invoker H → H → Bytes → Answer H
  unfolding answer_codec answer_raw
  invoke (codec f post) h bytes = answer_codec (ops.proto h) post (f h bytes)
  invoke (raw f) h bytes = answer_raw (f h bytes)
  invoke empty h bytes = bad_call

  -- the invoker of the table
  unfoldable pub apply_found : Bool → Option (Invoker H) → H → Bytes → Answer H
  unfolding answer_error invoke
  apply_found has_irouter none h bytes =
      if has_irouter then to_irouter else answer_error h Errors.no_handler
  apply_found has_irouter (some empty) h bytes = answer_error h Errors.no_handler
  apply_found has_irouter (some i) h bytes = invoke i h bytes

  -- the first of proto_invokers_ whose function accepts the header, else `next`
  unfoldable pub apply_proto : List ((H → Bool) × Invoker H) → H → Bytes → Answer H → Answer H
  unfolding invoke
  apply_proto [] h bytes next = next
  apply_proto ((accepts, i) ∷ is) h bytes next =
      let rest = apply_proto is h bytes next in if accepts h then invoke i h bytes else rest

  abbrev pub passes : Option (H → Bool) → H → Bool
  passes none h = true
  passes (some f) h = f h

  unfoldable pub apply_invoker : Router H → Bool → H → Bytes → Answer H
  unfolding find_invoker apply_found apply_proto
  apply_invoker r has_irouter h bytes =
      if passes r.before_invoker h
      then apply_proto r.proto_invokers h bytes
          (apply_found has_irouter (find_invoker (ops.proto h) r.invokers) h bytes)
      else no_answer
