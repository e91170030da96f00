-- ===== src/Rpc/Channel/Recv.antt =====
-- What arrives at async_rpc_channel.hpp: the headers and bodies of requests and of replies.
use network_core.Common.{ℕ, not, Option, none, some, List, [], ◌∷◌, ltb, ◌==◌, if◌then◌else◌, Bytes}
use network_core.Net.Errors
use network_core.Rpc.Calls.{get_call}
use network_core.Rpc.Context.{app_error, NetResult, has_handler, get_recv_message}
use network_core.Rpc.Channel.{
  Channel, Effect, read_head, read_body, read_reply, on_read, max_body, set_ctx, finish_call,
  fail_call, fail_channel,
}
use network_core.Rpc.Wire.{RpcHeader}

-- the error of a result that is not below 100, which it keeps as the system's error
abbrev pub remote_failure : ℕ → NetResult
remote_failure result = record { code = Errors.remote_error; sys_value = result }

module _ {H : Type 0} (ops : RpcHeader H) where
  unfoldable pub recv_request : Channel H → Channel H × List (Effect H)
  unfolding fail_channel
  recv_request s =
      if ops.length_of s.head == 0
      then (s, on_read s.head ∷ (read_head ∷ []))
      else if ltb max_body (ops.length_of s.head)
      then fail_channel (app_error Errors.invalid_header) s
      else (s, read_body (ops.length_of s.head) ∷ [])

  unfoldable pub call_complete : ℕ → Channel H → Channel H × List (Effect H)
  unfolding finish_call fail_call
  call_complete id s =
      let (done, called) = finish_call id s in
      let (failed, called') = fail_call id (remote_failure (ops.result (s.ctxs id).head)) s in
      if ltb (ops.result (s.ctxs id).head) 100
      then (done, read_head ∷ called)
      else (failed, read_head ∷ called')

  -- a reply to a call that was found, whose header takes over the length and the result
  unfoldable pub recv_found : ℕ → Channel H → Channel H × List (Effect H)
  unfolding call_complete fail_channel get_recv_message
  recv_found id s =
      let ctx = s.ctxs id in
      let n = ops.length_of s.head in
      let ctx' = record ctx {
        head = ops.set_result (ops.result s.head) (ops.set_length n ctx.head);
      } in
      let s' = record s { ctxs = set_ctx id ctx' s.ctxs } in
      if n == 0
      then call_complete id s'
      else if ltb max_body n
      then fail_channel (app_error Errors.invalid_header) s'
      else (record s { ctxs = set_ctx id (get_recv_message n ctx') s.ctxs }, read_reply id n ∷ [])

  -- what the lookup found: a call that waits for its reply, or no such call
  unfoldable pub route_reply : Option ℕ → Channel H → Channel H × List (Effect H)
  unfolding recv_request recv_found has_handler
  route_reply none s = recv_request s
  route_reply (some id) s = if has_handler (s.ctxs id) then recv_found id s else recv_request s

  unfoldable pub recv_call_reply : Channel H → Channel H × List (Effect H)
  unfolding get_call route_reply
  recv_call_reply s =
      let (found, calls) = get_call (ops.call_id s.head) s.calls in
      route_reply found (record s { calls = calls })

  unfoldable pub recv_body : Channel H → Channel H × List (Effect H)
  unfolding recv_call_reply recv_request
  recv_body s = if ops.is_reply s.head then recv_call_reply s else recv_request s

  -- the header that was read is in the order of the network
  unfoldable pub handle_recv_head : ℕ → H → Channel H → Channel H × List (Effect H)
  unfolding recv_body fail_channel
  handle_recv_head error raw s =
      let s' = record s { head = ops.ntoh raw } in
      if not s.is_open
      then (record s { head = raw }, [])
      else if error == 0
      then recv_body s'
      else fail_channel (record { code = Errors.badconnect; sys_value = error }) s'

  -- the body of a reply, which was read into the context
  unfoldable pub handle_recv_reply : ℕ → ℕ → Bytes → Channel H → Channel H × List (Effect H)
  unfolding call_complete fail_channel
  handle_recv_reply error id body s =
      let s' = record s { ctxs = set_ctx id (record (s.ctxs id) { recv_msg = body }) s.ctxs } in
      if not s.is_open
      then (s', [])
      else if error == 0
      then call_complete id s'
      else fail_channel (record { code = Errors.badconnect; sys_value = error }) s'

  unfoldable pub handle_recv_body : ℕ → Channel H → Channel H × List (Effect H)
  unfolding fail_channel
  handle_recv_body error s =
      if not s.is_open
      then (s, [])
      else if error == 0
      then (s, read_head ∷ (on_read s.head ∷ []))
      else fail_channel (record { code = Errors.badconnect; sys_value = error }) s
