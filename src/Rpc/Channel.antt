-- ===== src/Rpc/Channel.antt =====
-- `async_rpc_channel` of network/rpc/net/async_rpc_channel.hpp: the calls and answers that are sent
-- over one connection, and the requests and replies that arrive. The contexts, which the lists,
-- the map and the pending operations share, are known by numbers and kept in one store. Each
-- handler gives the new state and its effects in their order; the results of the socket and of
-- the router's `before_send_func_` are arguments. What a callback does in turn is a later step.
mod Failing
mod Tests
pub mod Sending
pub mod Stopping
pub mod Recv
pub mod Receiving
use network_core.Common.{
  ℕ, ◌+◌, ◌*◌, ◌-◌, ◌^◌, Bool, true, false, not, ◌&&◌, ◌||◌, Option, none, some, List, [], ◌∷◌,
  ◌++◌, map, ltb, leb, ◌==◌, if◌then◌else◌, drop, Bytes,
}
use network_core.Net.Errors
use network_core.Net.Errors.{ErrorCode}
use network_core.Rpc.Calls.{CallContainer, push_call, get_call, task_list, task_map}
use network_core.Rpc.Context.{
  Context, Callback, NetResult, app_error, sys_error, complete_ok, complete_error, has_handler,
  get_recv_message, apply_post_func,
}
use network_core.Rpc.Wire.{RpcHeader}

pub data Status : Type 0 where
  disconnected connecting connected disconnecting : Status

pub record Channel (H : Type 0) : Type 0 where
  pub status : Status
  pub is_open : Bool
  pub calls : CallContainer
  pub to_calls : List ℕ
  pub ctxs : ℕ → Context H
  pub head : H
  pub is_client : Bool
  pub has_irouter : Bool
  pub has_after_send : Bool

pub data Effect (H : Type 0) : Type 0 where
  callback : ℕ → Callback → Effect H
  -- the two functions that are posted: after a call, and after a refused one
  post_call post_retry : Effect H
  -- `async_write`, to be followed by handle_send
  async_write : ℕ → H → Bytes → Effect H
  start_timer : ℕ → ℕ → Effect H
  -- `async_read` of a header, of a request's body, of a reply's body
  read_head : Effect H
  read_body : ℕ → Effect H
  read_reply : ℕ → ℕ → Effect H
  connect_socket shutdown_socket close_socket : Effect H
  -- the router, the irouter and the handlers of `start`
  on_read : H → Effect H
  after_send : H → Effect H
  on_error : NetResult → Effect H
  on_connect : NetResult → Effect H
  on_disconnect : NetResult → Effect H
  on_success : Effect H
  on_start_error : NetResult → Effect H

-- 5 * 1024 * 1024
abbrev pub max_body : ℕ
max_body = 5242880

abbrev pub live : Status → Bool
live connected = true
live connecting = true
live _ = false

abbrev pub is_connected : Status → Bool
is_connected connected = true
is_connected _ = false

abbrev pub is_disconnected : Status → Bool
is_disconnected disconnected = true
is_disconnected _ = false

abbrev pub is_empty : List ℕ → Bool
is_empty [] = true
is_empty (id ∷ ids) = false

abbrev pub set_ctx {ℓ} : {A : Type ℓ} → ℕ → A → (ℕ → A) → ℕ → A
set_ctx id ctx ctxs k = if k == id then ctx else ctxs k

module _ {H : Type 0} where
  abbrev pub callbacks : ℕ → List Callback → List (Effect H)
  callbacks id [] = []
  callbacks id (c ∷ cs) = callback id c ∷ callbacks id cs

  -- `ctx->error`
  unfoldable pub fail_call : ℕ → NetResult → Channel H → Channel H × List (Effect H)
  unfolding complete_error
  fail_call id e s =
      let (ctx, calls) = complete_error e (s.ctxs id) in
      (record s { ctxs = set_ctx id ctx s.ctxs }, callbacks id calls)

  -- `ctx->ok`
  unfoldable pub finish_call : ℕ → Channel H → Channel H × List (Effect H)
  unfolding complete_ok
  finish_call id s =
      let (ctx, calls) = complete_ok (s.ctxs id) in
      (record s { ctxs = set_ctx id ctx s.ctxs }, callbacks id calls)

  -- set_timeout, for a duration below the largest one
  unfoldable pub set_timeout : ℕ → Channel H → Channel H × List (Effect H)
  unfolding has_handler
  set_timeout id s =
      let ctx = s.ctxs id in
      if has_handler ctx && (ltb 0 ctx.duration && ltb ctx.duration (2 ^ 63 - 1))
      then (
        record s { ctxs = set_ctx id (record ctx { has_timer = true }) s.ctxs },
        start_timer id ctx.duration ∷ [],
      )
      else (s, [])

  unfoldable pub close_effects : Bool → List (Effect H)
  close_effects normal_close =
      if normal_close then shutdown_socket ∷ (close_socket ∷ []) else close_socket ∷ []

  -- stop_rcp_calls_impl: every call of the map fails
  unfoldable pub fail_calls : List (ℕ × ℕ) → NetResult → Channel H → Channel H × List (Effect H)
  unfolding fail_call
  fail_calls [] e s = (s, [])
  fail_calls ((call_id, id) ∷ map) e s =
      let (s', effects) = fail_call id e s in
      let (s'', more) = fail_calls map e s' in (s'', effects ++ more)

  unfoldable pub stop_rpc_calls : NetResult → Channel H → Channel H × List (Effect H)
  unfolding task_map fail_calls
  stop_rpc_calls e s =
      let (waiting, calls) = task_map s.calls in
      fail_calls waiting e (record s { to_calls = []; calls = calls })

  -- stop_rpc_service, with or without the handler of `start`
  unfoldable pub stop_rpc_service : NetResult → Bool → Channel H → Channel H × List (Effect H)
  unfolding stop_rpc_calls close_effects
  stop_rpc_service e has_on_error s =
      let (s', effects) = stop_rpc_calls e (record s { status = disconnecting; is_open = false }) in
      (
        record s' { status = disconnected },
        close_effects (e.sys_value == 0)
            ++ (effects ++ (if has_on_error then on_start_error e ∷ [] else [])),
      )

  -- on_error, and disconnect, which calls it with be_disconnected
  unfoldable pub fail_channel : NetResult → Channel H → Channel H × List (Effect H)
  unfolding stop_rpc_service
  fail_channel e s =
      let (s', effects) = stop_rpc_service e false s in
      (
        s',
        effects
            ++ ((if not s.is_client then on_error e ∷ [] else [])
                ++ (if s.has_irouter then on_disconnect e ∷ [] else [])),
      )

  unfoldable pub disconnect : Channel H → Channel H × List (Effect H)
  unfolding fail_channel
  disconnect s = fail_channel (app_error Errors.be_disconnected) s

  -- cancel: the call leaves the map by the id that its header holds now
  unfoldable pub cancel : (H → ℕ) → ℕ → Channel H → Channel H × List (Effect H)
  unfolding get_call fail_call
  cancel call_id id s =
      let (found, calls) = get_call (call_id (s.ctxs id).head) s.calls in
      fail_call id (app_error Errors.cancel) (record s { calls = calls })

  -- handle_timeout, which does not look at the error of the timer before it fails the call
  unfoldable pub handle_timeout : ℕ → ℕ → Channel H → Channel H × List (Effect H)
  unfolding fail_call
  handle_timeout sys_value id s =
      fail_call id (record { code = Errors.timeout; sys_value = sys_value }) s

module _ {H : Type 0} (ops : RpcHeader H) where
  unfoldable pub call_context : ℕ → Channel H → Channel H × List (Effect H)
  unfolding push_call fail_call
  call_context id s =
      let (calls, ctx) = push_call ops id (s.ctxs id) s.calls in
      if not (live s.status) then fail_call id (app_error Errors.badconnect) s else (
        record s { calls = calls; ctxs = set_ctx id ctx s.ctxs },
        if is_empty s.calls.call_list && is_connected s.status then post_call ∷ [] else [],
      )

  -- call_impl1 on the front of to_calls_, which its callers have found not to be empty
  unfoldable pub send_front : (H → Bool) → List ℕ → Channel H → Channel H × List (Effect H)
  unfolding fail_call set_timeout
  send_front before_send [] s = (s, [])
  send_front before_send (id ∷ ids) s =
      let ctx = s.ctxs id in
      let (refused, failed) = fail_call id (app_error Errors.cancel) s in
      let sent = record s { ctxs = set_ctx id (record ctx { head = ops.hton ctx.head }) s.ctxs } in
      let (timed, timer) = set_timeout id sent in
      if not (before_send ctx.head)
      then (refused, failed ++ (post_retry ∷ []))
      else (timed, timer ++ (async_write id (ops.hton ctx.head) ctx.send_msg ∷ []))

  unfoldable pub call_impl1 : (H → Bool) → Channel H → Channel H × List (Effect H)
  unfolding send_front
  call_impl1 before_send s = send_front before_send s.to_calls s

  unfoldable pub call_impl : (H → Bool) → Channel H → Channel H × List (Effect H)
  unfolding task_list call_impl1
  call_impl before_send s =
      let (ids, calls) = task_list s.calls in
      if not (is_empty s.calls.call_list)
      then call_impl1 before_send (record s { to_calls = ids; calls = calls })
      else (s, [])

  -- the function that call_context posts, and the one that a refused call posts
  unfoldable pub posted_call : (H → Bool) → Channel H → Channel H × List (Effect H)
  unfolding call_impl
  posted_call before_send s = if is_empty s.to_calls then call_impl before_send s else (s, [])

  unfoldable pub send_next : (H → Bool) → Channel H → Channel H × List (Effect H)
  unfolding call_impl call_impl1
  send_next before_send s =
      if is_empty s.to_calls then call_impl before_send s else call_impl1 before_send s

  unfoldable pub handle_send : (H → Bool) → ℕ → ℕ → Channel H → Channel H × List (Effect H)
  unfolding fail_channel send_next apply_post_func
  handle_send before_send error id s =
      let ctx = record (s.ctxs id) { head = ops.ntoh (s.ctxs id).head } in
      let popped = record s { to_calls = drop 1 s.to_calls; ctxs = set_ctx id ctx s.ctxs } in
      let (next, effects) = send_next before_send popped in
      if not s.is_open
      then (s, [])
      else if not (error == 0)
      then fail_channel (record { code = Errors.badconnect; sys_value = error }) popped
      else (
        next,
        (if s.has_after_send then after_send ctx.head ∷ [] else [])
            ++ ((if ops.is_reply ctx.head then callbacks id (apply_post_func ctx) else [])
                ++ effects),
      )

  unfoldable pub start_rpc_service : (H → Bool) → Channel H → Channel H × List (Effect H)
  unfolding call_impl
  start_rpc_service before_send s =
      let (s', effects) = call_impl before_send (record s { status = connected }) in
      (s', effects ++ (read_head ∷ []))

  -- `start()` of a server's channel, whose socket is accepted
  unfoldable pub start_accepted : (H → Bool) → Channel H → Channel H × List (Effect H)
  unfolding start_rpc_service
  start_accepted before_send s =
      if not (is_disconnected s.status) then (s, []) else start_rpc_service before_send s

  -- `start` with handlers, and the two outcomes of the connection
  unfoldable pub start_connecting : Bool → Channel H → Channel H × List (Effect H)
  start_connecting has_on_error s =
      if not (is_disconnected s.status)
      then (
        s,
        if has_on_error
            then on_start_error (app_error Errors.repeat_connect) ∷ []
            else if s.has_irouter
            then on_connect (app_error Errors.repeat_connect) ∷ []
            else [],
      )
      else (record s { status = connecting }, connect_socket ∷ [])

  unfoldable pub handle_connected : (H → Bool) → Bool → Channel H → Channel H × List (Effect H)
  unfolding start_rpc_service
  handle_connected before_send has_on_success s =
      let (s', effects) = start_rpc_service before_send (record s { is_open = true }) in
      (
        s',
        effects
            ++ (if has_on_success
                then on_success ∷ []
                else if s.has_irouter
                then on_connect (app_error Errors.ok) ∷ []
                else []),
      )

  unfoldable pub handle_connect_failed : ℕ → Bool → Channel H → Channel H × List (Effect H)
  unfolding stop_rpc_service
  handle_connect_failed error has_on_error s =
      let e : NetResult = record { code = Errors.connect_fail; sys_value = error } in
      let (s', effects) = stop_rpc_service e has_on_error s in
      (s', effects ++ (if not has_on_error && s.has_irouter then on_connect e ∷ [] else []))
